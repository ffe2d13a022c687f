-- ===== src/Memory/Grants/Update.antt =====
-- `insert` and `take` of `UserGrants`.
use redox_os_kernel.Prelude.{
  ℕ, ◌<◌, ◌≡◌, ◌||◌, some, List, [], ◌∷◌, ok, panic, subst₂, arith, inl, inr, Option-cases,
}
use redox_os_kernel.Memory.Region.{Region}
use redox_os_kernel.Memory.Holes.{reserve, unreserve}
use redox_os_kernel.Memory.Holes.Roundtrip.{unreserve-reserve}
use redox_os_kernel.Memory.Grants.{
  Grant, UserGrants, user_end_offset, set_insert, set_take, insert, take, conflicts,
}
use redox_os_kernel.Memory.Grants.Shape.{Fits, in_region, in_grants, overlapping}
use redox_os_kernel.Memory.Grants.Conflicts.{conflicts-eq-overlapping}
use redox_os_kernel.Memory.Grants.Sets.{
  Meetless-of_overlapping, overlapping_of_Meetless, in_grants-set_insert, set_take-Tiled,
  in_grants-set_take, set_take-set_insert,
}
use redox_os_kernel.Memory.Grants.Valid.{IsValid, insert_into, take_from, Within-of_Meetless}

module _ {F D : Type 0} (page : ℕ) (big : 1 < page) where
  pub conflicts_lem :
      (u : UserGrants F D) (r : Region)
      → IsValid page u
      → Fits page 0 user_end_offset r
      → conflicts page u.inner r ≡ overlapping r u.inner
  conflicts_lem u r v f =
      conflicts-eq-overlapping page user_end_offset (omega arith) 0 r u.inner big v.tiled f.1
        (omega arith) f.3

  -- `insert` of an aligned grant in user space that shares no byte with a grant succeeds. It keeps
  -- the grants valid, and exactly the bytes of the new grant become granted.
  pub insert-IsValid :
      (u : UserGrants F D) (g : Grant F D)
      → IsValid page u
      → Fits page 0 user_end_offset g.region
      → overlapping g.region u.inner ≡ []
      → (u' : UserGrants F D) × (insert page u g ≡ ok u')
        × IsValid page u'
        × ((a : ℕ) → in_grants a u'.inner ≡ in_grants a u.inner || in_region a g.region)
  unfolding insert
  insert-IsValid u g v f e =
      let m = Meetless-of_overlapping page g.region u.inner e in
      (
        record u { inner = set_insert g u.inner; holes = reserve g.region u.holes },
        rw (conflicts_lem u g.region v f, e),
        insert_into page big u g v f m,
        λ a. in_grants-set_insert page 0 user_end_offset a g u.inner v.tiled f m,
      )

  -- `insert` of an aligned grant in user space that shares a byte with a grant panics.
  pub insert-overlap :
      (u : UserGrants F D) (g h : Grant F D) (rest : List (Grant F D))
      → IsValid page u
      → Fits page 0 user_end_offset g.region
      → overlapping g.region u.inner ≡ h ∷ rest
      → insert page u g ≡ panic
  unfolding insert
  insert-overlap u g h rest v f e = rw (conflicts_lem u g.region v f, e)

  -- Where `take` finds a grant, it starts where the region does, the remaining grants are valid and
  -- none of them shares a byte with it, and exactly its bytes stop being granted.
  pub take-IsValid :
      (u u' : UserGrants F D) (r : Region) (g : Grant F D)
      → IsValid page u
      → take u r ≡ some (g, u')
      → IsValid page u'
        × (g.start ≡ r.start)
        × Fits page 0 user_end_offset g.region
        × (overlapping g.region u'.inner ≡ [])
        × ((a : ℕ) → in_grants a u.inner ≡ in_grants a u'.inner || in_region a g.region)
  unfolding take
  take-IsValid u u' r g v e = elim (Option-cases (set_take r.start u.inner)) [
    | inl n ↦ ground arith
    | inr ((g', rest), n) ↦
        let t = set_take-Tiled page 0 user_end_offset r.start g' u.inner rest v.tiled n in
        let same : (g' ≡ g)
            × (record u { inner = rest; holes = unreserve g'.region u.holes } ≡ u') =
          ground arith in
        subst₂
          (λ h w.
            IsValid page w
            × (h.start ≡ r.start)
            × Fits page 0 user_end_offset h.region
            × (overlapping h.region w.inner ≡ [])
            × ((a : ℕ) → in_grants a u.inner ≡ in_grants a w.inner || in_region a h.region))
          same.0 same.1
          (
            take_from page big u r.start g' rest v n,
            t.0,
            t.1,
            overlapping_of_Meetless page g'.region rest t.3,
            λ a. in_grants-set_take page a r.start g' u.inner rest n,
          )
  ]

  -- Taking a grant right after inserting it gives back the grant and the very state before, holes
  -- included, if the grants were valid and the grant is aligned, in user space and shared no byte.
  pub take-insert :
      (u : UserGrants F D) (g : Grant F D) {u' : UserGrants F D}
      → IsValid page u
      → Fits page 0 user_end_offset g.region
      → insert page u g ≡ ok u'
      → overlapping g.region u.inner ≡ []
      → take u' g.region ≡ some (g, u)
  unfolding insert take
  take-insert u g v f e o =
      let m = Meetless-of_overlapping page g.region u.inner o in
      ground (
        arith,
        conflicts_lem u g.region v f,
        o,
        set_take-set_insert page g u.inner f.1 m 0 user_end_offset v.tiled,
        unreserve-reserve g.region 0 user_end_offset u.holes v.spaced (omega arith) f.1
            (Within-of_Meetless page big u g v f m),
      )
