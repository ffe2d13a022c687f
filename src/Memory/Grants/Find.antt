-- ===== src/Memory/Grants/Find.antt =====
-- `find_free_at`: where a mapping may go.
use redox_os_kernel.Prelude.{
  ℕ, ◌+◌, max, ◌≤◌, ◌<◌, ◌≡◌, Bool, true, false, some, List, [], ◌∷◌, ok, err, Errno, arith, inl,
  inr, usize_mod, Option-cases, ok_or, ◌≢◌, if◌then◌else◌, add_usize,
}
use redox_os_kernel.Memory.Region.{Region, end_address}
use redox_os_kernel.Memory.Holes.{Holes, find_free}
use redox_os_kernel.Memory.Holes.Shape.{Within, in_holes, Within-bounds}
use redox_os_kernel.Memory.Holes.Search.{find_free-Within}
use redox_os_kernel.Memory.Holes.Align.{Aligned, find_free-Aligned}
use redox_os_kernel.Memory.Grants.{Grant, UserGrants, user_end_offset, find_free_at}
use redox_os_kernel.Memory.Grants.Shape.{Fits, Tiled, in_grants, overlapping}
use redox_os_kernel.Memory.Grants.Sets.{Meetless, overlapping_of_Meetless}
use redox_os_kernel.Memory.Grants.Valid.{IsValid}
use redox_os_kernel.Memory.Grants.Update.{conflicts_lem}

Within-in_holes :
    (start end a : ℕ) (hs : Holes)
    → Within start end hs
    → start ≤ a
    → a < end
    → in_holes a hs ≡ true
Within-in_holes start end a [] w from to = absurd w
Within-in_holes start end a ((o, s) ∷ hs) (inl h) from to = ground arith
Within-in_holes start end a ((o, s) ∷ hs) (inr h) from to =
    ground (arith, Within-in_holes start end a hs h from to)

module _ {F D : Type 0} (page : ℕ) where
  -- A region no byte of which is granted meets no grant.
  Meetless-of_free :
      (lo hi : ℕ) (r : Region) (gs : List (Grant F D))
      → Tiled page lo hi gs
      → 0 < r.size
      → ((a : ℕ) → r.start ≤ a → a < r.start + r.size → in_grants a gs ≡ false)
      → Meetless page r gs
  Meetless-of_free lo hi r [] t n h = tt
  Meetless-of_free lo hi r (g ∷ gs) t n h = (
    ground (arith, h (max r.start g.start)),
    Meetless-of_free (g.start + g.size) hi r gs t.1 n (λ a from to. ground (arith, h a from to)),
  )

module _ {F D : Type 0} (page : ℕ) (big : 1 < page) where
  -- What `find_free` returns is an aligned region of the size asked for, at `min` or above, that
  -- fits into user space and shares no byte with a grant, if the grants are valid, `min` and the
  -- size are multiples of the page size and the size is not 0.
  pub find_free-Fits :
      (u : UserGrants F D) (min size : ℕ) {r : Region}
      → IsValid page u
      → Aligned page min
      → Aligned page size
      → 0 < size
      → find_free min size u.holes ≡ some r
      → (r.size ≡ size)
        × (min ≤ r.start)
        × Fits page 0 user_end_offset r
        × (overlapping r u.inner ≡ [])
  find_free-Fits u min size {r} v am al n e =
      let w = find_free-Within 0 user_end_offset min size u.holes (omega arith) v.spaced e in
      let b = Within-bounds 0 user_end_offset r.start (r.start + r.size) u.holes v.spaced w.2 in
      (
        w.0,
        w.1,
        (
          omega arith,
          omega arith,
          b.1,
          find_free-Aligned page min size u.holes v.aligned am e,
          rw w.0 al,
        ),
        overlapping_of_Meetless page r u.inner (
            Meetless-of_free page 0 user_end_offset r u.inner v.tiled (omega arith) (λ a from to.
              ground (
                arith,
                v.split a (omega arith),
                Within-in_holes r.start (r.start + r.size) a u.holes w.2 from to,
              ))),
      )

  -- Whatever flags it is given, and whatever hint of a range that does not wrap around, a region that
  -- `find_free_at` returns has the size asked for, fits into user space and shares no byte with a
  -- grant, if the grants are valid, `min` and the size are multiples of the page size and the size is
  -- not 0.
  pub find_free_at-Fits :
      (u : UserGrants F D) (min address size : ℕ) (noreplace fixed : Bool) {r : Region}
      → IsValid page u
      → Aligned page min
      → Aligned page size
      → 0 < size
      → address + size < usize_mod
      → find_free_at page u min address size noreplace fixed ≡ ok r
      → (r.size ≡ size) × Fits page 0 user_end_offset r × (overlapping r u.inner ≡ [])
  unfolding find_free_at end_address add_usize
  find_free_at-Fits u min address size noreplace fixed {r} v am al n small e =
      elim (Option-cases (find_free min size u.holes)) [
        | inl none_free ↦
            ground (arith, conflicts_lem page big u (record { start = address; size = size }) v)
        | inr (q, free) ↦ ground (
          arith,
          conflicts_lem page big u (record { start = address; size = size }) v,
          find_free-Fits u min size {r = q} v am al n free,
        )
      ]

  -- What each flag makes of a hint that is a page of user space but shares a byte with a grant:
  -- MAP_FIXED_NOREPLACE is EEXIST, else MAP_FIXED is EOPNOTSUPP, else the hint is passed over.
  pub find_free_at-taken :
      (u : UserGrants F D) (min address size : ℕ) (noreplace fixed : Bool) (h : Grant F D)
      (rest : List (Grant F D))
      → IsValid page u
      → address ≢ 0
      → Fits page 0 user_end_offset (record { start = address; size = size })
      → overlapping (record { start = address; size = size }) u.inner ≡ h ∷ rest
      → find_free_at page u min address size noreplace fixed ≡ (
          if noreplace
          then err Errno.eexist
          else if fixed
          then err Errno.eopnotsupp
          else ok_or (find_free min size u.holes) Errno.enomem)
  unfolding find_free_at end_address add_usize
  find_free_at-taken u min address size noreplace fixed h rest v ne f e =
      ground (arith, conflicts_lem page big u (record { start = address; size = size }) v f)
