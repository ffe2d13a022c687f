-- ===== src/Memory/Grants/Conflicts.antt =====
-- `conflicts` of `UserGrants` against the grants that share a byte with the request.
use redox_os_kernel.Prelude.{
  ℕ, suc, ◌+◌, ◌≤◌, ◌<◌, ◌≡◌, refl, ◌∙◌, not, ◌&&◌, Option, none, some, List, [], ◌∷◌, arith, ltb,
  leb, inl, inr, usize_mod, add_usize, sub_usize, Option-cases,
}
use native.Mathlib.Decide.{dec_lt}
use redox_os_kernel.Memory.Region.{
  Region, end_address, intersect, is_empty, occupies, byte, round_up_pages,
}
use redox_os_kernel.Memory.Grants.{
  Grant, last_upto, contains, range_from, take_while_meeting, conflicts, start_of,
}
use redox_os_kernel.Memory.Holes.Align.{Aligned, Aligned-add, Aligned-gap}
use redox_os_kernel.Memory.Grants.Shape.{
  Fits, meets, Tiled, overlapping, overlapping_above, last_upto_above, last_upto_bounds,
  range_from_low,
}

module _ {F D : Type 0} (page hi : ℕ) (top : hi < usize_mod) where
  meets_lem :
      (lo : ℕ) (g : Grant F D) (r : Region)
      → Fits page lo hi g.region
      → 0 < r.size
      → r.start + r.size < usize_mod
      → not (is_empty (intersect g.region r)) ≡ meets g.region r
  unfolding is_empty intersect end_address add_usize
  meets_lem lo g r f n h = ground arith

  take_while_lem :
      (lo : ℕ) (r : Region) (gs : List (Grant F D))
      → Tiled page lo hi gs
      → 0 < r.size
      → r.start + r.size < usize_mod
      → r.start ≤ lo
      → take_while_meeting r gs ≡ overlapping r gs
  unfolding take_while_meeting
  take_while_lem lo r [] t n h le = refl
  take_while_lem lo r (g ∷ gs) t n h le = ground (
    arith,
    meets_lem lo g r t.0 n h,
    take_while_lem (g.start + g.size) r gs t.1 n h,
    overlapping_above page (g.start + g.size) hi r gs t.1,
  )

  occupies_lem :
      (lo a : ℕ) (g : Grant F D)
      → Fits page lo hi g.region
      → a + 1 < usize_mod
      → occupies page g.region (byte a) ≡ leb g.start a && ltb (a + 1) (g.start + g.size)
  unfolding occupies round_up_pages end_address add_usize sub_usize
  occupies_lem lo a g f h = ground arith

  contains_here :
      (lo a : ℕ) (g : Grant F D) (gs : List (Grant F D))
      → Tiled page lo hi (g ∷ gs)
      → g.start ≤ a
      → a + 1 < g.start + g.size
      → contains page (g ∷ gs) a ≡ some g
  unfolding contains last_upto
  contains_here lo a g gs t from to =
      ground (arith, last_upto_above page (g.start + g.size) hi a gs t.1, occupies_lem lo a g t.0)

  contains_before :
      (lo a : ℕ) (gs : List (Grant F D)) → Tiled page lo hi gs → a < lo → contains page gs a ≡ none
  unfolding contains
  contains_before lo a gs t h = ground (arith, last_upto_above page lo hi a gs t)

  contains_skip :
      (lo a : ℕ) (g : Grant F D) (gs : List (Grant F D))
      → Tiled page lo hi (g ∷ gs)
      → a + 1 < usize_mod
      → g.start + g.size ≤ a
      → contains page (g ∷ gs) a ≡ contains page gs a
  unfolding contains last_upto
  contains_skip lo a g gs t small from = elim (Option-cases (last_upto a gs)) [
    | inl e ↦ ground (arith, occupies_lem lo a g t.0)
    | inr (h, e) ↦ ground arith
  ]

  contains_bounds :
      (lo a : ℕ) (h : Grant F D) (gs : List (Grant F D))
      → Tiled page lo hi gs
      → contains page gs a ≡ some h
      → (lo ≤ h.start) × (h.start ≤ a)
  unfolding contains
  contains_bounds lo a h gs t e = elim (Option-cases (last_upto a gs)) [
    | inl n ↦ ground arith
    | inr (g, n) ↦ ground (arith, last_upto_bounds page lo hi a g gs t n)
  ]

  -- `conflicts`, where the grant at the start of the request is known.
  conflicts_from :
      (r : Region) (gs : List (Grant F D)) (o : Option (Grant F D))
      → contains page gs r.start ≡ o
      → conflicts page gs r ≡ take_while_meeting r (range_from (start_of r o) gs)
  unfolding conflicts
  conflicts_from r gs o e = rw e

  conflicts_skip :
      (lo : ℕ) (r : Region) (g : Grant F D) (gs : List (Grant F D))
      → Tiled page lo hi (g ∷ gs)
      → r.start + 1 < usize_mod
      → g.start + g.size ≤ r.start
      → conflicts page (g ∷ gs) r ≡ conflicts page gs r
  unfolding range_from start_of
  conflicts_skip lo r g gs t small from = elim (Option-cases (contains page gs r.start)) [
    | inl e ↦ ground (
      arith,
      contains_skip lo r.start g gs t small from,
      conflicts_from r gs none e,
      conflicts_from r (g ∷ gs) none,
    )
    | inr (h, e) ↦ ground (
      arith,
      contains_skip lo r.start g gs t small from,
      contains_bounds (g.start + g.size) r.start h gs t.1 e,
      conflicts_from r gs (some h) e,
      conflicts_from r (g ∷ gs) (some h),
    )
  ]

  conflicts_at :
      (lo : ℕ) (r : Region) (gs : List (Grant F D))
      → Tiled page lo hi gs
      → 0 < r.size
      → r.start + r.size < usize_mod
      → r.start < lo
      → conflicts page gs r ≡ overlapping r gs
  unfolding start_of
  conflicts_at lo r gs t n h le =
      conflicts_from r gs none (contains_before lo r.start gs t le)
      ∙ rw (range_from_low page lo hi r.start gs t (omega arith))
          (take_while_lem lo r gs t n h (omega arith))

  conflicts_here :
      (lo : ℕ) (r : Region) (g : Grant F D) (gs : List (Grant F D))
      → Tiled page lo hi (g ∷ gs)
      → 0 < r.size
      → r.start + r.size < usize_mod
      → g.start ≤ r.start
      → r.start + 1 < g.start + g.size
      → conflicts page (g ∷ gs) r ≡ overlapping r (g ∷ gs)
  unfolding start_of take_while_meeting range_from
  conflicts_here lo r g gs t n h from to =
      conflicts_from r (g ∷ gs) (some g) (contains_here lo r.start g gs t from to)
      ∙ ground (arith, meets_lem lo g r t.0 n h, take_while_lem (g.start + g.size) r gs t.1 n h)

  -- `conflicts` lists exactly the grants that share a byte with the requested region, if the grants
  -- are in order, aligned and below `hi`, and the region is not empty, ends below 2^64 and starts
  -- at a page.
  pub conflicts-eq-overlapping :
      (lo : ℕ) (r : Region) (gs : List (Grant F D))
      → 1 < page
      → Tiled page lo hi gs
      → 0 < r.size
      → r.start + r.size < usize_mod
      → Aligned page r.start
      → conflicts page gs r ≡ overlapping r gs
  conflicts-eq-overlapping lo r [] big t n h a =
      conflicts_at (suc r.start) r [] tt n h (omega arith)
  conflicts-eq-overlapping lo r (g ∷ gs) big t n h a = elim (dec_lt r.start g.start) [
    | yes p ↦ conflicts_at g.start r (g ∷ gs) ((omega arith, t.0.1, t.0.2, t.0.3, t.0.4), t.1) n h p
    | no p ↦ elim (dec_lt r.start (g.start + g.size)) [
      | yes q ↦ conflicts_here lo r g gs t n h (omega arith) (
          omega (
            arith,
            Aligned-gap page r.start (g.start + g.size) a
                (Aligned-add page g.start g.size t.0.3 t.0.4) q,
          ))
      | no q ↦ ground (
        arith,
        conflicts_skip lo r g gs t,
        conflicts-eq-overlapping (g.start + g.size) r gs big t.1 n h a,
      )
    ]
  ]
