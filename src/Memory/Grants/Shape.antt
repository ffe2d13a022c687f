-- ===== src/Memory/Grants/Shape.antt =====
-- The order and alignment that the grants of an address space keep.
use redox_os_kernel.Prelude.{
  ℕ, ◌+◌, ◌≤◌, ◌<◌, ◌≡◌, refl, Bool, false, ◌&&◌, ◌||◌, none, some, List, [], ◌∷◌, arith, ltb, leb,
  if◌then◌else◌,
}
use redox_os_kernel.Memory.Holes.Align.{Aligned}
use redox_os_kernel.Memory.Region.{Region}
use redox_os_kernel.Memory.Grants.{Grant, last_upto, range_from}

-- `g` is not empty, page-aligned, and lies between `lo` and `hi`.
abbrev pub Fits : ℕ → ℕ → ℕ → Region → Type 0
Fits page lo hi g =
    (lo ≤ g.start)
    × (0 < g.size)
    × (g.start + g.size ≤ hi)
    × Aligned page g.start
    × Aligned page g.size

abbrev pub in_region : ℕ → Region → Bool
in_region a g = leb g.start a && ltb a (g.start + g.size)

-- The regions share a byte (if neither is empty).
abbrev pub meets : Region → Region → Bool
meets g r = ltb g.start (r.start + r.size) && ltb r.start (g.start + g.size)

module _ {F D : Type 0} where
  -- Such grants one behind the other.
  abbrev pub Tiled : ℕ → ℕ → ℕ → List (Grant F D) → Type 0
  Tiled page lo hi [] = Unit {0}
  Tiled page lo hi (g ∷ gs) = Fits page lo hi g.region × Tiled page (g.start + g.size) hi gs

  abbrev pub in_grants : ℕ → List (Grant F D) → Bool
  in_grants a [] = false
  in_grants a (g ∷ gs) = in_region a g.region || in_grants a gs

  -- The grants that share a byte with `r`.
  abbrev pub overlapping : Region → List (Grant F D) → List (Grant F D)
  overlapping r [] = []
  overlapping r (g ∷ gs) = if meets g.region r then g ∷ overlapping r gs else overlapping r gs

  pub Tiled-mono :
      (page lo lo' hi : ℕ) (gs : List (Grant F D))
      → lo' ≤ lo
      → Tiled page lo hi gs
      → Tiled page lo' hi gs
  Tiled-mono page lo lo' hi [] h t = tt
  Tiled-mono page lo lo' hi (g ∷ gs) h t = ((omega arith, t.0.1, t.0.2, t.0.3, t.0.4), t.1)

  pub overlapping_above :
      (page lo hi : ℕ) (r : Region) (gs : List (Grant F D))
      → Tiled page lo hi gs
      → r.start + r.size ≤ lo
      → overlapping r gs ≡ []
  overlapping_above page lo hi r [] t h = refl
  overlapping_above page lo hi r (g ∷ gs) t h =
      ground (arith, overlapping_above page (g.start + g.size) hi r gs t.1)

  pub in_grants_below :
      (page lo hi a : ℕ) (gs : List (Grant F D))
      → Tiled page lo hi gs
      → a < lo
      → in_grants a gs ≡ false
  in_grants_below page lo hi a [] t h = refl
  in_grants_below page lo hi a (g ∷ gs) t h =
      ground (arith, in_grants_below page (g.start + g.size) hi a gs t.1)

  pub last_upto_above :
      (page lo hi a : ℕ) (gs : List (Grant F D))
      → Tiled page lo hi gs
      → a < lo
      → last_upto a gs ≡ none
  unfolding last_upto
  last_upto_above page lo hi a [] t h = refl
  last_upto_above page lo hi a (g ∷ gs) t h = ground arith

  pub last_upto_bounds :
      (page lo hi a : ℕ) (h : Grant F D) (gs : List (Grant F D))
      → Tiled page lo hi gs
      → last_upto a gs ≡ some h
      → (lo ≤ h.start) × (h.start ≤ a)
  unfolding last_upto
  last_upto_bounds page lo hi a h [] t e = ground arith
  last_upto_bounds page lo hi a h (g ∷ gs) t e =
      ground (arith, last_upto_bounds page (g.start + g.size) hi a h gs t.1)

  pub range_from_low :
      (page lo hi a : ℕ) (gs : List (Grant F D))
      → Tiled page lo hi gs
      → a ≤ lo
      → range_from a gs ≡ gs
  unfolding range_from
  range_from_low page lo hi a [] t h = refl
  range_from_low page lo hi a (g ∷ gs) t h = ground arith
