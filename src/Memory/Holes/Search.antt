-- ===== src/Memory/Holes/Search.antt =====
-- `find_free` against the bytes that are free.
use redox_os_kernel.Prelude.{
  ℕ, suc, ◌+◌, ◌-◌, ◌≤◌, ◌<◌, max, ◌≡◌, none, some, [], ◌∷◌, arith, inl, inr, Option-cases,
  usize_mod, add_usize, sub_usize,
}
use redox_os_kernel.Memory.Region.{Region}
use redox_os_kernel.Memory.Holes.{Holes, skip_below, find_fit, find_free, avail_size}
use redox_os_kernel.Memory.Holes.Shape.{Spaced, Within}

-- Every hole ends above `min`.
abbrev Past : ℕ → Holes → Type 0
Past min [] = Unit {0}
Past min ((o, s) ∷ hs) = (min < o + s) × Past min hs

Spaced-Past : (lo hi min : ℕ) (hs : Holes) → Spaced lo hi hs → min < lo → Past min hs
Spaced-Past lo hi min [] w h = tt
Spaced-Past lo hi min ((o, s) ∷ hs) w h =
    (omega arith, Spaced-Past (suc (o + s)) hi min hs w.3 (omega arith))

module _ (hi min size : ℕ) (top : hi < usize_mod) where
  avail_size_lem : (o s : ℕ) → o + s ≤ hi → min < o + s → avail_size min o s ≡ o + s - max o min
  unfolding avail_size add_usize sub_usize
  avail_size_lem o s h p = ground arith

  find_fit-Within :
      (lo o : ℕ) (hs : Holes)
      → Spaced lo hi hs
      → Past min hs
      → find_fit min size hs ≡ some o
      → Within (max o min) (max o min + size) hs
  unfolding find_fit
  find_fit-Within lo o [] w p e = ground arith
  find_fit-Within lo o ((j, s) ∷ hs) w p e =
      ground (arith, avail_size_lem j s, find_fit-Within (suc (j + s)) o hs w.3 p.1)

  skip-Within :
      (lo o : ℕ) (hs : Holes)
      → Spaced lo hi hs
      → find_fit min size (skip_below min hs) ≡ some o
      → Within (max o min) (max o min + size) hs
  unfolding skip_below add_usize
  skip-Within lo o [] w e = find_fit-Within lo o [] w tt e
  skip-Within lo o ((j, s) ∷ hs) w e = ground (
    arith,
    skip-Within (suc (j + s)) o hs w.3,
    find_fit-Within lo o ((j, s) ∷ hs) w,
    Spaced-Past (suc (j + s)) hi min hs w.3,
  )

  find_fit-none :
      (lo p : ℕ) (hs : Holes)
      → Spaced lo hi hs
      → Past min hs
      → min ≤ p
      → find_fit min size hs ≡ none
      → ¬ Within p (p + size) hs
  unfolding find_fit
  find_fit-none lo p [] w a m e = λ h. h
  find_fit-none lo p ((j, s) ∷ hs) w a m e =
      ground (arith, avail_size_lem j s, find_fit-none (suc (j + s)) p hs w.3 a.1 m)

  skip-none :
      (lo p : ℕ) (hs : Holes)
      → Spaced lo hi hs
      → 0 < size
      → min ≤ p
      → find_fit min size (skip_below min hs) ≡ none
      → ¬ Within p (p + size) hs
  unfolding skip_below add_usize
  skip-none lo p [] w n m e = λ h. h
  skip-none lo p ((j, s) ∷ hs) w n m e = ground (
    arith,
    skip-none (suc (j + s)) p hs w.3 n m,
    find_fit-none lo p ((j, s) ∷ hs) w,
    Spaced-Past (suc (j + s)) hi min hs w.3,
  )

-- What `find_free` returns has the size asked for, starts at `min` or above, and lies inside one
-- hole, if the holes are well spaced below `hi`, which is below 2^64.
pub find_free-Within :
    (lo hi min size : ℕ) (hs : Holes) {r : Region}
    → hi < usize_mod
    → Spaced lo hi hs
    → find_free min size hs ≡ some r
    → (r.size ≡ size) × (min ≤ r.start) × Within r.start (r.start + r.size) hs
unfolding find_free
find_free-Within lo hi min size hs top w e =
    elim (Option-cases (find_fit min size (skip_below min hs))) [
      | inl n ↦ ground arith
      | inr (o, n) ↦ ground (arith, skip-Within hi min size top lo o hs w n)
    ]

-- Where `find_free` finds nothing, no hole has room for the size at `min` or above, if the holes
-- are well spaced below `hi`, which is below 2^64, and the size is not 0.
pub find_free_complete :
    (lo hi min size p : ℕ) (hs : Holes)
    → hi < usize_mod
    → Spaced lo hi hs
    → 0 < size
    → find_free min size hs ≡ none
    → min ≤ p
    → ¬ Within p (p + size) hs
unfolding find_free
find_free_complete lo hi min size p hs top w n e m =
    elim (Option-cases (find_fit min size (skip_below min hs))) [
      | inl f ↦ skip-none hi min size top lo p hs w n m f
      | inr (o, f) ↦ ground arith
    ]
