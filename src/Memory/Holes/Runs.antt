-- ===== src/Memory/Holes/Runs.antt =====
-- Runs of bytes against the holes.
use redox_os_kernel.Prelude.{ℕ, suc, ◌+◌, ◌≤◌, ◌<◌, max, ◌≡◌, true, false, [], ◌∷◌, arith, inl, inr}
use native.Mathlib.Decide.{dec_lt}
use redox_os_kernel.Memory.Holes.{Holes}
use redox_os_kernel.Memory.Holes.Shape.{Spaced, in_holes, in_holes_below, Within}
use redox_os_kernel.Memory.Holes.Unreserve.{Apart}

-- A run of bytes that are all free lies in one hole.
pub Within-of_free :
    (lo hi start end : ℕ) (hs : Holes)
    → Spaced lo hi hs
    → start < end
    → ((a : ℕ) → start ≤ a → a < end → in_holes a hs ≡ true)
    → Within start end hs
Within-of_free lo hi start end [] w lt h = ground (arith, h start)
Within-of_free lo hi start end ((o, s) ∷ hs) w lt h = elim (dec_lt start (o + s)) [
  | yes p ↦ inl (
      ground (
        arith,
        h start,
        h (o + s),
        in_holes_below (suc (o + s)) hi (o + s) hs w.3,
        in_holes_below (suc (o + s)) hi start hs w.3,
      ))
  | no p ↦ inr (
      Within-of_free (suc (o + s)) hi start end hs w.3 lt
        (λ a from to. ground (arith, h a from to)))
]

-- A run of bytes none of which is free is apart from the holes.
pub Apart-of_used :
    (lo hi start end : ℕ) (hs : Holes)
    → Spaced lo hi hs
    → start < end
    → ((a : ℕ) → start ≤ a → a < end → in_holes a hs ≡ false)
    → Apart start end hs
Apart-of_used lo hi start end [] w lt h = tt
Apart-of_used lo hi start end ((o, s) ∷ hs) w lt h = (
  ground (arith, h (max start o)),
  Apart-of_used (suc (o + s)) hi start end hs w.3 lt (λ a from to. ground (arith, h a from to)),
)
