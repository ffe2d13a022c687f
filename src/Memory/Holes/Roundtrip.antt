-- ===== src/Memory/Holes/Roundtrip.antt =====
-- Giving back what was reserved restores the holes.
use redox_os_kernel.Prelude.{
  ℕ, suc, ◌+◌, ◌-◌, ◌<◌, ◌≡◌, refl, ◌∙◌, [], ◌∷◌, arith, inl, inr, usize_mod,
}
use redox_os_kernel.Memory.Region.{Region}
use redox_os_kernel.Memory.Holes.{Holes, reserve, unreserve}
use redox_os_kernel.Memory.Holes.Shape.{Spaced, Within, Within-bounds}
use redox_os_kernel.Memory.Holes.Reserve.{carve, reserve-eq-carve, Spaced-carve}
use redox_os_kernel.Memory.Holes.Unreserve.{fill, join_right, Apart, unreserve-eq-fill}

above : (lo hi start end : ℕ) (hs : Holes) → Spaced lo hi hs → end < lo → Apart start end hs
above lo hi start end [] w h = tt
above lo hi start end ((o, s) ∷ hs) w h =
    (inr (omega arith), above (suc (o + s)) hi start end hs w.3 (omega arith))

join_right_above :
    (lo hi start end : ℕ) (hs : Holes)
    → Spaced lo hi hs
    → end < lo
    → join_right start end hs ≡ (start, end - start) ∷ hs
unfolding join_right
join_right_above lo hi start end [] w h = refl
join_right_above lo hi start end ((o, s) ∷ hs) w h = ground arith

pub Apart-carve :
    (lo hi start end : ℕ) (hs : Holes)
    → Spaced lo hi hs
    → start < end
    → Within start end hs
    → Apart start end (carve start end hs)
unfolding carve
Apart-carve lo hi start end [] w lt h = absurd h
Apart-carve lo hi start end ((o, s) ∷ hs) w lt (inl h) =
    ground (arith, above (suc (o + s)) hi start end hs w.3)
Apart-carve lo hi start end ((o, s) ∷ hs) w lt (inr h) = ground (
  arith,
  Within-bounds (suc (o + s)) hi start end hs w.3 h,
  Apart-carve (suc (o + s)) hi start end hs w.3 lt h,
)

fill-nil : (start end : ℕ) → fill start end [] ≡ (start, end - start) ∷ []
unfolding fill
fill-nil start end = refl

fill_above :
    (lo hi start end : ℕ) (hs : Holes)
    → Spaced lo hi hs
    → end < lo
    → start < end
    → fill start end hs ≡ (start, end - start) ∷ hs
unfolding fill
fill_above lo hi start end [] w h lt = refl
fill_above lo hi start end ((o, s) ∷ hs) w h lt =
    ground (arith, join_right_above lo hi start end ((o, s) ∷ hs))

fill-carve :
    (lo hi start end : ℕ) (hs : Holes)
    → Spaced lo hi hs
    → start < end
    → Within start end hs
    → fill start end (carve start end hs) ≡ hs
unfolding carve fill join_right
fill-carve lo hi start end [] w lt h = absurd h
fill-carve lo hi start end ((o, s) ∷ hs) w lt (inl h) =
    ground
      (arith, join_right_above (suc (o + s)) hi o end hs, fill_above (suc (o + s)) hi start end hs)
fill-carve lo hi start end ((o, s) ∷ hs) w lt (inr h) = ground (
  arith,
  Within-bounds (suc (o + s)) hi start end hs w.3 h,
  fill-carve (suc (o + s)) hi start end hs w.3 lt h,
)

-- Reserving a region inside one hole and giving it back leaves the map of holes exactly as it was,
-- if the holes are well spaced below `hi`, which is below 2^64, and the region is not empty.
pub unreserve-reserve :
    (g : Region) (lo hi : ℕ) (hs : Holes)
    → Spaced lo hi hs
    → hi < usize_mod
    → 0 < g.size
    → Within g.start (g.start + g.size) hs
    → unreserve g (reserve g hs) ≡ hs
unreserve-reserve g lo hi hs w top n h =
    let end = g.start + g.size in
    let lt : g.start < end = omega arith in
    rw (reserve-eq-carve g lo hi hs w top n h) (
      unreserve-eq-fill g lo hi (carve g.start end hs) (Spaced-carve lo hi g.start end hs w lt h)
        top n (Within-bounds lo hi g.start end hs w h).1 (Apart-carve lo hi g.start end hs w lt h)
      ∙ fill-carve lo hi g.start end hs w lt h)
