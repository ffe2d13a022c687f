-- ===== src/Memory/Holes/Reserve.antt =====
-- `reserve` cuts a region out of the hole that holds it.
use redox_os_kernel.Prelude.{
  ℕ, suc, ◌+◌, ◌-◌, ◌≤◌, ◌<◌, ◌≡◌, not, ◌&&◌, [], ◌∷◌, ltb, leb, if◌then◌else◌, arith, inl, inr,
  Option-cases, usize_mod, add_usize, sub_usize,
}
use redox_os_kernel.Btree.{get, insert, remove, last_below, nat_key}
use redox_os_kernel.Memory.Region.{Region, end_address}
use redox_os_kernel.Memory.Holes.{Holes, reserve, reserve_below, reserve_at}
use redox_os_kernel.Memory.Holes.Shape.{
  Spaced, Spaced-mono, in_holes, in_holes_below, Within, Within-bounds, get_below, remove_below,
  last_below-none, insert_below, last_below_bounds,
}

abbrev pub right_part : ℕ → ℕ → Holes → Holes
right_part end hole_end hs = if ltb end hole_end then (end, hole_end - end) ∷ hs else hs

abbrev pub left_part : ℕ → ℕ → Holes → Holes
left_part start o hs = if ltb o start then (o, start - o) ∷ hs else hs

-- The holes without the bytes from `start` to `end`, by recursion.
unfoldable pub carve : ℕ → ℕ → Holes → Holes
carve start end [] = []
carve start end ((o, s) ∷ hs) =
    if leb o start && leb end (o + s)
    then left_part start o (right_part end (o + s) hs)
    else (o, s) ∷ carve start end hs

module _ (g : Region) where
  reserve_below-cons :
      (hi o s : ℕ) (hs : Holes)
      → Spaced (suc (o + s)) hi hs
      → hi < usize_mod
      → g.start + g.size ≤ hi
      → o + s < g.start
      → reserve_below g ((o, s) ∷ hs) ≡ (o, s) ∷ reserve_below g hs
  unfolding reserve_below end_address add_usize sub_usize last_below insert
  reserve_below-cons hi o s hs w top fits far = elim (Option-cases (last_below g.start hs)) [
    | inl e ↦ ground arith
    | inr ((o', s'), e) ↦ ground (arith, last_below_bounds (suc (o + s)) hi g.start o' s' hs w e)
  ]

  reserve_at-cons :
      (o s : ℕ) (hs : Holes)
      → o < g.start
      → g.start + g.size < usize_mod
      → reserve_at g ((o, s) ∷ hs) ≡ (o, s) ∷ reserve_at g hs
  unfolding reserve_at end_address add_usize get insert remove
  reserve_at-cons o s hs far top = ground arith

  reserve-cons :
      (hi o s : ℕ) (hs : Holes)
      → Spaced (suc (o + s)) hi hs
      → hi < usize_mod
      → g.start + g.size ≤ hi
      → o + s < g.start
      → reserve g ((o, s) ∷ hs) ≡ (o, s) ∷ reserve g hs
  unfolding reserve
  reserve-cons hi o s hs w top fits far =
      rw (reserve_below-cons hi o s hs w top fits far)
        (reserve_at-cons o s (reserve_below g hs) (omega arith) (omega arith))

  reserve_here :
      (lo hi o s : ℕ) (hs : Holes)
      → Spaced lo hi ((o, s) ∷ hs)
      → hi < usize_mod
      → 0 < g.size
      → o ≤ g.start
      → g.start + g.size ≤ o + s
      → reserve g ((o, s) ∷ hs) ≡ left_part g.start o (right_part (g.start + g.size) (o + s) hs)
  unfolding reserve end_address add_usize sub_usize last_below insert get remove
  reserve_here lo hi o s hs w top n from to = ground (
    arith,
    last_below-none (suc (o + s)) hi g.start hs w.3,
    get_below (suc (o + s)) hi g.start hs w.3,
    remove_below (suc (o + s)) hi g.start hs w.3,
    insert_below (suc (o + s)) hi (g.start + g.size) (o + s - (g.start + g.size)) hs w.3,
  )

  -- On well-spaced holes, `reserve` of a region inside one hole is `carve`.
  pub reserve-eq-carve :
      (lo hi : ℕ) (hs : Holes)
      → Spaced lo hi hs
      → hi < usize_mod
      → 0 < g.size
      → Within g.start (g.start + g.size) hs
      → reserve g hs ≡ carve g.start (g.start + g.size) hs
  unfolding carve
  reserve-eq-carve lo hi [] w top n h = absurd h
  reserve-eq-carve lo hi ((o, s) ∷ hs) w top n (inl h) =
      ground (arith, reserve_here lo hi o s hs w top n h.0 h.1)
  reserve-eq-carve lo hi ((o, s) ∷ hs) w top n (inr h) =
      let b = Within-bounds (suc (o + s)) hi g.start (g.start + g.size) hs w.3 h in
      ground (
        arith,
        b,
        reserve-cons hi o s hs w.3 top b.1 b.0,
        reserve-eq-carve (suc (o + s)) hi hs w.3 top n h,
      )

pub in_holes-carve :
    (lo hi start end a : ℕ) (hs : Holes)
    → Spaced lo hi hs
    → start < end
    → Within start end hs
    → in_holes a (carve start end hs) ≡ in_holes a hs && not (leb start a && ltb a end)
unfolding carve
in_holes-carve lo hi start end a [] w lt h = absurd h
in_holes-carve lo hi start end a ((o, s) ∷ hs) w lt (inl h) =
    ground (arith, in_holes_below (suc (o + s)) hi a hs w.3)
in_holes-carve lo hi start end a ((o, s) ∷ hs) w lt (inr h) = ground (
  arith,
  Within-bounds (suc (o + s)) hi start end hs w.3 h,
  in_holes-carve (suc (o + s)) hi start end a hs w.3 lt h,
)

pub Spaced-carve :
    (lo hi start end : ℕ) (hs : Holes)
    → Spaced lo hi hs
    → start < end
    → Within start end hs
    → Spaced lo hi (carve start end hs)
unfolding carve
Spaced-carve lo hi start end [] w lt h = absurd h
Spaced-carve lo hi start end ((o, s) ∷ hs) w lt (inl h) = ground (
  arith,
  Spaced-mono (suc (o + s)) (suc o) hi hs,
  Spaced-mono (suc (o + s)) (suc end) hi hs,
  Spaced-mono (suc (o + s)) (suc start) hi hs,
  Spaced-mono (suc (o + s)) lo hi hs,
)
Spaced-carve lo hi start end ((o, s) ∷ hs) w lt (inr h) = ground (
  arith,
  Within-bounds (suc (o + s)) hi start end hs w.3 h,
  Spaced-carve (suc (o + s)) hi start end hs w.3 lt h,
)
