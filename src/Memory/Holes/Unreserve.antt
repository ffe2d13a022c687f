-- ===== src/Memory/Holes/Unreserve.antt =====
-- `unreserve` gives a region back, joined with the holes that touch it.
use redox_os_kernel.Prelude.{
  ℕ, suc, ◌+◌, ◌-◌, ◌≤◌, ◌<◌, ◌≡◌, ◌&&◌, ◌||◌, [], ◌∷◌, ltb, leb, ◌==◌, if◌then◌else◌, arith, inl,
  inr, ◌⊎◌, Option-cases, usize_mod, add_usize, sub_usize,
}
use redox_os_kernel.Btree.{get, insert, remove, last_below, nat_key}
use redox_os_kernel.Memory.Region.{Region, end_address}
use redox_os_kernel.Memory.Holes.{Holes, unreserve}
use redox_os_kernel.Memory.Holes.Shape.{
  Spaced, Spaced-mono, in_holes, get_below, remove_below, last_below-none, insert_below,
  last_below_bounds,
}

-- No byte from `start` to `end` is in a hole.
abbrev pub Apart : ℕ → ℕ → Holes → Type 0
Apart start end [] = Unit {0}
Apart start end ((o, s) ∷ hs) = ((o + s ≤ start) ⊎ (end ≤ o)) × Apart start end hs

-- A range that begins at `start` and runs to `end`, or on through the hole that begins there.
unfoldable pub join_right : ℕ → ℕ → Holes → Holes
join_right start end [] = (start, end - start) ∷ []
join_right start end ((o, s) ∷ hs) =
    if o == end then (start, o + s - start) ∷ hs else (start, end - start) ∷ (o, s) ∷ hs

-- The holes with the bytes from `start` to `end`, by recursion.
unfoldable pub fill : ℕ → ℕ → Holes → Holes
unfolding join_right
fill start end [] = (start, end - start) ∷ []
fill start end ((o, s) ∷ hs) =
    if ltb (o + s) start
    then (o, s) ∷ fill start end hs
    else if o + s == start
    then join_right o end hs
    else join_right start end ((o, s) ∷ hs)

module _ (g : Region) where
  unreserve_last :
      (lo hi : ℕ) (hs : Holes)
      → Spaced lo hi hs
      → g.start < lo
      → 0 < g.size
      → hi < usize_mod
      → g.start + g.size ≤ hi
      → Apart g.start (g.start + g.size) hs
      → unreserve g hs ≡ join_right g.start (g.start + g.size) hs
  unfolding unreserve join_right end_address add_usize sub_usize last_below insert get remove
  unreserve_last lo hi [] w far n top fits a = ground arith
  unreserve_last lo hi ((o, s) ∷ hs) w far n top fits a = ground (
    arith,
    last_below-none (suc (o + s)) hi g.start hs w.3,
    get_below (suc (o + s)) hi (g.start + g.size) hs w.3,
    remove_below (suc (o + s)) hi (g.start + g.size) hs w.3,
    insert_below (suc (o + s)) hi g.start (g.size + s) hs w.3,
  )

  unreserve_merge :
      (lo hi o s : ℕ) (hs : Holes)
      → Spaced lo hi ((o, s) ∷ hs)
      → o + s ≡ g.start
      → 0 < g.size
      → hi < usize_mod
      → g.start + g.size ≤ hi
      → Apart g.start (g.start + g.size) hs
      → unreserve g ((o, s) ∷ hs) ≡ join_right o (g.start + g.size) hs
  unfolding unreserve join_right end_address add_usize sub_usize last_below insert get remove
  unreserve_merge lo hi o s [] w e n top fits a = ground arith
  unreserve_merge lo hi o s ((o', s') ∷ hs) w e n top fits a = ground (
    arith,
    last_below-none (suc (o' + s')) hi g.start hs w.3.3,
    get_below (suc (o' + s')) hi (g.start + g.size) hs w.3.3,
    remove_below (suc (o' + s')) hi (g.start + g.size) hs w.3.3,
  )

  Spaced-remove : (lo hi k : ℕ) (hs : Holes) → Spaced lo hi hs → Spaced lo hi (remove k hs)
  unfolding remove
  Spaced-remove lo hi k [] w = tt
  Spaced-remove lo hi k ((o, s) ∷ hs) w =
      let ih = Spaced-remove (suc (o + s)) hi k hs w.3 in
      ground (arith, ih, Spaced-mono (suc (o + s)) lo hi (remove k hs) (omega arith) ih)

  unreserve-cons :
      (hi o s : ℕ) (hs : Holes)
      → Spaced (suc (o + s)) hi hs
      → hi < usize_mod
      → g.start + g.size ≤ hi
      → o + s < g.start
      → unreserve g ((o, s) ∷ hs) ≡ (o, s) ∷ unreserve g hs
  unfolding unreserve end_address add_usize sub_usize last_below insert get remove
  unreserve-cons hi o s hs w top fits far =
      elim (Option-cases (last_below g.start (remove (g.start + g.size) hs))) [
        | inl e ↦ ground arith
        | inr ((o', s'), e) ↦ ground (
          arith,
          last_below_bounds (suc (o + s)) hi g.start o' s' (remove (g.start + g.size) hs)
              (Spaced-remove (suc (o + s)) hi (g.start + g.size) hs w) e,
        )
      ]

  -- On well-spaced holes, `unreserve` of a region outside them is `fill`.
  pub unreserve-eq-fill :
      (lo hi : ℕ) (hs : Holes)
      → Spaced lo hi hs
      → hi < usize_mod
      → 0 < g.size
      → g.start + g.size ≤ hi
      → Apart g.start (g.start + g.size) hs
      → unreserve g hs ≡ fill g.start (g.start + g.size) hs
  unfolding fill
  unreserve-eq-fill lo hi [] w top n fits a =
      unreserve_last (suc g.start) hi [] tt (omega arith) n top fits tt
  unreserve-eq-fill lo hi ((o, s) ∷ hs) w top n fits a = ground (
    arith,
    unreserve_last (suc g.start) hi ((o, s) ∷ hs),
    unreserve_merge lo hi o s hs w,
    unreserve-cons hi o s hs w.3 top fits,
    unreserve-eq-fill (suc (o + s)) hi hs w.3 top n fits a.1,
  )

in_holes-join_right :
    (start end a : ℕ) (hs : Holes)
    → start < end
    → in_holes a (join_right start end hs) ≡ in_holes a hs || (leb start a && ltb a end)
unfolding join_right
in_holes-join_right start end a [] lt = ground arith
in_holes-join_right start end a ((o, s) ∷ hs) lt = ground arith

pub in_holes-fill :
    (start end a : ℕ) (hs : Holes)
    → start < end
    → in_holes a (fill start end hs) ≡ in_holes a hs || (leb start a && ltb a end)
unfolding fill
in_holes-fill start end a [] lt = ground arith
in_holes-fill start end a ((o, s) ∷ hs) lt = ground (
  arith,
  in_holes-join_right o end a hs,
  in_holes-join_right start end a ((o, s) ∷ hs),
  in_holes-fill start end a hs lt,
)

-- Where every hole starts above `start`, being apart bounds the other end only.
Apart-extend :
    (lo hi start start' end : ℕ) (hs : Holes)
    → Spaced lo hi hs
    → start ≤ lo
    → Apart start end hs
    → Apart start' end hs
Apart-extend lo hi start start' end [] w le a = tt
Apart-extend lo hi start start' end ((o, s) ∷ hs) w le a =
    (ground arith, Apart-extend (suc (o + s)) hi start start' end hs w.3 (omega arith) a.1)

Spaced-join_right :
    (lo hi start end : ℕ) (hs : Holes)
    → Spaced (suc start) hi hs
    → lo ≤ start
    → start < end
    → end ≤ hi
    → Apart start end hs
    → Spaced lo hi (join_right start end hs)
unfolding join_right
Spaced-join_right lo hi start end [] w le lt top a = ground arith
Spaced-join_right lo hi start end ((o, s) ∷ hs) w le lt top a = ground arith

pub Spaced-fill :
    (lo hi start end : ℕ) (hs : Holes)
    → Spaced lo hi hs
    → lo ≤ start
    → start < end
    → end ≤ hi
    → Apart start end hs
    → Spaced lo hi (fill start end hs)
unfolding fill
Spaced-fill lo hi start end [] w le lt top a = ground arith
Spaced-fill lo hi start end ((o, s) ∷ hs) w le lt top a = ground (
  arith,
  Spaced-mono (suc (o + s)) (suc o) hi hs,
  Apart-extend (suc (o + s)) hi start o end hs,
  Spaced-join_right lo hi o end hs,
  Spaced-join_right lo hi start end ((o, s) ∷ hs),
  Spaced-fill (suc (o + s)) hi start end hs,
)
