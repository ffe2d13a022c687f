-- ===== src/Memory/Holes.antt =====
-- The free ranges of `UserGrants` (src/context/memory.rs): `holes`, a map from the start of each
-- range to its size, with `reserve`, `unreserve` and the search of `find_free`.
pub mod Shape
pub mod Reserve
pub mod Align
pub mod Runs
pub mod Search
pub mod Roundtrip
pub mod Unreserve
use redox_os_kernel.Prelude.{
  ℕ, ◌+◌, ◌-◌, max, ◌≡◌, Bool, true, false, ◌&&◌, Option, none, some, List, [], ◌∷◌, ltb, leb, ◌==◌,
  if◌then◌else◌, add_usize, sub_usize,
}
use redox_os_kernel.Btree.{Map, get, insert, remove, last_below, nat_key}
use redox_os_kernel.Memory.Region.{Region, end_address}

abbrev pub Holes : Type 0
Holes = Map ℕ ℕ

-- The first half of `reserve`: the hole that starts below the region is shortened, and what is
-- left of it behind the region becomes a hole of its own.
unfoldable pub reserve_below : Region → Holes → Holes
reserve_below g holes = elim (last_below g.start holes) [
  | none ↦ holes
  | some (offset, size) ↦
      let prev_hole_end = add_usize offset size in
      let holes' : Holes =
        (if ltb g.start prev_hole_end
          then insert offset (sub_usize g.start offset) holes
          else holes) in
      if ltb (end_address g) prev_hole_end
      then insert (end_address g) (sub_usize prev_hole_end (end_address g)) holes'
      else holes'
]

-- The second half: a hole that starts where the region does gives way to its remainder.
unfoldable pub reserve_at : Region → Holes → Holes
reserve_at g holes = elim (get g.start holes) [
  | none ↦ holes
  | some size ↦
      let remainder = sub_usize size g.size in
      if ltb 0 remainder
      then insert (end_address g) remainder (remove g.start holes)
      else remove g.start holes
]

unfoldable pub reserve : Region → Holes → Holes
unfolding reserve_below reserve_at
reserve g holes = reserve_at g (reserve_below g holes)

-- `.filter(|(offset, size)| offset + size == start)` on the hole below.
ends_at : ℕ → Option (ℕ × ℕ) → Option (ℕ × ℕ)
ends_at start none = none
ends_at start (some (offset, size)) =
    if add_usize offset size == start then some (offset, size) else none

abbrev pub unwrap_or : ℕ → Option ℕ → ℕ
unwrap_or d none = d
unwrap_or d (some n) = n

unfoldable pub unreserve : Region → Holes → Holes
unfolding ends_at
unreserve g holes =
    let exactly_after_size = unwrap_or 0 (get (end_address g) holes) in
    let holes' : Holes = remove (end_address g) holes in
    elim (ends_at g.start (last_below g.start holes')) [
      | none ↦ insert g.start (add_usize g.size exactly_after_size) holes'
      | some (offset, size) ↦
          insert offset (add_usize (sub_usize (end_address g) offset) exactly_after_size) holes'
    ]

-- `skip_while`: the holes that end at `min` or below.
skip_below : ℕ → Holes → Holes
skip_below min [] = []
skip_below min ((offset, size) ∷ holes) =
    if leb (add_usize offset size) min then skip_below min holes else (offset, size) ∷ holes

-- The bytes of a hole from `min` on.
unfoldable pub avail_size : ℕ → ℕ → ℕ → ℕ
avail_size min offset size =
    if leb offset min && leb min (add_usize offset size)
    then sub_usize size (sub_usize min offset)
    else size

find_fit : ℕ → ℕ → Holes → Option ℕ
unfolding avail_size
find_fit min size [] = none
find_fit min size ((offset, hole_size) ∷ holes) =
    if leb size (avail_size min offset hole_size) then some offset else find_fit min size holes

unfoldable pub find_free : ℕ → ℕ → Holes → Option Region
unfolding skip_below find_fit
find_free min size holes = elim (find_fit min size (skip_below min holes)) [
  | none ↦ none
  | some hole_start ↦ some (record { start = max hole_start min; size = size })
]
