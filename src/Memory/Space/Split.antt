-- ===== src/Memory/Space/Split.antt =====
-- `Grant::extract`: how a grant is cut into three.
use redox_os_kernel.Prelude.{
  ℕ, ◌+◌, ◌≤◌, ◌<◌, ◌≡◌, Option, none, some, ok, panic, arith, ◌==◌, usize_mod, if◌then◌else◌, ◌-◌,
  add_usize,
}
use redox_os_kernel.Memory.Region.{Region, end_address}
use redox_os_kernel.Memory.Holes.Align.{Aligned}
use redox_os_kernel.Memory.Grants.{Grant, extract}

module _ {F D : Type 0} where
  -- The part of a grant that covers the bytes from `start` to `end`, if there are any.
  abbrev pub piece : Grant F D → ℕ → ℕ → Option (Grant F D)
  piece g start end =
      if start == end
      then none
      else some (record g { region = record { start = start; size = end - start } })

  -- `extract` of an aligned region inside a grant below 2^64 gives the grant with that region, and
  -- what the grant has before and behind it as grants of their own with the same attributes, where
  -- there is anything.
  pub extract_lem :
      (page : ℕ) (g : Grant F D) (r : Region)
      → g.start + g.size < usize_mod
      → Aligned page r.start
      → Aligned page r.size
      → g.start ≤ r.start
      → r.start + r.size ≤ g.start + g.size
      → extract page g r
        ≡ ok (
          piece g g.start r.start,
          record g { region = r },
          piece g (r.start + r.size) (g.start + g.size),
        )
  unfolding extract end_address add_usize
  extract_lem page g r top al sz from to = ground arith

  -- `extract` panics for a region that is not aligned, or that sticks out of the grant.
  pub extract_panics :
      (page : ℕ) (g : Grant F D) (r : Region)
      → g.start + g.size < usize_mod
      → r.start + r.size < usize_mod
      → ¬ (
          Aligned page r.start
          × Aligned page r.size
          × (g.start ≤ r.start)
          × (r.start + r.size ≤ g.start + g.size))
      → extract page g r ≡ panic
  unfolding extract end_address add_usize
  extract_panics page g r top small h = ground arith
