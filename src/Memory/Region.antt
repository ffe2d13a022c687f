-- ===== src/Memory/Region.antt =====
-- `Region` of src/context/memory.rs: a half-open range of virtual addresses.
use redox_os_kernel.Prelude.{
  ℕ, ◌-◌, ◌%◌, min, max, Bool, ◌&&◌, Option, none, some, Result, ok, assert, ◌>>◌, ltb, leb, ◌==◌,
  if◌then◌else◌, add_usize, sub_usize,
}

pub record Region : Type 0 where
  pub start : ℕ
  pub size : ℕ

-- `Region::byte`
abbrev pub byte : ℕ → Region
byte address = record { start = address; size = 1 }

-- `Region::between`: the size saturates at 0, as `-` on ℕ does.
unfoldable pub between : ℕ → ℕ → Region
between start end = record { start = start; size = end - start }

unfoldable pub end_address : Region → ℕ
end_address r = add_usize r.start r.size

unfoldable pub final_address : Region → ℕ
final_address r = sub_usize (add_usize r.start r.size) 1

unfoldable pub is_empty : Region → Bool
is_empty r = r.size == 0

unfoldable pub intersect : Region → Region → Region
unfolding between
intersect r other = between (max r.start other.start) (min (end_address r) (end_address other))

-- `round_up_pages` of src/arch/x86_64/paging/mod.rs (`next_multiple_of`), at a page size `page`.
unfoldable pub round_up_pages : ℕ → ℕ → ℕ
round_up_pages page number =
    if number % page == 0 then number else add_usize number (page - number % page)

unfoldable pub round : ℕ → Region → Region
round page r = record r { size = round_up_pages page r.size }

unfoldable pub full_size : ℕ → Region → ℕ
unfolding round
full_size page r = (round page r).size

unfoldable pub collides : Region → Region → Bool
collides r other = leb r.start other.start && ltb (sub_usize (end_address other) r.start) r.size

unfoldable pub occupies : ℕ → Region → Region → Bool
unfolding round collides
occupies page r other = collides (round page r) other

unfoldable pub non_empty : Region → Option Region
unfolding is_empty
non_empty r = if is_empty r then none else some r

-- `before` and `after` panic if the given region sticks out.
unfoldable pub before : Region → Region → Result (Option Region)
unfolding between non_empty
before r region = do
  assert (leb r.start region.start)
  ok (non_empty (between r.start region.start))

unfoldable pub after : Region → Region → Result (Option Region)
unfolding between non_empty
after r region = do
  assert (leb (end_address region) (end_address r))
  ok (non_empty (between (end_address region) (end_address r)))

-- `Region::rebase`: an address inside `r`, moved to where it lies in `new_base`.
unfoldable pub rebase : Region → Region → ℕ → ℕ
rebase r new_base address = add_usize new_base.start (sub_usize address r.start)
