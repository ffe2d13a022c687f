-- ===== src/Memory/Tests.antt =====
-- The theorems on the address space at concrete regions, with pages of 4096 bytes.
use redox_os_kernel.Prelude.{
  ℕ, zero, suc, ◌+◌, ◌-◌, ◌*◌, ◌/◌, ◌%◌, ◌^◌, ◌≤◌, ◌<◌, ◌≡◌, ◌≢◌, refl, Bool, true, false, not,
  ◌&&◌, ◌||◌, Option, none, some, List, [], ◌∷◌, ◌++◌, Result, ok, err, panic, Errno, arith, inl,
  inr, ltb, leb, ◌==◌, usize_mod, if◌then◌else◌, ok_or, All,
}
use redox_os_kernel.Memory.Region.{Region}
use redox_os_kernel.Memory.Holes.{Holes, reserve, unreserve, find_free}
use redox_os_kernel.Memory.Holes.Shape.{Spaced, Within}
use redox_os_kernel.Memory.Holes.Roundtrip.{unreserve-reserve}
use redox_os_kernel.Memory.Holes.Search.{find_free_complete}
use redox_os_kernel.Memory.Grants.{
  Grant, GrantFileRef, UserGrants, new, insert, take, conflicts, extract, find_free_at,
  user_end_offset,
}
use redox_os_kernel.Memory.Grants.Shape.{Fits, overlapping, in_grants, in_region}
use redox_os_kernel.Memory.Grants.Valid.{IsValid}
use redox_os_kernel.Memory.Grants.Conflicts.{conflicts-eq-overlapping}
use redox_os_kernel.Memory.Grants.Update.{insert-IsValid, take-IsValid}
use redox_os_kernel.Memory.Grants.Find.{find_free_at-Fits}
use redox_os_kernel.Memory.Space.{MapFlags, PageFlags, AddrSpace, mmap, page_address}
use redox_os_kernel.Memory.Space.Copy.{Tables, zeroed}
use redox_os_kernel.Memory.Space.Zeroed.{zeroed-Placement}
use redox_os_kernel.Memory.Space.Mmap.{Mapped, HintFits, mmap_lem}

abbrev two_holes : Holes
two_holes = (0, 4096) ∷ (12288, 0x7fff_ffff_d000) ∷ []

abbrev two_pages : Region
two_pages = record { start = 4096; size = 8192 }

abbrev grant_of : Region → Grant ℕ ℕ
grant_of r = record {
  region = r;
  flags = 1;
  mapped = true;
  owned = true;
  allocator_owned = true;
  desc_opt = none;
}

abbrev one_grant : UserGrants ℕ ℕ
one_grant = record { inner = grant_of two_pages ∷ []; holes = two_holes; funmap = [] }

one_grant-IsValid : IsValid 4096 one_grant
one_grant-IsValid = record {
  tiled = ((omega arith, omega arith, omega arith, refl, refl), tt);
  spaced = (omega arith, omega arith, omega arith, (omega arith, omega arith, omega arith, tt));
  aligned = (refl, refl, (refl, refl, tt));
  split = λ a lt. ground arith;
}

abbrev next_page : Region
next_page = record { start = 12288; size = 4096 }

-- Of two pages, the second one granted.
abbrev straddling : Region
straddling = record { start = 8192; size = 8192 }

next_page-Fits : Fits 4096 0 user_end_offset next_page
next_page-Fits = (omega arith, omega arith, omega arith, refl, refl)

straddling-Fits : Fits 4096 0 user_end_offset straddling
straddling-Fits = (omega arith, omega arith, omega arith, refl, refl)

abbrev two_grants : UserGrants ℕ ℕ
two_grants = record {
  inner = grant_of two_pages ∷ grant_of next_page ∷ [];
  holes = (0, 4096) ∷ (16384, 0x7fff_ffff_c000) ∷ [];
  funmap = [];
}

two_holes-Spaced : Spaced 0 user_end_offset two_holes
two_holes-Spaced = one_grant-IsValid.spaced

abbrev two_next_pages : Region
two_next_pages = record { start = 12288; size = 8192 }

found_second : find_free 4096 8192 two_holes ≡ some (record { start = 12288; size = 8192 })
unfolding find_free redox_os_kernel.Prelude.add_usize
found_second = refl

no_room : find_free 4096 user_end_offset two_holes ≡ none
unfolding find_free redox_os_kernel.Prelude.add_usize
no_room = refl

found_next : find_free 4096 4096 two_holes ≡ some next_page
unfolding find_free redox_os_kernel.Prelude.add_usize
found_next = refl

inserted : insert 4096 one_grant (grant_of next_page) ≡ ok two_grants
unfolding insert conflicts redox_os_kernel.Memory.Region.occupies redox_os_kernel.Prelude.sub_usize
    redox_os_kernel.Memory.Region.end_address redox_os_kernel.Prelude.add_usize
    redox_os_kernel.Memory.Region.round_up_pages redox_os_kernel.Memory.Grants.set_insert reserve
    redox_os_kernel.Btree.get redox_os_kernel.Btree.last_below redox_os_kernel.Btree.insert
    redox_os_kernel.Btree.remove
inserted = refl

taken : take one_grant two_pages ≡ some (grant_of two_pages, new ℕ ℕ)
unfolding take new redox_os_kernel.Memory.Grants.set_take unreserve redox_os_kernel.Btree.last_below
    redox_os_kernel.Btree.remove redox_os_kernel.Memory.Region.end_address
    redox_os_kernel.Prelude.add_usize redox_os_kernel.Btree.insert redox_os_kernel.Prelude.sub_usize
    redox_os_kernel.Btree.get
taken = refl

passed_over : find_free_at 4096 one_grant 4096 8192 4096 false false ≡ ok next_page
unfolding find_free_at redox_os_kernel.Memory.Region.end_address redox_os_kernel.Prelude.add_usize
    conflicts redox_os_kernel.Memory.Region.occupies redox_os_kernel.Prelude.sub_usize
    redox_os_kernel.Memory.Region.round_up_pages redox_os_kernel.Memory.Region.is_empty
    redox_os_kernel.Memory.Region.intersect find_free
passed_over = refl

unreserve-reserve_example : unreserve next_page (reserve next_page two_holes) ≡ two_holes
unreserve-reserve_example =
    unreserve-reserve next_page 0 user_end_offset two_holes two_holes-Spaced (omega arith)
      (omega arith) (inr (inl (omega arith, omega arith)))

find_free_complete_example : ¬ Within 4096 (4096 + user_end_offset) two_holes
find_free_complete_example =
    find_free_complete 0 user_end_offset 4096 user_end_offset 4096 two_holes (omega arith)
      two_holes-Spaced (omega arith) no_room (omega arith)

conflicts-eq-overlapping_example :
    conflicts 4096 one_grant.inner straddling ≡ overlapping straddling one_grant.inner
conflicts-eq-overlapping_example =
    conflicts-eq-overlapping 4096 user_end_offset (omega arith) 0 straddling one_grant.inner
      (omega arith) one_grant-IsValid.tiled (omega arith) (omega arith) refl

insert-IsValid_example :
    (u' : UserGrants ℕ ℕ) × (insert 4096 one_grant (grant_of next_page) ≡ ok u')
    × IsValid 4096 u'
    × ((a : ℕ) → in_grants a u'.inner ≡ in_grants a one_grant.inner || in_region a next_page)
insert-IsValid_example =
    insert-IsValid 4096 (omega arith) one_grant (grant_of next_page) one_grant-IsValid
      next_page-Fits refl

take-IsValid_example :
    IsValid 4096 (new ℕ ℕ)
    × ((grant_of two_pages).start ≡ two_pages.start)
    × Fits 4096 0 user_end_offset two_pages
    × (overlapping two_pages (new ℕ ℕ).inner ≡ [])
    × ((a : ℕ) → in_grants a one_grant.inner ≡ in_grants a (new ℕ ℕ).inner || in_region a two_pages)
take-IsValid_example =
    take-IsValid 4096 (omega arith) one_grant (new ℕ ℕ) two_pages (grant_of two_pages)
      one_grant-IsValid taken

find_free_at-Fits_example :
    (next_page.size ≡ 4096)
    × Fits 4096 0 user_end_offset next_page
    × (overlapping next_page one_grant.inner ≡ [])
find_free_at-Fits_example =
    find_free_at-Fits 4096 (omega arith) one_grant 4096 8192 4096 false false {r = next_page}
      one_grant-IsValid refl refl (omega arith) (omega arith) passed_over

-- A hinted range that wraps around is taken, although it lies outside user space.
wrapped_hint :
    find_free_at 4096 one_grant 4096 (2 ^ 64 - 4096) 8192 false false
    ≡ ok (record { start = 2 ^ 64 - 4096; size = 8192 })
unfolding find_free_at redox_os_kernel.Memory.Region.end_address redox_os_kernel.Prelude.add_usize
    conflicts redox_os_kernel.Memory.Region.occupies redox_os_kernel.Prelude.sub_usize
    redox_os_kernel.Memory.Region.round_up_pages redox_os_kernel.Memory.Region.is_empty
    redox_os_kernel.Memory.Region.intersect find_free
wrapped_hint = refl

abbrev last_page : Region
last_page = record { start = 8192; size = 4096 }

-- Page flags as numbers, and page tables that count the pages unmapped.
abbrev flag_api : PageFlags ℕ
flag_api = record {
  new = 0;
  user = λ on f. if on then f + 4 else f;
  execute = λ on f. if on then f + 1 else f;
  write = λ on f. if on then f + 2 else f;
  has_execute = λ f. f % 2 == 1;
  has_write = λ f. f / 2 % 2 == 1;
}

abbrev space : AddrSpace ℕ ℕ ℕ
space = record { table = 0; grants = one_grant; mmap_min = 4096 }

abbrev no_flags : MapFlags
no_flags = record { prot_exec = false; prot_write = true; fixed = false; fixed_noreplace = false }

-- Tables that count the pages, with frames for a hundred.
abbrev tables : Tables ℕ ℕ
tables = record {
  translate = λ a m. none;
  map_phys = λ a frame f m. some (m + 1);
  map = λ a f m. if ltb m 100 then some (m + 1) else none;
}

hint_fits : HintFits 4096 4096 (some 2)
unfolding page_address
hint_fits = omega arith

-- The closure of the source's anonymous mappings.
mmap_lem_example :
    let (s', r) = mmap 4096 flag_api (some 2) 1 no_flags (λ n. zeroed 4096 tables n 1) space in
    IsValid 4096 s'.grants × Mapped 4096 1 space s' r
mmap_lem_example =
    mmap_lem 4096 (omega arith) flag_api (some 2) 1 no_flags (λ n. zeroed 4096 tables n 1) space
      (zeroed-Placement ℕ 4096 tables 1) one_grant-IsValid refl (omega arith) hint_fits
