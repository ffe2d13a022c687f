-- ===== src/Memory/Space.antt =====
-- `AddrSpace` of src/context/memory.rs: `mmap`, `mprotect` and `munmap`. The page tables, the frame
-- allocator and the page flags (crate `rmm`) are parameters; so is the closure that `mmap` runs.
pub mod Split
pub mod Cut
pub mod Mmap
pub mod Munmap
pub mod Copy
pub mod Pages
pub mod Borrow
pub mod Unmap
pub mod Notify
pub mod Zeroed
mod Tests
use redox_os_kernel.Prelude.{
  ℕ, zero, suc, ◌+◌, ◌-◌, ◌*◌, ◌/◌, ◌%◌, ◌≡◌, Bool, true, false, not, ◌&&◌, ◌||◌, Option, none,
  some, List, [], ◌∷◌, ◌++◌, map, Result, ok, err, panic, Errno, assert, expect, ok_or, ◌>>=◌, ◌>>◌,
  ltb, leb, ◌==◌, if◌then◌else◌, usize_mod,
}
use redox_os_kernel.Memory.Region.{Region, end_address, intersect, round}
use redox_os_kernel.Memory.Holes.{find_free}
use redox_os_kernel.Memory.Grants.{
  Grant, GrantFileRef, UserGrants, insert, take, conflicts, extract, find_free_at,
}

-- What the source asks of `MapFlags` (crate `syscall`), one Boolean for each flag.
pub record MapFlags : Type 0 where
  pub prot_exec : Bool
  pub prot_write : Bool
  pub fixed : Bool
  pub fixed_noreplace : Bool

-- `PageFlags` of crate `rmm`.
pub record PageFlags (F : Type 0) : Type 0 where
  pub new : F
  pub user : Bool → F → F
  pub execute : Bool → F → F
  pub write : Bool → F → F
  pub has_execute : F → Bool
  pub has_write : F → Bool

-- `PageMapper` of crate `rmm` with the frame allocator behind it, on a state `M`. `none` is a page
-- that is not mapped; `unmap_phys` also gives the address of the frame.
pub record Mapper (F M : Type 0) : Type 0 where
  pub remap : ℕ → F → M → Option M
  pub unmap_phys : ℕ → M → Option (ℕ × M)
  pub deallocate_frame : ℕ → M → M

pub record AddrSpace (F D M : Type 0) : Type 0 where
  pub table : M
  pub grants : UserGrants F D
  pub mmap_min : ℕ

-- `Page::start_address`
unfoldable pub page_address : ℕ → ℕ → ℕ
page_address page number = number * page % usize_mod

-- `Region::new(base.start_address(), page_count * PAGE_SIZE)`
unfoldable pub page_region : ℕ → ℕ → ℕ → Region
unfolding page_address
page_region page number count = record {
  start = page_address page number;
  size = count * page % usize_mod;
}

-- `Region::pages`: the number of the first page and how many there are.
unfoldable pub first_page : ℕ → Region → ℕ
first_page page r = r.start / page

unfoldable pub page_count : ℕ → Region → ℕ
page_count page r = end_address r / page - r.start / page

unfoldable pub page_flags : {F : Type 0} → PageFlags F → MapFlags → F
page_flags api flags =
    api.write flags.prot_write (api.execute flags.prot_exec (api.user true api.new))

unfoldable pub can_have_flags : {F D : Type 0} → PageFlags F → Grant F D → MapFlags → Bool
can_have_flags api g flags =
    g.owned
    || ((api.has_write g.flags || not flags.prot_write)
        && (api.has_execute g.flags || not flags.prot_exec))

module _ {F M : Type 0} (page : ℕ) (mapper : Mapper F M) where
  -- The loop of `Grant::remap`.
  remap_pages : F → ℕ → ℕ → M → Result M
  remap_pages flags zero number m = ok m
  remap_pages flags (suc n) number m = do
    m' ← expect (mapper.remap (page_address page number) flags m)
    remap_pages flags n (number + 1) m'

  -- The loop of `Grant::unmap`.
  pub unmap_pages : Bool → ℕ → ℕ → M → Result M
  unmap_pages free zero number m = ok m
  unmap_pages free (suc n) number m = do
    (frame, m') ← expect (mapper.unmap_phys (page_address page number) m)
    unmap_pages free n (number + 1) (if free then mapper.deallocate_frame frame m' else m')

-- `if let Some(part) = part { self.grants.insert(part); }`
unfoldable pub insert_part :
    {F D : Type 0} → ℕ → Option (Grant F D) → UserGrants F D → Result (UserGrants F D)
insert_part page none u = ok u
insert_part page (some g) u = insert page u g

module _ {F D M : Type 0} (page : ℕ) (mapper : Mapper F M) where
  unfoldable pub remap : Grant F D → F → M → Result (Grant F D × M)
  unfolding remap_pages
  remap g flags m = do
    assert g.mapped
    m' ← remap_pages page mapper flags (page_count page g.region) (first_page page g.region) m
    ok (record g { flags = flags }, m')

  unfoldable pub unmap : Grant F D → M → Result M
  unfolding unmap_pages
  unmap g m = do
    assert g.mapped
    unmap_pages page mapper (g.owned && g.allocator_owned) (page_count page g.region)
        (first_page page g.region) m

-- `if let Some(file_desc) = grant.desc_opt.take() { notify_files.push((file_desc, intersection)); }`
unfoldable pub push_file :
    {F D : Type 0}
    → Option (GrantFileRef F D)
    → Region
    → List (GrantFileRef F D × Region)
    → List (GrantFileRef F D × Region)
push_file none intersection notify = notify
push_file (some file) intersection notify = notify ++ ((file, intersection) ∷ [])

module _ {F D M : Type 0} (page : ℕ) (api : PageFlags F) (mapper : Mapper F M) where
  -- One round of `mprotect`; `false` is the early return with EACCES.
  unfoldable pub protect_one :
      Region → MapFlags → Region → AddrSpace F D M → Result (Bool × AddrSpace F D M)
  unfolding insert_part can_have_flags
  protect_one region flags grant_region s = do
    (grant, u) ← expect (take s.grants grant_region)
    (before, grant', after) ← extract page grant (intersect grant_region region)
    u' ← insert_part page before u
    u'' ← insert_part page after u'
    let denied : Result (Bool × AddrSpace F D M) =
        insert page u'' grant' >>= λ w. ok (false, record s { grants = w })
    let allowed : Result (Bool × AddrSpace F D M) = (do
      (grant'', m) ←
          remap page mapper grant'
            (api.write flags.prot_write (api.execute flags.prot_exec grant'.flags)) s.table
      w ← insert page u'' grant''
      ok (true, record s { grants = w; table = m }))
    if can_have_flags api grant' flags then allowed else denied

  protect_each :
      Region → MapFlags → List Region → AddrSpace F D M → AddrSpace F D M × Result (Unit {0})
  protect_each region flags [] s = (s, ok tt)
  protect_each region flags (r ∷ rs) s = elim (protect_one region flags r s) [
    | ok (true, s') ↦ protect_each region flags rs s'
    | ok (false, s') ↦ (s', err Errno.eacces)
    | err e ↦ (s, err e)
    | panic ↦ (s, panic)
  ]

  unfoldable pub mprotect : ℕ → ℕ → MapFlags → AddrSpace F D M → AddrSpace F D M × Result (Unit {0})
  unfolding protect_each
  mprotect base count flags s =
      let region = page_region page base count in
      protect_each region flags (map (λ g. g.region) (conflicts page s.grants.inner region)) s

  -- One round of the first loop of `munmap`; the list is `notify_files`.
  unfoldable pub unmap_one :
      Region
      → Region
      → AddrSpace F D M × List (GrantFileRef F D × Region)
      → Result (AddrSpace F D M × List (GrantFileRef F D × Region))
  unfolding insert_part
  unmap_one requested conflict (s, notify) = do
    (grant, u) ← expect (take s.grants conflict)
    let intersection = intersect grant.region requested
    (before, grant', after) ← extract page grant (round page intersection)
    let notify' = push_file grant'.desc_opt intersection notify
    u' ← insert_part page before u
    u'' ← insert_part page after u'
    m ← unmap page mapper (record grant' { desc_opt = none }) s.table
    ok (record s { grants = u''; table = m }, notify')

  unmap_each :
      Region
      → List Region
      → AddrSpace F D M × List (GrantFileRef F D × Region)
      → Result (AddrSpace F D M × List (GrantFileRef F D × Region))
  unmap_each requested [] s = ok s
  unmap_each requested (r ∷ rs) s = unmap_one requested r s >>= unmap_each requested rs

  -- The first loop of `munmap`, with the list of the files that the second one tells.
  unfoldable pub munmap_grants :
      ℕ → ℕ → AddrSpace F D M → Result (AddrSpace F D M × List (GrantFileRef F D × Region))
  unfolding unmap_each
  munmap_grants number count s =
      let requested = page_region page number count in
      unmap_each requested (map (λ g. g.region) (conflicts page s.grants.inner requested)) (s, [])

-- The region that `mmap` chooses.
unfoldable pub mmap_region :
    {F D M : Type 0} → ℕ → Option ℕ → ℕ → MapFlags → AddrSpace F D M → Result Region
mmap_region page none count flags s =
    ok_or (find_free s.mmap_min (count * page % usize_mod) s.grants.holes) Errno.enomem
mmap_region page (some number) count flags s =
    find_free_at page s.grants s.mmap_min (page_address page number) (count * page % usize_mod)
      flags.fixed_noreplace flags.fixed

module _ {F D M : Type 0} (page : ℕ) where
  -- The end of `mmap`: the grant goes into the address space whose page tables the closure changed.
  mmap_insert : ℕ → AddrSpace F D M → Result (UserGrants F D) → AddrSpace F D M × Result ℕ
  mmap_insert number s (ok u) = (record s { grants = u }, ok number)
  mmap_insert number s (err e) = (s, err e)
  mmap_insert number s panic = (s, panic)

  mmap_placed : ℕ → AddrSpace F D M → Result (Grant F D) → AddrSpace F D M × Result ℕ
  unfolding mmap_insert
  mmap_placed number s (ok g) = mmap_insert number s (insert page s.grants g)
  mmap_placed number s (err e) = (s, err e)
  mmap_placed number s panic = (s, panic)

  mmap_at :
      F
      → (ℕ → F → M → M × Result (Grant F D))
      → AddrSpace F D M
      → Result Region
      → AddrSpace F D M × Result ℕ
  unfolding mmap_placed
  mmap_at flags place s (ok region) =
      let number = region.start / page in
      let (m, placed) = place number flags s.table in
      mmap_placed number (record s { table = m }) placed
  mmap_at flags place s (err e) = (s, err e)
  mmap_at flags place s panic = (s, panic)

  -- `mmap`; `place` is the closure, which may change the page tables also where it fails.
  unfoldable pub mmap :
      PageFlags F
      → Option ℕ
      → ℕ
      → MapFlags
      → (ℕ → F → M → M × Result (Grant F D))
      → AddrSpace F D M
      → AddrSpace F D M × Result ℕ
  unfolding mmap_region mmap_at page_flags
  mmap api hint count flags place s =
      if count == 0
      then (s, err Errno.einval)
      else mmap_at (page_flags api flags) place s (mmap_region page hint count flags s)
