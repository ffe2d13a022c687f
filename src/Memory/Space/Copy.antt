-- ===== src/Memory/Space/Copy.antt =====
-- The constructors of `Grant` in src/context/memory.rs. `translate`, `map_phys` and `map` are those of
-- `PageMapper` (crate `rmm`): the frame of a page that is mapped, and the tables with one more page, if
-- there is a frame for them.
use redox_os_kernel.Prelude.{
  ℕ, zero, suc, ◌+◌, ◌/◌, Bool, true, false, ◌&&◌, Option, none, some, ◌==◌, Result, ok, err, Errno,
  assert, expect, ◌>>=◌, ◌>>◌, if◌then◌else◌, map_ok,
}
use redox_os_kernel.Memory.Grants.{Grant, GrantFileRef}
use redox_os_kernel.Memory.Space.{Mapper, page_address, page_region, unmap_pages}

pub record Tables (F M : Type 0) : Type 0 where
  pub translate : ℕ → M → Option ℕ
  pub map_phys : ℕ → ℕ → F → M → Option M
  pub map : ℕ → F → M → Option M

module _ {F M : Type 0} (page : ℕ) (tables : Tables F M) where
  physmap_pages : F → ℕ → ℕ → ℕ → M → Result M
  physmap_pages flags zero phys dst m = ok m
  physmap_pages flags (suc n) phys dst m = do
    m' ← expect (tables.map_phys (page_address page dst) (page_address page phys) flags m)
    physmap_pages flags n (phys + 1) (dst + 1) m'

  -- The tables after the loop, and whether there were frames for all pages.
  pub zeroed_pages : F → ℕ → ℕ → M → M × Bool
  zeroed_pages flags zero dst m = (m, true)
  zeroed_pages flags (suc n) dst m = elim (tables.map (page_address page dst) flags m) [
    | none ↦ (m, false)
    | some m' ↦ zeroed_pages flags n (dst + 1) m'
  ]

module _ {F D M : Type 0} (page : ℕ) (tables : Tables F M) where
  unfoldable pub physmap : ℕ → ℕ → ℕ → F → M → Result (M × Grant F D)
  unfolding physmap_pages page_region
  physmap phys dst count flags m =
      map_ok
        (λ m'. (
          m',
          record {
            region = page_region page dst count;
            flags = flags;
            mapped = true;
            owned = false;
            allocator_owned = false;
            desc_opt = none;
          },
        ))
        (physmap_pages page tables flags count phys dst m)

  unfoldable pub zeroed : ℕ → ℕ → F → M → M × Result (Grant F D)
  unfolding zeroed_pages page_region
  zeroed dst count flags m =
      let (m', all) = zeroed_pages page tables flags count dst m in
      if all
      then (
        m',
        ok (record {
          region = page_region page dst count;
          flags = flags;
          mapped = true;
          owned = true;
          allocator_owned = true;
          desc_opt = none;
        }),
      )
      else (m', err Errno.enomem)

module _ {F M : Type 0} (page : ℕ) (mapper : Mapper F M) (tables : Tables F M) where
  -- The frame of the next page of the source, which is unmapped there or not.
  unfoldable pub source_frame : Bool → ℕ → M → Result (ℕ × M)
  source_frame true src m = expect (mapper.unmap_phys (page_address page src) m)
  source_frame false src m =
      map_ok (λ frame. (frame, m)) (expect (tables.translate (page_address page src) m))

  -- The loop of `copy_inner`, on the tables of the source and of the destination, and how many pages
  -- it copied on top of `copied`.
  unfoldable pub copy_pages : Bool → F → ℕ → ℕ → ℕ → ℕ → M × M → Result (M × M × ℕ)
  unfolding source_frame
  copy_pages unmap flags zero src dst copied (from, to) = ok (from, to, copied)
  copy_pages unmap flags (suc n) src dst copied (from, to) = do
    (frame, from') ← source_frame unmap src from
    elim (tables.map_phys (page_address page dst) frame flags to) [
      | none ↦ ok (from', to, copied)
      | some to' ↦ copy_pages unmap flags n (src + 1) (dst + 1) (copied + 1) (from', to')
    ]

module _ {F D M : Type 0} (page : ℕ) (mapper : Mapper F M) (tables : Tables F M) where
  -- The tables of both sides, and the grant; none of it where the frames ran out.
  unfoldable pub copy_inner :
      ℕ
      → ℕ
      → ℕ
      → F
      → Option (GrantFileRef F D)
      → Bool
      → Bool
      → Bool
      → M × M
      → Result (M × M × Option (Grant F D))
  unfolding copy_pages unmap_pages page_region
  copy_inner src dst count flags desc owned allocator_owned unmap tables_of = do
    (from, to, copied) ← copy_pages page mapper tables unmap flags count src dst 0 tables_of
    let g : Grant F D = record {
      region = page_region page dst count;
      flags = flags;
      mapped = true;
      owned = owned;
      allocator_owned = allocator_owned;
      desc_opt = desc;
    }
    let undone = unmap_pages page mapper (owned && allocator_owned) copied dst to
    (if copied == count then ok (from, to, some g) else map_ok (λ to'. (from, to', none)) undone)

  unfoldable pub borrow :
      ℕ → ℕ → ℕ → F → Option (GrantFileRef F D) → M × M → Result (M × M × Option (Grant F D))
  unfolding copy_inner
  borrow src dst count flags desc tables_of =
      copy_inner src dst count flags desc false false false tables_of

  unfoldable pub reborrow : Grant F D → ℕ → M × M → Result (M × M × Option (Grant F D))
  unfolding borrow
  reborrow g dst tables_of =
      borrow (g.region.start / page) dst (g.region.size / page) g.flags g.desc_opt tables_of

  unfoldable pub transfer : Grant F D → ℕ → M × M → Result (M × M × Option (Grant F D))
  unfolding copy_inner
  transfer g dst tables_of = do
    assert g.mapped
    copy_inner (g.region.start / page) dst (g.region.size / page) g.flags g.desc_opt g.owned
        g.allocator_owned true tables_of
