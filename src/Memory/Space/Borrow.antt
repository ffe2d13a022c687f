-- ===== src/Memory/Space/Borrow.antt =====
-- `Grant::borrow` of src/context/memory.rs: the pages come in whole, or not at all.
use native.Mathlib.Nat.{mul-le-mul_right}
use redox_os_kernel.Prelude.{
  ℕ, zero, suc, ◌+◌, ◌*◌, ◌%◌, ◌≤◌, ◌<◌, ◌≡◌, ◌∙◌, subst, sym, refl, inl, inr, true, false, Option,
  none, some, ◌==◌, Result, ok, if◌then◌else◌, usize_mod, arith, Option-cases, Bool-cases,
}
use redox_os_kernel.Memory.Grants.{Grant, GrantFileRef, user_end_offset}
use redox_os_kernel.Memory.Space.{Mapper, page_address, page_region, unmap_pages}
use redox_os_kernel.Memory.Space.Mmap.{pages_at}
use redox_os_kernel.Memory.Space.Pages.{
  IsTable, is_page, is_page_above, Mapped, SameFrames, Unmapped, Borrowed,
}
use redox_os_kernel.Memory.Space.Unmap.{page_below, unmap_pages_lem}
use redox_os_kernel.Memory.Space.Copy.{Tables, source_frame, copy_pages, copy_inner, borrow}

copied_same :
    {M : Type 0} (n k : ℕ) (from to : M)
    → n ≡ k
    → ◌≡◌ {A = Result (M × M × ℕ)} (ok (from, to, n)) (ok (from, to, k))
copied_same n k from to e = rw e refl

module _ {F M : Type 0} (page : ℕ) (mapper : Mapper F M) (tables : Tables F M)
    (laws : IsTable page mapper tables) where
  copy_pages_full :
      (flags : F) (n src dst copied frame : ℕ) (from to : M)
      → src * page < usize_mod
      → dst * page < usize_mod
      → tables.translate (src * page) from ≡ some frame
      → tables.map_phys (dst * page) frame flags to ≡ none
      → copy_pages page mapper tables false flags (suc n) src dst copied (from, to)
        ≡ ok (from, to, copied)
  unfolding copy_pages source_frame page_address
  copy_pages_full flags n src dst copied frame from to hs hd first full =
      let at_src : src * page % usize_mod ≡ src * page = omega arith in
      let at_dst : dst * page % usize_mod ≡ dst * page = omega arith in
      rw (at_src, at_dst, first, full) refl

  copy_pages-suc :
      (flags : F) (n src dst copied frame : ℕ) (from to to1 : M)
      → src * page < usize_mod
      → dst * page < usize_mod
      → tables.translate (src * page) from ≡ some frame
      → tables.map_phys (dst * page) frame flags to ≡ some to1
      → copy_pages page mapper tables false flags (suc n) src dst copied (from, to)
        ≡ copy_pages page mapper tables false flags n (src + 1) (dst + 1) (copied + 1) (from, to1)
  unfolding copy_pages source_frame page_address
  copy_pages-suc flags n src dst copied frame from to to1 hs hd first room =
      let at_src : src * page % usize_mod ≡ src * page = omega arith in
      let at_dst : dst * page % usize_mod ≡ dst * page = omega arith in
      rw (at_src, at_dst, first, room) refl

  -- The loop of `copy_inner` stops where there is no frame for the tables, after `k` pages.
  copy_pages_lem :
      (flags : F) (n src dst copied : ℕ) (from to : M)
      → (src + n) * page < usize_mod
      → (dst + n) * page ≤ user_end_offset
      → 0 < page
      → Mapped page tables src n from
      → (to' : M) × (k : ℕ) × (copy_pages page mapper tables false flags n src dst copied (from, to)
          ≡ ok (from, to', copied + k))
        × (k ≤ n)
        × Mapped page tables dst k to'
        × SameFrames page tables src dst k from to'
        × ((n : ℕ)
            → n * page < user_end_offset
            → tables.translate (n * page) to' ≡ (
                if is_page dst k n
                then tables.translate (n * page) to'
                else tables.translate (n * page) to))
  unfolding copy_pages
  copy_pages_lem flags zero src dst copied from to hs hd pos there = (
    to,
    0,
    copied_same copied (copied + 0) from to (omega arith),
    omega arith,
    tt,
    tt,
    λ j lt. refl,
  )
  copy_pages_lem flags (suc n) src dst copied from to hs hd pos ((frame, first), rest) =
      let at_dst = page_below page dst n hd pos in
      let behind : (dst + 1 + n) * page ≤ user_end_offset = omega (arith, hd) in
      let below : dst * page < usize_mod = omega (arith, at_dst) in
      elim (Option-cases (tables.map_phys (dst * page) frame flags to)) [
        | inl full ↦
            let stop =
              copy_pages_full flags n src dst copied frame from to (omega arith) below first full in
            (
              to,
              0,
              stop ∙ copied_same copied (copied + 0) from to (omega arith),
              omega arith,
              tt,
              tt,
              λ j lt. refl,
            )
        | inr (to1, room) ↦
            let (to', k, e, le, mapped, same, others) =
              copy_pages_lem flags n (src + 1) (dst + 1) (copied + 1) from to1 (omega arith) behind
                pos rest in
            let new = laws.after_map dst frame flags to to1 at_dst room in
            let above = is_page_above (dst + 1) k dst (omega arith) in
            let kept : tables.translate (dst * page) to' ≡ some frame =
              ground (arith, others dst at_dst, new dst at_dst, above) in
            let step =
              copy_pages-suc flags n src dst copied frame from to to1 (omega arith) below first
                room in
            (
              to',
              suc k,
              step ∙ (e ∙ copied_same (copied + 1 + k) (copied + suc k) from to' (omega arith)),
              omega arith,
              ((frame, kept), mapped),
              (rw first kept, same),
              λ j lt. ground (arith, others j lt, new j lt),
            )
      ]

  -- Where `k` pages were mapped and are unmapped again, every page translates as before.
  undone_lem :
      (number n k : ℕ) (m : M) (j : ℕ)
      → k ≤ n
      → Unmapped page tables number n m
      → (if is_page number k j then none else tables.translate (j * page) m)
        ≡ tables.translate (j * page) m
  undone_lem number n zero m j le free = refl
  undone_lem number zero (suc k) m j le free = absurd (omega (arith, le))
  undone_lem number (suc n) (suc k) m j le (first, free) =
      let ih = undone_lem (number + 1) n k m j (omega (arith, le)) free in
      elim (Bool-cases (j == number)) [
        | inl e ↦ let same : j ≡ number = ground (arith, e) in rw e (ground (arith, same, first))
        | inr e ↦ rw e ih
      ]

  module _ {D : Type 0} (src dst count : ℕ) (flags : F) (desc : Option (GrantFileRef F D))
      (from to : M) where
    abbrev borrowed_grant : Grant F D
    borrowed_grant = record {
      region = pages_at page dst count;
      flags = flags;
      mapped = true;
      owned = false;
      allocator_owned = false;
      desc_opt = desc;
    }

    borrow_full :
        (to1 : M)
        → (dst + count) * page < usize_mod
        → copy_pages page mapper tables false flags count src dst 0 (from, to)
          ≡ ok (from, to1, count)
        → borrow page mapper tables src dst count flags desc (from, to)
          ≡ ok (from, to1, some borrowed_grant)
    unfolding borrow copy_inner page_region page_address
    borrow_full to1 hd e =
        let all : (count == count) ≡ true = ground arith in
        let start : dst * page % usize_mod ≡ dst * page = omega arith in
        let size : count * page % usize_mod ≡ count * page = omega arith in
        rw (e, all, start, size) refl

    borrow_short :
        (to1 to2 : M) (k : ℕ)
        → (k == count) ≡ false
        → copy_pages page mapper tables false flags count src dst 0 (from, to) ≡ ok (from, to1, k)
        → unmap_pages page mapper false k dst to1 ≡ ok to2
        → borrow page mapper tables src dst count flags desc (from, to) ≡ ok (from, to2, none)
    unfolding borrow copy_inner
    borrow_short to1 to2 k short e undo = rw (e, short, undo) refl

  -- `borrow` of pages that are mapped to pages of user space that are not never panics and leaves the
  -- source alone. Either each page of the destination translates to the frame of its page of the source,
  -- and every other page of user space as before, and there is a grant for exactly these pages; or the
  -- frames for the tables ran out, there is no grant, and every page of user space translates as before.
  -- The source ends below 2^64, and the page tables translate what was mapped in them.
  pub borrow_lem :
      {D : Type 0} (src dst count : ℕ) (flags : F) (desc : Option (GrantFileRef F D)) (from to : M)
      → (src + count) * page < usize_mod
      → (dst + count) * page ≤ user_end_offset
      → 0 < page
      → Mapped page tables src count from
      → Unmapped page tables dst count to
      → (to' : M) × (o : Option (Grant F D)) × (borrow page mapper tables src dst count flags desc
            (from, to)
          ≡ ok (from, to', o))
        × Borrowed page tables src dst count from to to' o
  borrow_lem src dst count flags desc from to hs hd pos there free =
      let (to1, k, e, le, mapped, same, others) =
        copy_pages_lem flags count src dst 0 from to hs hd pos there in
      elim (Bool-cases (k == count)) [
        | inl full ↦
            let all : count ≡ k = ground (arith, full) in
            let outside =
              subst
                (λ c.
                  (n : ℕ)
                  → n * page < user_end_offset
                  → tables.translate (n * page) to1 ≡ (
                      if is_page dst c n
                      then tables.translate (n * page) to1
                      else tables.translate (n * page) to))
                (sym all) others in
            (
              to1,
              some (borrowed_grant src dst count flags desc from to),
              borrow_full src dst count flags desc from to to1 (omega (arith, hd))
                  (e ∙ copied_same (0 + k) count from to1 (omega (arith, all))),
              (
                refl,
                subst (λ n. SameFrames page tables src dst n from to1) (sym all) same,
                λ n lt out. ground (arith, outside n lt, out),
              ),
            )
        | inr short ↦
            let fewer : (dst + k) * page ≤ (dst + count) * page =
              mul-le-mul_right page (omega (arith, le)) in
            let (to2, undo, back) =
              unmap_pages_lem page mapper tables laws false k dst to1 (omega (arith, fewer, hd)) pos
                mapped in
            (
              to2,
              none,
              borrow_short src dst count flags desc from to to1 to2 k short
                  (e ∙ copied_same (0 + k) k from to1 (omega arith)) undo,
              λ n lt. ground (arith, back n lt, others n lt, undone_lem dst count k to n le free),
            )
      ]
