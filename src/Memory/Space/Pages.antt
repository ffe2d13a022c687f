-- ===== src/Memory/Space/Pages.antt =====
-- The page tables of crate `rmm`, as the kernel relies on them, and pages that are mapped in them.
use redox_os_kernel.Prelude.{
  ℕ, zero, suc, ◌+◌, ◌*◌, ◌<◌, ◌≡◌, refl, Bool, true, false, Option, none, some, ◌==◌,
  if◌then◌else◌, arith,
}
use redox_os_kernel.Memory.Grants.{Grant, user_end_offset}
use redox_os_kernel.Memory.Space.{Mapper}
use redox_os_kernel.Memory.Space.Mmap.{pages_at}
use redox_os_kernel.Memory.Space.Copy.{Tables}

-- What the kernel relies on of the page tables, on the pages of user space by their numbers: a page
-- that is mapped translates to its frame and the others as before; a page that is there can be
-- unmapped, and then does not translate; to give a frame back leaves the pages as they are.
pub record IsTable {F M : Type 0} (page : ℕ) (mapper : Mapper F M) (tables : Tables F M)
    : Type 0 where
  pub after_map :
      (number frame : ℕ) (flags : F) (m m' : M)
      → number * page < user_end_offset
      → tables.map_phys (number * page) frame flags m ≡ some m'
      → (n : ℕ) → n * page < user_end_offset
      → tables.translate (n * page) m'
        ≡ (if n == number then some frame else tables.translate (n * page) m)
  pub after_unmap :
      (number frame : ℕ) (m : M)
      → number * page < user_end_offset
      → tables.translate (number * page) m ≡ some frame
      → (m' : M) × (mapper.unmap_phys (number * page) m ≡ some (frame, m'))
        × ((n : ℕ)
            → n * page < user_end_offset
            → tables.translate (n * page) m'
              ≡ (if n == number then none else tables.translate (n * page) m))
  pub after_deallocate :
      (frame : ℕ) (m : M) (n : ℕ)
      → n * page < user_end_offset
      → tables.translate (n * page) (mapper.deallocate_frame frame m)
        ≡ tables.translate (n * page) m

-- If a page is one of `n` pages from `number` on.
abbrev pub is_page : ℕ → ℕ → ℕ → Bool
is_page number zero k = false
is_page number (suc n) k = if k == number then true else is_page (number + 1) n k

pub is_page_above : (number n k : ℕ) → k < number → is_page number n k ≡ false
is_page_above number zero k lt = refl
is_page_above number (suc n) k lt = ground (arith, lt, is_page_above (number + 1) n k (omega arith))

module _ {F M : Type 0} (page : ℕ) (tables : Tables F M) where
  -- The frames of the pages of the source, one behind the other, where all are mapped.
  abbrev pub Mapped : ℕ → ℕ → M → Type 0
  Mapped number zero m = Unit {0}
  Mapped number (suc n) m =
      ((frame : ℕ) × (tables.translate (number * page) m ≡ some frame)) × Mapped (number + 1) n m

  -- The pages from `dst` on translate as those from `src` on.
  abbrev pub SameFrames : ℕ → ℕ → ℕ → M → M → Type 0
  SameFrames src dst zero from to = Unit {0}
  SameFrames src dst (suc n) from to =
      (tables.translate (dst * page) to ≡ tables.translate (src * page) from)
      × SameFrames (src + 1) (dst + 1) n from to

  -- None of the pages is mapped.
  abbrev pub Unmapped : ℕ → ℕ → M → Type 0
  Unmapped number zero m = Unit {0}
  Unmapped number (suc n) m =
      (tables.translate (number * page) m ≡ none) × Unmapped (number + 1) n m

  -- What `borrow` comes to: the grant for the pages, or nothing has changed.
  abbrev pub Borrowed : {D : Type 0} → ℕ → ℕ → ℕ → M → M → M → Option (Grant F D) → Type 0
  Borrowed src dst count from to to' none =
      (n : ℕ)
      → n * page < user_end_offset
      → tables.translate (n * page) to' ≡ tables.translate (n * page) to
  Borrowed src dst count from to to' (some g) =
      (g.region ≡ pages_at page dst count)
      × SameFrames src dst count from to'
      × ((n : ℕ)
          → n * page < user_end_offset
          → is_page dst count n ≡ false
          → tables.translate (n * page) to' ≡ tables.translate (n * page) to)
