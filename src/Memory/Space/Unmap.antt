-- ===== src/Memory/Space/Unmap.antt =====
-- The loop of `Grant::unmap` of src/context/memory.rs, on pages that are mapped.
use native.Mathlib.Decide.{dec_lt, dec_le}
use native.Mathlib.Nat.{mul-lt-mul_of_pos_right, mul-le-mul_right, div-add-mod'}
use redox_os_kernel.Prelude.{
  ℕ, zero, suc, ◌+◌, ◌-◌, ◌*◌, ◌/◌, ◌%◌, ◌≤◌, ◌<◌, ◌≡◌, ◌∙◌, refl, Bool, true, false, ◌&&◌, none,
  some, leb, ltb, ◌==◌, ok, if◌then◌else◌, usize_mod, arith, add_usize,
}
use redox_os_kernel.Memory.Region.{Region, end_address}
use redox_os_kernel.Memory.Holes.Align.{Aligned, Aligned-add}
use redox_os_kernel.Memory.Grants.{Grant, user_end_offset}
use redox_os_kernel.Memory.Grants.Shape.{Fits, in_region}
use redox_os_kernel.Memory.Space.{Mapper, page_address, unmap_pages, unmap, first_page, page_count}
use redox_os_kernel.Memory.Space.Pages.{IsTable, is_page, Mapped}
use redox_os_kernel.Memory.Space.Copy.{Tables}

pub page_below :
    (page number n : ℕ)
    → (number + suc n) * page ≤ user_end_offset
    → 0 < page
    → number * page < user_end_offset
page_below page number n small pos =
    let less : number * page < (number + suc n) * page =
      mul-lt-mul_of_pos_right (omega arith) pos in
    omega (arith, less, small)

-- `n` pages are mapped if each of them is.
Mapped-of :
    {F M : Type 0} (page : ℕ) (tables : Tables F M) (number n : ℕ) (m : M)
    → ((k : ℕ)
        → number ≤ k
        → k < number + n
        → (frame : ℕ) × (tables.translate (k * page) m ≡ some frame))
    → Mapped page tables number n m
Mapped-of page tables number zero m h = tt
Mapped-of page tables number (suc n) m h = (
  h number (omega arith) (omega arith),
  Mapped-of page tables (number + 1) n m (λ k from to. h k (omega arith) (omega arith)),
)

is_page_lem : (number n k : ℕ) → is_page number n k ≡ leb number k && ltb k (number + n)
is_page_lem number zero k = ground arith
is_page_lem number (suc n) k = ground (arith, is_page_lem (number + 1) n k)

module _ {F M : Type 0} (page : ℕ) (mapper : Mapper F M) (tables : Tables F M)
    (laws : IsTable page mapper tables) where
  Mapped-without :
      (c number n : ℕ) (m m' : M)
      → c < number
      → (number + n) * page ≤ user_end_offset
      → 0 < page
      → ((k : ℕ)
          → k * page < user_end_offset
          → tables.translate (k * page) m'
            ≡ (if k == c then none else tables.translate (k * page) m))
      → Mapped page tables number n m
      → Mapped page tables number n m'
  Mapped-without c number zero m m' lt small pos same h = tt
  Mapped-without c number (suc n) m m' lt small pos same ((frame, first), rest) =
      let here : number * page < user_end_offset = page_below page number n small pos in
      (
        (frame, ground (arith, same number here, lt, first)),
        Mapped-without c (number + 1) n m m' (omega arith) (omega (arith, small)) pos same rest,
      )

  unmap_pages-suc :
      (free : Bool) (n number frame : ℕ) (m m1 : M)
      → number * page < usize_mod
      → mapper.unmap_phys (number * page) m ≡ some (frame, m1)
      → unmap_pages page mapper free (suc n) number m
        ≡ unmap_pages page mapper free n
            (number + 1)
            (if free then mapper.deallocate_frame frame m1 else m1)
  unfolding unmap_pages page_address
  unmap_pages-suc free n number frame m m1 small e =
      let address : number * page % usize_mod ≡ number * page = omega arith in rw (address, e) refl

  freed_lem :
      (free : Bool) (frame : ℕ) (m : M) (k : ℕ)
      → k * page < user_end_offset
      → tables.translate (k * page) (if free then mapper.deallocate_frame frame m else m)
        ≡ tables.translate (k * page) m
  freed_lem true frame m k lt = laws.after_deallocate frame m k lt
  freed_lem false frame m k lt = refl

  -- `n` pages that are mapped can be unmapped, and nothing else is.
  pub unmap_pages_lem :
      (free : Bool) (n number : ℕ) (m : M)
      → (number + n) * page ≤ user_end_offset
      → 0 < page
      → Mapped page tables number n m
      → (m' : M) × (unmap_pages page mapper free n number m ≡ ok m')
        × ((k : ℕ)
            → k * page < user_end_offset
            → tables.translate (k * page) m'
              ≡ (if is_page number n k then none else tables.translate (k * page) m))
  unfolding unmap_pages
  unmap_pages_lem free zero number m small pos there = (m, refl, λ k lt. refl)
  unmap_pages_lem free (suc n) number m small pos ((frame, first), rest) =
      let here = page_below page number n small pos in
      let behind : (number + 1 + n) * page ≤ user_end_offset = omega (arith, small) in
      let (m1, e, same) = laws.after_unmap number frame m here first in
      let m1' : M = if free then mapper.deallocate_frame frame m1 else m1 in
      let same' =
        (λ (k : ℕ) (lt : k * page < user_end_offset). freed_lem free frame m1 k lt ∙ same k lt) in
      let (m2, e2, same2) =
        unmap_pages_lem free n (number + 1) m1' behind pos
          (Mapped-without number (number + 1) n m m1' (omega arith) behind pos same' rest) in
      (
        m2,
        unmap_pages-suc free n number frame m m1 (omega (arith, here)) e ∙ e2,
        λ k lt. ground (arith, same' k lt, same2 k lt),
      )

whole : (page a : ℕ) → Aligned page a → a / page * page ≡ a
whole page a al = omega (arith, div-add-mod' a page)

-- The pages of an aligned region are those that start in it.
pages_in_lem :
    (page k : ℕ) (r : Region)
    → 0 < page
    → Fits page 0 user_end_offset r
    → is_page (first_page page r) (page_count page r) k ≡ in_region (k * page) r
unfolding first_page page_count end_address add_usize
pages_in_lem page k r pos f =
    let first = r.start / page in
    let last = (r.start + r.size) / page in
    let end_r : (r.start + r.size) % usize_mod ≡ r.start + r.size = omega (arith, f.2) in
    let at_start : first * page ≡ r.start = whole page r.start f.3 in
    let at_end : last * page ≡ r.start + r.size =
      whole page (r.start + r.size) (Aligned-add page r.start r.size f.3 f.4) in
    rw (end_r, is_page_lem first (last - first) k)
      (elim (dec_lt k first) [
        | yes below ↦
            let b : k * page < first * page = mul-lt-mul_of_pos_right below pos in
            ground (arith, b, at_start, below)
        | no from ↦
            let b : first * page ≤ k * page = mul-le-mul_right page (omega (arith, from)) in
            elim (dec_lt k last) [
              | yes to ↦
                  let c : k * page < last * page = mul-lt-mul_of_pos_right to pos in
                  ground (arith, b, c, at_start, at_end, from, to)
              | no behind ↦
                  let c : last * page ≤ k * page = mul-le-mul_right page (omega (arith, behind)) in
                  ground (arith, b, c, at_start, at_end, from, behind)
            ]
      ])

pages_end :
    (page : ℕ) (r : Region)
    → 0 < page
    → Fits page 0 user_end_offset r
    → (first_page page r + page_count page r) * page ≤ user_end_offset
unfolding first_page page_count end_address add_usize
pages_end page r pos f =
    let first = r.start / page in
    let last = (r.start + r.size) / page in
    let end_r : (r.start + r.size) % usize_mod ≡ r.start + r.size = omega (arith, f.2) in
    let at_start : first * page ≡ r.start = whole page r.start f.3 in
    let at_end : last * page ≡ r.start + r.size =
      whole page (r.start + r.size) (Aligned-add page r.start r.size f.3 f.4) in
    rw end_r (elim (dec_le first last) [
      | yes le ↦ let sum : first + (last - first) ≡ last = omega (arith, le) in rw (sum, at_end) f.2
      | no over ↦
          let more : last * page < first * page =
            mul-lt-mul_of_pos_right (omega (arith, over)) pos in
          absurd (omega (arith, more, at_start, at_end))
    ])

module _ {F M : Type 0} (page : ℕ) (mapper : Mapper F M) (tables : Tables F M)
    (laws : IsTable page mapper tables) where
  -- A region of which every page is mapped can be unmapped, and nothing else is.
  pub unmap_lem :
      {D : Type 0} (g : Grant F D) (m : M)
      → g.mapped ≡ true
      → 0 < page
      → Fits page 0 user_end_offset g.region
      → ((k : ℕ)
          → in_region (k * page) g.region ≡ true
          → (frame : ℕ) × (tables.translate (k * page) m ≡ some frame))
      → (m' : M) × (unmap page mapper g m ≡ ok m')
        × ((k : ℕ)
            → k * page < user_end_offset
            → tables.translate (k * page) m'
              ≡ (if in_region (k * page) g.region then none else tables.translate (k * page) m))
  unfolding unmap
  unmap_lem g m mapped pos f there =
      let first = first_page page g.region in
      let count = page_count page g.region in
      let last : (first + count) * page ≤ user_end_offset = pages_end page g.region pos f in
      let present = Mapped-of page tables first count m (λ k from to. there k (
        ground (arith, pages_in_lem page k g.region pos f, is_page_lem first count k, from, to))) in
      let (m', e, same) =
        unmap_pages_lem page mapper tables laws (g.owned && g.allocator_owned) count first m last
          pos present in
      (
        m',
        ground (arith, mapped, e),
        λ k lt. ground (arith, same k lt, pages_in_lem page k g.region pos f),
      )
