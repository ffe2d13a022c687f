-- ===== src/Users/Capture.antt =====
-- Where `capture_inner` of src/scheme/user.rs puts the parts of a buffer of the caller in the memory of
-- the handler, and what `release_inner` unmaps: the head and the tail of the buffer, which share their
-- pages with other data, are copied into pages of the kernel, and the whole pages between are borrowed.
use native.Mathlib.Decide.{dec_le}
use native.Mathlib.Nat.{div-add-mod', mod-lt, div-eq_of_lt-le, div-eq_of_lt}
use redox_os_kernel.Prelude.{
  ℕ, zero, suc, ◌+◌, ◌-◌, ◌*◌, ◌/◌, ◌%◌, ◌≤◌, ◌<◌, ◌≡◌, ◌⊎◌, subst, refl, min, inl, inr, true, ltb,
  ◌==◌, if◌then◌else◌, arith, Bool-cases,
}

-- The first page, how many pages there are, and the offset in the first one.
unfoldable pub page_range_containing : ℕ → ℕ → ℕ → ℕ × ℕ × ℕ
page_range_containing page base size =
    let offset = base - base / page * page in
    (base / page, (size + offset + page - 1) / page, offset)

pub record Parts : Type 0 where
  pub page_count : ℕ
  pub base : ℕ
  pub head : ℕ
  pub first_dst : ℕ
  pub middle_dst : ℕ
  pub middle_src : ℕ
  pub middle_count : ℕ
  pub tail_dst : ℕ
  pub tail : ℕ

-- The parts for a head of `head` bytes, in a region at `free`.
unfoldable pub parts_from : ℕ → ℕ → ℕ → ℕ → ℕ → ℕ → ℕ → Parts
parts_from page src_page page_count offset len free head =
    let middle_tail = len - head in
    let first_dst = free / page in
    let middle_dst = if ltb 0 head then first_dst + 1 else first_dst in
    let middle_src = if ltb 0 head then src_page + 1 else src_page in
    let middle_count = middle_tail / page in
    record {
      page_count = page_count;
      base = free + offset;
      head = head;
      first_dst = first_dst;
      middle_dst = middle_dst;
      middle_src = middle_src;
      middle_count = middle_count;
      tail_dst = middle_dst + middle_count;
      tail = middle_tail % page;
    }

-- For a buffer of `len` bytes at `address`, and a free region of the handler at `free`.
unfoldable pub parts : ℕ → ℕ → ℕ → ℕ → Parts
unfolding page_range_containing parts_from
parts page address len free =
    let (src_page, page_count, offset) = page_range_containing page address len in
    let align_offset = if offset == 0 then 0 else page - offset in
    parts_from page src_page page_count offset len free (min align_offset len)

-- How many pages a part of so many bytes takes, if it is copied.
abbrev pub copied_pages : ℕ → ℕ
copied_pages n = if ltb 0 n then 1 else 0

-- Rounded up to whole pages, a rest takes one page more.
ceil_lem :
    (page m rest x : ℕ)
    → rest < page
    → x ≡ m * page + rest
    → (x + page - 1) / page ≡ m + copied_pages rest
ceil_lem page m zero x lt e = div-eq_of_lt-le page (omega arith) (omega arith)
ceil_lem page m (suc rest) x lt e =
    let one_more : m + copied_pages (suc rest) ≡ m + 1 = ground arith in
    rw one_more (div-eq_of_lt-le page (omega arith) (omega arith))

abbrev pub Laid : ℕ → ℕ → ℕ → Parts → Type 0
Laid page address len p =
    (p.head + p.middle_count * page + p.tail ≡ len)
    × (p.middle_dst ≡ p.first_dst + copied_pages p.head)
    × (p.tail_dst ≡ p.middle_dst + p.middle_count)
    × (p.tail_dst + copied_pages p.tail ≡ p.first_dst + p.page_count)
    × ((p.head ≡ len) ⊎ (p.middle_src * page ≡ address + p.head))

-- How long the head is, at an offset `o` in the first page.
abbrev HeadFits : ℕ → ℕ → ℕ → ℕ → Type 0
HeadFits page o len head =
    ((o ≡ 0) × (head ≡ 0))
    ⊎ ((0 < head) × (head ≡ len) × (len ≤ page - o))
    ⊎ ((0 < head) × (head ≡ page - o) × (page - o < len))

head_fits :
    (page o len : ℕ)
    → 0 < len
    → o < page
    → HeadFits page o len (min (if o == 0 then 0 else page - o) len)
head_fits page o len some_bytes small = elim (Bool-cases (o == 0)) [
  | inl e ↦ rw e (inl (ground (arith, e), omega arith))
  | inr e ↦ rw e (elim (dec_le len (page - o)) [
    | yes short ↦ inr (inl (omega arith, omega arith, short))
    | no long ↦ inr (inr (omega arith, omega arith, omega (arith, long)))
  ])
]

parts_from_lem :
    (page q o len k head : ℕ)
    → o < page
    → 0 < len
    → HeadFits page o len head
    → Laid page
        (q * page + o)
        len
        (parts_from page q ((len + o + page - 1) / page) o len (k * page) head)
unfolding parts_from
parts_from_lem page q o len k head lt some_bytes fits =
    let n = (len - head) / page in
    let t = (len - head) % page in
    let split : n * page + t ≡ len - head = div-add-mod' (len - head) page in
    let less : t < page = mod-lt (len - head) (omega arith) in
    elim fits [
      | inl (aligned, none_copied) ↦
          let count = ceil_lem page n t (len + o) less (omega arith) in
          (omega arith, ground arith, refl, ground (arith, count), inr (ground arith))
      | inr (inl (pos, whole, short)) ↦
          let none_left : len - head ≡ 0 = omega arith in
          let n_zero : n ≡ 0 = rw none_left (div-eq_of_lt (omega arith)) in
          let t_zero : t ≡ 0 = omega arith in
          let count : (len + o + page - 1) / page ≡ 1 =
            div-eq_of_lt-le page (omega arith) (omega arith) in
          (omega arith, ground arith, refl, ground (arith, count, n_zero, t_zero), inl whole)
      | inr (inr (pos, first, long)) ↦
          let positive : ltb 0 head ≡ true = ground (arith, pos) in
          let count = ceil_lem page (n + 1) t (len + o) less (omega arith) in
          (
            omega arith,
            ground arith,
            refl,
            ground (arith, count),
            inr (rw positive (omega (arith, first))),
          )
    ]

-- For every buffer that is not empty, and a region from a page `k` on: the parts are its bytes in order, in
-- consecutive pages from the start of the region, as many as the region has; unless the head is the whole
-- buffer, the page that the middle is borrowed from is where the head ends; and what `release_inner`
-- computes to unmap is exactly the region.
pub parts_lem :
    (page address len k : ℕ)
    → 0 < page
    → 0 < len
    → let p = parts page address len (k * page) in
      Laid page address len p
      × (page_range_containing page p.base len ≡ (k, p.page_count, p.base - k * page))
unfolding parts parts_from page_range_containing
parts_lem page address len k pos some_bytes =
    let q = address / page in
    let split = div-add-mod' address page in
    let less = mod-lt address pos in
    let o = address - q * page in
    let small : o < page = omega arith in
    let head = min (if o == 0 then 0 else page - o) len in
    let fits : HeadFits page o len head = head_fits page o len some_bytes small in
    let laid = parts_from_lem page q o len k head small some_bytes fits in
    let address_again : q * page + o ≡ address = omega arith in
    let base : (k * page + o) / page ≡ k = div-eq_of_lt-le page (omega arith) (omega arith) in
    let back : k * page + o - k * page ≡ o = omega arith in
    (
      subst (λ a. Laid page a len (parts page address len (k * page))) address_again laid,
      rw (base, back) refl,
    )
