-- ===== src/Memory/Space/Mmap.antt =====
-- `mmap`: where a mapping goes, and what it leaves alone.
use redox_os_kernel.Prelude.{
  ℕ, ◌+◌, ◌*◌, ◌/◌, ◌%◌, ◌≤◌, ◌<◌, ◌≡◌, ◌≢◌, refl, subst, ◌∙◌, ◌||◌, Option, none, some, [], Result,
  ok, err, panic, arith, ◌==◌, usize_mod, inl, inr, Option-cases, Bool-cases,
}
use native.Mathlib.Nat.{mul-pos, mul-mod_left, div-add-mod'}
use redox_os_kernel.Memory.Region.{Region}
use redox_os_kernel.Memory.Holes.{find_free}
use redox_os_kernel.Memory.Holes.Align.{Aligned}
use redox_os_kernel.Memory.Grants.{Grant, user_end_offset, find_free_at}
use redox_os_kernel.Memory.Grants.Shape.{Fits, in_region, in_grants, overlapping}
use redox_os_kernel.Memory.Grants.Valid.{IsValid}
use redox_os_kernel.Memory.Grants.Update.{insert-IsValid}
use redox_os_kernel.Memory.Grants.Find.{find_free-Fits, find_free_at-Fits}
use redox_os_kernel.Memory.Space.{
  AddrSpace, MapFlags, PageFlags, mmap, mmap_at, mmap_placed, mmap_insert, mmap_region, page_flags,
  page_address,
}

-- A hinted range does not run past 2^64.
abbrev pub HintFits : ℕ → ℕ → Option ℕ → Type 0
HintFits page size none = Unit {0}
HintFits page size (some number) = page_address page number + size < usize_mod

abbrev pub pages_at : ℕ → ℕ → ℕ → Region
pages_at page number count = record { start = number * page; size = count * page }

-- The closure that `mmap` is given makes a grant for exactly the pages that it is asked for, or fails
-- with an error.
abbrev pub Placement : {F D : Type 0} → ℕ → ℕ → ℕ → Result (Grant F D) → Type 0
Placement page number count (ok g) = g.region ≡ pages_at page number count
Placement page number count (err e) = Unit {0}
Placement page number count panic = ⊥

abbrev pub Mapped : {F D M : Type 0} → ℕ → ℕ → AddrSpace F D M → AddrSpace F D M → Result ℕ → Type 0
Mapped page count s s' (ok number) =
    Fits page 0 user_end_offset (pages_at page number count)
    × (overlapping (pages_at page number count) s.grants.inner ≡ [])
    × ((a : ℕ)
        → in_grants a s'.grants.inner
          ≡ in_grants a s.grants.inner || in_region a (pages_at page number count))
Mapped page count s s' (err e) = s'.grants ≡ s.grants
Mapped page count s s' panic = ⊥

whole_pages : (page : ℕ) (r : Region) → Aligned page r.start → r.start / page * page ≡ r.start
whole_pages page r al = omega (arith, div-add-mod' r.start page)

module _ {F D M : Type 0} (page : ℕ) (big : 1 < page) where
  -- Whatever the hint, the region is aligned, in user space and shares no byte with a grant.
  mmap_region-Fits :
      (hint : Option ℕ) (count : ℕ) (flags : MapFlags) (s : AddrSpace F D M) {r : Region}
      → IsValid page s.grants
      → Aligned page s.mmap_min
      → 0 < count
      → count * page ≤ user_end_offset
      → HintFits page (count * page) hint
      → mmap_region page hint count flags s ≡ ok r
      → (r.size ≡ count * page)
        × Fits page 0 user_end_offset r
        × (overlapping r s.grants.inner ≡ [])
  unfolding mmap_region
  mmap_region-Fits none count flags s {r} v al n small hf e =
      let whole : count * page % usize_mod ≡ count * page = omega arith in
      let pos : 0 < count * page = mul-pos n (omega arith) in
      elim (Option-cases (find_free s.mmap_min (count * page % usize_mod) s.grants.holes)) [
        | inl f ↦ absurd (ground arith)
        | inr (q, f) ↦
            let same : q ≡ r = ground arith in
            let t =
              find_free-Fits page big s.grants s.mmap_min (count * page) {r = q} v al
                (mul-mod_left count page) pos (rw (← whole) f) in
            rw (← same) (t.0, t.2, t.3)
      ]
  mmap_region-Fits (some number) count flags s v al n small hf e =
      let whole : count * page % usize_mod ≡ count * page = omega arith in
      let pos : 0 < count * page = mul-pos n (omega arith) in
      find_free_at-Fits page big s.grants s.mmap_min (page_address page number) (count * page)
        flags.fixed_noreplace flags.fixed v al (mul-mod_left count page) pos hf (rw (← whole) e)

  mmap_region-ne-panic :
      (hint : Option ℕ) (count : ℕ) (flags : MapFlags) (s : AddrSpace F D M)
      → mmap_region page hint count flags s ≢ panic
  unfolding mmap_region find_free_at
  mmap_region-ne-panic none count flags s = ground arith
  mmap_region-ne-panic (some number) count flags s = ground arith

  mmap_placed_lem :
      (count number : ℕ) (s s' : AddrSpace F D M) (placed : Result (Grant F D))
      → s'.grants ≡ s.grants
      → Placement page number count placed
      → IsValid page s.grants
      → Fits page 0 user_end_offset (pages_at page number count)
      → overlapping (pages_at page number count) s.grants.inner ≡ []
      → let (s'', r) = mmap_placed page number s' placed in
        IsValid page s''.grants × Mapped page count s s'' r
  unfolding mmap_placed mmap_insert
  mmap_placed_lem count number s s' (ok g) same p v f o =
      let w : Fits page 0 user_end_offset g.region = rw p f in
      let (u, e, v', b) = insert-IsValid page big s.grants g v w (rw p o) in
      rw (same, e) (v', (f, o, λ a. b a ∙ rw p))
  mmap_placed_lem count number s s' (err e) same p v f o = (rw same v, same)
  mmap_placed_lem count number s s' panic same p v f o = absurd p

  mmap_at_lem :
      (count : ℕ) (f : F) (place : ℕ → F → M → M × Result (Grant F D)) (s : AddrSpace F D M)
      (found : Result Region)
      → ((number : ℕ) (m : M)
          → Fits page 0 user_end_offset (pages_at page number count)
          → Placement page number count (place number f m).1)
      → IsValid page s.grants
      → ((r : Region)
          → found ≡ ok r
          → (r.size ≡ count * page)
            × Fits page 0 user_end_offset r
            × (overlapping r s.grants.inner ≡ []))
      → found ≢ panic
      → let (s', r) = mmap_at page f place s found in
        IsValid page s'.grants × Mapped page count s s' r
  unfolding mmap_at
  mmap_at_lem count f place s (ok region) places v h np =
      let (size, fits, o) = h region refl in
      let number = region.start / page in
      let e : region ≡ pages_at page number count =
        ground (arith, whole_pages page region fits.3) in
      let here = subst (λ q. Fits page 0 user_end_offset q) e fits in
      mmap_placed_lem count number s (record s { table = (place number f s.table).0 })
        (place number f s.table).1 refl (places number s.table here) v here
        (subst (λ q. overlapping q s.grants.inner ≡ []) e o)
  mmap_at_lem count f place s (err e) places v h np = (v, refl)
  mmap_at_lem count f place s panic places v h np = absurd (np refl)

  -- `mmap` never panics and keeps the grants valid. Where it returns a page, the requested number of
  -- pages from there are in user space, shared no byte with a grant before the call, and become
  -- granted beside what was granted. Where it returns an error, the grants are untouched. This holds
  -- if the grants were valid, `mmap_min` is aligned, the size is that of user space at most, a hinted
  -- range ends below 2^64, and the closure, asked for pages in user space, makes a grant for
  -- them or fails with an error.
  pub mmap_lem :
      (api : PageFlags F) (hint : Option ℕ) (count : ℕ) (flags : MapFlags)
      (place : ℕ → F → M → M × Result (Grant F D)) (s : AddrSpace F D M)
      → ((number : ℕ) (f : F) (m : M)
          → Fits page 0 user_end_offset (pages_at page number count)
          → Placement page number count (place number f m).1)
      → IsValid page s.grants
      → Aligned page s.mmap_min
      → count * page ≤ user_end_offset
      → HintFits page (count * page) hint
      → let (s', r) = mmap page api hint count flags place s in
        IsValid page s'.grants × Mapped page count s s' r
  unfolding mmap
  mmap_lem api hint count flags place s places v al small hf = elim (Bool-cases (count == 0)) [
    | inl z ↦ rw z (v, refl)
    | inr nz ↦ rw nz (
        mmap_at_lem count (page_flags api flags) place s (mmap_region page hint count flags s)
          (λ number m. places number (page_flags api flags) m) v
          (λ r e. mmap_region-Fits hint count flags s {r = r} v al (ground arith) small hf e)
          (mmap_region-ne-panic hint count flags s))
  ]
