-- ===== src/Ptrace/Chunks.antt =====
-- src/ptrace.rs: the memory of a tracee, in pieces of a page each (`page_aligned_chunks`,
-- `context_memory`). The size `page` of a page is a parameter.
use native.Mathlib.Decide.{dec_lt, dec_le}
use native.Mathlib.Nat.{
  div-add-mod', mul-mod_left, add-mul-div_right, mod-lt, zero-mod, div-eq_of_lt,
}
use redox_os_kernel.Prelude.{
  ℕ, zero, suc, ◌+◌, ◌-◌, ◌*◌, ◌/◌, ◌%◌, ◌^◌, ◌≤◌, ◌<◌, ◌≡◌, refl, min, Bool, true, false, Option,
  none, some, List, [], ◌∷◌, ◌++◌, map, if◌then◌else◌, ltb, arith, saturating_add, sub_usize,
  usize_mod,
}
use redox_os_kernel.Memory.Grants.{user_end_offset}

-- `Some((start, len)).filter(|(_, len)| *len > 0)`, as a list.
unfoldable pub nonempty : ℕ → ℕ → List (ℕ × ℕ)
nonempty start len = if ltb 0 len then (start, len) ∷ [] else []

-- `n` rounds of `(start..).step_by(PAGE_SIZE).map(|off| (off, PAGE_SIZE))`.
unfoldable pub pages : ℕ → ℕ → ℕ → List (ℕ × ℕ)
pages page zero start = []
pages page (suc n) start = (start, page) ∷ pages page n (start + page)

unfoldable pub trim : ℕ → ℕ → ℕ
trim start len =
    if ltb user_end_offset (saturating_add start len) then user_end_offset - start else len

-- The whole pages and what is left of the last. `step_by` goes on while it is below the end: its
-- rounds are rounded up.
unfoldable pub later_chunks : ℕ → ℕ → ℕ → List (ℕ × ℕ)
unfolding nonempty pages
later_chunks page start len =
    let last_len = len % page in
    let whole = len - last_len in
    pages page ((whole + page - 1) / page) start ++ nonempty (start + whole) last_len

-- What follows the trim.
unfoldable pub chunks : ℕ → ℕ → ℕ → List (ℕ × ℕ)
unfolding nonempty later_chunks
chunks page start len =
    let first_len = min len (page - start % page) in
    nonempty start first_len ++ later_chunks page (start + first_len) (len - first_len)

unfoldable pub page_aligned_chunks : ℕ → ℕ → ℕ → List (ℕ × ℕ)
unfolding trim chunks
page_aligned_chunks page start len = chunks page start (trim start len)

-- `translate` gives the frame of a page and if it can be written, `virtual` is `phys_to_virt`.
unfoldable pub chunk_memory : ℕ → (ℕ → Option (ℕ × Bool)) → (ℕ → ℕ) → ℕ × ℕ → Option (ℕ × ℕ × Bool)
chunk_memory page translate virtual (addr, len) = elim (translate addr) [
  | none ↦ none
  | some (frame, writable) ↦ some (virtual frame + addr % page, len, writable)
]

unfoldable pub context_memory :
    ℕ → (ℕ → Option (ℕ × Bool)) → (ℕ → ℕ) → ℕ → ℕ → List (Option (ℕ × ℕ × Bool))
unfolding page_aligned_chunks chunk_memory
context_memory page translate virtual offset len =
    let end = min (saturating_add offset len) user_end_offset in
    map (chunk_memory page translate virtual)
      (page_aligned_chunks page offset (sub_usize end offset))

-- The pieces stand one behind the other from `a` to `b`, none of them empty and each in one page.
abbrev pub Tiles : ℕ → ℕ → ℕ → List (ℕ × ℕ) → Type 0
Tiles page a b [] = a ≡ b
Tiles page a b ((o, n) ∷ cs) = (o ≡ a) × (0 < n) × (o % page + n ≤ page) × Tiles page (a + n) b cs

Tiles-append :
    (page a b c : ℕ) (xs ys : List (ℕ × ℕ))
    → Tiles page a b xs
    → Tiles page b c ys
    → Tiles page a c (xs ++ ys)
Tiles-append page a b c [] ys h k = rw h k
Tiles-append page a b c ((o, n) ∷ xs) ys (e, pos, inside, h) k =
    (e, pos, inside, Tiles-append page (a + n) b c xs ys h k)

nonempty-Tiles :
    (page start len : ℕ)
    → start % page + len ≤ page
    → Tiles page start (start + len) (nonempty start len)
unfolding nonempty
nonempty-Tiles page start zero h = omega arith
nonempty-Tiles page start (suc len) h =
    let some_left : ltb 0 (suc len) ≡ true = ground arith in
    rw some_left (refl, omega arith, h, refl)

pages-Tiles :
    (page n k : ℕ) → 0 < page → Tiles page (k * page) ((k + n) * page) (pages page n (k * page))
unfolding pages
pages-Tiles page zero k pos = omega arith
pages-Tiles page (suc n) k pos =
    let tail = pages-Tiles page n (k + 1) pos in
    let step : (k + 1) * page ≡ k * page + page = omega arith in
    let end : (k + 1 + n) * page ≡ (k + suc n) * page = omega arith in
    (refl, pos, omega (arith, mul-mod_left k page), rw (← step, ← end) tail)

-- Rounding up changes nothing at a multiple.
rounds_up : (page n : ℕ) → 0 < page → (n * page + page - 1) / page ≡ n
rounds_up page n pos =
    let shift : n * page + page - 1 ≡ page - 1 + n * page = omega arith in
    let below : page - 1 < page = omega arith in
    let split = add-mul-div_right (page - 1) n pos in
    let small = div-eq_of_lt below in rw (shift, split, small) (omega arith)

later_chunks_none : (page start : ℕ) → 0 < page → later_chunks page start 0 ≡ []
unfolding later_chunks pages nonempty
later_chunks_none page start pos =
    let none_whole : 0 - 0 % page ≡ 0 = omega arith in
    let none_last : 0 % page ≡ 0 = zero-mod page in
    let no_round : (0 + page - 1) / page ≡ 0 = div-eq_of_lt (omega arith) in
    rw (none_last, no_round)

later_chunks-Tiles :
    (page k len : ℕ)
    → 0 < page
    → Tiles page (k * page) (k * page + len) (later_chunks page (k * page) len)
unfolding later_chunks
later_chunks-Tiles page k len pos =
    let n = len / page in
    let split : n * page + len % page ≡ len = div-add-mod' len page in
    let less = mod-lt len pos in
    let whole : len - len % page ≡ n * page = omega arith in
    let both : (k + n) * page ≡ k * page + n * page = omega arith in
    let end : k * page + len ≡ k * page + n * page + len % page = omega arith in
    let on_page : (k * page + n * page) % page ≡ 0 = rw (← both) (mul-mod_left (k + n) page) in
    let first : Tiles page (k * page) (k * page + n * page) (pages page n (k * page)) =
      rw (← both) (pages-Tiles page n k pos) in
    let last : Tiles page (k * page + n * page) (k * page + len)
        (nonempty (k * page + n * page) (len % page)) =
      rw end (nonempty-Tiles page (k * page + n * page) (len % page) (omega arith)) in
    rw (whole, rounds_up page n pos)
      (Tiles-append page (k * page) (k * page + n * page) (k * page + len) _ _ first last)

chunks-Tiles :
    (page start len : ℕ) → 0 < page → Tiles page start (start + len) (chunks page start len)
unfolding chunks
chunks-Tiles page start len pos = elim (dec_le len (page - start % page)) [
  | yes within ↦
      let first_len : min len (page - start % page) ≡ len = omega arith in
      let nothing : len - len ≡ 0 = omega arith in
      let first = nonempty-Tiles page start len (omega (arith, mod-lt start pos)) in
      rw (first_len, nothing, later_chunks_none page (start + len) pos)
        (Tiles-append page start (start + len) (start + len) _ [] first refl)
  | no past ↦
      let k = start / page + 1 in
      let n = page - start % page in
      let split = div-add-mod' start page in
      let less = mod-lt start pos in
      let first_len : min len n ≡ n = omega arith in
      let reached : start + n ≡ k * page = omega arith in
      let end : k * page + (len - n) ≡ start + len = omega arith in
      let first : Tiles page start (k * page) (nonempty start n) =
        rw (← reached) (nonempty-Tiles page start n (omega arith)) in
      let later : Tiles page (k * page) (start + len) (later_chunks page (k * page) (len - n)) =
        rw (← end) (later_chunks-Tiles page k (len - n) pos) in
      rw (first_len, reached) (Tiles-append page start (k * page) (start + len) _ _ first later)
]

trim_lem :
    (start len : ℕ)
    → start < 2 ^ 64
    → len < 2 ^ 64
    → trim start len ≡ min len (user_end_offset - start)
unfolding trim saturating_add
trim_lem start len hs hl = elim (dec_lt user_end_offset (start + len)) [
  | yes past ↦
      let over : ltb user_end_offset (min (start + len) (usize_mod - 1)) ≡ true = ground arith in
      rw over (omega arith)
  | no within ↦
      let under : ltb user_end_offset (min (start + len) (usize_mod - 1)) ≡ false = ground arith in
      rw under (omega arith)
]

-- The pieces of a range of a tracee's memory stand one behind the other from its start, none of them
-- empty and each in one page, and end at its end or at the end of the user's addresses; where the
-- range starts behind that, there are none.
pub page_aligned_chunks-Tiles :
    (page start len : ℕ)
    → 0 < page
    → start < 2 ^ 64
    → len < 2 ^ 64
    → Tiles page start
        (start + min len (user_end_offset - start))
        (page_aligned_chunks page start len)
unfolding page_aligned_chunks
page_aligned_chunks-Tiles page start len pos hs hl =
    rw (trim_lem start len hs hl) (chunks-Tiles page start (min len (user_end_offset - start)) pos)

-- The memory of a range of a tracee's addresses is that of the pieces which stand one behind the other
-- from its start to its end or the end of the user's addresses, none of them empty and each in one
-- page; where the range starts behind the user's addresses, it is empty, for the length that wraps
-- around is cut again.
pub context_memory-Tiles :
    (page : ℕ) (translate : ℕ → Option (ℕ × Bool)) (virtual : ℕ → ℕ) (offset len : ℕ)
    → 0 < page
    → offset < 2 ^ 64
    → len < 2 ^ 64
    → (cs : List (ℕ × ℕ)) × Tiles page offset (offset + min len (user_end_offset - offset)) cs
      × (context_memory page translate virtual offset len
          ≡ map (chunk_memory page translate virtual) cs)
unfolding context_memory saturating_add sub_usize
context_memory-Tiles page translate virtual offset len pos ho hl =
    let end = min (min (offset + len) (usize_mod - 1)) user_end_offset in
    let rest = (end + usize_mod - offset) % usize_mod in
    let cut : min rest (user_end_offset - offset) ≡ min len (user_end_offset - offset) =
      omega arith in
    let tiles = page_aligned_chunks-Tiles page offset rest pos ho (omega arith) in
    (page_aligned_chunks page offset rest, rw (← cut) tiles, refl)
