-- ===== src/UserSlice.antt =====
-- `UserSlice` of src/syscall/usercopy.rs: a checked range of user memory. The copy routines
-- `arch_copy_from_user` and `arch_copy_to_user` are assembly and are a parameter: they act on a
-- state `M`, and fail at a page fault.
mod Tests
pub mod Bounds
pub mod Copies
pub mod Listed
pub mod Chunks
use redox_os_kernel.Prelude.{
  ℕ, zero, suc, ◌+◌, ◌-◌, ◌*◌, ◌/◌, ◌%◌, ◌≤◌, min, ◌≡◌, Bool, true, false, not, ◌||◌, Option, none,
  some, List, [], ◌∷◌, Result, ok, err, panic, Errno, ok_or, expect, guard, ◌>>=◌, ◌>>◌, ltb, leb,
  ◌==◌, length, take, if◌then◌else◌, add_usize, sub_usize, saturating_add, map_ok,
}
use redox_os_kernel.Memory.Grants.{user_end_offset}

pub record UserMem (M : Type 0) : Type 0 where
  -- `len` bytes from `base` on, or a fault.
  pub copy_from_user : ℕ → ℕ → M → Option (List ℕ)
  -- The memory after the copy, which a fault may cut short, and whether all bytes were copied.
  pub copy_to_user : ℕ → List ℕ → M → M × Bool

pub record UserSlice : Type 0 where
  pub base : ℕ
  pub len : ℕ

unfoldable pub new : ℕ → ℕ → Result UserSlice
new base len =
    if leb user_end_offset base || leb user_end_offset (saturating_add base len)
    then err Errno.efault
    else ok (record { base = base; len = len })

unfoldable pub is_empty : UserSlice → Bool
is_empty s = s.len == 0

unfoldable pub split_at : UserSlice → ℕ → Option (UserSlice × UserSlice)
split_at s idx =
    if ltb s.len idx
    then none
    else some (
      record { base = s.base; len = idx },
      record { base = add_usize s.base idx; len = sub_usize s.len idx },
    )

unfoldable pub advance : UserSlice → ℕ → Option UserSlice
unfolding split_at
advance s by = elim (split_at s by) [ none ↦ none | some (l, r) ↦ some r ]

unfoldable pub limit : UserSlice → ℕ → Option UserSlice
unfolding split_at
limit s to = elim (split_at s to) [ none ↦ none | some (l, r) ↦ some l ]

unfoldable pub none_if_null : UserSlice → Option UserSlice
none_if_null s = if s.base == 0 then none else some s

-- `(0..len).step_by(chunk)`, from `i` on, in at most `fuel` steps.
variable_chunks_from : ℕ → UserSlice → ℕ → ℕ → Result (List UserSlice)
variable_chunks_from zero s chunk i = ok []
variable_chunks_from (suc fuel) s chunk i =
    let rest = variable_chunks_from fuel s chunk (i + chunk) in
    let next : Result (List UserSlice) = (do c ← expect (advance s i); cs ← rest; ok (c ∷ cs)) in
    if ltb i s.len then next else ok []

-- The iterator panics for a step of 0 and for an `advance` out of range.
unfoldable pub in_variable_chunks : UserSlice → ℕ → Result (List UserSlice)
unfolding variable_chunks_from advance
in_variable_chunks s chunk = if chunk == 0 then panic else variable_chunks_from s.len s chunk 0

exact_chunks_from : ℕ → UserSlice → ℕ → ℕ → Result (List UserSlice)
exact_chunks_from zero s chunk i = ok []
exact_chunks_from (suc n) s chunk i = do
  c ← expect (advance s (i * chunk))
  d ← expect (limit c chunk)
  cs ← exact_chunks_from n s chunk (i + 1)
  ok (d ∷ cs)

unfoldable pub in_exact_chunks : UserSlice → ℕ → Result (List UserSlice)
unfolding exact_chunks_from advance limit
in_exact_chunks s chunk = if chunk == 0 then panic else exact_chunks_from (s.len / chunk) s chunk 0

module _ {M : Type 0} (mem : UserMem M) where
  -- `copy_to_slice` into a buffer of `n` bytes.
  unfoldable pub copy_to_slice : UserSlice → ℕ → M → Result (List ℕ)
  copy_to_slice s n m =
      if s.len == n
      then ok_or (mem.copy_from_user s.base s.len m) Errno.efault
      else err Errno.einval

  -- `read_exact`, `read_usize`, `read_u32` and `read_u64`, at the size `n` of the value.
  unfoldable pub read_exact : UserSlice → ℕ → M → Result (List ℕ)
  unfolding limit copy_to_slice
  read_exact s n m = do l ← ok_or (limit s n) Errno.einval; copy_to_slice l n m

  -- `copy_common_bytes_to_slice` into a buffer of `n` bytes.
  unfoldable pub copy_common_bytes_to_slice : UserSlice → ℕ → M → Result (List ℕ)
  unfolding limit copy_to_slice
  copy_common_bytes_to_slice s n m = do
    l ← expect (limit s (min s.len n))
    copy_to_slice l (min s.len n) m

  unfoldable pub copy_from_slice : UserSlice → List ℕ → M → M × Result (Unit {0})
  copy_from_slice s bytes m =
      if s.len == length bytes
      then (let (m', done) = mem.copy_to_user s.base bytes m in
          (m', if done then ok tt else err Errno.efault))
      else (m, err Errno.einval)

  unfoldable pub copy_limited : Option UserSlice → Result ℕ → List ℕ → M → M × Result ℕ
  copy_limited none out bytes m = (m, out)
  copy_limited (some l) out bytes m =
      let (m', r) = copy_from_slice l bytes m in (m', map_ok (λ _. length bytes) r)

  unfoldable pub copy_common_bytes_from_slice : UserSlice → List ℕ → M → M × Result ℕ
  unfolding limit copy_from_slice copy_limited
  copy_common_bytes_from_slice s bytes m =
      let n = min s.len (length bytes) in copy_limited (limit s n) panic (take n bytes) m

  -- `copy_exactly`, `write_usize`, `write_u32` and `write_u64`.
  unfoldable pub copy_exactly : UserSlice → List ℕ → M → M × Result ℕ
  unfolding limit copy_from_slice copy_limited
  copy_exactly s bytes m = copy_limited (limit s (length bytes)) (err Errno.einval) bytes m

-- `validate_region`, at a page size `page`: the number of the first page, and how many there are.
unfoldable pub validate_region : ℕ → ℕ → ℕ → Result (ℕ × ℕ)
validate_region page address size =
    if not (address % page == 0) || not (size % page == 0) || size == 0
    then err Errno.einval
    else if ltb user_end_offset (saturating_add address size)
    then err Errno.efault
    else ok (address / page, size / page)
