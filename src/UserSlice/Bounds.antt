-- ===== src/UserSlice/Bounds.antt =====
-- Slices of user memory stay in user memory.
use redox_os_kernel.Prelude.{
  ℕ, ◌+◌, ◌-◌, ◌*◌, ◌/◌, ◌%◌, ◌≤◌, ◌<◌, ◌≡◌, refl, ◌⊎◌, ◌≢◌, none, some, ok, err, Errno, arith,
  usize_mod, saturating_add, add_usize, sub_usize, inl, inr,
}
use native.Mathlib.Decide.{dec_lt, ℕ_discrete}
use native.Mathlib.Nat.{div-add-mod'}
use redox_os_kernel.Memory.Grants.{user_end_offset}
use redox_os_kernel.UserSlice.{UserSlice, new, split_at, advance, limit, validate_region}

-- The slice ends below the end of user space.
abbrev pub IsUser : UserSlice → Type 0
IsUser s = s.base + s.len < user_end_offset

-- `UserSlice::new` accepts exactly the ranges of `usize` values that end below the end of user space,
-- and gives EFAULT for every other.
pub new_lem :
    (base len : ℕ)
    → base < usize_mod
    → len < usize_mod
    → ((base + len < user_end_offset) × (new base len ≡ ok (record { base = base; len = len })))
      ⊎ ((user_end_offset ≤ base + len) × (new base len ≡ err Errno.efault))
unfolding new saturating_add
new_lem base len hb hl = elim (dec_lt (base + len) user_end_offset) [
  | yes p ↦ inl (p, ground arith)
  | no p ↦ inr (omega arith, ground arith)
]

-- `split_at` cuts a slice of user memory into two that lie one behind the other, and makes up its
-- length; it fails exactly for an index past the end.
pub split_at_lem :
    (s : UserSlice) (idx : ℕ)
    → IsUser s
    → ((idx ≤ s.len)
        × (l : UserSlice) × (r : UserSlice) × (split_at s idx ≡ some (l, r))
        × (l.base ≡ s.base)
        × (l.len ≡ idx)
        × (r.base ≡ l.base + l.len)
        × (r.base + r.len ≡ s.base + s.len))
      ⊎ ((s.len < idx) × (split_at s idx ≡ none))
unfolding split_at add_usize sub_usize
split_at_lem s idx h = elim (dec_lt s.len idx) [
  | yes p ↦ inr (p, ground arith)
  | no p ↦ inl (
    omega arith,
    record { base = s.base; len = idx },
    record { base = s.base + idx; len = s.len - idx },
    ground arith,
    refl,
    refl,
    refl,
    omega arith,
  )
]

pub advance_lem :
    (s : UserSlice) (n : ℕ)
    → IsUser s
    → n ≤ s.len
    → advance s n ≡ some (record { base = s.base + n; len = s.len - n })
unfolding advance add_usize sub_usize
advance_lem s n h le = ground arith

pub limit_lem :
    (s : UserSlice) (n : ℕ) → n ≤ s.len → limit s n ≡ some (record { base = s.base; len = n })
unfolding limit
limit_lem s n le = ground arith

-- `validate_region` accepts exactly the non-empty ranges of whole pages that end in user space, and
-- gives the pages that make up the range; it gives EINVAL where the range is empty or not of whole
-- pages, and else EFAULT.
pub validate_region_lem :
    (page address size : ℕ)
    → address < usize_mod
    → size < usize_mod
    → (((address % page ≡ 0) × (size % page ≡ 0) × (0 < size) × (address + size ≤ user_end_offset))
        × (number : ℕ) × (count : ℕ) × (validate_region page address size ≡ ok (number, count))
        × (number * page ≡ address)
        × (count * page ≡ size))
      ⊎ (((address % page ≢ 0) ⊎ (size % page ≢ 0) ⊎ (size ≡ 0))
          × (validate_region page address size ≡ err Errno.einval))
      ⊎ (((address % page ≡ 0)
            × (size % page ≡ 0)
            × (0 < size)
            × (user_end_offset < address + size))
          × (validate_region page address size ≡ err Errno.efault))
unfolding validate_region saturating_add
validate_region_lem page address size ha hs = elim (ℕ_discrete (address % page) 0) [
  | no p ↦ inr (inl (inl p, ground arith))
  | yes p ↦ elim (ℕ_discrete (size % page) 0) [
    | no q ↦ inr (inl (inr (inl q), ground arith))
    | yes q ↦ elim (ℕ_discrete size 0) [
      | yes z ↦ inr (inl (inr (inr z), ground arith))
      | no z ↦ elim (dec_lt user_end_offset (address + size)) [
        | yes far ↦ inr (inr ((p, q, omega arith, far), ground arith))
        | no near ↦ inl (
          (p, q, omega arith, omega arith),
          address / page,
          size / page,
          ground arith,
          omega (arith, div-add-mod' address page),
          omega (arith, div-add-mod' size page),
        )
      ]
    ]
  ]
]
