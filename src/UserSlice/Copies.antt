-- ===== src/UserSlice/Copies.antt =====
-- What the copy routines of user memory keep to, and a copy of as many bytes as fit.
use redox_os_kernel.Prelude.{
  ℕ, ◌+◌, min, ◌≡◌, true, some, List, [], ◌++◌, ok, arith, length, take, drop, if◌then◌else◌,
  length-take, take-min,
}
use redox_os_kernel.UserSlice.{UserMem, UserSlice, copy_from_slice, copy_common_bytes_from_slice}
use redox_os_kernel.UserSlice.Bounds.{limit_lem}

-- What is documented of the copy routines: they copy byte after byte, so that a copy of two runs is
-- the copy of the one and then of the other; a copy of nothing succeeds.
pub record CopyLaws {M : Type 0} (mem : UserMem M) : Type 0 where
  pub to_user-append :
      (base : ℕ) (xs ys : List ℕ) (m : M)
      → mem.copy_to_user base (xs ++ ys) m ≡ (
          if (mem.copy_to_user base xs m).1
          then mem.copy_to_user (base + length xs) ys (mem.copy_to_user base xs m).0
          else mem.copy_to_user base xs m)
  pub to_user-nil : (base : ℕ) (m : M) → mem.copy_to_user base [] m ≡ (m, true)
  pub from_user-nil : (base : ℕ) (m : M) → mem.copy_from_user base 0 m ≡ some []
  pub from_user-length :
      (base n : ℕ) (m : M) (bytes : List ℕ)
      → mem.copy_from_user base n m ≡ some bytes
      → length bytes ≡ n
  pub from_user-split :
      (base a b : ℕ) (m : M) (bytes : List ℕ)
      → mem.copy_from_user base (a + b) m ≡ some bytes
      → (mem.copy_from_user base a m ≡ some (take a bytes))
        × (mem.copy_from_user (base + a) b m ≡ some (drop a bytes))

module _ {M : Type 0} (mem : UserMem M) where
  pub copy_common_lem :
      (s : UserSlice) (bytes : List ℕ) (m : M)
      → (mem.copy_to_user s.base (take s.len bytes) m).1 ≡ true
      → copy_common_bytes_from_slice mem s bytes m
        ≡ ((mem.copy_to_user s.base (take s.len bytes) m).0, ok (min s.len (length bytes)))
  unfolding copy_common_bytes_from_slice copy_from_slice
  copy_common_lem s bytes m e =
      let n = min s.len (length bytes) in
      ground (arith, e, limit_lem s n (omega arith), length-take n bytes, take-min s.len bytes)
