-- ===== src/UserSlice/Listed.antt =====
-- A memory that keeps the list of the bytes written, the latest first. It never faults.
use redox_os_kernel.Prelude.{
  ℕ, zero, suc, ◌+◌, ◌≡◌, refl, sym, ap, true, some, List, [], ◌∷◌, ◌++◌, arith, length, take, drop,
  if◌then◌else◌, ◌==◌,
}
use redox_os_kernel.UserSlice.{UserMem}
use redox_os_kernel.UserSlice.Copies.{CopyLaws}

abbrev pub Bytes : Type 0
Bytes = List (ℕ × ℕ)

abbrev pub byte_at : ℕ → Bytes → ℕ
byte_at a [] = 0
byte_at a ((b, v) ∷ m) = if a == b then v else byte_at a m

abbrev pub load : ℕ → ℕ → Bytes → List ℕ
load base zero m = []
load base (suc n) m = byte_at base m ∷ load (base + 1) n m

abbrev pub store_all : ℕ → List ℕ → Bytes → Bytes
store_all base [] m = m
store_all base (v ∷ vs) m = store_all (base + 1) vs ((base, v) ∷ m)

abbrev pub listed : UserMem Bytes
listed = record {
  copy_from_user = λ base n m. some (load base n m);
  copy_to_user = λ base bytes m. (store_all base bytes m, true);
}

store_all-append :
    (base : ℕ) (xs ys : List ℕ) (m : Bytes)
    → store_all base (xs ++ ys) m ≡ store_all (base + length xs) ys (store_all base xs m)
store_all-append base [] ys m = let e : base + 0 ≡ base = omega arith in rw e
store_all-append base (x ∷ xs) ys m =
    let e : base + 1 + length xs ≡ base + suc (length xs) = omega arith in
    rw (sym e) (store_all-append (base + 1) xs ys ((base, x) ∷ m))

pub length-load : (base n : ℕ) (m : Bytes) → length (load base n m) ≡ n
length-load base zero m = refl
length-load base (suc n) m = ap suc (length-load (base + 1) n m)

take-load : (base a b : ℕ) (m : Bytes) → take a (load base (a + b) m) ≡ load base a m
take-load base zero b m = refl
take-load base (suc a) b m =
    let e : suc a + b ≡ suc (a + b) = omega arith in
    rw e (ap (◌∷◌ (byte_at base m)) (take-load (base + 1) a b m))

drop-load : (base a b : ℕ) (m : Bytes) → drop a (load base (a + b) m) ≡ load (base + a) b m
drop-load base zero b m =
    let e : base + 0 ≡ base = omega arith in let e' : 0 + b ≡ b = omega arith in rw (e, e')
drop-load base (suc a) b m =
    let e : base + 1 + a ≡ base + suc a = omega arith in
    let e' : suc a + b ≡ suc (a + b) = omega arith in rw (sym e, e') (drop-load (base + 1) a b m)

pub listed-CopyLaws : CopyLaws listed
listed-CopyLaws = record {
  to_user-append = λ base xs ys m. ap (λ x. (x, true)) (store_all-append base xs ys m);
  to_user-nil = λ base m. refl;
  from_user-nil = λ base m. refl;
  from_user-length = λ base n m bytes e. ground (arith, e, length-load base n m);
  from_user-split = λ base a b m bytes e.
      (ground (arith, e, take-load base a b m), ground (arith, e, drop-load base a b m));
}
