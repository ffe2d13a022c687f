-- ===== src/Schemes/Names.antt =====
-- The names of schemes, in the order of `str`.
use redox_os_kernel.Prelude.{
  ℕ, ◌≡◌, ◌↔◌, Bool, true, false, ◌&&◌, ◌||◌, List, [], ◌∷◌, arith, ltb, ◌==◌,
}
use redox_os_kernel.Btree.{Key}

abbrev pub Name : Type 0
Name = List ℕ

abbrev pub lt_name : Name → Name → Bool
lt_name xs [] = false
lt_name [] (y ∷ ys) = true
lt_name (x ∷ xs) (y ∷ ys) = ltb x y || (x == y && lt_name xs ys)

abbrev pub eq_name : Name → Name → Bool
eq_name [] [] = true
eq_name [] (y ∷ ys) = false
eq_name (x ∷ xs) [] = false
eq_name (x ∷ xs) (y ∷ ys) = x == y && eq_name xs ys

pub eq_name_iff : (xs ys : Name) → (eq_name xs ys ≡ true) ↔ (xs ≡ ys)
eq_name_iff [] [] = ground arith
eq_name_iff [] (y ∷ ys) = ground arith
eq_name_iff (x ∷ xs) [] = ground arith
eq_name_iff (x ∷ xs) (y ∷ ys) = ground (arith, eq_name_iff xs ys)

instance abbrev pub name_key : Key Name
name_key = record { lt_key = lt_name; eq_key = eq_name; eq_key_iff = eq_name_iff }
