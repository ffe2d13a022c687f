-- ===== src/Prelude/Results.antt =====
-- Results of kernel calls: a value, an error code (`syscall::error`), or a panic of the kernel
-- (`assert!`, `expect`, `unreachable!`, an index out of bounds).
use mathlib.Core.Bool.{Bool, true, false}
use mathlib.Core.Path.{◌≡◌, refl}
use mathlib.Core.Logic.{◌⊎◌, inl, inr}
use mathlib.Core.Option.{Option, none, some}

-- The codes that the modelled files name.
pub data Errno : Type 0 where
  eacces eagain ebadf eexist efault eintr einval enodev enoent enomem enotempty eopnotsupp : Errno
  enametoolong eoverflow eperm epipe esrch espipe emfile exdev eio echild : Errno

pub data Result {ℓ} (A : Type ℓ) : Type ℓ where
  ok : A → Result A
  err : Errno → Result A
  panic : Result A

infixl 5 ◌>>=◌ ◌>>◌
abbrev pub ◌>>=◌ {ℓ κ} : {A : Type ℓ} {B : Type κ} → Result A → (A → Result B) → Result B
ok a >>= f = f a
err e >>= f = err e
panic >>= f = panic

abbrev pub ◌>>◌ {ℓ} : {B : Type ℓ} → Result (Unit {0}) → Result B → Result B
m >> k = m >>= λ _. k

-- `.ok_or(Error::new(e))?`
abbrev pub ok_or {ℓ} : {A : Type ℓ} → Option A → Errno → Result A
ok_or none e = err e
ok_or (some a) e = ok a

-- `.expect(...)`, `.unwrap()`
abbrev pub expect {ℓ} : {A : Type ℓ} → Option A → Result A
expect none = panic
expect (some a) = ok a

-- `if !test { return Err(Error::new(e)); }`
abbrev pub guard : Bool → Errno → Result (Unit {0})
guard true e = ok tt
guard false e = err e

-- `assert!(test)`
abbrev pub assert : Bool → Result (Unit {0})
assert true = ok tt
assert false = panic

-- `.map(f)`
abbrev pub map_ok {ℓ κ} : {A : Type ℓ} {B : Type κ} → (A → B) → Result A → Result B
map_ok f (ok a) = ok (f a)
map_ok f (err e) = err e
map_ok f panic = panic

pub Result-cases {ℓ} :
    {A : Type ℓ} (r : Result A) → ((a : A) × (r ≡ ok a)) ⊎ ((e : Errno) × (r ≡ err e)) ⊎ (r ≡ panic)
Result-cases (ok a) = inl (a, refl)
Result-cases (err e) = inr (inl (e, refl))
Result-cases panic = inr (inr refl)
