-- ===== src/Processes/Masks.antt =====
-- `sigprocmask` and `sigreturn` of src/syscall/process.rs. The mask of a context is two words; `none` for
-- the current context is ESRCH. How a word lies in memory is a parameter, as are the numbers of crate
-- syscall.
use redox_os_kernel.Prelude.{
  ℕ, ◌-◌, ◌^◌, ◌≡◌, ◌≢◌, ◌⊎◌, inl, inr, true, Option, none, some, List, ◌==◌, if◌then◌else◌,
  bit_and, bit_or, Result, ok, err, panic, Errno, ◌>>=◌, arith, map_ok, Result-cases,
}
use redox_os_kernel.Contexts.{Context, block}
use redox_os_kernel.UserSlice.{UserMem, UserSlice, split_at, copy_exactly, read_exact}

abbrev pub Mask : Type 0
Mask = ℕ × ℕ

pub record How : Type 0 where
  pub sig_block : ℕ
  pub sig_unblock : ℕ
  pub sig_setmask : ℕ
  pub to_bytes : ℕ → List ℕ
  pub of_bytes : List ℕ → ℕ

-- `!word`
abbrev pub complement_word : ℕ → ℕ
complement_word n = 2 ^ 64 - 1 - n

-- The mask that is asked for, on one of its words.
unfoldable pub new_word : How → ℕ → ℕ → ℕ → Result ℕ
new_word api how old arg =
    if how == api.sig_block
    then ok (bit_or old arg)
    else if how == api.sig_unblock
    then ok (bit_and old (complement_word arg))
    else if how == api.sig_setmask
    then ok arg
    else err Errno.einval

module _ {M : Type 0} (api : How) (mem : UserMem M) where
  unfoldable pub write_old : Mask → Option UserSlice → M → M × Result (Unit {0})
  unfolding split_at copy_exactly
  write_old mask none m = (m, ok tt)
  write_old mask (some dst) m = elim (split_at dst 8) [
    | none ↦ (m, err Errno.einval)
    | some (lo, hi) ↦
        let (m1, r1) = copy_exactly mem lo (api.to_bytes mask.0) m in
        let (m2, r2) = copy_exactly mem hi (api.to_bytes mask.1) m1 in
        elim r1 [ ok n ↦ (m2, map_ok (λ n. tt) r2) | err e ↦ (m1, err e) | panic ↦ (m1, panic) ]
  ]

  unfoldable pub read_new : ℕ → Mask → Option UserSlice → M → Result Mask
  unfolding split_at read_exact new_word
  read_new how mask none m = ok mask
  read_new how mask (some src) m = elim (split_at src 8) [
    | none ↦ err Errno.einval
    | some (lo, hi) ↦ do
      lo_arg ← read_exact mem lo 8 m
      hi_arg ← read_exact mem hi 8 m
      new_lo ← new_word api how mask.0 (api.of_bytes lo_arg)
      new_hi ← new_word api how mask.1 (api.of_bytes hi_arg)
      ok (new_lo, new_hi)
  ]

  unfoldable pub sigprocmask :
      ℕ
      → Option UserSlice
      → Option UserSlice
      → Option Mask
      → M
      → Option Mask × M × Result (Unit {0})
  unfolding write_old read_new
  sigprocmask how mask_opt oldmask_opt none m = (none, m, err Errno.esrch)
  sigprocmask how mask_opt oldmask_opt (some mask) m =
      let (m', written) = write_old mask oldmask_opt m in
      let next = read_new how mask mask_opt m' in
      elim written [
        | err e ↦ (some mask, m', err e)
        | panic ↦ (some mask, m', panic)
        | ok u ↦ elim next [
          | ok mask' ↦ (some mask', m', ok tt)
          | err e ↦ (some mask, m', err e)
          | panic ↦ (some mask, m', panic)
        ]
      ]

  -- Where `sigprocmask` fails the mask is as before, and where it succeeds the mask is the one that is read
  -- after the old one is written.
  pub sigprocmask_lem :
      (how : ℕ) (mask_opt oldmask_opt : Option UserSlice) (mask : Mask) (m : M)
      → let (mask', m', r) = sigprocmask how mask_opt oldmask_opt (some mask) m in
        ((mask' ≡ some mask) × (r ≢ ok tt))
        ⊎ ((next : Mask) × (r ≡ ok tt)
            × (mask' ≡ some next)
            × (read_new how mask mask_opt (write_old mask oldmask_opt m).0 ≡ ok next))
  unfolding sigprocmask
  sigprocmask_lem how mask_opt oldmask_opt mask m =
      let (m', written) = write_old mask oldmask_opt m in
      elim (Result-cases written) [
        | inr (inl (x, failed)) ↦ inl (ground (arith, failed), λ e. ground (arith, failed, e))
        | inr (inr failed) ↦ inl (ground (arith, failed), λ e. ground (arith, failed, e))
        | inl (u, done) ↦ elim (Result-cases (read_new how mask mask_opt m')) [
          | inr (inl (x, failed)) ↦
              inl (ground (arith, done, failed), λ e. ground (arith, done, failed, e))
          | inr (inr failed) ↦
              inl (ground (arith, done, failed), λ e. ground (arith, done, failed, e))
          | inl (next, got) ↦ inr (next, ground (arith, done, got), ground (arith, done, got), got)
        ]
      ]

-- `sigreturn` up to the switch, which does not come back.
unfoldable pub sigreturn : Context → Context × Result (Unit {0})
unfolding block
sigreturn c = elim c.ksig [
  | none ↦ (c, err Errno.einval)
  | some backup ↦ (block (record c { ksig_restore = true }), ok tt)
]
