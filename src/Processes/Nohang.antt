-- ===== src/Processes/Nohang.antt =====
-- `waitpid` with WNOHANG, of src/syscall/process.rs.
use redox_os_kernel.Prelude.{
  ℕ, ◌≡◌, refl, inl, inr, Bool, true, false, Option, none, some, ◌==◌, ◌-◌, usize_mod, ok, arith,
  bit_and, Option-cases, Bool-cases, Result-cases,
}
use redox_os_kernel.Btree.{get, nat_key}
use redox_os_kernel.Contexts.{Status, runnable, blocked, stopped, exited}
use redox_os_kernel.UserSlice.{UserMem, UserSlice}
use redox_os_kernel.Processes.WaitpidKey.{Key, of_pid}
use redox_os_kernel.Processes.Wait.{
  Flags, Receives, World, Outcome, returns, blocks, reaps, write_status, told, grim_reaper,
  received, hacked, any_context, wait_any, wait_group, wait_process, waitpid,
}

-- An outcome that is not a wait.
unfoldable pub is_wait : Outcome → Bool
is_wait (blocks key) = true
is_wait _ = false

module _ {W M : Type 0} (f : Flags) (mem : UserMem M) where
  told_lem :
      (ptr : Option UserSlice) (status : ℕ) (then_ : Outcome) (w : World W M)
      → is_wait then_ ≡ false
      → is_wait (told f mem ptr status then_ w).1 ≡ false
  unfolding told is_wait
  told_lem ptr status then_ w h = elim (Result-cases (write_status f mem ptr status w.memory).1) [
    | inl (u, e) ↦ ground (arith, e, h)
    | inr (inl (x, e)) ↦ ground (arith, e)
    | inr (inr e) ↦ ground (arith, e)
  ]

  grim_reaper_lem :
      (ptr : Option UserSlice) (flags pid status : ℕ) (w : World W M)
      → is_wait (grim_reaper f mem ptr flags pid status w).1 ≡ false
  unfolding grim_reaper is_wait
  grim_reaper_lem ptr flags pid status w =
      ground (
        arith,
        told_lem ptr status (returns (ok pid)) w refl,
        told_lem ptr status (reaps pid) w refl,
      )

  received_lem :
      (key : Option Key) (ptr : Option UserSlice) (flags : ℕ) (got : Option (ℕ × ℕ)) (w : World W M)
      → (bit_and flags f.wnohang == f.wnohang) ≡ true
      → is_wait (received f mem key ptr flags got w).1 ≡ false
  unfolding received is_wait
  received_lem key ptr flags none w h = ground (arith, h)
  received_lem key ptr flags (some (pid, status)) w h = grim_reaper_lem ptr flags pid status w

  hacked_lem :
      (pid : ℕ) (ptr : Option UserSlice) (flags : ℕ) (got : Option (ℕ × ℕ)) (s : Status)
      (w : World W M)
      → (bit_and flags f.wnohang == f.wnohang) ≡ true
      → is_wait (hacked f mem pid ptr flags got s w).1 ≡ false
  unfolding hacked
  hacked_lem pid ptr flags got (exited status) w h = grim_reaper_lem ptr flags pid status w
  hacked_lem pid ptr flags got runnable w h = received_lem (some (of_pid pid)) ptr flags got w h
  hacked_lem pid ptr flags got blocked w h = received_lem (some (of_pid pid)) ptr flags got w h
  hacked_lem pid ptr flags got (stopped sig) w h =
      received_lem (some (of_pid pid)) ptr flags got w h

  module _ (api : Receives W) (self : ℕ) (ptr : Option UserSlice) (flags : ℕ) (w : World W M)
      (h : (bit_and flags f.wnohang == f.wnohang) ≡ true) where
    wait_any_lem : is_wait (wait_any f mem api self ptr flags w).1 ≡ false
    unfolding wait_any is_wait
    wait_any_lem = elim (Bool-cases (any_context (λ c. c.ppid == self) w.contexts)) [
      | inl e ↦ rw (e, wait_any) (received_lem none ptr flags _ _ h)
      | inr e ↦ rw (e, wait_any) refl
    ]

    wait_group_lem : (pgid : ℕ) → is_wait (wait_group f mem api self pgid ptr flags w).1 ≡ false
    unfolding wait_group is_wait
    wait_group_lem pgid = elim (Bool-cases (any_context (λ c. c.pgid == pgid) w.contexts)) [
      | inl e ↦ rw (e, wait_group) (received_lem _ ptr flags _ _ h)
      | inr e ↦ rw (e, wait_group) refl
    ]

    wait_process_lem : (pid : ℕ) → is_wait (wait_process f mem api self pid ptr flags w).1 ≡ false
    unfolding wait_process is_wait
    wait_process_lem pid = elim (Option-cases (get pid w.contexts)) [
      | inl e ↦ rw (e, wait_process) refl
      | inr (c, e) ↦ elim (Bool-cases (c.ppid == self)) [
        | inl own ↦ rw (e, own, wait_process) (received_lem _ ptr flags _ _ h)
        | inr other ↦ rw (e, other, wait_process) (hacked_lem pid ptr flags _ c.status _ h)
      ]
    ]

  -- With WNOHANG no round of `waitpid` waits, whatever it is for.
  pub waitpid_nohang :
      (api : Receives W) (self pid : ℕ) (ptr : Option UserSlice) (flags : ℕ) (w : World W M)
      → (bit_and flags f.wnohang == f.wnohang) ≡ true
      → is_wait (waitpid f mem api self pid ptr flags w).1 ≡ false
  unfolding waitpid is_wait
  waitpid_nohang api self pid ptr flags w h = ground (
    arith,
    wait_any_lem api self ptr flags w h,
    wait_group_lem api self ptr flags w h (usize_mod - pid),
    wait_process_lem api self ptr flags w h pid,
  )
