-- ===== src/Processes/Wait.antt =====
-- `waitpid` and `reap` of src/syscall/process.rs, in rounds: `waits` has the map of each context with what
-- `waitpid` is to tell it, of a type `W`, as for `exit`. The flags and the coding of a status are those
-- of crate syscall.
use redox_os_kernel.Prelude.{
  ℕ, ◌-◌, ◌^◌, Bool, true, false, Option, none, some, List, [], ◌∷◌, ◌==◌, leb, if◌then◌else◌,
  Result, ok, err, panic, Errno, map_ok, bit_and, usize_mod,
}
use redox_os_kernel.Btree.{Map, get, insert, remove, nat_key}
use redox_os_kernel.Contexts.{Context, Status, exited}
use redox_os_kernel.UserSlice.{UserMem, UserSlice, copy_exactly}
use redox_os_kernel.Processes.WaitpidKey.{Key, of_group, of_pid}
use redox_os_kernel.Processes.Exit.{set_at}

-- `receive_nonblock` and `receive_any_nonblock`; a blocking call is a loop of these.
pub record Receives (W : Type 0) : Type 0 where
  pub receive : Key → W → W × Option (ℕ × ℕ)
  pub receive_any : W → W × Option (ℕ × ℕ)

pub record Flags : Type 0 where
  pub wnohang : ℕ
  pub wuntraced : ℕ
  pub wcontinued : ℕ
  pub wifcontinued : ℕ → Bool
  pub wifstopped : ℕ → Bool
  pub bytes : ℕ → List ℕ

pub record World (W M : Type 0) : Type 0 where
  pub contexts : Map ℕ Context
  pub waits : ℕ → W
  pub memory : M

-- What a round comes to: an answer, the next round, a wait for a key of the map or for any, or the end
-- of a process.
pub data Outcome : Type 0 where
  returns : Result ℕ → Outcome
  again : Outcome
  blocks : Option Key → Outcome
  reaps : ℕ → Outcome

-- A round of `reap`, which spins for as long as the process runs: `none` is the next round.
unfoldable pub reap : ℕ → Map ℕ Context → Map ℕ Context × Option (Result ℕ)
reap pid cs = elim (get pid cs) [
  | none ↦ (cs, some (err Errno.esrch))
  | some c ↦ if c.running then (cs, none) else (remove pid cs, some (ok pid))
]

unfoldable pub any_context : (Context → Bool) → Map ℕ Context → Bool
any_context test [] = false
any_context test ((i, c) ∷ cs) = if test c then true else any_context test cs

module _ {M : Type 0} (f : Flags) (mem : UserMem M) where
  unfoldable pub write_status : Option UserSlice → ℕ → M → M × Result (Unit {0})
  unfolding copy_exactly
  write_status none value m = (m, ok tt)
  write_status (some ptr) value m =
      let (m', r) = copy_exactly mem ptr (f.bytes value) m in (m', map_ok (λ n. tt) r)

module _ {W M : Type 0} (f : Flags) (mem : UserMem M) where
  -- What is written for a status that is told, and what then.
  unfoldable pub told : Option UserSlice → ℕ → Outcome → World W M → World W M × Outcome
  unfolding write_status
  told ptr status then_ w =
      let (m, r) = write_status f mem ptr status w.memory in
      (
        record w { memory = m },
        elim r [ ok u ↦ then_ | err e ↦ returns (err e) | panic ↦ returns panic ],
      )

  unfoldable pub grim_reaper : Option UserSlice → ℕ → ℕ → ℕ → World W M → World W M × Outcome
  unfolding told
  grim_reaper ptr flags pid status w =
      if f.wifcontinued status
      then (if bit_and flags f.wcontinued == f.wcontinued
          then told ptr status (returns (ok pid)) w
          else (w, again))
      else if f.wifstopped status
      then (if bit_and flags f.wuntraced == f.wuntraced
          then told ptr status (returns (ok pid)) w
          else (w, again))
      else told ptr status (reaps pid) w

  -- What follows what the map gave.
  unfoldable pub received :
      Option Key → Option UserSlice → ℕ → Option (ℕ × ℕ) → World W M → World W M × Outcome
  unfolding grim_reaper
  received key ptr flags none w =
      (w, if bit_and flags f.wnohang == f.wnohang then returns (ok 0) else blocks key)
  received key ptr flags (some (pid, status)) w = grim_reaper ptr flags pid status w

  -- The same for a process that becomes a child: it may have exited already.
  unfoldable pub hacked :
      ℕ → Option UserSlice → ℕ → Option (ℕ × ℕ) → Status → World W M → World W M × Outcome
  unfolding received grim_reaper
  hacked pid ptr flags got (exited status) w = grim_reaper ptr flags pid status w
  hacked pid ptr flags got _ w = received (some (of_pid pid)) ptr flags got w

  module _ (api : Receives W) where
    -- A round of the context `self`, for any of its children, a group of processes, or a process, which
    -- becomes its child.
    unfoldable pub wait_any : ℕ → Option UserSlice → ℕ → World W M → World W M × Outcome
    unfolding received any_context
    wait_any self ptr flags w =
        if any_context (λ c. c.ppid == self) w.contexts
        then (let (x, got) = api.receive_any (w.waits self) in
            received none ptr flags got (record w { waits = set_at self x w.waits }))
        else (w, returns (err Errno.echild))

    unfoldable pub wait_group : ℕ → ℕ → Option UserSlice → ℕ → World W M → World W M × Outcome
    unfolding received any_context
    wait_group self pgid ptr flags w =
        if any_context (λ c. c.pgid == pgid) w.contexts
        then (let (x, got) = api.receive (of_group pgid) (w.waits self) in
            received (some (of_group pgid)) ptr flags got
              (record w { waits = set_at self x w.waits }))
        else (w, returns (err Errno.echild))

    unfoldable pub wait_process : ℕ → ℕ → Option UserSlice → ℕ → World W M → World W M × Outcome
    unfolding received hacked
    wait_process self pid ptr flags w = elim (get pid w.contexts) [
      | none ↦ (w, returns (err Errno.echild))
      | some c ↦
          let (x, got) = api.receive (of_pid pid) (w.waits self) in
          let taken = record w { waits = set_at self x w.waits } in
          if c.ppid == self
          then received (some (of_pid pid)) ptr flags got taken
          else (let adopted = record taken {
            contexts = insert pid (record c { ppid = self }) w.contexts;
          } in
              hacked pid ptr flags got c.status adopted)
    ]

    -- A round of `waitpid`; a process number that is negative as an `isize` is for a group.
    unfoldable pub waitpid : ℕ → ℕ → Option UserSlice → ℕ → World W M → World W M × Outcome
    unfolding wait_any wait_group wait_process
    waitpid self pid ptr flags w =
        if pid == 0
        then wait_any self ptr flags w
        else if leb (2 ^ 63) pid
        then wait_group self (usize_mod - pid) ptr flags w
        else wait_process self pid ptr flags w

    -- A blocking `receive` goes on after a wake.
    unfoldable pub resume : ℕ → Option Key → Option UserSlice → ℕ → World W M → World W M × Outcome
    unfolding received
    resume self key ptr flags w =
        let taken : W × Option (ℕ × ℕ) = elim key [
          | none ↦ api.receive_any (w.waits self)
          | some k ↦ api.receive k (w.waits self)
        ] in
        let (x, got) = taken in
        received key ptr flags got (record w { waits = set_at self x w.waits })
