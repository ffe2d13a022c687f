-- ===== src/Contexts/Switch.antt =====
-- src/context/switch.rs: the choice of the next context, and what a switch does to the two contexts.
-- The switch itself is assembly; `Arch` has what the file asks of the registers of a context.
pub mod Update
pub mod Locate
pub mod Solo
pub mod Ready
pub mod Order
use redox_os_kernel.Prelude.{
  ℕ, zero, suc, ◌+◌, ◌-◌, ◌%◌, ◌^◌, ◌≡◌, Bool, true, false, not, ◌&&◌, ◌||◌, Option, none, some,
  List, [], ◌∷◌, ◌++◌, Result, ok, err, panic, ltb, leb, ◌==◌, length, is_nil, if◌then◌else◌,
  expect, assert, ◌>>=◌, ◌>>◌,
}
use redox_os_kernel.Btree.{Map, get, insert, nat_key}
use redox_os_kernel.Contexts.{Status, runnable, blocked, Backup, Context, unblock}

-- `regs_for(..).is_singlestep()` and `regs_for_mut(..).set_singlestep(..)`, on the registers that a
-- context keeps on its stack, and `arch::Context::signal_stack`.
pub record Arch : Type 0 where
  pub is_singlestep : Context → Bool
  pub set_singlestep : Bool → List ℕ → List ℕ
  pub signal_stack : ℕ → List ℕ → List ℕ

abbrev pub is_runnable : Status → Bool
is_runnable s = elim s [ runnable ↦ true | _ ↦ false ]

abbrev pub is_blocked : Status → Bool
is_blocked s = elim s [ blocked ↦ true | _ ↦ false ]

abbrev pub is_cpu : ℕ → Option ℕ → Bool
is_cpu cpu o = elim o [ none ↦ false | some id ↦ id == cpu ]

-- The processor takes a context that has none, if it may run there.
unfoldable pub claim : ℕ → Context → Context
claim cpu c = elim c.cpu_id [
  | some id ↦ c
  | none ↦ elim c.sched_affinity [
    | none ↦ record c { cpu_id = some cpu }
    | some id ↦ if id == cpu then record c { cpu_id = some cpu } else c
  ]
]

unfoldable pub restore_stack : Arch → Bool → Context → Backup → List ℕ → List ℕ → Result Context
restore_stack a singlestep c k stack saved = do
  assert (length saved == length stack)
  ok (record c {
    arch = k.arch;
    kfx = k.kfx;
    kstack = some (a.set_singlestep singlestep saved);
    ksig = none;
    ksig_restore = false;
  })

-- Back from a signal handler.
unfoldable pub restore : Arch → Context → Result Context
unfolding restore_stack unblock
restore a c = if not c.ksig_restore then ok c else do
  k ← expect c.ksig
  stack ← expect c.kstack
  saved ← expect k.kstack
  c' ← restore_stack a (a.is_singlestep c) c k stack saved
  ok (unblock c')

unfoldable pub wake_for_signal : Context → Context
unfolding unblock
wake_for_signal c = if is_blocked c.status && not (is_nil c.pending) then unblock c else c

unfoldable pub wake_for_time : ℕ → Context → Context
unfolding unblock
wake_for_time now c = elim c.wake [
  | none ↦ c
  | some at_time ↦
      if is_blocked c.status && leb at_time now then unblock (record c { wake = none }) else c
]

unfoldable pub update_runnable : Arch → ℕ → ℕ → Context → Result (Context × Bool)
unfolding claim restore wake_for_signal wake_for_time
update_runnable a cpu now c =
    if c.running
    then ok (c, false)
    else if c.ptrace_stop
    then ok (c, false)
    else let owned = claim cpu c in
      if not (is_cpu cpu owned.cpu_id)
      then ok (owned, false)
      else restore a owned >>= λ restored.
          let woken = wake_for_time now (wake_for_signal restored) in
          ok (woken, is_runnable woken.status)

-- All processors; `current` is CONTEXT_ID of each.
pub record World : Type 0 where
  pub contexts : Map ℕ Context
  pub current : ℕ → ℕ

-- The identifiers above `id`, and then those below.
unfoldable pub keys_from : ℕ → Map ℕ Context → List ℕ
keys_from id [] = []
keys_from id ((j, c) ∷ cs) = if ltb id j then j ∷ keys_from id cs else keys_from id cs

unfoldable pub keys_upto : ℕ → Map ℕ Context → List ℕ
keys_upto id [] = []
keys_upto id ((j, c) ∷ cs) = if ltb j id then j ∷ keys_upto id cs else keys_upto id cs

unfoldable pub candidates : ℕ → Map ℕ Context → List ℕ
unfolding keys_from keys_upto
candidates id cs = keys_from id cs ++ keys_upto id cs

-- The loop of `switch`: the contexts, each brought up to date as far as the loop goes, and the first
-- one that is to run.
unfoldable pub locate : Arch → ℕ → ℕ → List ℕ → Map ℕ Context → Result (Map ℕ Context × Option ℕ)
unfolding update_runnable
locate a cpu now [] cs = ok (cs, none)
locate a cpu now (i ∷ is) cs = elim (get i cs) [
  | none ↦ locate a cpu now is cs
  | some c ↦ update_runnable a cpu now c >>= λ (c', runs). elim runs [
    | true ↦ ok (insert i c' cs, some i)
    | false ↦ locate a cpu now is (insert i c' cs)
  ]
]

unfoldable pub leave : ℕ → Context → Context
leave now c = record c {
  running = false;
  cpu_time = (c.cpu_time + (now - c.switch_time)) % 2 ^ 128;
}

-- A pending signal makes the context run the handler first.
unfoldable pub deliver : Arch → Context → Context
deliver a c = elim c.ksig [
  | some k ↦ c
  | none ↦ elim c.pending [
    | [] ↦ c
    | sig ∷ rest ↦ record c {
      pending = rest;
      ksig = some (record { arch = c.arch; kfx = c.kfx; kstack = c.kstack; sig = sig });
      arch = a.signal_stack sig c.arch;
    }
  ]
]

unfoldable pub enter : Arch → ℕ → Context → Context
unfolding deliver
enter a now c = deliver a (record c { running = true; switch_time = now })

abbrev set_current : ℕ → ℕ → (ℕ → ℕ) → ℕ → ℕ
set_current cpu id f j = if j == cpu then id else f j

-- The end of `switch`, with the contexts as the loop left them.
unfoldable pub finish : Arch → ℕ → ℕ → World → Map ℕ Context × Option ℕ → Result (World × Bool)
unfolding leave enter
finish a cpu now w (cs, none) = ok (record w { contexts = cs }, false)
finish a cpu now w (cs, some next) = do
  p ← expect (get (w.current cpu) cs)
  let cs' = insert (w.current cpu) (leave now p) cs
  c ← expect (get next cs')
  ok (
    record w {
      contexts = insert next (enter a now c) cs';
      current = set_current cpu next w.current;
    },
    true,
  )

unfoldable pub switch : Arch → ℕ → ℕ → World → Result (World × Bool)
unfolding candidates locate finish
switch a cpu now w = do
  p ← expect (get (w.current cpu) w.contexts)
  found ← locate a cpu now (candidates p.id w.contexts) w.contexts
  finish a cpu now w found
