-- ===== src/Processes/Exit.antt =====
-- `exit` of src/syscall/process.rs, from when the files are closed to the alert of the tracers. The map
-- of a parent with what `waitpid` is to tell has keys whose order is none, so that it is a parameter,
-- of a type `W`; `waits` has that of each context. The grants of an address space without other owners
-- are unmapped as in `Grant::unmap`.
use redox_os_kernel.Prelude.{
  ℕ, Bool, false, ◌&&◌, ◌||◌, Option, none, some, List, [], ◌∷◌, ◌==◌, if◌then◌else◌, Result, ok,
  panic,
}
use mathlib.Core.List.{reverse}
use redox_os_kernel.Btree.{Map, get, nat_key}
use redox_os_kernel.Contexts.{Context, exited, unblock, unblock_all, change}
use redox_os_kernel.Processes.WaitpidKey.{Key, of_process}

-- `insert` and `receive_all` of the map of a `WaitMap` with keys of `waitpid`: a process and its status.
pub record Waits (W : Type 0) : Type 0 where
  pub insert : Key → ℕ × ℕ → W → W
  pub receive_all : W → W × List (Key × ℕ × ℕ)

-- `waiting` has the contexts that wait for the condition of the `WaitMap` of each context.
pub record World (W : Type 0) : Type 0 where
  pub contexts : Map ℕ Context
  pub waits : ℕ → W
  pub waiting : ℕ → List ℕ

-- The children of a process that ends go to its parent.
unfoldable pub reparent : ℕ → ℕ → Context → Context
reparent pid ppid c = if c.ppid == pid then record c { ppid = ppid; vfork = false } else c

unfoldable pub reparent_all : ℕ → ℕ → Map ℕ Context → Map ℕ Context
unfolding reparent
reparent_all pid ppid [] = []
reparent_all pid ppid ((i, c) ∷ cs) = (i, reparent pid ppid c) ∷ reparent_all pid ppid cs

unfoldable pub end_process : ℕ → Context → Context
end_process status c = record c { addr_space = none; vfork = false; status = exited status }

abbrev pub set_at : {W : Type 0} → ℕ → W → (ℕ → W) → ℕ → W
set_at i x f j = if i == j then x else f j

module _ {W : Type 0} (api : Waits W) where
  -- `send` on the `WaitMap` of the context `owner`, which notifies its condition.
  unfoldable pub send : ℕ → Key → ℕ × ℕ → World W → World W
  unfolding unblock_all
  send owner key value w = record {
    contexts = unblock_all (reverse (w.waiting owner)) w.contexts;
    waits = set_at owner (api.insert key value (w.waits owner)) w.waits;
    waiting = set_at owner [] w.waiting;
  }

  unfoldable pub send_all : ℕ → List (Key × ℕ × ℕ) → World W → World W
  unfolding send
  send_all owner [] w = w
  send_all owner ((key, c_pid, c_status) ∷ children) w =
      send_all owner children (send owner key (c_pid, c_status) w)

  -- What the parent is told, if there is one: the statuses that the process did not wait for, and its
  -- own.
  unfoldable pub tell_parent : ℕ → ℕ → ℕ → ℕ → Bool → List (Key × ℕ × ℕ) → World W → World W
  unfolding send_all change unblock
  tell_parent pid pgid ppid status vfork children w = elim (get ppid w.contexts) [
    | none ↦ w
    | some parent ↦
        let contexts = if vfork then change unblock ppid w.contexts else w.contexts in
        send ppid (of_process pid pgid) (pid, status)
          (send_all ppid children (record w { contexts = contexts }))
  ]

  unfoldable pub exit : ℕ → ℕ → World W → Result (World W)
  unfolding reparent_all end_process tell_parent change
  exit pid status w = elim (get pid w.contexts) [
    | none ↦ panic
    | some c ↦
        let handed = reparent_all pid c.ppid w.contexts in
        let vfork : Bool = elim (get pid handed) [ none ↦ false | some d ↦ d.vfork ] in
        let (emptied, children) = api.receive_all (w.waits pid) in
        let w' : World W = record w {
          contexts = change (end_process status) pid handed;
          waits = set_at pid emptied w.waits;
        } in
        ok (tell_parent pid c.pgid c.ppid status vfork children w')
  ]

-- What becomes of a context when the process `pid` with the parent `ppid` exits: a child is handed on.
abbrev pub handed_on : ℕ → ℕ → Context → Context
handed_on pid ppid c = record c {
  ppid = if c.ppid == pid then ppid else c.ppid;
  vfork = if c.ppid == pid then false else c.vfork;
}

-- A context that is told of it wakes up.
abbrev pub after_exit : ℕ → ℕ → ℕ → Bool → ℕ → Context → Context
after_exit pid ppid status woken i c =
    let d = handed_on pid ppid c in
    let left =
      if i == pid
      then record d { addr_space = none; vfork = false; status = exited status }
      else d in
    if woken then unblock left else left

abbrev pub option_map : {A B : Type 0} → (A → B) → Option A → Option B
option_map f none = none
option_map f (some a) = some (f a)

abbrev pub is_in : ℕ → List ℕ → Bool
is_in i [] = false
is_in i (j ∷ js) = i == j || is_in i js

-- The statuses of some children, put into a map one after the other.
abbrev pub insert_all : {W : Type 0} → Waits W → List (Key × ℕ × ℕ) → W → W
insert_all api [] x = x
insert_all api ((key, c_pid, c_status) ∷ children) x =
    insert_all api children (api.insert key (c_pid, c_status) x)

abbrev pub unblock_if : Bool → Option Context → Option Context
unblock_if woken o = if woken then option_map unblock o else o

module _ {W : Type 0} (api : Waits W) where
  -- The parent, if it is woken from `vfork`, and those that wait for the map of the parent.
  abbrev pub is_woken : ℕ → Bool → World W → ℕ → Bool
  is_woken ppid vfork w i =
      (vfork && i == ppid)
      || (elim (get ppid w.contexts) [ none ↦ false | some parent ↦ is_in i (w.waiting ppid) ])
