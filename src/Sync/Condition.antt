-- ===== src/Sync/Condition.antt =====
-- `WaitCondition` of src/sync/wait_condition.rs: the contexts that wait, as a list of identifiers.
pub mod Wakes
use redox_os_kernel.Prelude.{
  ℕ, zero, suc, ◌≡◌, Bool, true, false, Option, none, some, List, [], ◌∷◌, ◌++◌, length, ◌==◌,
  if◌then◌else◌, Result, ok, panic,
}
use mathlib.Core.List.{reverse}
use redox_os_kernel.Btree.{Map, nat_key}
use redox_os_kernel.Contexts.{Context, block, change, unblock_all}

pub record World : Type 0 where
  pub waiters : List ℕ
  pub contexts : Map ℕ Context

-- `notify`, which takes the waiters from the end of the list.
unfoldable pub notify : World → World × ℕ
unfolding unblock_all
notify w = (
  record { waiters = []; contexts = unblock_all (reverse w.waiters) w.contexts },
  length w.waiters,
)

unfoldable pub notify_signal : World → World × ℕ
unfolding unblock_all
notify_signal w = (record w { contexts = unblock_all w.waiters w.contexts }, length w.waiters)

-- `wait` up to `context::switch`.
unfoldable pub wait_begin : ℕ → World → World
unfolding change block
wait_begin self w = record {
  waiters = w.waiters ++ self ∷ [];
  contexts = change block self w.contexts;
}

-- The list without the first entry of the context, if it has one.
unfoldable pub remove_waiter : ℕ → List ℕ → Option (List ℕ)
remove_waiter self [] = none
remove_waiter self (i ∷ is) =
    if i == self
    then some is
    else elim (remove_waiter self is) [ none ↦ none | some rest ↦ some (i ∷ rest) ]

-- What follows the switch back: `false` for a context that is still in the list.
unfoldable pub wait_end : ℕ → World → World × Bool
unfolding remove_waiter
wait_end self w = elim (remove_waiter self w.waiters) [
  | none ↦ (w, true)
  | some rest ↦ (record w { waiters = rest }, false)
]
