-- ===== src/Sync.antt =====
-- src/sync: what contexts wait on. A call that may wait is a loop of rounds under a lock: a round
-- ends the call, or the context waits on a condition and the next round follows its wake.
pub mod Condition
pub mod Queue
pub mod WaitMap
mod Tests
use redox_os_kernel.Prelude.{
  ℕ, Bool, true, false, List, [], ◌∷◌, Result, ok, err, Errno, if◌then◌else◌,
}

-- What a round comes to.
pub data Turn {ℓ} (A : Type ℓ) : Type ℓ where
  done : Result A → Turn A
  wait : Turn A

-- A call with the wakes that it sees: the state at each wake, and `false` for a signal.
unfoldable pub rounds {ℓ κ} :
    {S : Type ℓ} {A : Type κ} → (S → S × Turn A) → S → List (S × Bool) → S × Turn A
rounds round s [] = round s
rounds round s ((s', notified) ∷ wakes) =
    let again = rounds round s' wakes in
    let (s1, t) = round s in
    elim t [
      | done r ↦ (s1, done r)
      | wait ↦ if notified then again else (s', done (err Errno.eintr))
    ]
