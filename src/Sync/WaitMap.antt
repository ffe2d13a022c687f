-- ===== src/Sync/WaitMap.antt =====
-- `WaitMap` of src/sync/wait_map.rs: an ordered map with a condition. A notification of the condition
-- is a count in the state.
pub mod Drain
use redox_os_kernel.Prelude.{
  ℕ, ◌+◌, Bool, true, false, Option, none, some, List, [], ◌∷◌, Result, ok, if◌then◌else◌,
}
use redox_os_kernel.Btree.{Key, Map, get, insert, remove}
use redox_os_kernel.Sync.{Turn, done, wait}

pub record WaitMap {ℓ κ} (K : Type ℓ) (V : Type κ) : Type (ℓ ⊔ κ) where
  pub inner : Map K V
  pub notified : ℕ

module _ {ℓ κ} {K : Type ℓ} {V : Type κ} ⦃o : Key K⦄ where
  abbrev pub new : WaitMap K V
  new = record { inner = []; notified = 0 }

  unfoldable pub receive_nonblock : K → WaitMap K V → WaitMap K V × Option V
  receive_nonblock key q = (record q { inner = remove key q.inner }, get key q.inner)

  -- A round of `receive`.
  unfoldable pub receive : K → WaitMap K V → WaitMap K V × Turn V
  receive key q =
      let taken = record q { inner = remove key q.inner } in
      elim (get key q.inner) [ some value ↦ (taken, done (ok value)) | none ↦ (taken, wait) ]

  -- `keys().next().cloned()`
  unfoldable pub first_key : Map K V → Option K
  first_key [] = none
  first_key ((key, value) ∷ m) = some key

  unfoldable pub receive_any_nonblock : WaitMap K V → WaitMap K V × Option (K × V)
  unfolding first_key
  receive_any_nonblock q = elim (first_key q.inner) [
    | none ↦ (q, none)
    | some key ↦
        let taken = record q { inner = remove key q.inner } in
        elim (get key q.inner) [ none ↦ (taken, none) | some value ↦ (taken, some (key, value)) ]
  ]

  -- A round of `receive_any`, the body of whose loop is `receive_any_nonblock`.
  unfoldable pub receive_any : WaitMap K V → WaitMap K V × Turn (K × V)
  unfolding receive_any_nonblock
  receive_any q =
      let (q', r) = receive_any_nonblock q in
      elim r [ none ↦ (q', wait) | some entry ↦ (q', done (ok entry)) ]

  unfoldable pub receive_all : WaitMap K V → WaitMap K V × Map K V
  receive_all q = (record q { inner = [] }, q.inner)

  unfoldable pub send : K → V → WaitMap K V → WaitMap K V
  send key value q = record { inner = insert key value q.inner; notified = q.notified + 1 }
