-- ===== src/Contexts/Registry/Fresh.antt =====
-- A new context gets an identifier of its own.
use native.Mathlib.Decide.{dec_lt}
use redox_os_kernel.Prelude.{
  ℕ, ◌+◌, ◌≤◌, ◌<◌, max, ◌≡◌, ◌≢◌, none, some, Result, ok, err, panic, Errno, arith, leb, ◌==◌,
  if◌then◌else◌, ◌⊎◌, inl, inr, Result-cases,
}
use redox_os_kernel.Btree.{get, contains_key, nat_key}
use redox_os_kernel.Btree.Laws.{get-insert}
use redox_os_kernel.Btree.Free.{next_free_lem}
use redox_os_kernel.Contexts.{Context}
use redox_os_kernel.Contexts.Registry.{
  ContextList, context_max_contexts, insert_context_raw, new_id, new_context,
}

new_id_lem :
    (cpus : ℕ) (l : ContextList) → (get (new_id cpus l) l.map ≡ none) × (cpus < new_id cpus l)
unfolding new_id
new_id_lem cpus l =
    let first = max l.next_id (cpus + 1) in
    let start = if leb context_max_contexts first then cpus + 1 else first in
    let (fresh, above) = next_free_lem l.map start in
    let least : cpus + 1 ≤ start = ground arith in (fresh, omega arith)

-- `new_context` either fails and keeps the contexts as they are, or adds the context that `make`
-- gives for an identifier which no context has, which is above the number of processors and below
-- the limit, and keeps every other context. It never panics, if `make` does not.
pub new_context_lem :
    (make : ℕ → Result Context) (cpus : ℕ) (l : ContextList)
    → ((id : ℕ) → make id ≢ panic)
    → let (l', r) = new_context make cpus l in
      ((e : Errno) × (r ≡ err e) × (l'.map ≡ l.map))
      ⊎ ((id : ℕ) × (c : Context) × (r ≡ ok id)
          × (make id ≡ ok c)
          × (get id l.map ≡ none)
          × (cpus < id)
          × (id < context_max_contexts)
          × ((other : ℕ) → get other l'.map ≡ (if id == other then some c else get other l.map)))
unfolding new_context insert_context_raw contains_key
new_context_lem make cpus l calm =
    let id = new_id cpus l in
    let (fresh, above) = new_id_lem cpus l in
    elim (dec_lt id context_max_contexts) [
      | no full ↦ inl (Errno.eagain, ground arith, ground arith)
      | yes fits ↦ elim (Result-cases (make id)) [
        | inl (c, made) ↦ inr (
          id,
          c,
          ground (arith, made, fresh),
          made,
          fresh,
          above,
          fits,
          λ other. ground (arith, made, fresh, get-insert id other c l.map),
        )
        | inr (inl (e, failed)) ↦ inl (e, ground (arith, failed), ground (arith, failed))
        | inr (inr failed) ↦ absurd (calm id failed)
      ]
    ]
