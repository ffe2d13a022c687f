-- ===== src/Contexts/Registry.antt =====
-- `ContextList` of src/context/list.rs: the contexts by identifier. `Context::new` allocates, and so
-- may fail: it is the argument `make`. `spawn`, which writes a stack by pointers, is left out.
pub mod Fresh
use redox_os_kernel.Prelude.{
  ℕ, zero, suc, ◌+◌, ◌-◌, ◌^◌, ◌≤◌, ◌<◌, max, ◌≡◌, ◌≢◌, refl, Bool, true, false, Option, none, some,
  List, [], ◌∷◌, Result, ok, err, panic, Errno, arith, length, ltb, leb, ◌==◌, if◌then◌else◌, ◌⊎◌,
  inl, inr, Option-cases, Result-cases,
}
use redox_os_kernel.Btree.{Map, get, contains_key, insert, remove, nat_key}
use redox_os_kernel.Btree.Laws.{get-insert, get-insert_self, get-remove}
use redox_os_kernel.Btree.Free.{next_free, next_free_lem}
use redox_os_kernel.Contexts.{Context}

abbrev pub context_max_contexts : ℕ
context_max_contexts = 2 ^ 63 - 2

pub record ContextList : Type 0 where
  pub map : Map ℕ Context
  pub next_id : ℕ

unfoldable pub insert_context_raw : (ℕ → Result Context) → ContextList → ℕ → ContextList × Result ℕ
insert_context_raw make l id = elim (make id) [
  | err e ↦ (l, err e)
  | panic ↦ (l, panic)
  | ok c ↦
      let l' = record l { map = insert id c l.map } in
      if contains_key id l.map then (l', panic) else (l', ok id)
]

-- The value of `next_id` at the end of the `while` loop of `new_context`; `cpus` is the number of
-- processors.
unfoldable pub new_id : ℕ → ContextList → ℕ
unfolding next_free
new_id cpus l =
    let least = cpus + 1 in
    let first = max l.next_id least in
    next_free (length l.map) l.map (if leb context_max_contexts first then least else first)

unfoldable pub new_context : (ℕ → Result Context) → ℕ → ContextList → ContextList × Result ℕ
unfolding new_id insert_context_raw
new_context make cpus l =
    let id = new_id cpus l in
    if leb context_max_contexts id
    then (record l { next_id = id }, err Errno.eagain)
    else insert_context_raw make (record l { next_id = id + 1 }) id

-- `ancestors`: a context, its parent and so on, `fuel` of them at most. The iterator of the source
-- goes on for as long as there is a parent.
unfoldable pub ancestors : ℕ → ContextList → ℕ → List ℕ
ancestors zero l id = []
ancestors (suc fuel) l id = elim (get id l.map) [
  | none ↦ []
  | some c ↦ id ∷ ancestors fuel l c.ppid
]

-- `remove`
unfoldable pub remove_context : ContextList → ℕ → ContextList × Option Context
remove_context l id = (record l { map = remove id l.map }, get id l.map)
