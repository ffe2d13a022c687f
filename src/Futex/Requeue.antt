-- ===== src/Futex/Requeue.antt =====
-- What FUTEX_REQUEUE does to the queue: entries of other addresses are woken and moved, and the index
-- may leave the queue.
use native.Mathlib.Decide.{ℕ_discrete, dec_lt}
use redox_os_kernel.Prelude.{
  ℕ, zero, suc, ◌+◌, ◌≤◌, ◌<◌, ◌≡◌, ◌≢◌, refl, some, List, [], ◌∷◌, panic, arith, length, get_elem?,
  set, take, Option-cases, inl, inr,
}
use redox_os_kernel.Futex.{
  FutexEntry, FutexList, requeue_wake, requeue_move, futex_requeue, World, Machine,
}
use redox_os_kernel.Futex.Wake.{in_range, before_end, length-set, swap_remove_lem}

get-set_self :
    (i : ℕ) (e : FutexEntry) (xs : FutexList) → i < length xs → get_elem? (set xs i e) i ≡ some e
get-set_self i e [] h = absurd (omega arith)
get-set_self zero e (x ∷ xs) h = refl
get-set_self (suc i) e (x ∷ xs) h = get-set_self i e xs (omega arith)

-- From an entry of another address on, every entry is moved, and then one past the end.
requeue_move_lem :
    (n target target2 i : ℕ) (e : FutexEntry) (xs : FutexList)
    → target2 ≢ target
    → e.target_physaddr ≢ target
    → get_elem? xs i ≡ some e
    → i < length xs
    → length xs ≤ i + n
    → requeue_move n target target2 i xs ≡ panic
unfolding requeue_move
requeue_move_lem zero target target2 i e xs apart other h le many = absurd (omega arith)
requeue_move_lem (suc n) target target2 i e xs apart other h le many =
    elim (dec_lt (i + 1) (length xs)) [
      | no p ↦ elim (Option-cases (get_elem? xs (i + 1))) [
        | inl gone ↦ ground (arith, h, other, gone)
        | inr (f, got) ↦ absurd (omega (arith, before_end (i + 1) f xs got))
      ]
      | yes p ↦
          let (f, got) = in_range (i + 1) xs p in
          let moved = record f { target_physaddr = target2 } in
          let size = length-set (i + 1) moved xs in
          let ih =
            requeue_move_lem n target target2 (i + 1) moved (set xs (i + 1) moved) apart apart
              (get-set_self (i + 1) moved xs p) (omega (arith, size)) (omega (arith, size)) in
          ground (arith, h, other, got, ih)
    ]

-- FUTEX_REQUEUE panics whenever it may move more entries than the first loop leaves in the queue and
-- this loop has not come to the end of the queue, if the two addresses differ; the entries may all
-- wait at the first address.
pub futex_requeue_panics :
    {M : Type 0} (mach : Machine M) (target target2 val val2 : ℕ) (w : World) (i : ℕ)
    (woken : List ℕ) (rest : FutexList)
    → target2 ≢ target
    → requeue_wake (length w.futexes) target 0 val w.futexes ≡ (i, woken, rest)
    → i < length rest
    → length rest < val2
    → (futex_requeue mach target target2 val val2 w).1 ≡ panic
unfolding futex_requeue requeue_move
futex_requeue_panics mach target target2 val zero w i woken rest apart stopped le many =
    absurd (omega arith)
futex_requeue_panics mach target target2 val (suc val2) w i woken rest apart stopped le many =
    let (e, h) = in_range i rest le in
    let moved = record e { target_physaddr = target2 } in
    let size = length-set i moved rest in
    elim (ℕ_discrete e.target_physaddr target) [
      | no other ↦
          let fails =
            requeue_move_lem (suc val2) target target2 i e rest apart other h le (omega arith) in
          ground (arith, stopped, fails)
      | yes same ↦
          let fails =
            requeue_move_lem val2 target target2 i moved (set rest i moved) apart apart
              (get-set_self i moved rest le) (omega (arith, size)) (omega (arith, size)) in
          ground (arith, stopped, h, same, fails)
    ]

-- The first loop of FUTEX_REQUEUE wakes the second context of the queue, whatever address it waits
-- at, if the first one waits at another address than the call names; only that one is woken by a
-- call that wakes one, and it is no longer in the queue.
pub requeue_wakes_other :
    (fuel target : ℕ) (a b : FutexEntry) (xs : FutexList)
    → a.target_physaddr ≢ target
    → (rest : FutexList) × (requeue_wake (suc (suc fuel)) target 0 1 (a ∷ b ∷ xs)
        ≡ (1, b.context_lock ∷ [], rest))
      × (take 1 rest ≡ a ∷ [])
      × (length rest ≡ suc (length xs))
unfolding requeue_wake
requeue_wakes_other fuel target a b xs other =
    let (ys, removed, size, front, sum) = swap_remove_lem 1 b (a ∷ b ∷ xs) refl in
    (ys, ground (arith, other, removed), front, omega (arith, size))
