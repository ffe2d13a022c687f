-- ===== src/Sync/Condition/Wakes.antt =====
-- A wait tells a notification from a signal.
use redox_os_kernel.Prelude.{
  ℕ, ◌≡◌, ◌≢◌, refl, Bool, true, false, not, ◌&&◌, ◌||◌, Option, none, some, List, [], ◌∷◌, ◌++◌,
  arith, All, ◌==◌, Option-cases, inl, inr,
}
use redox_os_kernel.Sync.Condition.{
  World, notify, notify_signal, wait_begin, wait_end, remove_waiter,
}

-- What may happen between the two parts of a wait: a notification, a signal to all, or that another
-- context begins or ends to wait.
pub data Act : Type 0 where
  notified : Act
  signalled : Act
  joined : ℕ → Act
  left : ℕ → Act

unfoldable pub perform : Act → World → World
unfolding notify notify_signal wait_begin wait_end
perform notified w = (notify w).0
perform signalled w = (notify_signal w).0
perform (joined i) w = wait_begin i w
perform (left i) w = (wait_end i w).0

unfoldable pub perform_all : List Act → World → World
perform_all [] w = w
perform_all (act ∷ acts) w = perform_all acts (perform act w)

-- Of another context.
abbrev pub IsOther : ℕ → Act → Type 0
IsOther self notified = Unit {0}
IsOther self signalled = Unit {0}
IsOther self (joined i) = i ≢ self
IsOther self (left i) = i ≢ self

abbrev pub has_notified : List Act → Bool
has_notified [] = false
has_notified (notified ∷ acts) = true
has_notified (signalled ∷ acts) = has_notified acts
has_notified (joined i ∷ acts) = has_notified acts
has_notified (left i ∷ acts) = has_notified acts

abbrev pub occurs : ℕ → List ℕ → Bool
occurs self [] = false
occurs self (i ∷ is) = i == self || occurs self is

occurs-append :
    (self i : ℕ) (is : List ℕ) → occurs self (is ++ i ∷ []) ≡ (occurs self is || i == self)
occurs-append self i [] = ground arith
occurs-append self i (j ∷ is) = ground (arith, occurs-append self i is)

occurs-remove_waiter :
    (self i : ℕ) (is rest : List ℕ)
    → i ≢ self
    → remove_waiter i is ≡ some rest
    → occurs self rest ≡ occurs self is
unfolding remove_waiter
occurs-remove_waiter self i [] rest h e = absurd (ground (arith, e))
occurs-remove_waiter self i (j ∷ is) rest h e = elim (Option-cases (remove_waiter i is)) [
  | inl gone ↦ ground (arith, gone, e, h)
  | inr (r, found) ↦ ground (arith, found, e, h, occurs-remove_waiter self i is r h found)
]

is_found : Option (List ℕ) → Bool
is_found none = false
is_found (some rest) = true

remove_waiter-occurs : (self : ℕ) (is : List ℕ) → is_found (remove_waiter self is) ≡ occurs self is
unfolding remove_waiter is_found
remove_waiter-occurs self [] = refl
remove_waiter-occurs self (i ∷ is) = ground (arith, remove_waiter-occurs self is)

wait_end-occurs : (self : ℕ) (w : World) → (wait_end self w).1 ≡ not (occurs self w.waiters)
unfolding wait_end is_found
wait_end-occurs self w = ground (arith, remove_waiter-occurs self w.waiters)

wait_end_other :
    (self i : ℕ) (w : World)
    → i ≢ self
    → occurs self (wait_end i w).0.waiters ≡ occurs self w.waiters
unfolding wait_end
wait_end_other self i w h = elim (Option-cases (remove_waiter i w.waiters)) [
  | inl gone ↦ ground (arith, gone)
  | inr (rest, found) ↦ ground (arith, found, occurs-remove_waiter self i w.waiters rest h found)
]

perform_all-occurs :
    (self : ℕ) (acts : List Act) (w : World)
    → All (IsOther self) acts
    → occurs self (perform_all acts w).waiters ≡ (occurs self w.waiters && not (has_notified acts))
unfolding perform_all perform notify notify_signal wait_begin
perform_all-occurs self [] w h = ground arith
perform_all-occurs self (notified ∷ acts) w h =
    let ih = perform_all-occurs self acts (perform notified w) h.1 in ground (arith, ih)
perform_all-occurs self (signalled ∷ acts) w h =
    let ih = perform_all-occurs self acts (perform signalled w) h.1 in ground (arith, ih)
perform_all-occurs self (joined i ∷ acts) w h =
    let ih = perform_all-occurs self acts (perform (joined i) w) h.1 in
    ground (arith, ih, h.0, occurs-append self i w.waiters)
perform_all-occurs self (left i ∷ acts) w h =
    let ih = perform_all-occurs self acts (perform (left i) w) h.1 in
    ground (arith, ih, h.0, wait_end_other self i w h.0)

-- A wait ends as notified exactly if there was a notification while it lasted, whatever signals came
-- and whatever other contexts began or ended to wait in the meantime. The context did not wait on
-- the condition before.
pub wait_lem :
    (self : ℕ) (acts : List Act) (w : World)
    → occurs self w.waiters ≡ false
    → All (IsOther self) acts
    → (wait_end self (perform_all acts (wait_begin self w))).1 ≡ has_notified acts
unfolding wait_begin
wait_lem self acts w apart others =
    let begun = wait_begin self w in
    let at_end = perform_all-occurs self acts begun others in
    let listed = occurs-append self self w.waiters in
    let judged = wait_end-occurs self (perform_all acts begun) in
    ground (arith, at_end, listed, judged, apart)
