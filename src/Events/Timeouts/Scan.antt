-- ===== src/Events/Timeouts/Scan.antt =====
-- The loop over the timeouts tells apart those that are due.
use redox_os_kernel.Prelude.{
  ℕ, ◌≡◌, refl, ap, some, Bool, not, ◌&&◌, ◌||◌, leb, ◌==◌, List, [], ◌∷◌, ◌++◌, length, get_elem?,
  if◌then◌else◌, arith, Bool-cases, inl, inr, length-append,
}
use mathlib.Core.List.{append_assoc}
use redox_os_kernel.Events.{Events, trigger}
use redox_os_kernel.Events.Timeouts.{
  Timeout, Flags, is_due, remove_at, trigger_from, trigger_timeouts,
}

-- When a timeout is over: its time has come on the clock that it names, or it names neither clock.
abbrev pub is_over : Flags → ℕ → ℕ → Timeout → Bool
is_over f mono real t =
    let monotonic = t.clock == f.clock_monotonic in
    let realtime = t.clock == f.clock_realtime in
    (monotonic && leb t.time mono)
    || (realtime && not monotonic && leb t.time real)
    || (not realtime && not monotonic)

is_due_lem :
    (f : Flags) (mono real : ℕ) (t : Timeout) → is_due f mono real t ≡ is_over f mono real t
unfolding is_due
is_due_lem f mono real t = elim (Bool-cases (t.clock == f.clock_monotonic)) [
  | inl m ↦ rw m (ground arith)
  | inr m ↦ rw m (ground arith)
]

-- The timeouts that are not over.
unfoldable pub pending : Flags → ℕ → ℕ → List Timeout → List Timeout
pending f mono real [] = []
pending f mono real (t ∷ ts) =
    if is_over f mono real t then pending f mono real ts else t ∷ pending f mono real ts

-- The events of those that are over, in their order.
unfoldable pub fire : {X : Type 0} → Flags → ℕ → ℕ → List Timeout → Events X → Events X
fire f mono real [] ev = ev
fire f mono real (t ∷ ts) ev =
    fire f mono real ts
      (if is_over f mono real t then trigger t.scheme_id t.event_id f.event_read ev else ev)

get_elem?-append_at :
    (before : List Timeout) (t : Timeout) (ts : List Timeout)
    → get_elem? (before ++ t ∷ ts) (length before) ≡ some t
get_elem?-append_at [] t ts = refl
get_elem?-append_at (b ∷ before) t ts = get_elem?-append_at before t ts

remove_at-append :
    (before : List Timeout) (t : Timeout) (ts : List Timeout)
    → remove_at (length before) (before ++ t ∷ ts) ≡ before ++ ts
unfolding remove_at
remove_at-append [] t ts = refl
remove_at-append (b ∷ before) t ts = ap (◌∷◌ b) (remove_at-append before t ts)

module _ {X : Type 0} (f : Flags) (mono real : ℕ) where
  trigger_from_lem :
      (before ts : List Timeout) (ev : Events X)
      → trigger_from f mono real (length ts) (length before) (before ++ ts) ev
        ≡ (before ++ pending f mono real ts, fire f mono real ts ev)
  unfolding trigger_from pending fire
  trigger_from_lem before [] ev = refl
  trigger_from_lem before (t ∷ ts) ev =
      let here = get_elem?-append_at before t ts in
      elim (Bool-cases (is_due f mono real t)) [
        | inl due ↦
            let fired = trigger t.scheme_id t.event_id f.event_read ev in
            let over = is_due_lem f mono real t in
            ground (
              arith,
              here,
              due,
              over,
              remove_at-append before t ts,
              trigger_from_lem before ts fired,
            )
        | inr early ↦
            let ih = trigger_from_lem (before ++ t ∷ []) ts ev in
            let joined = append_assoc before (t ∷ []) ts in
            let joined' = append_assoc before (t ∷ []) (pending f mono real ts) in
            ground (
              arith,
              here,
              early,
              is_due_lem f mono real t,
              ih,
              joined,
              joined',
              length-append before (t ∷ []),
            )
      ]

  -- `trigger` triggers an event for each timeout whose time has come on the
  -- clock that it names, and for each that names neither clock, in the order of their registration, and
  -- drops these from the registry and no other; its loop comes to the end of the registry.
  pub trigger_timeouts_lem :
      (registry : List Timeout) (ev : Events X)
      → trigger_timeouts f mono real registry ev
        ≡ (pending f mono real registry, fire f mono real registry ev)
  unfolding trigger_timeouts
  trigger_timeouts_lem registry ev = trigger_from_lem [] registry ev
