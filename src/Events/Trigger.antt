-- ===== src/Events/Trigger.antt =====
-- Which events `trigger` sends where, and what a registration is.
use redox_os_kernel.Prelude.{
  ℕ, ◌+◌, ◌≡◌, refl, sym, ◌&&◌, Option, none, some, List, [], ◌∷◌, ◌++◌, ◌==◌, length,
  if◌then◌else◌, bit_and, arith, append-nil, ==_iff, Option-cases, inl, inr,
}
use mathlib.Core.List.{append_assoc}
use redox_os_kernel.Btree.{Map, get, insert, nat_key}
use redox_os_kernel.Btree.Laws.{get-insert, get-remove, get-remove_self}
use redox_os_kernel.Sync.Queue
use redox_os_kernel.Events.{
  EventQueue, Events, Registry, enter, entry_of, deliver, trigger_each, register, unregister_file,
  trigger,
}
use redox_os_kernel.Events.Keys.{RegKey, QueueKey, Event, reg_key, queue_key, eq_reg_iff}

-- The events that flags on a file are for a queue, by the registrations of the file.
unfoldable pub events_for : ℕ → ℕ → Map QueueKey ℕ → List Event
events_for queue flags [] = []
events_for queue flags ((key, f) ∷ list) =
    let common = bit_and flags f in
    let rest = events_for queue flags list in
    if key.queue == queue
    then if common == 0
      then rest
      else record { id = key.id; flags = common; user_data = key.user_data } ∷ rest
    else rest

-- A queue that has got some more events, each with a notification.
abbrev pub with_events : List Event → Option EventQueue → Option EventQueue
with_events events none = none
with_events events (some q) = some (record q {
  queue = record { inner = q.queue.inner ++ events; notified = q.queue.notified + length events };
})

with_events_none : (q : Option EventQueue) → with_events [] q ≡ q
with_events_none none = refl
with_events_none (some q) = ground (arith, append-nil q.queue.inner)

with_events_cons :
    (event : Event) (events : List Event) (q : Option EventQueue)
    → with_events events (with_events (event ∷ []) q) ≡ with_events (event ∷ events) q
with_events_cons event events none = refl
with_events_cons event events (some q) =
    let joined = append_assoc q.queue.inner (event ∷ []) events in ground (arith, joined)

get-deliver :
    (id j : ℕ) (event : Event) (queues : Map ℕ EventQueue)
    → get j (deliver id event queues)
      ≡ (if id == j then with_events (event ∷ []) (get j queues) else get j queues)
unfolding deliver Queue.send
get-deliver id j event queues = elim (Option-cases (get id queues)) [
  | inl gone ↦ ground (arith, gone, ==_iff id j)
  | inr (q, here) ↦
      let sent : EventQueue = record q { queue = (Queue.send q.queue event).0 } in
      ground (arith, here, get-insert id j sent queues, ==_iff id j)
]

get-trigger_each :
    (flags j : ℕ) (list : Map QueueKey ℕ) (queues : Map ℕ EventQueue)
    → get j (trigger_each flags list queues) ≡ with_events (events_for j flags list) (get j queues)
unfolding trigger_each events_for
get-trigger_each flags j [] queues = sym (with_events_none (get j queues))
get-trigger_each flags j ((key, f) ∷ list) queues =
    let common = bit_and flags f in
    let event : Event = record { id = key.id; flags = common; user_data = key.user_data } in
    let passed = get-trigger_each flags j list queues in
    let sent = get-trigger_each flags j list (deliver key.queue event queues) in
    let got = get-deliver key.queue j event queues in
    let joined = with_events_cons event (events_for j flags list) (get j queues) in
    ground (arith, passed, sent, got, joined)

-- The flags that a queue is registered with for a file, by a key.
unfoldable pub registered : RegKey → QueueKey → Registry → Option ℕ
unfolding entry_of
registered key queue_key registry = get queue_key (entry_of key registry)

get-enter :
    (key k : QueueKey) (flags : ℕ) (entry : Map QueueKey ℕ)
    → get k (enter key flags entry)
      ≡ (if queue_key.eq_key key k then if flags == 0 then none else some flags else get k entry)
unfolding enter
get-enter key k flags entry = ground (arith, get-insert key k flags entry, get-remove key k entry)

entry_of-insert :
    (key k : RegKey) (entry : Map QueueKey ℕ) (registry : Registry)
    → entry_of k (insert key entry registry)
      ≡ (if reg_key.eq_key key k then entry else entry_of k registry)
unfolding entry_of
entry_of-insert key k entry registry = ground (arith, get-insert key k entry registry)

module _ {X : Type 0} where
  -- `trigger` appends to every queue, in the order of the registry, an event for each registration of
  -- the file with that queue which has a flag in common with the given ones, with these flags, and
  -- notifies it for each; it makes and drops no queue, and changes nothing else.
  pub trigger_lem :
      (scheme number flags : ℕ) (ev : Events X)
      → let list = entry_of (record { scheme = scheme; number = number }) ev.registry in
        ((j : ℕ)
          → get j (trigger scheme number flags ev).queues
            ≡ with_events (events_for j flags list) (get j ev.queues))
        × ((trigger scheme number flags ev).registry ≡ ev.registry)
        × ((trigger scheme number flags ev).outside ≡ ev.outside)
  unfolding trigger entry_of events_for
  trigger_lem scheme number flags ev =
      let key : RegKey = record { scheme = scheme; number = number } in
      elim (Option-cases (get key ev.registry)) [
        | inl gone ↦ (
          λ j. ground (arith, gone, with_events_none (get j ev.queues)),
          ground (arith, gone),
          ground (arith, gone),
        )
        | inr (list, here) ↦ (
          λ j. ground (arith, here, get-trigger_each flags j list ev.queues),
          ground (arith, here),
          ground (arith, here),
        )
      ]

  -- `register` sets the flags of its queue key for its file, where no flags end the registration; every
  -- other registration is as before.
  pub registered-register :
      (key k : RegKey) (queue_key1 queue_key2 : QueueKey) (flags : ℕ) (ev : Events X)
      → registered k queue_key2 (register key queue_key1 flags ev).registry ≡ (
          if reg_key.eq_key key k && queue_key.eq_key queue_key1 queue_key2
          then if flags == 0 then none else some flags
          else registered k queue_key2 ev.registry)
  unfolding registered register
  registered-register key k queue_key1 queue_key2 flags ev =
      let entry = entry_of key ev.registry in
      let entered = enter queue_key1 flags entry in
      let listed = entry_of-insert key k entered ev.registry in
      let got = get-enter queue_key1 queue_key2 flags entry in
      let same = eq_reg_iff key k in ground (arith, listed, got, same)

  -- Once a file is unregistered, no flags on it reach a queue, until it is registered again.
  pub trigger-unregister_file :
      (scheme number flags : ℕ) (ev : Events X)
      → trigger scheme number flags (unregister_file scheme number ev)
        ≡ unregister_file scheme number ev
  unfolding trigger unregister_file
  trigger-unregister_file scheme number flags ev =
      let key : RegKey = record { scheme = scheme; number = number } in
      ground (arith, get-remove_self key ev.registry)
