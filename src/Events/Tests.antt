-- ===== src/Events/Tests.antt =====
-- The theorems on events, at one queue and two registrations of a file.
use redox_os_kernel.Prelude.{ℕ, ◌≡◌, some, List, [], ◌∷◌}
use redox_os_kernel.Btree.{get, nat_key}
use redox_os_kernel.Sync.Queue.{WaitQueue}
use redox_os_kernel.Prelude.{refl, ◌*◌, ok, min, take, append-nil, arith}
use redox_os_kernel.UserSlice.{UserSlice}
use redox_os_kernel.UserSlice.Listed.{listed, listed-CopyLaws}
use redox_os_kernel.Sync.{done}
use redox_os_kernel.Sync.Queue.{Layout, all_bytes}
use redox_os_kernel.Events.EventScheme.{read_queue}
use redox_os_kernel.Events.EventScheme.Delivery.{read_queue-trigger}
use redox_os_kernel.Events.{EventQueue, Events, entry_of, trigger}
use redox_os_kernel.Events.Keys.{RegKey, QueueKey, Event, reg_key, queue_key}
use redox_os_kernel.Events.Trigger.{events_for, with_events, trigger_lem}
use redox_os_kernel.Events.Timeouts.{Timeout, Flags, trigger_timeouts}
use redox_os_kernel.Events.Timeouts.Scan.{pending, fire, trigger_timeouts_lem}

abbrev file : RegKey
file = record { scheme = 3; number = 5 }

abbrev first_key : QueueKey
first_key = record { queue = 0; id = 4; user_data = 40 }

abbrev second_key : QueueKey
second_key = record { queue = 1; id = 6; user_data = 60 }

abbrev empty_queue : WaitQueue Event
empty_queue = record { inner = []; notified = 0 }

abbrev events : Events ℕ
events = record {
  registry = (file, (first_key, 1) ∷ (second_key, 2) ∷ []) ∷ [];
  queues = (0, record { id = 0; queue = empty_queue }) ∷ [];
  next_id = 1;
  outside = 0;
}

trigger_lem_example :
    let list = entry_of file events.registry in
    ((j : ℕ)
      → get j (trigger 3 5 3 events).queues
        ≡ with_events (events_for j 3 list) (get j events.queues))
    × ((trigger 3 5 3 events).registry ≡ events.registry)
    × ((trigger 3 5 3 events).outside ≡ events.outside)
trigger_lem_example = trigger_lem 3 5 3 events

abbrev flags : Flags
flags = record { clock_realtime = 1; clock_monotonic = 4; event_read = 1 }

abbrev timeouts : List Timeout
timeouts =
    record { scheme_id = 3; event_id = 5; clock = 4; time = 100 }
    ∷ record { scheme_id = 3; event_id = 6; clock = 4; time = 300 }
    ∷ []

trigger_timeouts_lem_example :
    trigger_timeouts flags 200 1000 timeouts events
    ≡ (pending flags 200 1000 timeouts, fire flags 200 1000 timeouts events)
trigger_timeouts_lem_example = trigger_timeouts_lem flags 200 1000 timeouts events

abbrev event_layout : Layout Event
event_layout = record { size = 2; to_bytes = λ e. e.id ∷ e.flags ∷ [] }

abbrev buf : UserSlice
buf = record { base = 4096; len = 8 }

abbrev contiguous : List Event → List Event × List Event
contiguous q = (q, [])

abbrev queue_zero : EventQueue
queue_zero = record { id = 0; queue = empty_queue }

abbrev made : Event
made = record { id = 4; flags = 1; user_data = 40 }

has_queue : get 0 events.queues ≡ some queue_zero
unfolding get
has_queue = refl

makes_one : events_for 0 3 (entry_of file events.registry) ≡ made ∷ []
unfolding events_for entry_of get
makes_one = refl

read_queue-trigger_example :
    let ((ev', m'), t) =
      read_queue listed event_layout contiguous 0 buf (trigger 3 5 3 events, []) in
    (t ≡ done (ok (min 8 (1 * 2))))
    × (m' ≡ (listed.copy_to_user 4096 (take 8 (all_bytes event_layout (made ∷ []))) []).0)
read_queue-trigger_example =
    read_queue-trigger listed listed-CopyLaws event_layout contiguous 0 buf 3 5 3 events []
      queue_zero made [] (λ es. append-nil es) has_queue refl makes_one (omega arith) (refl, tt)
      refl
