-- ===== src/Events.antt =====
-- src/event.rs: the event queues, and the registry of what they wait for. `fevent` is the call of
-- that name of a scheme object of a type `S`; it may change the state of the schemes, of a type `X`.
pub mod Keys
pub mod Trigger
pub mod Timeouts
pub mod EventScheme
mod Tests
use redox_os_kernel.Prelude.{
  ℕ, zero, suc, ◌+◌, Bool, true, false, Option, none, some, List, [], ◌∷◌, ◌==◌, length,
  if◌then◌else◌, bit_and, bit_or, ◌%◌, usize_mod, Result, ok, err, panic, Errno,
}
use redox_os_kernel.Btree.{Map, get, insert, remove, nat_key}
use redox_os_kernel.Schemes.{SchemeList, get_scheme}
use redox_os_kernel.Contexts.Files.{get_file}
use redox_os_kernel.Sync.Queue
use redox_os_kernel.Events.Keys.{RegKey, QueueKey, Event, reg_key, queue_key}

pub record EventQueue : Type 0 where
  pub id : ℕ
  pub queue : Queue.WaitQueue Event

abbrev pub Registry : Type 0
Registry = Map RegKey (Map QueueKey ℕ)

pub record Events (X : Type 0) : Type 0 where
  pub registry : Registry
  pub queues : Map ℕ EventQueue
  pub next_id : ℕ
  pub outside : X

-- `EventQueue::new`
unfoldable pub new : ℕ → EventQueue
new id = record { id = id; queue = Queue.new }

-- `entry(...).or_insert_with(...)`, and what is done with the entry.
unfoldable pub enter : QueueKey → ℕ → Map QueueKey ℕ → Map QueueKey ℕ
enter key flags entry = if flags == 0 then remove key entry else insert key flags entry

unfoldable pub entry_of : RegKey → Registry → Map QueueKey ℕ
entry_of key registry = elim (get key registry) [ none ↦ [] | some entry ↦ entry ]

-- The flags of all the registrations of a file.
unfoldable pub all_flags : Map QueueKey ℕ → ℕ → ℕ
all_flags [] flags = flags
all_flags ((key, f) ∷ list) flags = all_flags list (bit_or flags f)

-- `queue.queue.send(...)`, if there is the queue.
unfoldable pub deliver : ℕ → Event → Map ℕ EventQueue → Map ℕ EventQueue
unfolding Queue.send
deliver id event queues = elim (get id queues) [
  | none ↦ queues
  | some q ↦ insert id (record q { queue = (Queue.send q.queue event).0 }) queues
]

-- The loop of `trigger`.
unfoldable pub trigger_each : ℕ → Map QueueKey ℕ → Map ℕ EventQueue → Map ℕ EventQueue
unfolding deliver
trigger_each flags [] queues = queues
trigger_each flags ((key, f) ∷ list) queues =
    let common = bit_and flags f in
    let event : Event = record { id = key.id; flags = common; user_data = key.user_data } in
    trigger_each flags list (if common == 0 then queues else deliver key.queue event queues)

module _ {X : Type 0} where
  unfoldable pub next_queue_id : Events X → Events X × ℕ
  next_queue_id ev = (record ev { next_id = (ev.next_id + 1) % usize_mod }, ev.next_id)

  unfoldable pub register : RegKey → QueueKey → ℕ → Events X → Events X
  unfolding enter entry_of
  register reg_key queue_key flags ev = record ev {
    registry = insert reg_key (enter queue_key flags (entry_of reg_key ev.registry)) ev.registry;
  }

  unfoldable pub unregister_file : ℕ → ℕ → Events X → Events X
  unregister_file scheme number ev = record ev {
    registry = remove (record { scheme = scheme; number = number }) ev.registry;
  }

  unfoldable pub trigger : ℕ → ℕ → ℕ → Events X → Events X
  unfolding trigger_each
  trigger scheme number flags ev =
      elim (get (record { scheme = scheme; number = number }) ev.registry) [
        | none ↦ ev
        | some list ↦ record ev { queues = trigger_each flags list ev.queues }
      ]

module _ {S X : Type 0} (fevent : S → ℕ → ℕ → X → X × Result ℕ) (schemes : SchemeList S) where
  unfoldable pub sync : RegKey → Events X → Events X × Result ℕ
  unfolding entry_of all_flags get_scheme
  sync key ev = elim (get_scheme schemes key.scheme) [
    | none ↦ (ev, err Errno.ebadf)
    | some scheme ↦
        let (outside, r) =
          fevent scheme key.number (all_flags (entry_of key ev.registry) 0) ev.outside in
        (record ev { outside = outside }, r)
  ]

  -- What `write` does with an event once its file is found.
  unfoldable pub write_at : ℕ → Event → RegKey → Events X → Events X × Result ℕ
  unfolding register sync trigger
  write_at queue event key ev =
      let registered =
        register key (record { queue = queue; id = event.id; user_data = event.user_data })
          event.flags ev in
      let (ev', r) = sync key registered in
      elim r [
        | ok flags ↦ (if flags == 0 then ev' else trigger key.scheme key.number flags ev', ok flags)
        | err e ↦ (ev', err e)
        | panic ↦ (ev', panic)
      ]

  -- The loop of `EventQueue::write`. `files` are the descriptions of the open files of the current
  -- context, if there is one.
  unfoldable pub write_each :
      ℕ → Option (List (Option RegKey)) → List Event → Events X → Events X × Result (Unit {0})
  unfolding write_at get_file
  write_each queue files [] ev = (ev, ok tt)
  write_each queue none (event ∷ events) ev = (ev, err Errno.esrch)
  write_each queue (some files) (event ∷ events) ev = elim (get_file files event.id) [
    | none ↦ (ev, err Errno.ebadf)
    | some key ↦
        let (ev', r) = write_at queue event key ev in
        let rest = write_each queue (some files) events ev' in
        elim r [ ok flags ↦ rest | err e ↦ (ev', err e) | panic ↦ (ev', panic) ]
  ]

  unfoldable pub write :
      ℕ → Option (List (Option RegKey)) → List Event → Events X → Events X × Result ℕ
  unfolding write_each
  write queue files events ev =
      let (ev', r) = write_each queue files events ev in
      (ev', elim r [ ok u ↦ ok (length events) | err e ↦ err e | panic ↦ panic ])
