-- ===== src/Events/EventScheme/Delivery.antt =====
-- The events of a trigger reach a reader of the queue.
use redox_os_kernel.Prelude.{
  ℕ, ◌+◌, ◌*◌, min, ◌≡◌, true, some, List, [], ◌∷◌, ◌++◌, ok, arith, length, take,
}
use redox_os_kernel.Btree.{get, nat_key}
use redox_os_kernel.UserSlice.{UserMem, UserSlice}
use redox_os_kernel.UserSlice.Bounds.{IsUser}
use redox_os_kernel.UserSlice.Copies.{CopyLaws}
use redox_os_kernel.Sync.{done}
use redox_os_kernel.Sync.Queue.{Layout, all_bytes}
use redox_os_kernel.Sync.Queue.Receive.{IsSized, receive_into_user_lem}
use redox_os_kernel.Events.{EventQueue, Events, entry_of, trigger}
use redox_os_kernel.Events.Keys.{Event}
use redox_os_kernel.Events.Trigger.{events_for, trigger_lem}
use redox_os_kernel.Events.EventScheme.{read_queue}

module _ {X M : Type 0} (mem : UserMem M) (laws : CopyLaws mem) (l : Layout Event) where
  -- A read of an event queue that was empty before a `trigger` puts into user memory the events that
  -- the trigger makes for the queue, in the order of the registry, as far as the buffer has room, and
  -- returns the number of their bytes. There must be at least one; the copy must not fault, and all
  -- events have the size of their type.
  pub read_queue-trigger :
      (slices : List Event → List Event × List Event) (id : ℕ) (buf : UserSlice)
      (scheme number flags : ℕ) (ev : Events X) (m : M) (q : EventQueue) (v : Event)
      (vs : List Event)
      → ((es : List Event) → (slices es).0 ++ (slices es).1 ≡ es)
      → get id ev.queues ≡ some q
      → q.queue.inner ≡ []
      → events_for id flags (entry_of (record { scheme = scheme; number = number }) ev.registry)
        ≡ v ∷ vs
      → IsUser buf
      → IsSized l (v ∷ vs)
      → (mem.copy_to_user buf.base (take buf.len (all_bytes l (v ∷ vs))) m).1 ≡ true
      → let ((ev', m'), t) = read_queue mem l slices id buf (trigger scheme number flags ev, m) in
        (t ≡ done (ok (min buf.len ((length vs + 1) * l.size))))
        × (m' ≡ (mem.copy_to_user buf.base (take buf.len (all_bytes l (v ∷ vs))) m).0)
  unfolding read_queue
  read_queue-trigger slices id buf scheme number flags ev m q v vs whole here empty made user sized
        e =
      let (queues, same, outside) = trigger_lem scheme number flags ev in
      let sent = queues id in
      let received =
        receive_into_user_lem mem laws l slices buf true v vs (q.queue.notified + length (v ∷ vs)) m
          whole user sized e in
      (
        ground (arith, here, empty, made, sent, received),
        ground (arith, here, empty, made, sent, received),
      )
