-- ===== src/Events/EventScheme.antt =====
-- src/scheme/event.rs: the scheme `event:`, whose handles are the event queues.
pub mod Delivery
use redox_os_kernel.Prelude.{
  ℕ, zero, suc, ◌+◌, ◌*◌, Bool, true, false, Option, none, some, List, [], ◌∷◌, ◌==◌, if◌then◌else◌,
  Result, ok, err, panic, Errno, map_ok,
}
use redox_os_kernel.Btree.{Map, get, contains_key, insert, remove, nat_key}
use redox_os_kernel.Schemes.{SchemeList}
use redox_os_kernel.UserSlice.{
  UserMem, UserSlice, in_exact_chunks, read_exact, copy_common_bytes_from_slice,
}
use redox_os_kernel.Sync.{Turn, done, wait}
use redox_os_kernel.Sync.Queue.{Layout, receive_into_user}
use redox_os_kernel.Events.{EventQueue, Events, new, next_queue_id, write}
use redox_os_kernel.Events.Keys.{RegKey, Event}

module _ {X : Type 0} where
  -- `open`
  unfoldable pub open_queue : Events X → Events X × Result ℕ
  unfolding next_queue_id new
  open_queue ev =
      let (ev', id) = next_queue_id ev in
      (record ev' { queues = insert id (new id) ev'.queues }, ok id)

  -- `fsync`, and `fcntl` of any command.
  unfoldable pub check_queue : ℕ → Events X → Result ℕ
  check_queue id ev = if contains_key id ev.queues then ok 0 else err Errno.ebadf

  unfoldable pub close_queue : ℕ → Events X → Events X × Result ℕ
  close_queue id ev =
      if contains_key id ev.queues
      then (record ev { queues = remove id ev.queues }, ok 0)
      else (ev, err Errno.ebadf)

  module _ {M : Type 0} (mem : UserMem M) (l : Layout Event) where
    -- A round of `kread`, which is one of `EventQueue::read`.
    unfoldable pub read_queue :
        (List Event → List Event × List Event)
        → ℕ
        → UserSlice
        → Events X × M
        → (Events X × M) × Turn ℕ
    unfolding receive_into_user
    read_queue slices id buf (ev, m) = elim (get id ev.queues) [
      | none ↦ ((ev, m), done (err Errno.ebadf))
      | some q ↦
          let ((queue, m'), t) = receive_into_user mem l slices buf true (q.queue, m) in
          ((record ev { queues = insert id (record q { queue = queue }) ev.queues }, m'), t)
    ]

module _ {S X M : Type 0} (fevent : S → ℕ → ℕ → X → X × Result ℕ) (schemes : SchemeList S)
    (mem : UserMem M) (size : ℕ) (decode : List ℕ → Event) where
  -- The loop of `kwrite`; `decode` reads an event of `size` bytes from memory. An `EventQueue::write`
  -- of one event does not give 0.
  unfoldable pub write_chunks :
      ℕ → Option (List (Option RegKey)) → List UserSlice → M → Events X → Events X × Result ℕ
  unfolding write read_exact
  write_chunks id files [] m ev = (ev, ok 0)
  write_chunks id files (chunk ∷ chunks) m ev = elim (read_exact mem chunk size m) [
    | err e ↦ (ev, err e)
    | panic ↦ (ev, panic)
    | ok bytes ↦
        let (ev', r) = write fevent schemes id files (decode bytes ∷ []) ev in
        let (ev'', rest) = write_chunks id files chunks m ev' in
        elim r [
          | err e ↦ (ev', err e)
          | panic ↦ (ev', panic)
          | ok n ↦ if n == 0 then (ev', ok 0) else (ev'', map_ok (λ k. size + k) rest)
        ]
  ]

  unfoldable pub write_queue :
      ℕ → Option (List (Option RegKey)) → UserSlice → M → Events X → Events X × Result ℕ
  unfolding write_chunks in_exact_chunks
  write_queue id files buf m ev = elim (get id ev.queues) [
    | none ↦ (ev, err Errno.ebadf)
    | some q ↦ elim (in_exact_chunks buf size) [
      | ok chunks ↦ write_chunks q.id files chunks m ev
      | err e ↦ (ev, err e)
      | panic ↦ (ev, panic)
    ]
  ]
