-- ===== src/Pipe/Wakes.antt =====
-- What a call does that finds nothing to do: the end of the file, EAGAIN, EPIPE, or a wait; and the
-- wake that `close` owes to the other end.
use redox_os_kernel.Prelude.{
  ℕ, ◌-◌, ◌≤◌, ◌<◌, min, ◌≡◌, ap, sym, append-nil, true, false, not, some, List, [], ◌++◌, ok, err,
  Errno, arith, length, take_all, if◌then◌else◌, take,
}
use redox_os_kernel.Btree.{get, nat_key}
use redox_os_kernel.Btree.Laws.{get-insert_self}
use redox_os_kernel.UserSlice.{UserMem, UserSlice}
use redox_os_kernel.UserSlice.Bounds.{IsUser}
use redox_os_kernel.Pipe.{
  Abi, Pipe, Pipes, update, max_queue_size, close_notify, close_end, close_mark,
}
use redox_os_kernel.Sync.{done, wait}
use redox_os_kernel.Pipe.Io.{
  Slices, is_nonblock, read_round, write_round, read_finish, write_finish,
}
use redox_os_kernel.UserSlice.Copies.{CopyLaws}
use redox_os_kernel.Pipe.Io.Fifo.{copy_queue_lem}
use redox_os_kernel.Pipe.Io.Fill.{take_input_lem}

module _ {M : Type 0} (abi : Abi) (mem : UserMem M) (laws : CopyLaws mem) where
  -- A round of `kread` on an empty pipe changes no pipe and no memory: it is the end of the file if
  -- the writer is closed, else EAGAIN if the end is non-blocking, else the call waits.
  pub read_round_empty :
      (slices : Slices) (key r : ℕ) (buf : UserSlice) (w : Pipes) (m : M) (p : Pipe)
      → ((q : List ℕ) → (slices q).0 ++ (slices q).1 ≡ q)
      → get r w.store ≡ some p
      → IsUser buf
      → 0 < buf.len
      → p.queue ≡ []
      → read_round abi mem slices key r buf (w, m) ≡ (
        (update r p w, m),
        if not p.writer_is_alive
            then done (ok 0)
            else if is_nonblock abi p.read_flags
            then done (err Errno.eagain)
            else wait,
      )
  unfolding read_round read_finish
  read_round_empty slices key r buf w m p whole found h room e =
      let q = slices p.queue in
      let both : q.0 ++ q.1 ≡ [] = rw (whole p.queue, e) in
      let no_bytes : take buf.len (q.0 ++ q.1) ≡ [] = rw both (take_all buf.len [] (omega arith)) in
      let copied =
        copy_queue_lem abi mem laws buf q.0 q.1 m h (rw (no_bytes, laws.to_user-nil buf.base m)) in
      let at_end : record p { queue = [] } ≡ p = ap (λ x. record p { queue = x }) (sym e) in
      ground (arith, found, both, no_bytes, copied, e, at_end, laws.to_user-nil buf.base m)

  -- A round of `kwrite` on a full pipe changes no pipe: it is EPIPE if the reader is closed, else
  -- EAGAIN if the end is non-blocking, else the call waits.
  pub write_round_full :
      (key r : ℕ) (buf : UserSlice) (w : Pipes) (m : M) (p : Pipe)
      → get r w.store ≡ some p
      → IsUser buf
      → 0 < buf.len
      → max_queue_size ≤ length p.queue
      → write_round abi mem key r buf (w, m) ≡ (
        (update r p w, m),
        if not p.reader_is_alive
            then done (err Errno.epipe)
            else if is_nonblock abi p.write_flags
            then done (err Errno.eagain)
            else wait,
      )
  unfolding write_round write_finish
  write_round_full key r buf w m p found h room e =
      let full : min (max_queue_size - length p.queue) buf.len ≡ 0 = omega arith in
      let input =
        take_input_lem abi mem laws buf (max_queue_size - length p.queue) m [] h
          (rw (full, laws.from_user-nil buf.base m)) in
      let same : record p { queue = p.queue ++ [] } ≡ p =
        ap (λ x. record p { queue = x }) (append-nil p.queue) in
      ground (arith, found, input, same)

  -- `close` of the writing end gives its wake before it marks the end as closed: if a reader's round
  -- on an empty pipe that blocks falls between the two, the reader waits, and the rest of `close`
  -- gives no wake and no event any more, though the end of the file is now there to be read.
  pub close_lost_wake :
      (slices : Slices) (key r : ℕ) (buf : UserSlice) (w : Pipes) (m : M) (p : Pipe)
      → ((q : List ℕ) → (slices q).0 ++ (slices q).1 ≡ q)
      → get r w.store ≡ some p
      → IsUser buf
      → 0 < buf.len
      → p.queue ≡ []
      → p.writer_is_alive ≡ true
      → is_nonblock abi p.read_flags ≡ false
      → let told = close_notify abi true key w in
        let asleep = read_round abi mem slices key r buf (told, m) in
        let closed = close_end true key r p asleep.0.0 in
        (asleep.1 ≡ wait)
        × (closed.log ≡ told.log)
        × ((read_round abi mem slices key r buf (closed, m)).1 ≡ done (ok 0))
  unfolding close_end close_notify close_mark
  close_lost_wake slices key r buf w m p whole found h room e alive blocks =
      let told = close_notify abi true key w in
      let asleep = read_round_empty slices key r buf told m p whole found h room e in
      let closed = close_end true key r p (update r p told) in
      let marked = close_mark true p in
      let in_store : get r closed.store ≡ some marked =
        ground (arith, get-insert_self r marked (update r p told).store) in
      let woken = read_round_empty slices key r buf closed m marked whole in_store h room e in
      (ground (arith, asleep, alive, blocks), ground (arith, asleep), ground (arith, asleep, woken))
