-- ===== src/Pipe/Io/Fifo.antt =====
-- A pipe is a queue of bytes: what a read takes out and what a write puts in.
use redox_os_kernel.Prelude.{
  ℕ, ◌+◌, ◌-◌, ◌≤◌, ◌<◌, min, ◌≡◌, true, some, List, [], ◌∷◌, ◌++◌, ok, arith, length, take, drop,
  length-take, length-append, take-min, take-append, drop-min, add_usize, sub_usize,
}
use redox_os_kernel.Btree.{get, nat_key}
use redox_os_kernel.UserSlice.{UserMem, UserSlice, split_at, copy_from_slice}
use redox_os_kernel.UserSlice.Copies.{CopyLaws}
use redox_os_kernel.UserSlice.Bounds.{IsUser, limit_lem}
use redox_os_kernel.Pipe.{Abi, Pipe, Pipes, trigger, notify_write, write_id, update, emit}
use redox_os_kernel.Sync.{done}
use redox_os_kernel.Pipe.Io.{Slices, copy_queue, read_finish, read_round}

module _ {M : Type 0} (abi : Abi) (mem : UserMem M) (laws : CopyLaws mem) where
  split_lem :
      (s : UserSlice) (n : ℕ)
      → IsUser s
      → n ≤ s.len
      → split_at s n
        ≡ some (record { base = s.base; len = n }, record { base = s.base + n; len = s.len - n })
  unfolding split_at add_usize sub_usize
  split_lem s n h le = ground arith

  -- The two copies of `kread` come to one copy of the bytes that fit.
  pub copy_queue_lem :
      (buf : UserSlice) (s1 s2 : List ℕ) (m : M)
      → IsUser buf
      → (mem.copy_to_user buf.base (take buf.len (s1 ++ s2)) m).1 ≡ true
      → copy_queue abi mem buf (s1, s2) m ≡ (
        (mem.copy_to_user buf.base (take buf.len (s1 ++ s2)) m).0,
        ok (min buf.len (length (s1 ++ s2))),
      )
  unfolding copy_queue copy_from_slice
  copy_queue_lem buf s1 s2 m h e =
      let n1 = min buf.len (length s1) in
      let rest : UserSlice = record { base = buf.base + n1; len = buf.len - n1 } in
      let n2 = min (buf.len - n1) (length s2) in
      let p1 : take n1 s1 ≡ take buf.len s1 = take-min buf.len s1 in
      let p2 : take n2 s2 ≡ take (buf.len - n1) s2 = take-min (buf.len - n1) s2 in
      let gap : buf.len - n1 ≡ buf.len - length s1 = omega arith in
      let both : take buf.len (s1 ++ s2) ≡ take n1 s1 ++ take n2 s2 =
        rw (p1, p2, gap) (take-append buf.len s1 s2) in
      ground (
        arith,
        both,
        split_lem buf n1 h (omega arith),
        limit_lem rest n2 (omega arith),
        length-take n1 s1,
        length-take n2 s2,
        length-append s1 s2,
        laws.to_user-append buf.base (take n1 s1) (take n2 s2) m,
      )

  -- A round of `kread` on a pipe that holds bytes, into a buffer of user memory that is not empty,
  -- takes as many bytes from the front of the queue as fit, puts them into the buffer and returns
  -- their number; it tells the writer. The copy to user memory must not fault.
  pub read_round_lem :
      (slices : Slices) (key r : ℕ) (buf : UserSlice) (w : Pipes) (m : M) (p : Pipe)
      → ((q : List ℕ) → (slices q).0 ++ (slices q).1 ≡ q)
      → get r w.store ≡ some p
      → IsUser buf
      → 0 < buf.len
      → 0 < length p.queue
      → (mem.copy_to_user buf.base (take buf.len p.queue) m).1 ≡ true
      → read_round abi mem slices key r buf (w, m) ≡ (
        (
          emit
              (notify_write key ∷ trigger (write_id key) abi.event_write ∷ [])
              (update r (record p { queue = drop buf.len p.queue }) w),
          (mem.copy_to_user buf.base (take buf.len p.queue) m).0,
        ),
        done (ok (min buf.len (length p.queue))),
      )
  unfolding read_round read_finish
  read_round_lem slices key r buf w m p whole here h room some_bytes e =
      let q = slices p.queue in
      let both : q.0 ++ q.1 ≡ p.queue = whole p.queue in
      let copied = copy_queue_lem buf q.0 q.1 m h (rw both e) in
      let moved : 0 < min buf.len (length p.queue) = omega arith in
      ground (arith, here, both, copied, moved, drop-min buf.len p.queue)
