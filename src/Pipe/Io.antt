-- ===== src/Pipe/Io.antt =====
-- `kread` and `kwrite` of src/scheme/pipe.rs. Each is a loop of rounds under the lock of the queue; a
-- round ends the call or waits on a condition of the pipe.
pub mod Fifo
pub mod Fill
use redox_os_kernel.Prelude.{
  ℕ, zero, suc, ◌+◌, ◌-◌, min, ◌≡◌, Bool, true, false, not, ◌&&◌, ◌||◌, Option, none, some, List,
  [], ◌∷◌, ◌++◌, Result, ok, err, panic, Errno, ok_or, expect, guard, ◌>>=◌, ◌>>◌, ltb, leb, ◌==◌,
  length, take, drop, if◌then◌else◌, bit_and,
}
use redox_os_kernel.Btree.{get, nat_key}
use redox_os_kernel.UserSlice.{
  UserMem, UserSlice, split_at, limit, is_empty, in_variable_chunks, copy_from_slice,
  copy_common_bytes_to_slice,
}
use redox_os_kernel.Sync.{Turn, done, wait, rounds}
use redox_os_kernel.Pipe.{
  Abi, Pipe, Pipes, Effect, trigger, notify_read, notify_write, from_raw_id, write_id, find, update,
  emit, max_queue_size,
}

unfoldable pub is_nonblock : Abi → ℕ → Bool
is_nonblock abi flags = bit_and flags abi.o_nonblock == abi.o_nonblock

-- `n` bytes of the queue have been copied to the user.
unfoldable pub read_finish : Abi → ℕ → ℕ → Pipe → UserSlice → ℕ → Pipes → Pipes × Turn ℕ
unfolding is_nonblock is_empty
read_finish abi key r p buf n w =
    let w' = update r (record p { queue = drop n p.queue }) w in
    if ltb 0 n
    then (emit (notify_write key ∷ trigger (write_id key) abi.event_write ∷ []) w', done (ok n))
    else if is_empty buf
    then (w', done (ok 0))
    else if not p.writer_is_alive
    then (w', done (ok 0))
    else if is_nonblock abi p.read_flags
    then (w', done (err Errno.eagain))
    else (w', wait)

unfoldable pub write_finish : Abi → ℕ → ℕ → Pipe → UserSlice → List ℕ → Pipes → Pipes × Turn ℕ
unfolding is_nonblock is_empty
write_finish abi key r p buf bytes w =
    let w' = update r (record p { queue = p.queue ++ bytes }) w in
    if ltb 0 (length bytes)
    then (emit (notify_read key ∷ trigger key abi.event_read ∷ []) w', done (ok (length bytes)))
    else if is_empty buf
    then (w', done (ok 0))
    else if not p.reader_is_alive
    then (w', done (err Errno.epipe))
    else if is_nonblock abi p.write_flags
    then (w', done (err Errno.eagain))
    else (w', wait)

-- `as_slices` of the `VecDeque`: the two parts in which it lies in memory.
abbrev pub Slices : Type 0
Slices = List ℕ → List ℕ × List ℕ

module _ {M : Type 0} (abi : Abi) (mem : UserMem M) where
  -- Copies to the first part of the buffer and then to the rest; the number of bytes.
  copy_second : Option UserSlice → ℕ → List ℕ → M → M × Result ℕ
  copy_second none n bytes m = (m, panic)
  copy_second (some s) n bytes m =
      let (m', r) = copy_from_slice mem s bytes m in (m', r >>= λ _. ok n)

  copy_both : Option (UserSlice × UserSlice) → List ℕ → List ℕ → M → M × Result ℕ
  unfolding copy_second
  copy_both none s1 s2 m = (m, panic)
  copy_both (some (s1_dst, s2_buf)) s1 s2 m =
      let (m', r) = copy_from_slice mem s1_dst s1 m in
      let n = min s2_buf.len (length s2) in
      elim r [
        | ok _ ↦ copy_second (limit s2_buf n) (length s1 + n) (take n s2) m'
        | err e ↦ (m', err e)
        | panic ↦ (m', panic)
      ]

  -- Both copies of `kread`.
  unfoldable pub copy_queue : UserSlice → List ℕ × List ℕ → M → M × Result ℕ
  unfolding copy_both
  copy_queue buf (s1, s2) m =
      let n = min buf.len (length s1) in copy_both (split_at buf n) (take n s1) s2 m

  unfoldable pub read_round : Slices → ℕ → ℕ → UserSlice → Pipes × M → (Pipes × M) × Turn ℕ
  unfolding copy_queue
  read_round slices key r buf (w, m) = elim (get r w.store) [
    | none ↦ ((w, m), done panic)
    | some p ↦
        let (m', copied) = copy_queue buf (slices p.queue) m in
        elim copied [
          | ok n ↦ let (w', t) = read_finish abi key r p buf n w in ((w', m'), t)
          | err e ↦ ((w, m'), done (err e))
          | panic ↦ ((w, m'), done panic)
        ]
  ]

  -- The loop over the chunks: a fault ends it, and is an error only in the first chunk.
  unfoldable pub read_chunks : Bool → List UserSlice → M → Result (List ℕ)
  read_chunks first [] m = ok []
  read_chunks first (c ∷ cs) m =
      let rest = read_chunks false cs m in
      elim (copy_common_bytes_to_slice mem c 512 m) [
        | ok bytes ↦ rest >>= λ more. ok (bytes ++ more)
        | err e ↦ if first then err e else ok []
        | panic ↦ panic
      ]

  unfoldable pub take_input : UserSlice → ℕ → M → Result (List ℕ)
  unfolding read_chunks limit in_variable_chunks
  take_input buf room m = do
    src ← expect (limit buf (min room buf.len))
    chunks ← in_variable_chunks src 512
    read_chunks true chunks m

  unfoldable pub write_round : ℕ → ℕ → UserSlice → Pipes × M → (Pipes × M) × Turn ℕ
  unfolding take_input
  write_round key r buf (w, m) = elim (get r w.store) [
    | none ↦ ((w, m), done panic)
    | some p ↦ elim (take_input buf (max_queue_size - length p.queue) m) [
      | ok bytes ↦ let (w', t) = write_finish abi key r p buf bytes w in ((w', m), t)
      | err e ↦ ((w, m), done (err e))
      | panic ↦ ((w, m), done panic)
    ]
  ]

  unfoldable pub kread :
      Slices → ℕ → UserSlice → Pipes × M → List ((Pipes × M) × Bool) → (Pipes × M) × Turn ℕ
  unfolding from_raw_id find rounds read_round
  kread slices id buf (w, m) wakes =
      let (is_writer, key) = from_raw_id id in
      if is_writer then ((w, m), done (err Errno.ebadf)) else elim (find key w) [
        | ok (r, p) ↦ rounds (read_round slices key r buf) (w, m) wakes
        | err e ↦ ((w, m), done (err e))
        | panic ↦ ((w, m), done panic)
      ]

  unfoldable pub kwrite :
      ℕ → UserSlice → Pipes × M → List ((Pipes × M) × Bool) → (Pipes × M) × Turn ℕ
  unfolding from_raw_id find rounds write_round
  kwrite id buf (w, m) wakes =
      let (is_writer, key) = from_raw_id id in
      if not is_writer then ((w, m), done (err Errno.ebadf)) else elim (find key w) [
        | ok (r, p) ↦ rounds (write_round key r buf) (w, m) wakes
        | err e ↦ ((w, m), done (err e))
        | panic ↦ ((w, m), done panic)
      ]
