-- ===== src/Pipe/Io/Fill.antt =====
-- `kwrite`: the walk of the buffer in chunks of 512 bytes, and what it puts into the queue.
use native.Mathlib.Decide.{dec_lt}
use redox_os_kernel.Prelude.{
  ℕ, zero, suc, ◌+◌, ◌-◌, ◌≤◌, ◌<◌, min, ◌≡◌, refl, Bool, true, false, some, List, [], ◌∷◌, ◌++◌,
  ok, arith, length, take, drop, length-append, take++drop, append-nil, Option-cases, Result-cases,
  inl, inr,
}
use redox_os_kernel.Btree.{get, nat_key}
use redox_os_kernel.UserSlice.{UserMem, UserSlice, copy_common_bytes_to_slice, copy_to_slice}
use redox_os_kernel.UserSlice.Bounds.{IsUser, limit_lem}
use redox_os_kernel.UserSlice.Chunks.{tails, in_variable_chunks_lem}
use redox_os_kernel.Pipe.{Abi, Pipe, Pipes, trigger, notify_read, update, emit, max_queue_size}
use redox_os_kernel.Sync.{done}
use redox_os_kernel.Pipe.Io.{write_finish, read_chunks, take_input, write_round}
use redox_os_kernel.UserSlice.Copies.{CopyLaws}

tails_nil : (n chunk base : ℕ) → tails n chunk base 0 ≡ []
tails_nil zero chunk base = refl
tails_nil (suc n) chunk base = refl

module _ {M : Type 0} (abi : Abi) (mem : UserMem M) (laws : CopyLaws mem) where
  first_chunk :
      (s : UserSlice) (m : M) (bytes : List ℕ)
      → mem.copy_from_user s.base (min s.len 512) m ≡ some bytes
      → copy_common_bytes_to_slice mem s 512 m ≡ ok bytes
  unfolding copy_common_bytes_to_slice copy_to_slice
  first_chunk s m bytes e = let n = min s.len 512 in ground (arith, e, limit_lem s n (omega arith))

  read_chunks_lem :
      (fuel base len : ℕ) (first : Bool) (m : M) (bytes : List ℕ)
      → len ≤ fuel
      → mem.copy_from_user base len m ≡ some bytes
      → read_chunks abi mem first (tails fuel 512 base len) m ≡ ok bytes
  unfolding read_chunks
  read_chunks_lem zero base len first m bytes le e =
      ground (arith, laws.from_user-length base len m bytes e)
  read_chunks_lem (suc fuel) base len first m bytes le e =
      let s : UserSlice = record { base = base; len = len } in
      elim (dec_lt len 513) [
        | yes small ↦
            let m_len : min len 512 ≡ len = omega arith in
            let none_left : len - 512 ≡ 0 = omega arith in
            let c : copy_common_bytes_to_slice mem s 512 m ≡ ok bytes =
              first_chunk s m bytes (rw m_len e) in
            let t = tails_nil fuel 512 (base + 512) in
            ground
              (arith, c, none_left, t, append-nil bytes, laws.from_user-length base len m bytes e)
        | no large ↦
            let sum : 512 + (len - 512) ≡ len = omega arith in
            let parts = laws.from_user-split base 512 (len - 512) m bytes (rw sum e) in
            let m_len : min len 512 ≡ 512 = omega arith in
            let c : copy_common_bytes_to_slice mem s 512 m ≡ ok (take 512 bytes) =
              first_chunk s m (take 512 bytes) (rw m_len parts.0) in
            let ih =
              read_chunks_lem fuel (base + 512) (len - 512) false m (drop 512 bytes) (omega arith)
                parts.1 in
            ground (arith, c, ih, take++drop 512 bytes)
      ]

  pub take_input_lem :
      (buf : UserSlice) (room : ℕ) (m : M) (bytes : List ℕ)
      → IsUser buf
      → mem.copy_from_user buf.base (min room buf.len) m ≡ some bytes
      → take_input abi mem buf room m ≡ ok bytes
  unfolding take_input
  take_input_lem buf room m bytes h e =
      let n = min room buf.len in
      let src : UserSlice = record { base = buf.base; len = n } in
      rw (
        limit_lem buf n (omega arith),
        in_variable_chunks_lem src 512 (omega arith) (omega arith),
        read_chunks_lem n buf.base n true m bytes (omega arith) e,
      )

  -- A round of `kwrite` on a pipe with room, from a buffer of user memory that is not empty, puts as
  -- many bytes from the front of the buffer at the end of the queue as there is room for and returns
  -- their number; it tells the reader. The copy from user memory must not fault.
  pub write_round_lem :
      (key r : ℕ) (buf : UserSlice) (w : Pipes) (m : M) (p : Pipe) (bytes : List ℕ)
      → get r w.store ≡ some p
      → IsUser buf
      → 0 < buf.len
      → length p.queue < max_queue_size
      → mem.copy_from_user buf.base (min (max_queue_size - length p.queue) buf.len) m ≡ some bytes
      → write_round abi mem key r buf (w, m) ≡ (
        (
          emit
              (notify_read key ∷ trigger key abi.event_read ∷ [])
              (update r (record p { queue = p.queue ++ bytes }) w),
          m,
        ),
        done (ok (min (max_queue_size - length p.queue) buf.len)),
      )
  unfolding write_round write_finish
  write_round_lem key r buf w m p bytes here h pos room e =
      let n = min (max_queue_size - length p.queue) buf.len in
      let input = take_input_lem buf (max_queue_size - length p.queue) m bytes h e in
      let size = laws.from_user-length buf.base n m bytes e in
      let moved : 0 < n = omega arith in ground (arith, here, input, size, moved)

  chunk_length :
      (s : UserSlice) (m : M) (bytes : List ℕ)
      → copy_common_bytes_to_slice mem s 512 m ≡ ok bytes
      → length bytes ≡ min s.len 512
  unfolding copy_common_bytes_to_slice copy_to_slice
  chunk_length s m bytes e =
      let n = min s.len 512 in
      elim (Option-cases (mem.copy_from_user s.base n m)) [
        | inl none_read ↦ absurd (ground (arith, none_read, limit_lem s n (omega arith), e))
        | inr (read, got) ↦
            let size = laws.from_user-length s.base n m read got in
            ground (arith, got, size, limit_lem s n (omega arith), e)
      ]

  read_chunks-length :
      (fuel base len : ℕ) (first : Bool) (m : M) (bytes : List ℕ)
      → read_chunks abi mem first (tails fuel 512 base len) m ≡ ok bytes
      → length bytes ≤ len
  unfolding read_chunks
  read_chunks-length zero base len first m bytes e = ground (arith, e)
  read_chunks-length (suc fuel) base len first m bytes e =
      let s : UserSlice = record { base = base; len = len } in
      let more = read_chunks abi mem false (tails fuel 512 (base + 512) (len - 512)) m in
      elim (dec_lt 0 len) [
        | no z ↦ ground (arith, e)
        | yes pos ↦ elim (Result-cases (copy_common_bytes_to_slice mem s 512 m)) [
          | inr (inl (x, c)) ↦ ground (arith, c, e)
          | inr (inr c) ↦ absurd (ground (arith, c, e))
          | inl (b, c) ↦ elim (Result-cases more) [
            | inr (inl (x, d)) ↦ absurd (ground (arith, c, d, e))
            | inr (inr d) ↦ absurd (ground (arith, c, d, e))
            | inl (b', d) ↦
                let ih = read_chunks-length fuel (base + 512) (len - 512) false m b' d in
                let size = chunk_length s m b c in
                ground (arith, c, d, e, ih, size, length-append b b')
          ]
        ]
      ]

  -- Never more bytes than there is room for, also when a copy faults.
  pub take_input-length :
      (buf : UserSlice) (room : ℕ) (m : M) (bytes : List ℕ)
      → IsUser buf
      → take_input abi mem buf room m ≡ ok bytes
      → length bytes ≤ min room buf.len
  unfolding take_input
  take_input-length buf room m bytes h e =
      let n = min room buf.len in
      let src : UserSlice = record { base = buf.base; len = n } in
      read_chunks-length n buf.base n true m bytes (
        ground (
          arith,
          e,
          limit_lem buf n (omega arith),
          in_variable_chunks_lem src 512 (omega arith) (omega arith),
        ))
