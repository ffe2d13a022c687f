-- ===== src/Sync/Queue.antt =====
-- `WaitQueue` of src/sync/wait_queue.rs: a queue with a condition. An element of the type `T` is
-- `size` bytes in memory; a `VecDeque` lies in memory in two parts. A notification of the condition
-- is a count in the state.
pub mod Receive
use redox_os_kernel.Prelude.{
  ℕ, zero, suc, ◌+◌, ◌-◌, ◌*◌, ◌/◌, min, ◌≡◌, Bool, true, false, not, ◌&&◌, Option, none, some,
  List, [], ◌∷◌, ◌++◌, Result, ok, err, panic, Errno, ltb, leb, ◌==◌, length, take, drop, is_nil,
  if◌then◌else◌, ◌>>=◌, map_ok,
}
use redox_os_kernel.UserSlice.{UserMem, UserSlice, is_empty, advance, copy_common_bytes_from_slice}
use redox_os_kernel.Sync.{Turn, done, wait}

pub record WaitQueue {ℓ} (T : Type ℓ) : Type ℓ where
  pub inner : List T
  pub notified : ℕ

-- How an element lies in memory.
pub record Layout {ℓ} (T : Type ℓ) : Type ℓ where
  pub size : ℕ
  pub to_bytes : T → List ℕ

module _ {ℓ} {T : Type ℓ} where
  abbrev pub new : WaitQueue T
  new = record { inner = []; notified = 0 }

  -- `clone`: the elements, with a condition of its own.
  unfoldable pub clone : WaitQueue T → WaitQueue T
  clone q = record { inner = q.inner; notified = 0 }

  unfoldable pub send : WaitQueue T → T → WaitQueue T × ℕ
  send q value =
      (record { inner = q.inner ++ value ∷ []; notified = q.notified + 1 }, length q.inner + 1)

  unfoldable pub send_from : WaitQueue T → List T → WaitQueue T × ℕ
  send_from q buf =
      (record { inner = q.inner ++ buf; notified = q.notified + 1 }, length q.inner + length buf)

  -- A round of `receive`.
  unfoldable pub receive : WaitQueue T → WaitQueue T × Turn T
  receive q = elim q.inner [
    | [] ↦ (q, wait)
    | value ∷ rest ↦ (record q { inner = rest }, done (ok value))
  ]

  -- The loop of `receive_into`, for a buffer with room for `n` elements: what it takes, in order.
  unfoldable pub pop_upto : ℕ → List T → List T × List T
  pop_upto zero inner = ([], inner)
  pop_upto (suc n) [] = ([], [])
  pop_upto (suc n) (value ∷ inner) = let (got, rest) = pop_upto n inner in (value ∷ got, rest)

  -- A round of `receive_into`: only a blocking call on an empty queue waits, for its first element.
  unfoldable pub receive_into : ℕ → Bool → WaitQueue T → WaitQueue T × Turn (List T)
  unfolding pop_upto
  receive_into n block q =
      if ltb 0 n && block && is_nil q.inner
      then (q, wait)
      else let (got, rest) = pop_upto n q.inner in (record q { inner = rest }, done (ok got))

  -- The bytes of some elements.
  unfoldable pub all_bytes : Layout T → List T → List ℕ
  all_bytes l [] = []
  all_bytes l (value ∷ values) = l.to_bytes value ++ all_bytes l values

  module _ {M : Type 0} (mem : UserMem M) (l : Layout T) where
    -- The second of the two copies, where the first one came to `n` bytes.
    unfoldable pub copy_rest : Option UserSlice → ℕ → List ℕ → M → M × Result ℕ
    copy_rest none n bytes m = (m, ok n)
    copy_rest (some buf) n bytes m =
        let (m', r) = copy_common_bytes_from_slice mem buf bytes m in (m', map_ok (λ k. n + k) r)

    unfoldable pub copy_parts : UserSlice → List ℕ × List ℕ → M → M × Result ℕ
    unfolding copy_rest
    copy_parts buf (s1, s2) m =
        let (m', r) = copy_common_bytes_from_slice mem buf s1 m in
        elim r [
          | ok n ↦ copy_rest (advance buf (length s1)) n s2 m'
          | err e ↦ (m', err e)
          | panic ↦ (m', panic)
        ]

    -- What `receive_into_user` makes of an empty queue.
    unfoldable pub receive_nothing : Bool → UserSlice → Turn ℕ
    receive_nothing block buf =
        if block
        then wait
        else if is_empty buf
        then done (ok 0)
        else if ltb buf.len l.size
        then done (err Errno.einval)
        else done (err Errno.eagain)

    -- A round of `receive_into_user`.
    unfoldable pub receive_into_user :
        (List T → List T × List T) → UserSlice → Bool → WaitQueue T × M → (WaitQueue T × M) × Turn ℕ
    unfolding copy_parts receive_nothing all_bytes
    receive_into_user slices buf block (q, m) =
        if is_nil q.inner
        then ((q, m), receive_nothing block buf)
        else let (v1, v2) = slices q.inner in
          let (m', r) = copy_parts buf (all_bytes l v1, all_bytes l v2) m in
          elim r [
            | ok n ↦ ((record q { inner = drop (n / l.size) q.inner }, m'), done (ok n))
            | err e ↦ ((q, m'), done (err e))
            | panic ↦ ((q, m'), done panic)
          ]
