-- ===== src/Sync/Queue/Receive.antt =====
-- What `receive_into` and `receive_into_user` take out of a queue.
use native.Mathlib.Decide.{dec_lt}
use redox_os_kernel.Prelude.{
  ℕ, zero, suc, ◌+◌, ◌-◌, ◌*◌, ◌/◌, ◌<◌, min, ◌≡◌, refl, sym, ap, ◌∙◌, Bool, true, ◌&&◌, none, List,
  [], ◌∷◌, ◌++◌, ok, ltb, length, take, drop, is_nil, if◌then◌else◌, arith, append-nil, take-append,
  take_all, length-append,
}
use mathlib.Core.List.{append_assoc}
use redox_os_kernel.UserSlice.{UserMem, UserSlice, advance}
use redox_os_kernel.UserSlice.Bounds.{IsUser, advance_lem}
use redox_os_kernel.UserSlice.Copies.{CopyLaws, copy_common_lem}
use redox_os_kernel.Sync.{done, wait}
use redox_os_kernel.Sync.Queue.{
  WaitQueue, Layout, pop_upto, receive_into, all_bytes, copy_rest, copy_parts, receive_into_user,
}

module _ {ℓ} {T : Type ℓ} where
  pop_upto_lem : (n : ℕ) (inner : List T) → pop_upto n inner ≡ (take n inner, drop n inner)
  unfolding pop_upto
  pop_upto_lem zero inner = refl
  pop_upto_lem (suc n) [] = refl
  pop_upto_lem (suc n) (value ∷ inner) = ground (arith, pop_upto_lem n inner)

  -- A round of `receive_into` takes the first `n` elements in order, or all if there are fewer, and
  -- leaves the others; it waits exactly where it blocks, has room and the queue is empty.
  pub receive_into_lem :
      (n : ℕ) (block : Bool) (q : WaitQueue T)
      → receive_into n block q ≡ (
          if ltb 0 n && block && is_nil q.inner
          then (q, wait)
          else (record q { inner = drop n q.inner }, done (ok (take n q.inner))))
  unfolding receive_into
  receive_into_lem n block q = ground (arith, pop_upto_lem n q.inner)

  -- Every element takes the same number of bytes.
  abbrev pub IsSized : Layout T → List T → Type 0
  IsSized l [] = Unit {0}
  IsSized l (v ∷ vs) = (length (l.to_bytes v) ≡ l.size) × IsSized l vs

  all_bytes-append :
      (l : Layout T) (v1 v2 : List T) → all_bytes l (v1 ++ v2) ≡ all_bytes l v1 ++ all_bytes l v2
  unfolding all_bytes
  all_bytes-append l [] v2 = refl
  all_bytes-append l (v ∷ v1) v2 = rw (all_bytes-append l v1 v2, append_assoc)

  length-all_bytes :
      (l : Layout T) (vs : List T) → IsSized l vs → length (all_bytes l vs) ≡ length vs * l.size
  unfolding all_bytes
  length-all_bytes l [] h = omega arith
  length-all_bytes l (v ∷ vs) h =
      grind (arith, length-append (l.to_bytes v) (all_bytes l vs), length-all_bytes l vs h.1)

module _ {ℓ} {T : Type ℓ} {M : Type 0} (mem : UserMem M) (laws : CopyLaws mem) (l : Layout T) where
  advance_short : (s : UserSlice) (n : ℕ) → s.len < n → advance s n ≡ none
  unfolding advance
  advance_short s n h = ground arith

  copy_parts_lem :
      (buf : UserSlice) (s1 s2 : List ℕ) (m : M)
      → IsUser buf
      → (mem.copy_to_user buf.base (take buf.len (s1 ++ s2)) m).1 ≡ true
      → copy_parts mem l buf (s1, s2) m ≡ (
        (mem.copy_to_user buf.base (take buf.len (s1 ++ s2)) m).0,
        ok (min buf.len (length (s1 ++ s2))),
      )
  unfolding copy_parts copy_rest
  copy_parts_lem buf s1 s2 m h e =
      let both : take buf.len (s1 ++ s2) ≡ take buf.len s1 ++ take (buf.len - length s1) s2 =
        take-append buf.len s1 s2 in
      let rest : UserSlice = record { base = buf.base + length s1; len = buf.len - length s1 } in
      elim (dec_lt buf.len (length s1)) [
        | yes short ↦
            let gap : buf.len - length s1 ≡ 0 = omega arith in
            let none_left : take (buf.len - length s1) s2 ≡ [] = rw gap in
            let front : take buf.len (s1 ++ s2) ≡ take buf.len s1 =
              rw (both, none_left, append-nil (take buf.len s1)) in
            let copied = copy_common_lem mem buf s1 m (rw (← front) e) in
            let stopped = advance_short buf (length s1) short in
            ground (arith, copied, stopped, front, length-append s1 s2)
        | no fits ↦
            let whole : take buf.len s1 ≡ s1 = take_all buf.len s1 (omega arith) in
            let tail = take (buf.len - length s1) s2 in
            let parts = laws.to_user-append buf.base s1 tail m in
            let split : take buf.len (s1 ++ s2) ≡ s1 ++ tail = ground (arith, both, whole) in
            let first : (mem.copy_to_user buf.base s1 m).1 ≡ true =
              ground (arith, parts, split, e) in
            let copied = copy_common_lem mem buf s1 m (rw whole first) in
            let moved = advance_lem buf (length s1) h (omega arith) in
            let second : (mem.copy_to_user rest.base tail (mem.copy_to_user buf.base s1 m).0).1
                ≡ true =
              ground (arith, parts, split, first, e) in
            let copied' = copy_common_lem mem rest s2 (mem.copy_to_user buf.base s1 m).0 second in
            ground (arith, copied, copied', moved, parts, split, whole, first, length-append s1 s2)
      ]

  -- A round of `receive_into_user` on a queue that holds elements, into a slice of user memory, puts
  -- as many bytes of them as fit into the slice, in order, and returns their number; as many elements
  -- leave the queue as have gone over whole. The copy must not fault, and all elements must have the
  -- size of their type.
  pub receive_into_user_lem :
      (slices : List T → List T × List T) (buf : UserSlice) (block : Bool) (v : T) (vs : List T)
      (notified : ℕ) (m : M)
      → ((q : List T) → (slices q).0 ++ (slices q).1 ≡ q)
      → IsUser buf
      → IsSized l (v ∷ vs)
      → (mem.copy_to_user buf.base (take buf.len (all_bytes l (v ∷ vs))) m).1 ≡ true
      → let n = min buf.len ((length vs + 1) * l.size) in
        receive_into_user mem l slices buf block (record { inner = v ∷ vs; notified = notified }, m)
        ≡ (
          (
            record { inner = drop (n / l.size) (v ∷ vs); notified = notified },
            (mem.copy_to_user buf.base (take buf.len (all_bytes l (v ∷ vs))) m).0,
          ),
          done (ok n),
        )
  unfolding receive_into_user
  receive_into_user_lem slices buf block v vs notified m whole h sized e =
      let (v1, v2) = slices (v ∷ vs) in
      let joined : all_bytes l v1 ++ all_bytes l v2 ≡ all_bytes l (v ∷ vs) =
        sym (all_bytes-append l v1 v2) ∙ ap (all_bytes l) (whole (v ∷ vs)) in
      let copied = copy_parts_lem buf (all_bytes l v1) (all_bytes l v2) m h (rw joined e) in
      let size : length (all_bytes l (v ∷ vs)) ≡ (length vs + 1) * l.size =
        grind (arith, length-all_bytes l (v ∷ vs) sized) in
      ground (arith, copied, joined, size)
