-- ===== src/Users/Unmount.antt =====
-- `unmount` of src/scheme/user.rs: no call begins and no read waits from then on.
use redox_os_kernel.Prelude.{
  ℕ, ◌≤◌, ◌≡◌, ◌≢◌, ◌⊎◌, refl, inl, inr, true, false, not, ◌||◌, List, [], ◌∷◌, ◌==◌, Result, ok,
  err, panic, Errno, arith, is_nil, Bool, Option, none, some, Option-cases, min, length, Bool-cases,
  Result-cases, bit_and,
}
use redox_os_kernel.Sync.{done}
use redox_os_kernel.Sync.Queue.{
  Layout, receive_into_user, receive_nothing, copy_parts, copy_rest, all_bytes,
}
use redox_os_kernel.Events.{Events}
use redox_os_kernel.Fs.{Caller}
use redox_os_kernel.Fs.Descriptors.{FileDescriptor}
use redox_os_kernel.UserSlice.{
  UserMem, UserSlice, is_empty, advance, limit, copy_common_bytes_from_slice, copy_limited,
  copy_from_slice,
}
use redox_os_kernel.Users.{
  UserInner, Packet, Api, unmount, call_extended, call_extended_inner, fmap_request, MapData,
  call_packet, note_fmap, next_id,
}
use redox_os_kernel.Users.Packets.{may_block, read, read_end, read_result}

is_nil_lem : {A : Type 0} (xs : List A) → is_nil xs ≡ true → xs ≡ []
is_nil_lem [] e = refl
is_nil_lem (x ∷ xs) e = absurd (ground (arith, e))

read_result_lem :
    (unmounting : Bool) (r : Result ℕ) → r ≢ err Errno.eagain → read_result unmounting r ≡ r
unfolding read_result
read_result_lem false r h = refl
read_result_lem true (ok n) h = refl
read_result_lem true panic h = refl
read_result_lem true (err e) h = go e h
  where
    go :
        (e : Errno)
        → ◌≢◌ {A = Result ℕ} (err e) (err Errno.eagain)
        → read_result true (err e) ≡ err e
    go e h = ground (arith, h)

module _ {U : Type 0} (mem : UserMem U) (layout : Layout Packet)
    (slices : List Packet → List Packet × List Packet) where
  copied-ne-again :
      (buf : UserSlice) (bytes : List ℕ) (m : U)
      → (copy_common_bytes_from_slice mem buf bytes m).1 ≢ err Errno.eagain
  unfolding copy_common_bytes_from_slice copy_limited copy_from_slice
  copied-ne-again buf bytes m = elim (Option-cases (limit buf (min buf.len (length bytes)))) [
    | inl gone ↦ λ e. ground (arith, gone, e)
    | inr (l, there) ↦ λ e. ground (arith, there, e)
  ]

  copy_rest-ne-again :
      (o : Option UserSlice) (n : ℕ) (bytes : List ℕ) (m : U)
      → (copy_rest mem layout o n bytes m).1 ≢ err Errno.eagain
  unfolding copy_rest
  copy_rest-ne-again none n bytes m e = ground (arith, e)
  copy_rest-ne-again (some buf) n bytes m e = ground (
    arith,
    e,
    copied-ne-again buf bytes m,
    Result-cases (copy_common_bytes_from_slice mem buf bytes m).1,
  )

  copy_parts-ne-again :
      (buf : UserSlice) (s1 s2 : List ℕ) (m : U)
      → (copy_parts mem layout buf (s1, s2) m).1 ≢ err Errno.eagain
  unfolding copy_parts
  copy_parts-ne-again buf s1 s2 m e =
      let first = copy_common_bytes_from_slice mem buf s1 m in
      elim (Result-cases first.1) [
        | inl (k, r) ↦
            ground (arith, r, e, copy_rest-ne-again (advance buf (length s1)) k s2 first.0)
        | inr (inl (x, r)) ↦ ground (arith, r, e, copied-ne-again buf s1 m)
        | inr (inr r) ↦ ground (arith, r, e)
      ]

  -- Where there are packets, a round of a read does not wait, and takes what a blocking one takes.
  read_waiting :
      (buf : UserSlice) (u : UserInner) (m : U)
      → is_nil u.todo.inner ≡ false
      → (r : Result ℕ) × (let got = receive_into_user mem layout slices buf true (u.todo, m) in
          (got.1 ≡ done r)
          × (read mem layout slices buf false (u, m)
              ≡ ((record u { todo = got.0.0 }, got.0.1), done r)))
  unfolding read read_end receive_into_user
  read_waiting buf u m some_left =
      let two = slices u.todo.inner in
      let bytes : List ℕ × List ℕ = (all_bytes layout two.0, all_bytes layout two.1) in
      let copied = copy_parts mem layout buf bytes m in
      let again = copy_parts-ne-again buf bytes.0 bytes.1 m in
      elim (Result-cases copied.1) [
        | inl (k, e) ↦ (
          ok k,
          (
            ground (arith, some_left, e),
            ground (arith, some_left, e, read_result_lem u.unmounting (ok k)),
          ),
        )
        | inr (inl (x, e)) ↦ (
          err x,
          (
            ground (arith, some_left, e),
            ground (arith, some_left, e, again, read_result_lem u.unmounting (err x)),
          ),
        )
        | inr (inr e) ↦ (
          panic,
          (
            ground (arith, some_left, e),
            ground (arith, some_left, e, read_result_lem u.unmounting panic),
          ),
        )
      ]

  read_eof :
      (buf : UserSlice) (u : UserInner) (m : U)
      → u.unmounting ≡ true
      → u.todo.inner ≡ []
      → layout.size ≤ buf.len
      → (read mem layout slices buf false (u, m)).1 ≡ done (ok 0)
  unfolding read read_end read_result receive_into_user receive_nothing is_empty
  read_eof buf u m stopped none_left room = elim (Bool-cases (buf.len == 0)) [
    | inl e ↦ ground (arith, stopped, none_left, e)
    | inr n ↦ ground (arith, stopped, none_left, n, room)
  ]

  -- Once a scheme is unmounted, every call of it, also one of `fmap` and one that has its number
  -- already, fails with ENODEV and queues no packet, and no round of a read that begins then waits: where
  -- there are packets it takes from the queue and returns just what a blocking round on that queue does,
  -- and where there are none it gives 0 bytes, the end of the file, if the buffer has room for a packet.
  pub unmount_lem :
      {X : Type 0} (api : Api) (u : UserInner) (ev : Events X) (buf : UserSlice) (m : U)
      → layout.size ≤ buf.len
      → let (u', ev') = (unmount api (u, ev)).0 in
        let after = read mem layout slices buf (may_block api u') (u', m) in
        ((packet : Packet)
          → call_extended_inner api packet (u', ev') ≡ ((u', ev'), err Errno.enodev))
        × ((ctx : Caller) (a b c d : ℕ)
            → let (s, r) = call_extended api ctx a b c d (u', ev') in
              (r ≡ err Errno.enodev) × (s.0.todo ≡ u.todo))
        × ((ctx : Caller) (file : ℕ) (desc : FileDescriptor) (map : MapData) (base len context : ℕ)
            → let (s, r) = fmap_request api ctx file desc map base len context (u', ev') in
              (r ≡ err Errno.enodev) × (s.0.todo ≡ u.todo))
        × ((u.todo.inner ≡ []) × (after.1 ≡ done (ok 0))
            ⊎ (u.todo.inner ≢ [])
              × ((r : Result ℕ) × (let got =
                      receive_into_user mem layout slices buf true (u.todo, m) in
                    (got.1 ≡ done r)
                    × (after ≡ ((record u' { todo = got.0.0 }, got.0.1), done r)))))
  unfolding unmount call_extended call_extended_inner fmap_request next_id call_packet note_fmap
      may_block
  unmount_lem api u ev buf m room =
      let u' = (unmount api (u, ev)).0.0 in
      let open_flags = bit_and u.flags api.o_nonblock == api.o_nonblock in
      let no_block : not (open_flags || true) ≡ false = ground arith in
      (
        λ packet. refl,
        λ ctx a b c d. (refl, refl),
        λ ctx file desc map base len context. (refl, refl),
        rw no_block (elim (Bool-cases (is_nil u.todo.inner)) [
          | inl e ↦
              let empty : u.todo.inner ≡ [] = is_nil_lem u.todo.inner e in
              inl (empty, read_eof buf u' m refl empty room)
          | inr n ↦ inr (λ e. ground (arith, e, n), read_waiting buf u' m n)
        ]),
      )
