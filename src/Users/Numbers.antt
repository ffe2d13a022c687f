-- ===== src/Users/Numbers.antt =====
-- The numbers of the packets of a scheme.
use redox_os_kernel.Prelude.{
  ℕ, zero, suc, ◌+◌, ◌%◌, ◌^◌, ◌≤◌, ◌<◌, ◌≡◌, inl, inr, List, [], ◌∷◌, ◌++◌, ltb, ◌==◌, Result,
  if◌then◌else◌, arith, All, drop, Bool-cases,
}
use redox_os_kernel.Btree.{Map, insert, remove, nat_key}
use redox_os_kernel.Sync.Queue
use redox_os_kernel.Events.{Events}
use redox_os_kernel.Schemes.{SchemeList}
use redox_os_kernel.Users.{
  UserInner, Packet, Mapping, Api, receive, call_extended_inner, note_fmap, next_id, unmount,
}
use redox_os_kernel.Users.Packets.{World, Paging, handle_packet}
use redox_os_kernel.Users.Kept.{Kept, handle_packet-Kept}

abbrev pub AllBelow : ℕ → Map ℕ Mapping → Type 0
AllBelow hi m = All (λ e. (0 < e.0) × (e.0 < hi)) m

-- How often a number is in a list, and how often it is that of a packet.
abbrev pub times : ℕ → List ℕ → ℕ
times k [] = 0
times k (j ∷ js) = (if k == j then 1 else 0) + times k js

abbrev pub packet_times : ℕ → List Packet → ℕ
packet_times k [] = 0
packet_times k (p ∷ ps) = (if k == p.id then 1 else 0) + packet_times k ps

-- A scheme, and the numbers that calls have taken and have not queued a packet with yet.
abbrev pub State : Type 0
State = UserInner × List ℕ

abbrev pub uses : ℕ → State → ℕ
uses k (u, flying) = packet_times k u.todo.inner + times k flying

-- No number is twice among the packets that wait to be read and the calls that have yet to queue one,
-- and every number in use was given.
unfoldable pub IsNumbered : State → Type 0
IsNumbered (u, flying) =
    (0 < u.next_id)
    × ((k : ℕ) → uses k (u, flying) ≤ 1)
    × ((k : ℕ) → 0 < uses k (u, flying) → (0 < k) × (k < u.next_id))
    × AllBelow u.next_id u.fmap

times-append : (k : ℕ) (xs ys : List ℕ) → times k (xs ++ ys) ≡ times k xs + times k ys
times-append k [] ys = omega arith
times-append k (x ∷ xs) ys = ground (arith, times-append k xs ys)

packet_times-append :
    (k : ℕ) (ps : List Packet) (p : Packet)
    → packet_times k (ps ++ p ∷ []) ≡ packet_times k ps + (if k == p.id then 1 else 0)
packet_times-append k [] p = ground arith
packet_times-append k (q ∷ ps) p = ground (arith, packet_times-append k ps p)

packet_times-drop : (k n : ℕ) (ps : List Packet) → packet_times k (drop n ps) ≤ packet_times k ps
packet_times-drop k zero ps = omega arith
packet_times-drop k (suc n) [] = omega arith
packet_times-drop k (suc n) (p ∷ ps) = omega (arith, packet_times-drop k n ps)

AllBelow-suc : (hi : ℕ) (m : Map ℕ Mapping) → AllBelow hi m → AllBelow (hi + 1) m
AllBelow-suc hi [] h = tt
AllBelow-suc hi (e ∷ m) h = ((h.0.0, omega (arith, h.0.1)), AllBelow-suc hi m h.1)

AllBelow-remove : (hi k : ℕ) (m : Map ℕ Mapping) → AllBelow hi m → AllBelow hi (remove k m)
unfolding remove
AllBelow-remove hi k [] h = tt
AllBelow-remove hi k ((j, v) ∷ m) h = elim (Bool-cases (j == k)) [
  | inl e ↦ rw e (AllBelow-remove hi k m h.1)
  | inr e ↦ rw e (h.0, AllBelow-remove hi k m h.1)
]

AllBelow-insert :
    (hi k : ℕ) (v : Mapping) (m : Map ℕ Mapping)
    → 0 < k
    → k < hi
    → AllBelow hi m
    → AllBelow hi (insert k v m)
unfolding insert
AllBelow-insert hi k v [] pos lt h = ((pos, lt), tt)
AllBelow-insert hi k v ((j, w) ∷ m) pos lt h = elim (Bool-cases (j == k)) [
  | inl e ↦ rw e ((pos, lt), h.1)
  | inr e ↦ elim (Bool-cases (ltb k j)) [
    | inl f ↦ rw (e, f) ((pos, lt), h)
    | inr f ↦ rw (e, f) (h.0, AllBelow-insert hi k v m pos lt h.1)
  ]
]

module _ {F M X S : Type 0} (api : Api) (pg : Paging F M) (scheme_close : S → ℕ → X → X × Result ℕ)
    (schemes : SchemeList S) where
  -- What can happen to a scheme, in any order: a call takes a number, while the next one is below 2^64;
  -- a call of `fmap` is noted under the number that it took; a call queues a packet with the number that
  -- it took, or is refused; the handler takes packets, or answers; a wait for a response ends; and
  -- `unmount`.
  pub data Step : State → State → Type 0 where
    numbered :
        {u : UserInner} {flying : List ℕ}
        → u.next_id + 1 < 2 ^ 64
        → Step (u, flying) ((next_id u).0, (next_id u).1 ∷ flying)
    noted :
        {u : UserInner} {flying : List ℕ} (id : ℕ) (asked : Mapping)
        → 0 < times id flying
        → Step (u, flying) (note_fmap id asked u, flying)
    queued :
        {u : UserInner} (packet : Packet) (before after : List ℕ) (ev : Events X)
        → Step
            (u, before ++ packet.id ∷ after)
            ((call_extended_inner api packet (u, ev)).0.0, before ++ after)
    taken :
        {u : UserInner} {flying : List ℕ} (n : ℕ)
        → Step
            (u, flying)
            (record u { todo = record u.todo { inner = drop n u.todo.inner } }, flying)
    answered :
        {flying : List ℕ} (packet : Packet) (w : World F M X)
        → Step
            (w.inner, flying)
            ((handle_packet api pg scheme_close schemes packet w).0.inner, flying)
    received :
        {u : UserInner} {flying : List ℕ} (id : ℕ) → Step (u, flying) ((receive id u).0, flying)
    unmounted :
        {u : UserInner} {flying : List ℕ} (ev : Events X)
        → Step (u, flying) ((unmount api (u, ev)).0.0, flying)

  pub data Reach : State → State → Type 0 where
    here : {u : State} → Reach u u
    next : {u v w : State} → Step u v → Reach v w → Reach u w

  Kept-IsNumbered :
      (u v : UserInner) (flying : List ℕ)
      → Kept u v
      → IsNumbered (u, flying)
      → IsNumbered (v, flying)
  unfolding IsNumbered
  Kept-IsNumbered u v flying k h = rw (k.0, k.1, k.2) h

  next_id-IsNumbered :
      (u : UserInner) (flying : List ℕ)
      → u.next_id + 1 < 2 ^ 64
      → IsNumbered (u, flying)
      → IsNumbered ((next_id u).0, (next_id u).1 ∷ flying)
  unfolding IsNumbered next_id
  next_id-IsNumbered u flying small h =
      let no_wrap : (u.next_id + 1) % 2 ^ 64 ≡ u.next_id + 1 = omega arith in
      rw no_wrap (
        omega arith,
        λ k. ground (arith, h.1 k, h.2 k),
        λ k used. ground (arith, used, h.0, h.2 k),
        AllBelow-suc u.next_id u.fmap h.3,
      )

  queued-IsNumbered :
      (u : UserInner) (packet : Packet) (before after : List ℕ) (ev : Events X)
      → IsNumbered (u, before ++ packet.id ∷ after)
      → IsNumbered ((call_extended_inner api packet (u, ev)).0.0, before ++ after)
  unfolding IsNumbered call_extended_inner Queue.send
  queued-IsNumbered u packet before after ev h =
      let all = (λ (k : ℕ). times-append k before (packet.id ∷ after)) in
      let left = (λ (k : ℕ). times-append k before after) in
      elim (Bool-cases u.unmounting) [
        | inl e ↦ rw e (
          h.0,
          λ k. omega (arith, h.1 k, all k, left k),
          λ k used. h.2 k (omega (arith, used, all k, left k)),
          h.3,
        )
        | inr e ↦
            let sent = (λ (k : ℕ). packet_times-append k u.todo.inner packet) in
            rw e (
              h.0,
              λ k. omega (arith, h.1 k, all k, left k, sent k),
              λ k used. h.2 k (omega (arith, used, all k, left k, sent k)),
              h.3,
            )
      ]

  Step-IsNumbered : {u v : State} → Step u v → IsNumbered u → IsNumbered v
  unfolding IsNumbered receive unmount note_fmap
  Step-IsNumbered (numbered {u} {flying} small) h = next_id-IsNumbered u flying small h
  Step-IsNumbered (noted {u} {flying} id asked given) h =
      let bounds = h.2 id (omega (arith, given)) in
      (h.0, h.1, h.2, AllBelow-insert u.next_id id asked u.fmap bounds.0 bounds.1 h.3)
  Step-IsNumbered (queued {u} packet before after ev) h =
      queued-IsNumbered u packet before after ev h
  Step-IsNumbered (taken {u} {flying} n) h = (
    h.0,
    λ k. omega (arith, h.1 k, packet_times-drop k n u.todo.inner),
    λ k used. h.2 k (omega (arith, used, packet_times-drop k n u.todo.inner)),
    h.3,
  )
  Step-IsNumbered (answered {flying} packet w) h =
      let v = (handle_packet api pg scheme_close schemes packet w).0.inner in
      elim (handle_packet-Kept api pg scheme_close schemes packet w) [
        | inl k ↦ Kept-IsNumbered w.inner v flying k h
        | inr k ↦
            let u = w.inner in
            Kept-IsNumbered (record u { fmap = remove packet.id u.fmap }) v flying k
              (h.0, h.1, h.2, AllBelow-remove u.next_id packet.id u.fmap h.3)
      ]
  Step-IsNumbered (received id) h = h
  Step-IsNumbered (unmounted ev) h = h

  -- Whatever callers, the handler and `unmount` do, in whatever order the parts of calls come, and for as
  -- long as fewer than 2^64 calls were made: the packets that wait to be read have different numbers,
  -- which are also different from those that calls took and have yet to queue a packet with; none of them
  -- is 0, nor is one that a call of `fmap` waits under, and the number of the next call is above them
  -- all.
  pub Reach-IsNumbered : (u v : State) → Reach u v → IsNumbered u → IsNumbered v
  Reach-IsNumbered u _ here h = h
  Reach-IsNumbered u v (next step rest) h = Reach-IsNumbered _ v rest (Step-IsNumbered step h)
