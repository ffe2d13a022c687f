-- ===== src/Pipe/Steps.antt =====
-- The calls of the scheme as steps of the kernel, in any order and from any process.
use redox_os_kernel.Prelude.{
  ℕ, ◌-◌, ◌≤◌, ◌≡◌, Bool, true, false, some, List, ◌++◌, Result, ok, err, panic, arith, length, inl,
  inr, Option-cases, usize_mod, length-append, drop, length-drop, bit_and, Result-cases, Bool-cases,
}
use redox_os_kernel.Btree.{get, nat_key}
use redox_os_kernel.Btree.Laws.{get-insert}
use redox_os_kernel.UserSlice.{UserMem, UserSlice}
use redox_os_kernel.UserSlice.Bounds.{IsUser}
use redox_os_kernel.Pipe.{
  Abi, Pipe, Pipes, from_raw_id, update, find, kdup, close_end, close_mark, close_notify,
  dup_request, pipe, fcntl, fcntl_on, max_queue_size, new_pipe,
}
use redox_os_kernel.Pipe.Ends.{find_iff}
use redox_os_kernel.Pipe.Io.{
  write_finish, read_finish, take_input, write_round, read_round, Slices, copy_queue,
}
use redox_os_kernel.UserSlice.Copies.{CopyLaws}
use redox_os_kernel.Pipe.Io.Fill.{take_input-length}

-- No queue is longer than the limit.
abbrev pub Bounded : Pipes → Type 0
Bounded w = (r : ℕ) (p : Pipe) → get r w.store ≡ some p → length p.queue ≤ max_queue_size

-- A pipe whose queue is in bounds takes the place of another.
update-Bounded :
    (r : ℕ) (p : Pipe) (w : Pipes)
    → length p.queue ≤ max_queue_size
    → Bounded w
    → Bounded (update r p w)
update-Bounded r p w le b s q here = ground (arith, get-insert r s p w.store, b s q)

pipe-Bounded : (flags : ℕ) (w : Pipes) → Bounded w → Bounded (pipe flags w).0
unfolding pipe
pipe-Bounded flags w b s q here =
    ground (arith, get-insert w.next_id s (new_pipe flags) w.store, b s q, here)

-- Of the pipe that a number names.
found-Bounded :
    (key r : ℕ) (p : Pipe) (w : Pipes)
    → Bounded w
    → find key w ≡ ok (r, p)
    → length p.queue ≤ max_queue_size
found-Bounded key r p w b found = b r p (find_iff key r p w found).1

kdup-Bounded : (id : ℕ) (req : Result (List ℕ)) (w : Pipes) → Bounded w → Bounded (kdup id req w).0
unfolding kdup dup_request
kdup-Bounded id (err e) w b s q here = ground (arith, b s q, here)
kdup-Bounded id panic w b s q here = ground (arith, b s q, here)
kdup-Bounded id (ok bytes) w b s q here = elim (Result-cases (find (from_raw_id id).1 w)) [
  | inl ((r, p), found) ↦
      let le = found-Bounded (from_raw_id id).1 r p w b found in
      ground
        (arith, found, b s q, le, get-insert r s (record p { has_run_dup = true }) w.store, here)
  | inr (inl (e, found)) ↦ ground (arith, found, b s q, here)
  | inr (inr found) ↦ ground (arith, found, b s q, here)
]

close_end-Bounded :
    (is_writer : Bool) (key r : ℕ) (p : Pipe) (w : Pipes)
    → get r w.store ≡ some p
    → Bounded w
    → Bounded (close_end is_writer key r p w)
unfolding close_end close_mark
close_end-Bounded true key r p w found b s q here =
    ground (arith, b s q, b r p found, get-insert r s (close_mark true p) w.store, here)
close_end-Bounded false key r p w found b s q here =
    ground (arith, b s q, b r p found, get-insert r s (close_mark false p) w.store, here)

fcntl-Bounded :
    (abi : Abi) (id cmd arg : ℕ) (w : Pipes) → Bounded w → Bounded (fcntl abi id cmd arg w).0
unfolding fcntl fcntl_on
fcntl-Bounded abi id cmd arg w b s q here = elim (Result-cases (find (from_raw_id id).1 w)) [
  | inl ((r, p), found) ↦
      let le = found-Bounded (from_raw_id id).1 r p w b found in
      let flags = bit_and arg (usize_mod - 1 - abi.o_accmode) in
      elim (Bool-cases (from_raw_id id).0) [
        | inl t ↦ ground (
          arith,
          found,
          t,
          b s q,
          le,
          get-insert r s (record p { write_flags = flags }) w.store,
          here,
        )
        | inr t ↦ ground (
          arith,
          found,
          t,
          b s q,
          le,
          get-insert r s (record p { read_flags = flags }) w.store,
          here,
        )
      ]
  | inr (inl (e, found)) ↦ ground (arith, found, b s q, here)
  | inr (inr found) ↦ ground (arith, found, b s q, here)
]

module _ {M : Type 0} (abi : Abi) (mem : UserMem M) (laws : CopyLaws mem) (slices : Slices) where
  read_round-Bounded :
      (key r : ℕ) (buf : UserSlice) (w : Pipes) (m : M)
      → Bounded w
      → Bounded (read_round abi mem slices key r buf (w, m)).0.0
  unfolding read_round read_finish
  read_round-Bounded key r buf w m b s q here = elim (Option-cases (get r w.store)) [
    | inl missing ↦ ground (arith, missing, b s q, here)
    | inr (p, found) ↦ elim (Result-cases (copy_queue abi mem buf (slices p.queue) m).1) [
      | inr (inl (e, c)) ↦ ground (arith, found, c, b s q, here)
      | inr (inr c) ↦ ground (arith, found, c, b s q, here)
      | inl (n, c) ↦
          let le : length (drop n p.queue) ≤ max_queue_size =
            omega (arith, b r p found, length-drop n p.queue) in
          ground (
            arith,
            found,
            c,
            b s q,
            here,
            le,
            get-insert r s (record p { queue = drop n p.queue }) w.store,
          )
    ]
  ]

  write_round-Bounded :
      (key r : ℕ) (buf : UserSlice) (w : Pipes) (m : M)
      → IsUser buf
      → Bounded w
      → Bounded (write_round abi mem key r buf (w, m)).0.0
  unfolding write_round write_finish
  write_round-Bounded key r buf w m h b s q here = elim (Option-cases (get r w.store)) [
    | inl missing ↦ ground (arith, missing, b s q, here)
    | inr (p, found) ↦
        elim (Result-cases (take_input abi mem buf (max_queue_size - length p.queue) m)) [
          | inr (inl (e, c)) ↦ ground (arith, found, c, b s q, here)
          | inr (inr c) ↦ ground (arith, found, c, b s q, here)
          | inl (bytes, c) ↦
              let room =
                take_input-length abi mem laws buf (max_queue_size - length p.queue) m bytes h c in
              let le : length (p.queue ++ bytes) ≤ max_queue_size =
                omega (arith, b r p found, room, length-append p.queue bytes) in
              ground (
                arith,
                found,
                c,
                b s q,
                here,
                le,
                get-insert r s (record p { queue = p.queue ++ bytes }) w.store,
              )
        ]
  ]

  -- One call, or one round of a call that may wait. The two parts of `close` are steps of their own,
  -- since nothing keeps the other end from acting between them.
  pub data Step : Pipes × M → Pipes × M → Type 0 where
    piped : (flags : ℕ) (w : Pipes) (m : M) → Step (w, m) ((pipe flags w).0, m)
    dupped :
        (id : ℕ) (req : Result (List ℕ)) (w : Pipes) (m : M) → Step (w, m) ((kdup id req w).0, m)
    flagged : (id cmd arg : ℕ) (w : Pipes) (m : M) → Step (w, m) ((fcntl abi id cmd arg w).0, m)
    notified :
        (is_writer : Bool) (key : ℕ) (w : Pipes) (m : M)
        → Step (w, m) (close_notify abi is_writer key w, m)
    closed :
        (is_writer : Bool) (key r : ℕ) (p : Pipe) (w : Pipes) (m : M)
        → get r w.store ≡ some p
        → Step (w, m) (close_end is_writer key r p w, m)
    read :
        (key r : ℕ) (buf : UserSlice) (w : Pipes) (m : M)
        → Step (w, m) (read_round abi mem slices key r buf (w, m)).0
    written :
        (key r : ℕ) (buf : UserSlice) (w : Pipes) (m : M)
        → IsUser buf
        → Step (w, m) (write_round abi mem key r buf (w, m)).0
    memory_changed : (w : Pipes) (m m' : M) → Step (w, m) (w, m')

  pub data Reach (s : Pipes × M) : Pipes × M → Type 0 where
    here : Reach s s
    next : {t u : Pipes × M} → Reach s t → Step t u → Reach s u

  Step-Bounded : {s t : Pipes × M} → Step s t → Bounded s.0 → Bounded t.0
  unfolding close_notify close_end
  Step-Bounded (piped flags w m) b = pipe-Bounded flags w b
  Step-Bounded (dupped id req w m) b = kdup-Bounded id req w b
  Step-Bounded (flagged id cmd arg w m) b = fcntl-Bounded abi id cmd arg w b
  Step-Bounded (notified true key w m) b = b
  Step-Bounded (notified false key w m) b = b
  Step-Bounded (closed is_writer key r p w m found) b =
      close_end-Bounded is_writer key r p w found b
  Step-Bounded (read key r buf w m) b = read_round-Bounded key r buf w m b
  Step-Bounded (written key r buf w m h) b = write_round-Bounded key r buf w m h b
  Step-Bounded (memory_changed w m m') b = b

  -- Whatever calls are made, in whatever order, and however the rounds of blocked calls fall between
  -- them, no queue grows over 65536 bytes, if none was longer at the start. The buffers of the writes
  -- are slices of user memory.
  pub Reach-Bounded : {s t : Pipes × M} → Reach s t → Bounded s.0 → Bounded t.0
  Reach-Bounded here b = b
  Reach-Bounded (next before step) b = Step-Bounded step (Reach-Bounded before b)
