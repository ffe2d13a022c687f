-- ===== src/Pipe/Tests.antt =====
-- The theorems on pipes, at one pipe and a memory that lists the bytes written, the latest first.
use redox_os_kernel.Prelude.{
  ℕ, ◌≤◌, ◌≡◌, refl, true, false, some, List, [], ◌∷◌, ok, arith, length, append-nil,
}
use redox_os_kernel.Btree.{get, nat_key}
use redox_os_kernel.UserSlice.{UserSlice}
use redox_os_kernel.Pipe.{
  Abi, Pipe, Pipes, trigger, notify_read, notify_write, write_id, update, emit, find, pipe,
  is_write, max_queue_size, close_notify, close_end,
}
use redox_os_kernel.Sync.{done, wait}
use redox_os_kernel.Pipe.Io.{Slices, read_round, write_round, is_nonblock}
use redox_os_kernel.UserSlice.Listed.{load, listed, listed-CopyLaws, length-load}
use redox_os_kernel.Pipe.Io.Fifo.{read_round_lem}
use redox_os_kernel.Pipe.Io.Fill.{write_round_lem}
use redox_os_kernel.Pipe.Wakes.{close_lost_wake}
use redox_os_kernel.Pipe.Steps.{Bounded, here, next, piped, Reach-Bounded}

abbrev abi : Abi
abi = record {
  event_read = 1;
  event_write = 2;
  f_getfl = 3;
  f_setfl = 4;
  o_accmode = 3;
  o_nonblock = 4096;
}

-- The pipe 5, from both ends open, with the bytes of `q` in it.
abbrev open_pipe : List ℕ → Pipe
open_pipe q = record {
  read_flags = 0;
  write_flags = 0;
  queue = q;
  reader_is_alive = true;
  writer_is_alive = true;
  has_run_dup = false;
}

abbrev one_pipe : List ℕ → Pipes
one_pipe q = record { next_id = 6; pipes = (5, 5) ∷ []; store = (5, open_pipe q) ∷ []; log = [] }

abbrev contiguous : Slices
contiguous q = (q, [])

abbrev buf : UserSlice
buf = record { base = 4096; len = 2 }

found : (q : List ℕ) → find 5 (one_pipe q) ≡ ok (5, open_pipe q)
unfolding find get
found q = refl

stored : (q : List ℕ) → get 5 (one_pipe q).store ≡ some (open_pipe q)
unfolding get
stored q = refl

full_length : max_queue_size ≤ length (load 0 max_queue_size [])
full_length = rw (length-load 0 max_queue_size []) (omega arith)

blocks : is_nonblock abi 0 ≡ false
unfolding is_nonblock
blocks = refl

is_path : is_write (b'w' ∷ b'r' ∷ b'i' ∷ b't' ∷ b'e' ∷ []) ≡ true
unfolding is_write
is_path = refl

one_pipe-Bounded : Bounded (one_pipe [])
unfolding get
one_pipe-Bounded r p e = ground (arith, e)

read_round_lem_example :
    read_round abi listed contiguous 5 5 buf (one_pipe (7 ∷ 8 ∷ 9 ∷ []), []) ≡ (
      (
        emit
            (notify_write 5 ∷ trigger (write_id 5) 2 ∷ [])
            (update 5 (open_pipe (9 ∷ [])) (one_pipe (7 ∷ 8 ∷ 9 ∷ []))),
        (4097, 8) ∷ (4096, 7) ∷ [],
      ),
      done (ok 2),
    )
read_round_lem_example =
    read_round_lem abi listed listed-CopyLaws contiguous 5 5 buf (one_pipe (7 ∷ 8 ∷ 9 ∷ [])) []
      (open_pipe (7 ∷ 8 ∷ 9 ∷ [])) append-nil (stored (7 ∷ 8 ∷ 9 ∷ [])) (omega arith) (omega arith)
      (omega arith) refl

write_round_lem_example : write_round abi listed 5 5 buf (one_pipe (7 ∷ []), (4097, 3) ∷ []) ≡ (
  (
    emit
        (notify_read 5 ∷ trigger 5 1 ∷ [])
        (update 5 (open_pipe (7 ∷ 0 ∷ 3 ∷ [])) (one_pipe (7 ∷ []))),
    (4097, 3) ∷ [],
  ),
  done (ok 2),
)
write_round_lem_example =
    write_round_lem abi listed listed-CopyLaws 5 5 buf (one_pipe (7 ∷ [])) ((4097, 3) ∷ [])
      (open_pipe (7 ∷ [])) (0 ∷ 3 ∷ []) (stored (7 ∷ [])) (omega arith) (omega arith) (omega arith)
      refl

abbrev full : List ℕ
full = load 0 max_queue_size []

close_lost_wake_example :
    let told = close_notify abi true 5 (one_pipe []) in
    let asleep = read_round abi listed contiguous 5 5 buf (told, []) in
    let closed = close_end true 5 5 (open_pipe []) asleep.0.0 in
    (asleep.1 ≡ wait)
    × (closed.log ≡ told.log)
    × ((read_round abi listed contiguous 5 5 buf (closed, [])).1 ≡ done (ok 0))
close_lost_wake_example =
    close_lost_wake abi listed listed-CopyLaws contiguous 5 5 buf (one_pipe []) [] (open_pipe [])
      append-nil (stored []) (omega arith) (omega arith) refl refl blocks

abbrev write_path : List ℕ
write_path = b'w' ∷ b'r' ∷ b'i' ∷ b't' ∷ b'e' ∷ []

Reach-Bounded_example : Bounded (pipe 0 (one_pipe [])).0
Reach-Bounded_example =
    Reach-Bounded abi listed listed-CopyLaws contiguous {s = (one_pipe [], [])}
      (next here (piped 0 (one_pipe []) [])) one_pipe-Bounded
