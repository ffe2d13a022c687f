-- ===== src/Pipe.antt =====
-- src/scheme/pipe.rs: the pipes of the `pipe:` scheme. The flag values (crate `syscall`), the copy
-- routines of user memory and the way a `VecDeque` lies in memory are parameters.
mod Tests
pub mod Io
pub mod Ends
pub mod Steps
pub mod Wakes
use redox_os_kernel.Prelude.{
  ℕ, zero, suc, ◌+◌, ◌-◌, ◌*◌, ◌/◌, ◌%◌, ◌^◌, min, ◌≡◌, Bool, true, false, not, ◌&&◌, ◌||◌, Option,
  none, some, List, [], ◌∷◌, ◌++◌, Result, ok, err, panic, Errno, ok_or, expect, guard, ◌>>=◌, ◌>>◌,
  ltb, leb, ◌==◌, length, take, drop, if◌then◌else◌, is_nil, bit_and, usize_mod,
}
use redox_os_kernel.Btree.{Map, get, insert, remove, nat_key}

abbrev pub max_queue_size : ℕ
max_queue_size = 65536

abbrev pub write_not_read_bit : ℕ
write_not_read_bit = 2 ^ 63

-- The constants of crate `syscall` that the file uses.
pub record Abi : Type 0 where
  pub event_read : ℕ
  pub event_write : ℕ
  pub f_getfl : ℕ
  pub f_setfl : ℕ
  pub o_accmode : ℕ
  pub o_nonblock : ℕ

-- `(id & BIT != 0, id & !BIT)` of a 64-bit `id`.
unfoldable pub from_raw_id : ℕ → Bool × ℕ
from_raw_id id = (not (id / write_not_read_bit % 2 == 0), id % write_not_read_bit)

-- `key | BIT`
unfoldable pub write_id : ℕ → ℕ
write_id key = if key / write_not_read_bit % 2 == 0 then key + write_not_read_bit else key

pub record Pipe : Type 0 where
  pub read_flags : ℕ
  pub write_flags : ℕ
  pub queue : List ℕ
  pub reader_is_alive : Bool
  pub writer_is_alive : Bool
  pub has_run_dup : Bool

-- What a call does to the rest of the kernel: `event::trigger(scheme_id, number, flags)`, and a wake
-- of those that wait on one of the conditions of a pipe.
pub data Effect : Type 0 where
  trigger : ℕ → ℕ → Effect
  notify_read notify_write : ℕ → Effect

-- The statics of the file. `pipes` is PIPES, which names a pipe by its key; a pipe itself outlives
-- its entry while a blocked call holds it, so the pipes stand in a store of their own, by the same
-- number. `log` has the effects, the latest first.
pub record Pipes : Type 0 where
  pub next_id : ℕ
  pub pipes : Map ℕ ℕ
  pub store : Map ℕ Pipe
  pub log : List Effect

abbrev pub new_pipe : ℕ → Pipe
new_pipe flags = record {
  read_flags = flags;
  write_flags = flags;
  queue = [];
  reader_is_alive = true;
  writer_is_alive = true;
  has_run_dup = false;
}

-- `pipe`
unfoldable pub pipe : ℕ → Pipes → Pipes × Result (ℕ × ℕ)
pipe flags w =
    let id = w.next_id in
    (
      record w {
        next_id = (id + 1) % usize_mod;
        pipes = insert id id w.pipes;
        store = insert id (new_pipe flags) w.store;
      },
      ok (id, write_id id),
    )

-- `PIPES.read().get(&key).ok_or(Error::new(EBADF))?`, with the pipe that it names.
unfoldable pub find : ℕ → Pipes → Result (ℕ × Pipe)
find key w = do r ← ok_or (get key w.pipes) Errno.ebadf; p ← expect (get r w.store); ok (r, p)

abbrev pub update : ℕ → Pipe → Pipes → Pipes
update r p w = record w { store = insert r p w.store }

abbrev pub emit : List Effect → Pipes → Pipes
emit es w = record w { log = es ++ w.log }

-- `trim_start_matches('/').is_empty()`, on the bytes of a path.
unfoldable pub is_slashes : List ℕ → Bool
is_slashes [] = true
is_slashes (c ∷ cs) = c == b'/' && is_slashes cs

unfoldable pub kopen : List ℕ → ℕ → Pipes → Pipes × Result ℕ
unfolding pipe is_slashes
kopen path flags w =
    if is_slashes path
    then (let (w', r) = pipe flags w in (w', r >>= λ ids. ok ids.0))
    else (w, err Errno.enoent)

-- The bytes are exactly "write".
unfoldable pub is_write : List ℕ → Bool
is_write (a ∷ b ∷ c ∷ d ∷ e ∷ []) = a == b'w' && b == b'r' && c == b'i' && d == b't' && e == b'e'
is_write bytes = false

unfoldable pub dup_request : ℕ → Result (List ℕ) → Pipes → Result (ℕ × Pipe)
unfolding is_write find
dup_request key request w = do
  bytes ← request
  guard (is_write bytes) Errno.einval
  (r, p) ← find key w
  guard (not p.has_run_dup) Errno.ebadf
  ok (r, p)

-- `kdup`; the request is what `copy_common_bytes_to_slice` read into five bytes. (`swap` sets the flag
-- also where it was set, which changes nothing.)
unfoldable pub kdup : ℕ → Result (List ℕ) → Pipes → Pipes × Result ℕ
unfolding from_raw_id write_id dup_request
kdup old_id request w =
    let (is_writer, key) = from_raw_id old_id in
    if is_writer then (w, err Errno.ebadf) else elim (dup_request key request w) [
      | ok (r, p) ↦ (update r (record p { has_run_dup = true }) w, ok (write_id key))
      | err e ↦ (w, err e)
      | panic ↦ (w, panic)
    ]

module _ (abi : Abi) where
  unfoldable pub fcntl_on : Bool → ℕ → Pipe → ℕ → ℕ → Pipes → Pipes × Result ℕ
  fcntl_on is_writer r p cmd arg w =
      if cmd == abi.f_getfl
      then (w, ok (if is_writer then p.write_flags else p.read_flags))
      else if cmd == abi.f_setfl
      then (let flags = bit_and arg (usize_mod - 1 - abi.o_accmode) in
          (
            update r
                (if is_writer
                  then record p { write_flags = flags }
                  else record p { read_flags = flags })
                w,
            ok 0,
          ))
      else (w, err Errno.einval)

  unfoldable pub fcntl : ℕ → ℕ → ℕ → Pipes → Pipes × Result ℕ
  unfolding from_raw_id find fcntl_on
  fcntl id cmd arg w =
      let (is_writer, key) = from_raw_id id in
      elim (find key w) [
        | ok (r, p) ↦ fcntl_on is_writer r p cmd arg w
        | err e ↦ (w, err e)
        | panic ↦ (w, panic)
      ]

  unfoldable pub fevent : ℕ → ℕ → Pipes → Result ℕ
  unfolding from_raw_id find
  fevent id flags w =
      let (is_writer, key) = from_raw_id id in
      find key w >>= λ (r, p).
      if is_writer && flags == abi.event_write
      then ok (if leb max_queue_size (length p.queue) then 0 else abi.event_write)
      else if flags == abi.event_read
      then ok (if is_nil p.queue then 0 else abi.event_read)
      else err Errno.ebadf

  -- `close` up to the store to the flag: the event and the wake.
  unfoldable pub close_notify : Bool → ℕ → Pipes → Pipes
  unfolding write_id
  close_notify true key w = emit (notify_read key ∷ trigger key abi.event_read ∷ []) w
  close_notify false key w = emit (notify_write key ∷ trigger (write_id key) abi.event_write ∷ []) w

-- The store to the flag of the end that closes.
unfoldable pub close_mark : Bool → Pipe → Pipe
close_mark true p = record p { writer_is_alive = false }
close_mark false p = record p { reader_is_alive = false }

-- Whether the other end is closed.
unfoldable pub can_remove : Bool → Pipe → Bool
can_remove true p = not p.reader_is_alive
can_remove false p = not p.writer_is_alive

-- The rest of `close`: the store, and the removal of the entry if the other end is closed too.
unfoldable pub close_end : Bool → ℕ → ℕ → Pipe → Pipes → Pipes
unfolding close_mark can_remove
close_end is_writer key r p w =
    let w' = update r (close_mark is_writer p) w in
    if can_remove is_writer p then record w' { pipes = remove key w'.pipes } else w'

unfoldable pub close : Abi → ℕ → Pipes → Pipes × Result ℕ
unfolding from_raw_id find close_notify close_end
close abi id w =
    let (is_writer, key) = from_raw_id id in
    elim (find key w) [
      | ok (r, p) ↦ (close_end is_writer key r p (close_notify abi is_writer key w), ok 0)
      | err e ↦ (w, err e)
      | panic ↦ (w, panic)
    ]
