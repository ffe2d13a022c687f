-- ===== src/Pipe/Ends.antt =====
-- The two ends of a pipe: their numbers, the one `dup`, and their closing.
use redox_os_kernel.Prelude.{
  ℕ, ◌<◌, ◌≡◌, ◌≢◌, Bool, true, false, some, List, ok, err, Errno, arith, if◌then◌else◌,
  Option-cases,
}
use redox_os_kernel.Btree.{get, nat_key}
use redox_os_kernel.Btree.Laws.{get-insert, get-remove, get-insert_self, get-remove_self}
use redox_os_kernel.Pipe.{
  Abi, Pipe, Pipes, from_raw_id, write_id, write_not_read_bit, find, kdup, close, close_end,
  close_mark, close_notify, can_remove, dup_request, is_write,
}

-- The number of an end of the pipe `key`.
abbrev pub end_id : Bool → ℕ → ℕ
end_id true key = write_id key
end_id false key = key

-- A pipe's number taken apart again, for a key below the bit of the writers.
pub from_raw_id-end_id :
    (is_writer : Bool) (key : ℕ)
    → key < write_not_read_bit
    → from_raw_id (end_id is_writer key) ≡ (is_writer, key)
unfolding from_raw_id write_id
from_raw_id-end_id true key h = ground arith
from_raw_id-end_id false key h = ground arith

pub find_iff :
    (key r : ℕ) (p : Pipe) (w : Pipes)
    → find key w ≡ ok (r, p)
    → (get key w.pipes ≡ some r) × (get r w.store ≡ some p)
unfolding find
find_iff key r p w found = ground (arith, Option-cases (get key w.pipes), found)

-- `close` of an end of a pipe in PIPES succeeds, and afterwards the pipe is no longer found if its
-- other end was closed before; if not, it is found with this end marked as closed, its queue, flags
-- and other end as before. Every other pipe is found as before, where it is another object.
pub close_lem :
    (abi : Abi) (is_writer : Bool) (key r : ℕ) (p : Pipe) (w : Pipes)
    → key < write_not_read_bit
    → find key w ≡ ok (r, p)
    → ((close abi (end_id is_writer key) w).1 ≡ ok 0)
      × (find key (close abi (end_id is_writer key) w).0
          ≡ (if can_remove is_writer p then err Errno.ebadf else ok (r, close_mark is_writer p)))
      × ((other s : ℕ) (q : Pipe)
          → other ≢ key
          → s ≢ r
          → find other w ≡ ok (s, q)
          → find other (close abi (end_id is_writer key) w).0 ≡ ok (s, q))
unfolding close close_end find close_notify
close_lem abi true key r p w h found =
    let (named, here) = find_iff key r p w found in
    let id = from_raw_id-end_id true key h in
    (
      ground (arith, named, here, id),
      ground (
        arith,
        named,
        here,
        id,
        get-remove_self key w.pipes,
        get-insert_self r (close_mark true p) w.store,
      ),
      λ other s q apart apart_obj found'.
          let (named', here') = find_iff other s q w found' in
          ground (
            arith,
            named,
            here,
            id,
            named',
            here',
            get-remove key other w.pipes,
            get-insert r s (close_mark true p) w.store,
          ),
    )
close_lem abi false key r p w h found =
    let (named, here) = find_iff key r p w found in
    let id = from_raw_id-end_id false key h in
    (
      ground (arith, named, here, id),
      ground (
        arith,
        named,
        here,
        id,
        get-remove_self key w.pipes,
        get-insert_self r (close_mark false p) w.store,
      ),
      λ other s q apart apart_obj found'.
          let (named', here') = find_iff other s q w found' in
          ground (
            arith,
            named,
            here,
            id,
            named',
            here',
            get-remove key other w.pipes,
            get-insert r s (close_mark false p) w.store,
          ),
    )

-- The first `kdup` with the path "write" of the reading end of a pipe in PIPES gives the number of
-- its writing end and leaves the pipe open; every later one, with whatever path is read, fails.
pub kdup_lem :
    (key r : ℕ) (p : Pipe) (w : Pipes) (bytes : List ℕ)
    → key < write_not_read_bit
    → find key w ≡ ok (r, p)
    → is_write bytes ≡ true
    → p.has_run_dup ≡ false
    → ((kdup key (ok bytes) w).1 ≡ ok (end_id true key))
      × (find key (kdup key (ok bytes) w).0 ≡ ok (r, record p { has_run_dup = true }))
      × ((more : List ℕ)
          → (kdup key (ok more) (kdup key (ok bytes) w).0).1
            ≡ err (if is_write more then Errno.ebadf else Errno.einval))
unfolding kdup dup_request find
kdup_lem key r p w bytes h found path fresh =
    let (named, here) = find_iff key r p w found in
    let id = from_raw_id-end_id false key h in
    let after = get-insert_self r (record p { has_run_dup = true }) w.store in
    (
      ground (arith, named, here, id, path, fresh),
      ground (arith, named, here, id, path, fresh, after),
      λ more. ground (arith, named, here, id, path, fresh, after),
    )
