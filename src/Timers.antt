-- ===== src/Timers.antt =====
-- src/scheme/time.rs: the scheme `time:`, with a table of handles, each for a clock. What the handles
-- write are timeouts, which make the handle readable at a time.
pub mod Alarm
mod Tests
use redox_os_kernel.Prelude.{
  ℕ, zero, suc, ◌+◌, ◌-◌, ◌*◌, ◌/◌, ◌%◌, ◌^◌, min, Bool, true, false, ◌||◌, Option, none, some,
  List, [], ◌∷◌, ◌==◌, if◌then◌else◌, length, usize_mod, Result, ok, err, panic, Errno, expect,
  ok_or, ◌>>=◌, map_ok,
}
use redox_os_kernel.Btree.{Map, get, contains_key, insert, remove, nat_key}
use redox_os_kernel.UserSlice.{
  UserMem, UserSlice, in_exact_chunks, read_exact, copy_exactly, copy_from_slice, limit,
}
use redox_os_kernel.Events.Timeouts.{Timeout, Flags, nanos_per_sec, register_timeout}

pub record TimeScheme : Type 0 where
  pub scheme_id : ℕ
  pub next_id : ℕ
  pub handles : Map ℕ ℕ

-- `TimeSpec` of crate syscall in memory: its size, and its two numbers as bytes and back.
pub record SpecLayout : Type 0 where
  pub size : ℕ
  pub encode : ℕ × ℕ → List ℕ
  pub decode : List ℕ → ℕ × ℕ

-- `TimeScheme::new`
unfoldable pub new : ℕ → TimeScheme
new scheme_id = record { scheme_id = scheme_id; next_id = 0; handles = [] }

module _ (f : Flags) where
  -- `open` of a path; `parse` is `str::parse` for `usize`.
  unfoldable pub open_clock : (List ℕ → Option ℕ) → List ℕ → TimeScheme → TimeScheme × Result ℕ
  open_clock parse path s = elim (parse path) [
    | none ↦ (s, err Errno.enoent)
    | some clock ↦
        if clock == f.clock_realtime || clock == f.clock_monotonic
        then (
          record s {
            next_id = (s.next_id + 1) % usize_mod;
            handles = insert s.next_id clock s.handles;
          },
          ok s.next_id,
        )
        else (s, err Errno.enoent)
  ]

  -- What a clock says, in nanoseconds, of `realtime` and `monotonic`.
  unfoldable pub read_clock : ℕ → ℕ → ℕ → Result ℕ
  read_clock clock real mono =
      if clock == f.clock_realtime
      then ok real
      else if clock == f.clock_monotonic
      then ok mono
      else err Errno.einval

-- `fsync`; `fcntl` gives 0 for every handle.
unfoldable pub fsync : ℕ → TimeScheme → Result ℕ
fsync id s = if contains_key id s.handles then ok 0 else err Errno.ebadf

-- `fevent`: no flags.
unfoldable pub fevent : ℕ → TimeScheme → Result ℕ
fevent id s = if contains_key id s.handles then ok 0 else err Errno.ebadf

unfoldable pub close_clock : ℕ → TimeScheme → TimeScheme × Result ℕ
close_clock id s =
    if contains_key id s.handles
    then (record s { handles = remove id s.handles }, ok 0)
    else (s, err Errno.ebadf)

module _ {M : Type 0} (mem : UserMem M) (l : SpecLayout) where
  -- `as i64` and `as i32` of the two numbers.
  unfoldable pub spec_at : ℕ → ℕ × ℕ
  spec_at time = ((time / nanos_per_sec) % 2 ^ 64, (time % nanos_per_sec) % 2 ^ 32)

  -- The loop of `kread`; `times` are what the two clocks say at each turn.
  unfoldable pub write_times : Flags → ℕ → (ℕ → ℕ × ℕ) → ℕ → List UserSlice → M → M × Result ℕ
  unfolding spec_at read_clock copy_exactly
  write_times f clock times i [] m = (m, ok 0)
  write_times f clock times i (chunk ∷ chunks) m =
      elim (read_clock f clock (times i).0 (times i).1) [
        | err e ↦ (m, err e)
        | panic ↦ (m, panic)
        | ok time ↦
            let (m', r) = copy_exactly mem chunk (l.encode (spec_at time)) m in
            let (m'', rest) = write_times f clock times (i + 1) chunks m' in
            elim r [
              | ok n ↦ (m'', map_ok (λ k. l.size + k) rest)
              | err e ↦ (m', err e)
              | panic ↦ (m', panic)
            ]
      ]

  unfoldable pub kread : Flags → (ℕ → ℕ × ℕ) → ℕ → UserSlice → TimeScheme → M → M × Result ℕ
  unfolding write_times in_exact_chunks
  kread f times id buf s m = elim (get id s.handles) [
    | none ↦ (m, err Errno.ebadf)
    | some clock ↦ elim (in_exact_chunks buf l.size) [
      | ok chunks ↦ write_times f clock times 0 chunks m
      | err e ↦ (m, err e)
      | panic ↦ (m, panic)
    ]
  ]

  -- The loop of `kwrite`.
  unfoldable pub register_each :
      ℕ → ℕ → ℕ → List UserSlice → M → List Timeout → List Timeout × Result ℕ
  unfolding read_exact register_timeout
  register_each scheme_id id clock [] m registry = (registry, ok 0)
  register_each scheme_id id clock (chunk ∷ chunks) m registry =
      elim (read_exact mem chunk l.size m) [
        | err e ↦ (registry, err e)
        | panic ↦ (registry, panic)
        | ok bytes ↦
            let (sec, nsec) = l.decode bytes in
            let (registry', rest) =
              register_each scheme_id id clock chunks m
                (register_timeout scheme_id id clock sec nsec registry) in
            (registry', map_ok (λ k. l.size + k) rest)
      ]

  unfoldable pub kwrite : ℕ → UserSlice → TimeScheme → M → List Timeout → List Timeout × Result ℕ
  unfolding register_each in_exact_chunks
  kwrite id buf s m registry = elim (get id s.handles) [
    | none ↦ (registry, err Errno.ebadf)
    | some clock ↦ elim (in_exact_chunks buf l.size) [
      | ok chunks ↦ register_each s.scheme_id id clock chunks m registry
      | err e ↦ (registry, err e)
      | panic ↦ (registry, panic)
    ]
  ]

  -- `kfpath`, for a handle of which `path` is the path in the scheme.
  unfoldable pub copy_path : UserSlice → List ℕ → M → M × Result ℕ
  unfolding limit copy_from_slice
  copy_path buf path m =
      let count = min buf.len (length path) in
      elim (limit buf count) [
        | none ↦ (m, panic)
        | some dst ↦ let (m', r) = copy_from_slice mem dst path m in (m', map_ok (λ u. count) r)
      ]

  -- `format` is what `format!("time:{}", clock)` makes of a clock.
  unfoldable pub kfpath : (ℕ → List ℕ) → ℕ → UserSlice → TimeScheme → M → M × Result ℕ
  unfolding copy_path
  kfpath format id buf s m = elim (get id s.handles) [
    | none ↦ (m, err Errno.ebadf)
    | some clock ↦ copy_path buf (format clock) m
  ]
