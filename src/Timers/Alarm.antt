-- ===== src/Timers/Alarm.antt =====
-- What a write to a handle of `time:` registers.
use native.Mathlib.Decide.{dec_lt}
use redox_os_kernel.Prelude.{
  ℕ, zero, suc, ◌+◌, ◌*◌, ◌/◌, ◌%◌, ◌^◌, ◌<◌, ◌≤◌, min, ◌⊎◌, inl, inr, ◌≡◌, some, List, [], ◌∷◌,
  ◌++◌, if◌then◌else◌, take, drop, length, ok, err, Errno, arith, append-nil,
}
use mathlib.Core.List.{append_assoc}
use redox_os_kernel.Btree.{get, nat_key}
use redox_os_kernel.UserSlice.{UserMem, UserSlice, read_exact, copy_to_slice, copy_from_slice}
use redox_os_kernel.UserSlice.Bounds.{IsUser, limit_lem}
use redox_os_kernel.UserSlice.Chunks.{slices, in_exact_chunks_lem}
use redox_os_kernel.UserSlice.Copies.{CopyLaws}
use redox_os_kernel.Events.Timeouts.{Timeout, extend, nanos_per_sec, register_timeout}
use redox_os_kernel.Timers.{TimeScheme, SpecLayout, register_each, kwrite, copy_path}

abbrev timeout_of : ℕ → ℕ → ℕ → ℕ → ℕ → Timeout
timeout_of scheme_id id clock sec nsec = record {
  scheme_id = scheme_id;
  event_id = id;
  clock = clock;
  time = (extend 64 sec * nanos_per_sec + extend 32 nsec) % 2 ^ 128;
}

module _ (l : SpecLayout) where
  -- The timeouts that the bytes of `n` specifications stand for.
  unfoldable pub timeouts_of : ℕ → ℕ → ℕ → ℕ → List ℕ → List Timeout
  timeouts_of scheme_id id clock zero bytes = []
  timeouts_of scheme_id id clock (suc n) bytes =
      let (sec, nsec) = l.decode (take l.size bytes) in
      timeout_of scheme_id id clock sec nsec ∷ timeouts_of scheme_id id clock n (drop l.size bytes)

module _ {M : Type 0} (mem : UserMem M) (laws : CopyLaws mem) (l : SpecLayout) where
  read_whole :
      (base n : ℕ) (m : M) (bytes : List ℕ)
      → mem.copy_from_user base n m ≡ some bytes
      → read_exact mem (record { base = base; len = n }) n m ≡ ok bytes
  unfolding read_exact copy_to_slice
  read_whole base n m bytes e =
      let whole = limit_lem (record { base = base; len = n }) n (omega arith) in
      ground (arith, e, whole)

  register_each_lem :
      (scheme_id id clock n base : ℕ) (m : M) (bytes : List ℕ) (registry : List Timeout)
      → mem.copy_from_user base (n * l.size) m ≡ some bytes
      → register_each mem l scheme_id id clock (slices n l.size base) m registry
        ≡ (registry ++ timeouts_of l scheme_id id clock n bytes, ok (n * l.size))
  unfolding register_each timeouts_of register_timeout
  register_each_lem scheme_id id clock zero base m bytes registry e =
      ground (arith, append-nil registry)
  register_each_lem scheme_id id clock (suc n) base m bytes registry e =
      let grow : suc n * l.size ≡ l.size + n * l.size = omega arith in
      let parts = laws.from_user-split base l.size (n * l.size) m bytes (rw (← grow) e) in
      let first = read_whole base l.size m (take l.size bytes) parts.0 in
      let (sec, nsec) = l.decode (take l.size bytes) in
      let next = register_timeout scheme_id id clock sec nsec registry in
      let ih =
        register_each_lem scheme_id id clock n (base + l.size) m (drop l.size bytes) next parts.1 in
      let joined =
        append_assoc registry (timeout_of scheme_id id clock sec nsec ∷ [])
          (timeouts_of l scheme_id id clock n (drop l.size bytes)) in
      ground (arith, first, ih, joined, grow)

  -- A write to a handle registers a timeout of the clock of the handle for each whole specification
  -- in the buffer, in order and behind those that are there, and returns the number of their bytes.
  -- The buffer must be in user memory and its whole specifications be readable.
  pub kwrite_lem :
      (id clock : ℕ) (buf : UserSlice) (s : TimeScheme) (m : M) (bytes : List ℕ)
      (registry : List Timeout)
      → 0 < l.size
      → IsUser buf
      → get id s.handles ≡ some clock
      → mem.copy_from_user buf.base (buf.len / l.size * l.size) m ≡ some bytes
      → kwrite mem l id buf s m registry ≡ (
        registry ++ timeouts_of l s.scheme_id id clock (buf.len / l.size) bytes,
        ok (buf.len / l.size * l.size),
      )
  unfolding kwrite
  kwrite_lem id clock buf s m bytes registry pos user here e =
      let chunks = in_exact_chunks_lem buf l.size user pos in
      let registered =
        register_each_lem s.scheme_id id clock (buf.len / l.size) buf.base m bytes registry e in
      ground (arith, here, chunks, registered)

module _ {M : Type 0} (mem : UserMem M) (l : SpecLayout) where
  -- `kfpath` gives the path where the buffer has room for all of it and the copy does not fault; where
  -- the buffer is shorter it fails with EINVAL, whatever the memory.
  pub copy_path_lem :
      (buf : UserSlice) (path : List ℕ) (m : M)
      → ((length path ≤ buf.len)
          × (copy_path mem l buf path m ≡ (
            (mem.copy_to_user buf.base path m).0,
            if (mem.copy_to_user buf.base path m).1 then ok (length path) else err Errno.efault,
          )))
        ⊎ ((buf.len < length path) × (copy_path mem l buf path m ≡ (m, err Errno.einval)))
  unfolding copy_path copy_from_slice
  copy_path_lem buf path m =
      let limited = limit_lem buf (min buf.len (length path)) (omega arith) in
      elim (dec_lt buf.len (length path)) [
        | yes p ↦ inr (p, ground (arith, p, limited))
        | no p ↦ inl (omega arith, ground (arith, p, limited))
      ]
