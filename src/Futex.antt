-- ===== src/Futex.antt =====
-- src/syscall/futex.rs: waiting on a word of user memory. Contexts are named by numbers; the page
-- tables, the loads of a word, the clock and crate `syscall` are parameters.
mod Tests
pub mod Wake
pub mod Requeue
use redox_os_kernel.Prelude.{
  ℕ, zero, suc, ◌+◌, ◌-◌, ◌*◌, ◌/◌, ◌%◌, ◌^◌, ◌≡◌, Bool, true, false, not, ◌&&◌, ◌||◌, Option, none,
  some, List, [], ◌∷◌, ◌++◌, Result, ok, err, panic, Errno, ok_or, expect, guard, ◌>>=◌, ◌>>◌, ltb,
  leb, ◌==◌, length, get_elem?, set, take, if◌then◌else◌, saturating_add, map_ok,
}
use redox_os_kernel.Btree.{Map, get, insert, nat_key}
use redox_os_kernel.Memory.Grants.{user_end_offset}
use redox_os_kernel.Contexts.{Context, block, change, unblock_all}
use redox_os_kernel.UserSlice.{UserMem, UserSlice, new, none_if_null, read_exact}

pub record FutexEntry : Type 0 where
  pub target_physaddr : ℕ
  pub context_lock : ℕ

abbrev pub FutexList : Type 0
FutexList = List FutexEntry

-- FUTEXES, the list of contexts, and the current one.
pub record World : Type 0 where
  pub futexes : FutexList
  pub contexts : Map ℕ Context
  pub current : Option ℕ

-- What is not in the file, for a user memory `M`. `translate` is that of the page tables of an
-- address space, from a page's address to its frame's; `time_spec` reads the two fields as `u128`.
pub record Machine (M : Type 0) : Type 0 where
  pub page_size : ℕ
  pub translate : ℕ → ℕ → Option ℕ
  pub load_u32 : ℕ → M → ℕ
  pub load_u64 : ℕ → M → ℕ
  pub mem : UserMem M
  pub monotonic : ℕ
  pub time_spec_size : ℕ
  pub time_spec : List ℕ → ℕ × ℕ
  pub op_wait : ℕ
  pub op_wait64 : ℕ
  pub op_wake : ℕ
  pub op_requeue : ℕ

-- `VecDeque::swap_remove_back`: the last element takes the place of the one that goes.
unfoldable pub swap_remove_back : ℕ → FutexList → Option (FutexEntry × FutexList)
swap_remove_back i xs =
    let n = length xs - 1 in
    elim (get_elem? xs i) [
      | none ↦ none
      | some e ↦ elim (get_elem? xs n) [
        | none ↦ none
        | some last ↦ some (e, take n (set xs i last))
      ]
    ]

-- The loop of FUTEX_WAKE from index `i` on, that wakes `val` more: the contexts to unblock, in order,
-- and the queue. `fuel` bounds the iterations.
unfoldable pub wake_loop : ℕ → ℕ → ℕ → ℕ → FutexList → List ℕ × FutexList
unfolding swap_remove_back
wake_loop zero target i val xs = ([], xs)
wake_loop (suc fuel) target i zero xs = ([], xs)
wake_loop (suc fuel) target i (suc val) xs = elim (get_elem? xs i) [
  | none ↦ ([], xs)
  | some e ↦ elim (e.target_physaddr == target) [
    | false ↦ wake_loop fuel target (i + 1) (suc val) xs
    | true ↦ elim (swap_remove_back i xs) [
      | none ↦ wake_loop fuel target i (suc val) xs
      | some (f, ys) ↦
          let (woken, rest) = wake_loop fuel target i val ys in (f.context_lock ∷ woken, rest)
    ]
  ]
]

-- The first loop of FUTEX_REQUEUE: as the loop of FUTEX_WAKE, but an entry of another address only
-- moves the index on, and the entry at the new index is woken then. Also the index at the end.
unfoldable pub requeue_wake : ℕ → ℕ → ℕ → ℕ → FutexList → ℕ × List ℕ × FutexList
unfolding swap_remove_back
requeue_wake zero target i val xs = (i, [], xs)
requeue_wake (suc fuel) target i zero xs = (i, [], xs)
requeue_wake (suc fuel) target i (suc val) xs = elim (get_elem? xs i) [
  | none ↦ (i, [], xs)
  | some e ↦
      let j = if e.target_physaddr == target then i else i + 1 in
      elim (swap_remove_back j xs) [
        | none ↦ requeue_wake fuel target j (suc val) xs
        | some (f, ys) ↦
            let (k, woken, rest) = requeue_wake fuel target j val ys in
            (k, f.context_lock ∷ woken, rest)
      ]
]

-- The second loop, for `val2` more entries; an index out of range panics.
unfoldable pub requeue_move : ℕ → ℕ → ℕ → ℕ → FutexList → Result FutexList
requeue_move zero target target2 i xs = ok xs
requeue_move (suc val2) target target2 i xs = elim (get_elem? xs i) [
  | none ↦ ok xs
  | some e ↦
      let j = if e.target_physaddr == target then i else i + 1 in
      elim (get_elem? xs j) [
        | none ↦ panic
        | some f ↦
            requeue_move val2 target target2 j (set xs j (record f { target_physaddr = target2 }))
      ]
]

module _ {M : Type 0} (mach : Machine M) where
  unfoldable pub validate_and_translate_virt : ℕ → ℕ → Option ℕ
  validate_and_translate_virt space addr =
      if leb user_end_offset (saturating_add addr 8)
      then none
      else elim (mach.translate space (addr / mach.page_size * mach.page_size)) [
        | none ↦ none
        | some frame ↦ some (frame + addr % mach.page_size)
      ]

  -- The time span that FUTEX_WAIT reads, in nanoseconds.
  wait_timeout : ℕ → M → Result (Option ℕ)
  wait_timeout val2 m = new val2 mach.time_spec_size >>= λ s. elim (none_if_null s) [
    | none ↦ ok none
    | some buf ↦ read_exact mach.mem buf mach.time_spec_size m >>= λ bytes.
        let (sec, nsec) = mach.time_spec bytes in ok (some (sec * 1000000000 + nsec))
  ]

  -- The word in memory, and the one expected.
  wait_values : ℕ → ℕ → ℕ → ℕ → M → Result (ℕ × ℕ)
  wait_values op addr target val m =
      if op == mach.op_wait
      then guard (addr % 4 == 0) Errno.einval >> ok (mach.load_u32 target m, val % 2 ^ 32)
      else guard (addr % 8 == 0) Errno.einval >> ok (mach.load_u64 addr m, val)

  sleep : Option ℕ → Context → Context
  unfolding block
  sleep none c = block c
  sleep (some t) c = block (record c { wake = some ((mach.monotonic + t) % 2 ^ 128) })

  -- FUTEX_WAIT and FUTEX_WAIT64 up to `context::switch`: the timeout, for what follows.
  unfoldable pub wait_begin : ℕ → ℕ → ℕ → ℕ → ℕ → ℕ → M → World → Result (Option ℕ × World)
  unfolding wait_timeout wait_values sleep change
  wait_begin op addr target val val2 self m w = do
    timeout ← wait_timeout val2 m
    (fetched, expected) ← wait_values op addr target val m
    guard (fetched == expected) Errno.eagain
    ok (
      timeout,
      record w {
        contexts = change (sleep timeout) self w.contexts;
        futexes = w.futexes ++ record { target_physaddr = target; context_lock = self } ∷ [];
      },
    )

  -- What follows the switch back.
  unfoldable pub wait_end : Option ℕ → World → World × Result ℕ
  unfolding change
  wait_end none w = (w, ok 0)
  wait_end (some t) w = elim w.current [
    | none ↦ (w, err Errno.esrch)
    | some self ↦
        (record w { contexts = change (λ c. record c { wake = none }) self w.contexts }, ok 0)
  ]

  unfoldable pub futex_wake : ℕ → ℕ → World → World × Result ℕ
  unfolding wake_loop unblock_all
  futex_wake target val w =
      let (woken, rest) = wake_loop (length w.futexes) target 0 val w.futexes in
      (record w { futexes = rest; contexts = unblock_all woken w.contexts }, ok (length woken))

  -- A panic leaves the queue as the first loop left it.
  unfoldable pub futex_requeue : ℕ → ℕ → ℕ → ℕ → World → World × Result ℕ
  unfolding requeue_wake requeue_move unblock_all
  futex_requeue target target2 val val2 w =
      let (i, woken, rest) = requeue_wake (length w.futexes) target 0 val w.futexes in
      let w' = record w { futexes = rest; contexts = unblock_all woken w.contexts } in
      elim (requeue_move val2 target target2 i rest) [
        | ok ys ↦ (record w' { futexes = ys }, ok (length woken))
        | err e ↦ (w', err e)
        | panic ↦ (w', panic)
      ]

  -- What `futex` comes to: it returns, or it sleeps and goes on with `wait_end`.
  pub data Outcome : Type 0 where
    returns : World → Result ℕ → Outcome
    sleeps : Option ℕ → World → Outcome

  current_space : World → Result (ℕ × ℕ)
  current_space w = do
    self ← ok_or w.current Errno.esrch
    c ← expect (get self w.contexts)
    space ← ok_or c.addr_space Errno.esrch
    ok (self, space)

  as_outcome : World → Result (Option ℕ × World) → Outcome
  as_outcome w (ok (t, w')) = sleeps t w'
  as_outcome w (err e) = returns w (err e)
  as_outcome w panic = returns w panic

  dispatch : ℕ → ℕ → ℕ → ℕ → ℕ → ℕ → ℕ → ℕ → M → World → Outcome
  unfolding as_outcome wait_begin futex_wake futex_requeue validate_and_translate_virt
  dispatch self space target addr op val val2 addr2 m w =
      if op == mach.op_wait || op == mach.op_wait64
      then as_outcome w (wait_begin op addr target val val2 self m w)
      else if op == mach.op_wake
      then (let (w', r) = futex_wake target val w in returns w' r)
      else if op == mach.op_requeue
      then elim (validate_and_translate_virt space addr2) [
        | none ↦ returns w (err Errno.efault)
        | some target2 ↦ let (w', r) = futex_requeue target target2 val val2 w in returns w' r
      ]
      else returns w (err Errno.einval)

  unfoldable pub futex : ℕ → ℕ → ℕ → ℕ → ℕ → M → World → Outcome
  unfolding current_space dispatch validate_and_translate_virt
  futex addr op val val2 addr2 m w = elim (current_space w) [
    | err e ↦ returns w (err e)
    | panic ↦ returns w panic
    | ok (self, space) ↦ elim (validate_and_translate_virt space addr) [
      | none ↦ returns w (err Errno.efault)
      | some target ↦ dispatch self space target addr op val val2 addr2 m w
    ]
  ]
