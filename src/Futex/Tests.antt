-- ===== src/Futex/Tests.antt =====
-- The theorems on the futex queue, at queues of a few entries.
use redox_os_kernel.Prelude.{
  ℕ, ◌+◌, min, ◌≡◌, refl, false, none, some, List, [], ◌∷◌, ok, panic, arith, length, if◌then◌else◌,
  ◌==◌,
}
use redox_os_kernel.UserSlice.{UserMem}
use redox_os_kernel.Contexts.{unblock_all}
use redox_os_kernel.Futex.{
  FutexEntry, FutexList, World, Machine, futex_wake, requeue_wake, futex_requeue,
}
use redox_os_kernel.Futex.Wake.{sleepers, waits, times, futex_wake_lem}
use redox_os_kernel.Futex.Requeue.{futex_requeue_panics}

abbrev entry : ℕ → ℕ → FutexEntry
entry target ctx = record { target_physaddr = target; context_lock = ctx }

abbrev no_mem : UserMem ℕ
no_mem = record { copy_from_user = λ base n m. none; copy_to_user = λ base bytes m. (m, false) }

abbrev machine : Machine ℕ
machine = record {
  page_size = 4096;
  translate = λ space page. some page;
  load_u32 = λ a m. m;
  load_u64 = λ a m. m;
  mem = no_mem;
  monotonic = 0;
  time_spec_size = 16;
  time_spec = λ bytes. (0, 0);
  op_wait = 0;
  op_wait64 = 4;
  op_wake = 1;
  op_requeue = 2;
}

abbrev three_asleep : World
three_asleep = record {
  futexes = entry 8 1 ∷ entry 16 2 ∷ entry 8 3 ∷ [];
  contexts = [];
  current = some 9;
}

abbrev two_asleep : World
two_asleep = record { futexes = entry 8 1 ∷ entry 8 2 ∷ []; contexts = []; current = some 9 }

futex_wake_lem_example :
    (woken : List ℕ) × (rest : FutexList) × (futex_wake machine 8 1 three_asleep ≡ (
      record three_asleep { futexes = rest; contexts = unblock_all woken [] },
      ok (min 1 (sleepers 8 three_asleep.futexes)),
    ))
    × (length woken ≡ min 1 (sleepers 8 three_asleep.futexes))
    × ((t c : ℕ)
        → waits t c three_asleep.futexes ≡ (if t == 8 then times c woken else 0) + waits t c rest)
futex_wake_lem_example = futex_wake_lem machine 8 1 three_asleep

-- Two contexts wait at 8; one is to be woken and up to three moved to 16.
one_woken : requeue_wake 2 8 0 1 two_asleep.futexes ≡ (0, 1 ∷ [], entry 8 2 ∷ [])
unfolding requeue_wake
one_woken = refl

futex_requeue_panics_example : (futex_requeue machine 8 16 1 3 two_asleep).1 ≡ panic
futex_requeue_panics_example =
    futex_requeue_panics machine 8 16 1 3 two_asleep 0 (1 ∷ []) (entry 8 2 ∷ [])
      (λ e. absurd (omega arith)) one_woken (omega arith) (omega arith)
