-- ===== src/Ptrace/Tests.antt =====
-- A tracer that waits for a process and the process that stops, and the memory of a tracee.
use redox_os_kernel.Prelude.{
  ℕ, ◌+◌, ◌-◌, ◌≡◌, refl, min, Bool, true, Option, none, some, List, [], ◌∷◌, arith, map,
}
use redox_os_kernel.Btree.{Map, get, insert, contains_key, nat_key}
use redox_os_kernel.Contexts
use redox_os_kernel.Contexts.{Context, change, block, unblock_all, unblock}
use redox_os_kernel.Events.{Events, trigger}
use redox_os_kernel.Memory.Grants.{user_end_offset}
use redox_os_kernel.Ptrace.{
  World, Session, Api, try_new_session, put, set_breakpoint, wait_round, stop_round, find_session,
  add_event, notify_tracer, proc_trigger_event, has_news, is_reached,
}
use redox_os_kernel.Ptrace.Awake.{
  created, breaks, waited, stopped, here, next, IsAwake, Reach-IsAwake,
}
use redox_os_kernel.Ptrace.Chunks.{context_memory, chunk_memory, Tiles, context_memory-Tiles}

abbrev api : Api ℕ
api = record { cause = λ e. e; of_flags = λ f. f; event_read = 2 }

abbrev queues : Events (Unit {0})
queues = record { registry = []; queues = []; next_id = 1; outside = tt }

abbrev start : World ℕ (Unit {0})
start = record {
  ids = [];
  store = [];
  next = 0;
  contexts = (5, Contexts.new 5 0 [] []) ∷ (7, Contexts.new 7 0 [] []) ∷ [];
  queues = queues;
  proc_id = some 3;
}

abbrev opened : World ℕ (Unit {0})
opened = (try_new_session 5 9 start).0

abbrev session : Session ℕ
session = record {
  content = record { breakpoint = none; events = []; file_id = 9 };
  tracee = [];
  tracer = [];
}

abbrev broken : World ℕ (Unit {0})
broken = put 0 (record session { content = set_breakpoint (some 6) session.content }) opened

abbrev waiting : World ℕ (Unit {0})
waiting = (wait_round api 7 5 broken).0

abbrev at_stop : World ℕ (Unit {0})
at_stop = (stop_round api 5 0 4 none waiting).0

opened_session : get 0 opened.store ≡ some session
unfolding try_new_session get redox_os_kernel.Btree.contains_key redox_os_kernel.Btree.insert
opened_session = refl

start-IsAwake : IsAwake api start
unfolding get IsAwake
start-IsAwake n s e = absurd (ground (arith, e))

Reach-IsAwake_example : IsAwake api at_stop
Reach-IsAwake_example =
    Reach-IsAwake api start at_stop
      (next (created 5 9) (
        next (breaks 0 session (some 6) opened_session)
          (next (waited 7 5) (next (stopped 5 0 4 none) here))))
      start-IsAwake

-- The tracer that waited is off the list, and the tracee is on its own.
at_stop_lists :
    get 0 at_stop.store
    ≡ some (record {
      content = record {
        breakpoint = some (record { reached = true; flags = 6 });
        events = 4 ∷ [];
        file_id = 9;
      };
      tracee = 5 ∷ [];
      tracer = [];
    })
unfolding get stop_round wait_round put set_breakpoint try_new_session add_event notify_tracer
    proc_trigger_event trigger find_session has_news is_reached insert contains_key change block
    unblock_all unblock
at_stop_lists = refl

abbrev lookup : ℕ → Option (ℕ × Bool)
lookup a = some (a + 4096, true)

context_memory-Tiles_example :
    (cs : List (ℕ × ℕ)) × Tiles 4096 4090 (4090 + min 5000 (user_end_offset - 4090)) cs
    × (context_memory 4096 lookup (λ a. a) 4090 5000 ≡ map (chunk_memory 4096 lookup (λ a. a)) cs)
context_memory-Tiles_example =
    context_memory-Tiles 4096 lookup (λ a. a) 4090 5000 (omega arith) (omega arith) (omega arith)
