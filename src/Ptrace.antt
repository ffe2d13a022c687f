-- ===== src/Ptrace.antt =====
-- src/ptrace.rs: the sessions of tracers, with their breakpoints and events. A session is shared
-- (`Arc`): `ids` has the name of the session of each process, and `store` the sessions by name, also
-- those that are closed and still in use. A call that waits is a loop of rounds under the lock of the
-- session; it goes on where a signal woke it.
pub mod Quiet
pub mod Awake
mod Tests
pub mod Chunks
use redox_os_kernel.Prelude.{
  ℕ, zero, suc, ◌+◌, ◌-◌, min, Bool, true, false, not, ◌&&◌, ◌||◌, Option, none, some, List, [],
  ◌∷◌, ◌++◌, ◌==◌, length, take, drop, is_nil, if◌then◌else◌, bit_and, Result, ok, err, panic,
  Errno,
}
use mathlib.Core.List.{reverse}
use redox_os_kernel.Btree.{Map, get, contains_key, insert, remove, nat_key}
use redox_os_kernel.Contexts.{Context, block, change, unblock_all}
use redox_os_kernel.Events.{Events, trigger}
use redox_os_kernel.Sync.{Turn, done, wait}

pub record Breakpoint : Type 0 where
  pub reached : Bool
  pub flags : ℕ

pub record SessionData (E : Type 0) : Type 0 where
  pub breakpoint : Option Breakpoint
  pub events : List E
  pub file_id : ℕ

-- The two conditions are lists of the contexts that wait.
pub record Session (E : Type 0) : Type 0 where
  pub content : SessionData E
  pub tracee : List ℕ
  pub tracer : List ℕ

-- `proc_id` is PROC_SCHEME_ID, and `next` the name of the next session.
pub record World (E X : Type 0) : Type 0 where
  pub ids : Map ℕ ℕ
  pub store : Map ℕ (Session E)
  pub next : ℕ
  pub contexts : Map ℕ Context
  pub queues : Events X
  pub proc_id : Option ℕ

-- Of crate syscall: the flags of an event, the event of some flags, and EVENT_READ.
pub record Api (E : Type 0) : Type 0 where
  pub cause : E → ℕ
  pub of_flags : ℕ → E
  pub event_read : ℕ

module _ {E : Type 0} where
  unfoldable pub set_breakpoint : Option ℕ → SessionData E → SessionData E
  set_breakpoint flags s = record s {
    breakpoint = elim flags [ none ↦ none | some f ↦ some (record { reached = false; flags = f }) ];
  }

  unfoldable pub is_reached : SessionData E → Bool
  is_reached s = elim s.breakpoint [ none ↦ false | some b ↦ b.reached ]

  unfoldable pub session_fevent_flags : Api E → SessionData E → ℕ
  session_fevent_flags api s = if is_nil s.events then 0 else api.event_read

  -- The events that go into a buffer with room for `n`.
  unfoldable pub recv_events : ℕ → SessionData E → SessionData E × List E
  recv_events n s =
      let len = min n (length s.events) in
      (record s { events = drop len s.events }, take len s.events)

  -- `tracer.wait` need not wait.
  unfoldable pub has_news : SessionData E → Bool
  unfolding is_reached
  has_news s = is_reached s || not (is_nil s.events)

module _ {E X : Type 0} where
  unfoldable pub put : ℕ → Session E → World E X → World E X
  put n s w = record w { store = insert n s w.store }

  unfoldable pub find_session : ℕ → World E X → Option (ℕ × Session E)
  find_session pid w = elim (get pid w.ids) [
    | none ↦ none
    | some n ↦ elim (get n w.store) [ none ↦ none | some s ↦ some (n, s) ]
  ]

  unfoldable pub with_session : {A : Type 0} → ℕ → (Session E → Result A) → World E X → Result A
  unfolding find_session
  with_session pid callback w = elim (find_session pid w) [
    | none ↦ err Errno.enodev
    | some (n, s) ↦ callback s
  ]

  unfoldable pub is_traced : ℕ → World E X → Bool
  is_traced pid w = contains_key pid w.ids

  unfoldable pub try_new_session : ℕ → ℕ → World E X → World E X × Bool
  try_new_session pid file_id w =
      let empty : SessionData E = record { breakpoint = none; events = []; file_id = file_id } in
      if contains_key pid w.ids then (w, false) else (
        record w {
          ids = insert pid w.next w.ids;
          store = insert w.next (record { content = empty; tracee = []; tracer = [] }) w.store;
          next = w.next + 1;
        },
        true,
      )

  -- `session.tracer.notify()` on a session that stands at `n` in the end.
  unfoldable pub notify_tracer : ℕ → Session E → World E X → World E X
  unfolding put unblock_all
  notify_tracer n s w =
      let w' = put n (record s { tracer = [] }) w in
      record w' { contexts = unblock_all (reverse s.tracer) w.contexts }

  unfoldable pub notify_both : ℕ → Session E → World E X → World E X
  unfolding put unblock_all
  notify_both n s w =
      let w' = put n (record s { tracer = []; tracee = [] }) w in
      record w' {
        contexts = unblock_all (reverse s.tracee) (unblock_all (reverse s.tracer) w.contexts);
      }

  unfoldable pub close_session : ℕ → World E X → World E X
  unfolding find_session notify_both
  close_session pid w = elim (find_session pid w) [
    | none ↦ w
    | some (n, s) ↦ let w' = notify_both n s w in record w' { ids = remove pid w'.ids }
  ]

  unfoldable pub proc_trigger_event : ℕ → ℕ → World E X → World E X
  unfolding trigger
  proc_trigger_event file_id flags w = elim w.proc_id [
    | none ↦ w
    | some id ↦ record w { queues = trigger id file_id flags w.queues }
  ]

module _ {E X : Type 0} (api : Api E) where
  unfoldable pub close_tracee : ℕ → World E X → World E X
  unfolding find_session notify_tracer proc_trigger_event
  close_tracee pid w = elim (find_session pid w) [
    | none ↦ w
    | some (n, s) ↦ proc_trigger_event s.content.file_id api.event_read (notify_tracer n s w)
  ]

  -- `add_event` on the data of a session: the tracer is alerted where there was no event.
  unfoldable pub add_event : E → SessionData E → World E X → SessionData E × World E X
  unfolding proc_trigger_event
  add_event ev s w =
      let events = s.events ++ ev ∷ [] in
      (
        record s { events = events },
        if length events == 1 then proc_trigger_event s.file_id api.event_read w else w,
      )

  -- `send_event` of the context `self`, if there is one; `true` is for `Some(())`.
  unfoldable pub send_event : Option ℕ → E → World E X → World E X × Bool
  unfolding find_session add_event notify_tracer
  send_event none ev w = (w, false)
  send_event (some self) ev w = elim (find_session self w) [
    | none ↦ (w, false)
    | some (n, s) ↦ elim s.content.breakpoint [
      | none ↦ (w, false)
      | some b ↦
          let (content, w') = add_event ev s.content w in
          if bit_and (api.cause ev) b.flags == api.cause ev
          then (notify_tracer n (record s { content = content }) w', true)
          else (w, false)
    ]
  ]

  -- A round of `wait` by the tracer `self`, which ends it or puts the tracer among those that wait.
  unfoldable pub wait_round : ℕ → ℕ → World E X → World E X × Turn (Unit {0})
  unfolding find_session has_news put change block
  wait_round self pid w = elim (find_session pid w) [
    | none ↦ (w, done (ok tt))
    | some (n, s) ↦
        let w' = put n (record s { tracer = s.tracer ++ self ∷ [] }) w in
        if has_news s.content
        then (w, done (ok tt))
        else (record w' { contexts = change block self w.contexts }, wait)
  ]

  -- A round of `breakpoint_callback` of the tracee `self` on the session `n`, which is found by then.
  unfoldable pub stop_round : ℕ → ℕ → ℕ → Option E → World E X → World E X × Turn (Option ℕ)
  unfolding add_event notify_tracer put change block
  stop_round self n match_flags event w = elim (get n w.store) [
    | none ↦ (w, done panic)
    | some s ↦ elim s.content.breakpoint [
      | none ↦ (w, done (ok none))
      | some b ↦
          let ev : E = elim event [ none ↦ api.of_flags match_flags | some e ↦ e ] in
          let stopped = record s.content { breakpoint = some (record b { reached = true }) } in
          let (content, w1) = add_event ev stopped w in
          let s' = record s { content = content; tracee = s.tracee ++ self ∷ [] } in
          let w2 = notify_tracer n s' w1 in
          if bit_and b.flags match_flags == match_flags
          then (record w2 { contexts = change block self w2.contexts }, wait)
          else (w, done (ok none))
    ]
  ]

  -- The same, with the search for the session.
  unfoldable pub breakpoint_round : ℕ → ℕ → Option E → World E X → World E X × Turn (Option ℕ)
  unfolding stop_round
  breakpoint_round self match_flags event w = elim (get self w.ids) [
    | none ↦ (w, done (ok none))
    | some n ↦ stop_round self n match_flags event w
  ]

  unfoldable pub next_breakpoint : Option ℕ → World E X → Option ℕ
  unfolding find_session
  next_breakpoint none w = none
  next_breakpoint (some self) w = elim (find_session self w) [
    | none ↦ none
    | some (n, s) ↦ elim s.content.breakpoint [ none ↦ none | some b ↦ some b.flags ]
  ]
