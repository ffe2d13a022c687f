-- ===== src/Ptrace/Awake.antt =====
-- No tracer sleeps while there is something to report.
use redox_os_kernel.Prelude.{
  ℕ, ◌≡◌, inl, inr, refl, true, Option, none, some, List, [], ◌∷◌, ◌++◌, ◌==◌, bit_and, subst,
  arith, Option-cases, Bool-cases,
}
use redox_os_kernel.Btree.{get, contains_key, insert, nat_key}
use redox_os_kernel.Btree.Laws.{get-insert}
use redox_os_kernel.Ptrace.{
  Session, SessionData, World, Api, set_breakpoint, is_reached, recv_events, has_news, put,
  find_session, try_new_session, notify_tracer, notify_both, close_session, proc_trigger_event,
  close_tracee, add_event, send_event, wait_round, stop_round,
}
use redox_os_kernel.Sync.Condition.{remove_waiter}
use redox_os_kernel.Ptrace.Quiet.{
  IsQuiet, has_news_none, notified-IsQuiet, calmer-IsQuiet, has_news-set_breakpoint,
  has_news-recv_events, is_nil-remove_waiter,
}

module _ {E X : Type 0} (api : Api E) where
  -- What can happen to the sessions: the calls of tracers and tracees, a tracer's change of the data of
  -- a session, and that a signal woke a tracer or a tracee, which leaves the condition.
  pub data Step : World E X → World E X → Type 0 where
    created : {w : World E X} (pid file_id : ℕ) → Step w (try_new_session pid file_id w).0
    closed : {w : World E X} (pid : ℕ) → Step w (close_session pid w)
    died : {w : World E X} (pid : ℕ) → Step w (close_tracee api pid w)
    sent : {w : World E X} (self : Option ℕ) (ev : E) → Step w (send_event api self ev w).0
    waited : {w : World E X} (self pid : ℕ) → Step w (wait_round api self pid w).0
    stopped :
        {w : World E X} (self n flags : ℕ) (event : Option E)
        → Step w (stop_round api self n flags event w).0
    breaks :
        {w : World E X} (n : ℕ) (s : Session E) (flags : Option ℕ)
        → get n w.store ≡ some s
        → Step w (put n (record s { content = set_breakpoint flags s.content }) w)
    received :
        {w : World E X} (n : ℕ) (s : Session E) (room : ℕ)
        → get n w.store ≡ some s
        → Step w (put n (record s { content = (recv_events room s.content).0 }) w)
    left_tracer :
        {w : World E X} (n : ℕ) (s : Session E) (self : ℕ) (rest : List ℕ)
        → get n w.store ≡ some s
        → remove_waiter self s.tracer ≡ some rest
        → Step w (put n (record s { tracer = rest }) w)
    left_tracee :
        {w : World E X} (n : ℕ) (s : Session E) (rest : List ℕ)
        → get n w.store ≡ some s
        → Step w (put n (record s { tracee = rest }) w)

  pub data Reach : World E X → World E X → Type 0 where
    here : {w : World E X} → Reach w w
    next : {a b c : World E X} → Step a b → Reach b c → Reach a c

  unfoldable pub IsAwake : World E X → Type 0
  IsAwake w = (n : ℕ) (s : Session E) → get n w.store ≡ some s → IsQuiet s

  insert-IsAwake :
      (n : ℕ) (s : Session E) (w w' : World E X)
      → w'.store ≡ insert n s w.store
      → IsQuiet s
      → IsAwake w
      → IsAwake w'
  unfolding IsAwake
  insert-IsAwake n s w w' e q h j t at_j =
      let got : get j (insert n s w.store) ≡ some t = rw (← e) at_j in
      elim (Bool-cases (n == j)) [
        | inl same ↦
            let both : s ≡ t = ground (arith, got, get-insert n j s w.store, same) in
            subst IsQuiet both q
        | inr other ↦ h j t (ground (arith, got, get-insert n j s w.store, other))
      ]

  same-IsAwake : (w w' : World E X) → w'.store ≡ w.store → IsAwake w → IsAwake w'
  unfolding IsAwake
  same-IsAwake w w' e h j t at_j = h j t (rw (← e) at_j)

  proc_trigger_event_store :
      (file_id flags : ℕ) (w : World E X) → (proc_trigger_event file_id flags w).store ≡ w.store
  unfolding proc_trigger_event
  proc_trigger_event_store file_id flags w = elim (Option-cases w.proc_id) [
    | inl gone ↦ ground (arith, gone)
    | inr (id, known) ↦ ground (arith, known)
  ]

  find_session-get :
      (pid n : ℕ) (s : Session E) (w : World E X)
      → find_session pid w ≡ some (n, s)
      → get n w.store ≡ some s
  unfolding find_session
  find_session-get pid n s w h = elim (Option-cases (get pid w.ids)) [
    | inl gone ↦ absurd (ground (arith, gone, h))
    | inr (m, named) ↦ elim (Option-cases (get m w.store)) [
      | inl gone ↦ absurd (ground (arith, named, gone, h))
      | inr (t, there) ↦ ground (arith, named, there, h)
    ]
  ]

  created-IsAwake :
      (pid file_id : ℕ) (w : World E X) → IsAwake w → IsAwake (try_new_session pid file_id w).0
  unfolding try_new_session IsQuiet
  created-IsAwake pid file_id w h = elim (Bool-cases (contains_key pid w.ids)) [
    | inl taken ↦ same-IsAwake w (try_new_session pid file_id w).0 (ground (arith, taken)) h
    | inr free ↦
        let empty : SessionData E = record { breakpoint = none; events = []; file_id = file_id } in
        insert-IsAwake w.next (record { content = empty; tracee = []; tracer = [] }) w
          (try_new_session pid file_id w).0 (ground (arith, free)) (inl refl) h
  ]

  closed-IsAwake : (pid : ℕ) (w : World E X) → IsAwake w → IsAwake (close_session pid w)
  unfolding close_session notify_both put
  closed-IsAwake pid w h = elim (Option-cases (find_session pid w)) [
    | inl gone ↦ same-IsAwake w (close_session pid w) (ground (arith, gone)) h
    | inr ((n, s), found) ↦
        insert-IsAwake n (record s { tracer = []; tracee = [] }) w (close_session pid w)
          (ground (arith, found)) (notified-IsQuiet (record s { tracee = [] })) h
  ]

  notify_tracer_store :
      (n : ℕ) (s : Session E) (w : World E X)
      → (notify_tracer n s w).store ≡ insert n (record s { tracer = [] }) w.store
  unfolding notify_tracer put
  notify_tracer_store n s w = refl

  died-IsAwake : (pid : ℕ) (w : World E X) → IsAwake w → IsAwake (close_tracee api pid w)
  unfolding close_tracee
  died-IsAwake pid w h = elim (Option-cases (find_session pid w)) [
    | inl gone ↦ same-IsAwake w (close_tracee api pid w) (ground (arith, gone)) h
    | inr ((n, s), found) ↦
        let told = notify_tracer n s w in
        let kept = proc_trigger_event_store s.content.file_id api.event_read told in
        insert-IsAwake n (record s { tracer = [] }) w (close_tracee api pid w)
          (ground (arith, found, kept, notify_tracer_store n s w)) (notified-IsQuiet s) h
  ]

  add_event_store :
      (ev : E) (c : SessionData E) (w : World E X) → (add_event api ev c w).1.store ≡ w.store
  unfolding add_event
  add_event_store ev c w = ground (arith, proc_trigger_event_store c.file_id api.event_read w)

  sent-IsAwake :
      (self : Option ℕ) (ev : E) (w : World E X) → IsAwake w → IsAwake (send_event api self ev w).0
  unfolding send_event
  sent-IsAwake none ev w h = h
  sent-IsAwake (some self) ev w h =
      let after = (send_event api (some self) ev w).0 in
      elim (Option-cases (find_session self w)) [
        | inl gone ↦ same-IsAwake w after (ground (arith, gone)) h
        | inr ((n, s), found) ↦ elim (Option-cases s.content.breakpoint) [
          | inl free ↦ same-IsAwake w after (ground (arith, found, free)) h
          | inr (b, set) ↦ elim (Bool-cases (bit_and (api.cause ev) b.flags == api.cause ev)) [
            | inr other ↦ same-IsAwake w after (ground (arith, found, set, other)) h
            | inl asked ↦
                let (content, w') = add_event api ev s.content w in
                let s' = record s { content = content } in
                insert-IsAwake n (record s' { tracer = [] }) w after
                  (ground (
                    arith,
                    found,
                    set,
                    asked,
                    add_event_store ev s.content w,
                    notify_tracer_store n s' w',
                  ))
                  (notified-IsQuiet s') h
          ]
        ]
      ]

  waited-IsAwake :
      (self pid : ℕ) (w : World E X) → IsAwake w → IsAwake (wait_round api self pid w).0
  unfolding wait_round put IsQuiet
  waited-IsAwake self pid w h =
      let after = (wait_round api self pid w).0 in
      elim (Option-cases (find_session pid w)) [
        | inl gone ↦ same-IsAwake w after (ground (arith, gone)) h
        | inr ((n, s), found) ↦ elim (Bool-cases (has_news s.content)) [
          | inl news ↦ same-IsAwake w after (ground (arith, found, news)) h
          | inr calm ↦
              insert-IsAwake n (record s { tracer = s.tracer ++ self ∷ [] }) w after
                (ground (arith, found, calm)) (inr (has_news_none s.content calm)) h
        ]
      ]

  stopped-IsAwake :
      (self n flags : ℕ) (event : Option E) (w : World E X)
      → IsAwake w
      → IsAwake (stop_round api self n flags event w).0
  unfolding stop_round
  stopped-IsAwake self n flags event w h =
      let after = (stop_round api self n flags event w).0 in
      elim (Option-cases (get n w.store)) [
        | inl gone ↦ same-IsAwake w after (ground (arith, gone)) h
        | inr (s, found) ↦ elim (Option-cases s.content.breakpoint) [
          | inl free ↦ same-IsAwake w after (ground (arith, found, free)) h
          | inr (b, set) ↦ elim (Bool-cases (bit_and b.flags flags == flags)) [
            | inr other ↦ same-IsAwake w after (ground (arith, found, set, other)) h
            | inl asked ↦
                let ev : E = elim event [ none ↦ api.of_flags flags | some e ↦ e ] in
                let stop = record s.content { breakpoint = some (record b { reached = true }) } in
                let (content, w') = add_event api ev stop w in
                let s' = record s { content = content; tracee = s.tracee ++ self ∷ [] } in
                insert-IsAwake n (record s' { tracer = [] }) w after
                  (ground (
                    arith,
                    found,
                    set,
                    asked,
                    add_event_store ev stop w,
                    notify_tracer_store n s' w',
                  ))
                  (notified-IsQuiet s') h
          ]
        ]
      ]

  breaks-IsAwake :
      (n : ℕ) (s : Session E) (flags : Option ℕ) (w : World E X)
      → get n w.store ≡ some s
      → IsAwake w
      → IsAwake (put n (record s { content = set_breakpoint flags s.content }) w)
  unfolding put set_breakpoint has_news is_reached IsAwake
  breaks-IsAwake n s flags w found h =
      let t = record s { content = set_breakpoint flags s.content } in
      insert-IsAwake n t w (put n t w) refl
        (calmer-IsQuiet s t (has_news-set_breakpoint flags s.content) (λ e. e) (h n s found)) h

  received-IsAwake :
      (n : ℕ) (s : Session E) (room : ℕ) (w : World E X)
      → get n w.store ≡ some s
      → IsAwake w
      → IsAwake (put n (record s { content = (recv_events room s.content).0 }) w)
  unfolding put recv_events has_news is_reached IsAwake
  received-IsAwake n s room w found h =
      let t = record s { content = (recv_events room s.content).0 } in
      insert-IsAwake n t w (put n t w) refl
        (calmer-IsQuiet s t (has_news-recv_events room s.content) (λ e. e) (h n s found)) h

  left_tracer-IsAwake :
      (n : ℕ) (s : Session E) (self : ℕ) (rest : List ℕ) (w : World E X)
      → get n w.store ≡ some s
      → remove_waiter self s.tracer ≡ some rest
      → IsAwake w
      → IsAwake (put n (record s { tracer = rest }) w)
  unfolding put IsAwake
  left_tracer-IsAwake n s self rest w found waits h =
      let t = record s { tracer = rest } in
      insert-IsAwake n t w (put n t w) refl
        (calmer-IsQuiet s t (λ e. e) (is_nil-remove_waiter self s.tracer rest waits) (h n s found))
        h

  Step-IsAwake : {w w' : World E X} → Step w w' → IsAwake w → IsAwake w'
  unfolding put IsQuiet IsAwake
  Step-IsAwake {w} (created pid file_id) h = created-IsAwake pid file_id w h
  Step-IsAwake {w} (closed pid) h = closed-IsAwake pid w h
  Step-IsAwake {w} (died pid) h = died-IsAwake pid w h
  Step-IsAwake {w} (sent self ev) h = sent-IsAwake self ev w h
  Step-IsAwake {w} (waited self pid) h = waited-IsAwake self pid w h
  Step-IsAwake {w} (stopped self n flags event) h = stopped-IsAwake self n flags event w h
  Step-IsAwake {w} (breaks n s flags found) h = breaks-IsAwake n s flags w found h
  Step-IsAwake {w} (received n s room found) h = received-IsAwake n s room w found h
  Step-IsAwake {w} (left_tracer n s self rest found waits) h =
      left_tracer-IsAwake n s self rest w found waits h
  Step-IsAwake {w} (left_tracee n s rest found) h =
      insert-IsAwake n (record s { tracee = rest }) w (put n (record s { tracee = rest }) w) refl
        (h n s found) h

  -- Whatever the tracers and the tracees do, from a state in which no tracer sleeps while its session has
  -- a reached breakpoint or an unread event, no tracer sleeps so in any later state.
  pub Reach-IsAwake : (w w' : World E X) → Reach w w' → IsAwake w → IsAwake w'
  Reach-IsAwake w _ here h = h
  Reach-IsAwake w w' (next step rest) h = Reach-IsAwake _ w' rest (Step-IsAwake step h)
