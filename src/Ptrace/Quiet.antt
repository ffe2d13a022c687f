-- ===== src/Ptrace/Quiet.antt =====
-- A session of src/ptrace.rs whose tracers need not wake, and what keeps it so.
use redox_os_kernel.Prelude.{
  ℕ, ◌≡◌, inl, inr, refl, true, Option, none, some, List, [], ◌∷◌, is_nil, arith, Bool-cases,
  Option-cases, ◌⊎◌, false,
}
use redox_os_kernel.Btree.{nat_key}
use redox_os_kernel.Ptrace.{
  Session, SessionData, Breakpoint, set_breakpoint, is_reached, recv_events, has_news,
}
use redox_os_kernel.Sync.Condition.{remove_waiter}

-- A session for which no tracer waits, or which has neither an unread event nor a reached breakpoint.
unfoldable pub IsQuiet : {E : Type 0} → Session E → Type 0
IsQuiet s =
    (s.tracer ≡ [])
    ⊎ (s.content.events ≡ [])
      × ((b : Breakpoint) → s.content.breakpoint ≡ some b → b.reached ≡ false)

pub is_nil_lem : {A : Type 0} (xs : List A) → is_nil xs ≡ true → xs ≡ []
is_nil_lem [] e = refl
is_nil_lem (x ∷ xs) e = absurd (ground (arith, e))

-- Where a tracer need not be told anything, there is neither an event nor a reached breakpoint.
pub has_news_none :
    {E : Type 0} (c : SessionData E)
    → has_news c ≡ false
    → (c.events ≡ []) × ((b : Breakpoint) → c.breakpoint ≡ some b → b.reached ≡ false)
unfolding has_news is_reached
has_news_none c calm = (is_nil_lem c.events (ground (arith, calm)), λ b e. ground (arith, calm, e))

has_news_calm :
    {E : Type 0} (c : SessionData E)
    → c.events ≡ []
    → ((b : Breakpoint) → c.breakpoint ≡ some b → b.reached ≡ false)
    → has_news c ≡ false
unfolding has_news is_reached
has_news_calm c empty calm = elim (Option-cases c.breakpoint) [
  | inl gone ↦ ground (arith, empty, gone)
  | inr (b, set) ↦ ground (arith, empty, set, calm b set)
]

-- After a notification no tracer waits.
pub notified-IsQuiet : {E : Type 0} (s : Session E) → IsQuiet (record s { tracer = [] })
unfolding IsQuiet
notified-IsQuiet s = inl refl

-- A session with less to report, or with as many tracers.
pub calmer-IsQuiet :
    {E : Type 0} (s t : Session E)
    → (has_news t.content ≡ true → has_news s.content ≡ true)
    → (is_nil s.tracer ≡ true → is_nil t.tracer ≡ true)
    → IsQuiet s
    → IsQuiet t
unfolding IsQuiet
calmer-IsQuiet s t less as_many (inl none_waits) =
    inl (is_nil_lem t.tracer (as_many (ground (arith, none_waits))))
calmer-IsQuiet s t less as_many (inr (empty, calm)) = elim (Bool-cases (has_news t.content)) [
  | inr still ↦ inr (has_news_none t.content still)
  | inl news ↦ absurd (ground (arith, less news, has_news_calm s.content empty calm))
]

-- A new breakpoint is not reached.
pub has_news-set_breakpoint :
    {E : Type 0} (flags : Option ℕ) (c : SessionData E)
    → has_news (set_breakpoint flags c) ≡ true
    → has_news c ≡ true
unfolding set_breakpoint has_news is_reached
has_news-set_breakpoint none c h = ground (arith, h)
has_news-set_breakpoint (some f) c h = ground (arith, h)

pub has_news-recv_events :
    {E : Type 0} (room : ℕ) (c : SessionData E)
    → has_news (recv_events room c).0 ≡ true
    → has_news c ≡ true
unfolding recv_events has_news is_reached
has_news-recv_events {E = E} room c h = go c.breakpoint c.events c.file_id h
  where
    go :
        (b : Option Breakpoint) (es : List E) (id : ℕ)
        → has_news (recv_events room (record { breakpoint = b; events = es; file_id = id })).0
          ≡ true
        → has_news (record { breakpoint = b; events = es; file_id = id }) ≡ true
    go b [] id e = ground (arith, e)
    go b (x ∷ xs) id e = ground (arith, e)

-- Who is taken from a list was in it.
pub is_nil-remove_waiter :
    (self : ℕ) (is rest : List ℕ)
    → remove_waiter self is ≡ some rest
    → is_nil is ≡ true
    → is_nil rest ≡ true
unfolding remove_waiter
is_nil-remove_waiter self [] rest h e = absurd (ground (arith, h))
is_nil-remove_waiter self (i ∷ is) rest h e = absurd (ground (arith, e))
