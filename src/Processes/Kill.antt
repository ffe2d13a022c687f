-- ===== src/Processes/Kill.antt =====
-- Whom `kill` reaches, and what it answers.
use redox_os_kernel.Prelude.{
  ℕ, ◌-◌, ◌^◌, leb, Bool, false, not, ◌&&◌, ◌||◌, none, some, List, [], ◌∷◌, ◌==◌, if◌then◌else◌,
  Result, ok, err, Errno,
}
use redox_os_kernel.Btree.{Map, get, nat_key}
use redox_os_kernel.Contexts.{Context}
use redox_os_kernel.Processes.{Sender, is_positive}

-- Root may signal everybody, and others those with a real user that is their effective or real one.
abbrev pub is_allowed : Sender → Context → Bool
is_allowed s c = s.euid == 0 || c.ruid == s.euid || c.ruid == s.ruid

-- Whom a `pid` is for that is not positive: -1 is for every process behind init, 0 for the group of the
-- sender, and another one, the negative of a number, for the group of that number.
abbrev pub is_for : Sender → ℕ → Context → Bool
is_for s pid c =
    (pid == 2 ^ 64 - 1 && not (leb c.id 2))
    || (pid == 0 && c.pgid == s.pgid)
    || (not (pid == 0) && not (pid == 2 ^ 64 - 1) && c.pgid == 2 ^ 64 - pid)

-- The contexts that a signal is for.
unfoldable pub addressed : (Context → Bool) → Map ℕ Context → List Context
addressed test [] = []
addressed test ((i, c) ∷ cs) = if test c then c ∷ addressed test cs else addressed test cs

unfoldable pub targets : Sender → ℕ → Map ℕ Context → List Context
unfolding addressed
targets s pid cs =
    if is_positive pid
    then (elim (get pid cs) [ none ↦ [] | some c ↦ c ∷ [] ])
    else addressed (is_for s pid) cs

unfoldable pub any_allowed : Sender → List Context → Bool
any_allowed s [] = false
any_allowed s (c ∷ cs) = is_allowed s c || any_allowed s cs

-- What `kill` should answer to a sender.
unfoldable pub answer : Sender → List Context → Result ℕ
unfolding any_allowed
answer s [] = err Errno.esrch
answer s (c ∷ cs) = if any_allowed s (c ∷ cs) then ok 0 else err Errno.eperm

-- Whether a signal is for the context of a key.
unfoldable pub is_target : Sender → ℕ → ℕ → Context → Bool
is_target s pid i c = if is_positive pid then i == pid else is_for s pid c
