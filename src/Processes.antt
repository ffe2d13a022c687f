-- ===== src/Processes.antt =====
-- src/syscall/process.rs: the calls that read and change the identifiers of processes, and `kill`.
-- `current` is the key of the current context in the table, if there is one. `kill` is modelled up to
-- the `context::switch` at its end.
pub mod Kill
pub mod WaitpidKey
pub mod Exit
pub mod Wait
pub mod Masks
pub mod Nohang
mod Tests
use redox_os_kernel.Prelude.{
  ℕ, zero, suc, ◌+◌, ◌-◌, ◌^◌, ◌%◌, Bool, true, false, not, ◌&&◌, ◌||◌, Option, none, some, List,
  [], ◌∷◌, ◌++◌, leb, ltb, ◌==◌, if◌then◌else◌, usize_mod, Result, ok, err, panic, Errno,
}
use redox_os_kernel.Btree.{Map, get, insert, nat_key}
use redox_os_kernel.Contexts.{Status, stopped, blocked, runnable, exited, Context}

-- The context of the key, or the current one for 0.
unfoldable pub find_context : ℕ → Option ℕ → Map ℕ Context → Option Context
find_context pid current cs =
    if pid == 0 then elim current [ none ↦ none | some i ↦ get i cs ] else get pid cs

unfoldable pub getpgid : ℕ → Option ℕ → Map ℕ Context → Result ℕ
unfolding find_context
getpgid pid current cs = elim (find_context pid current cs) [
  | none ↦ err Errno.esrch
  | some c ↦ ok c.pgid
]

abbrev pub getpid : Option Context → Result ℕ
getpid none = err Errno.esrch
getpid (some c) = ok c.id

abbrev pub getppid : Option Context → Result ℕ
getppid none = err Errno.esrch
getppid (some c) = ok c.ppid

-- `umask`: the old mask, and the context with the new one.
unfoldable pub umask : ℕ → Context → Context × ℕ
umask mask c = (record c { umask = mask }, c.umask)

unfoldable pub setpgid : ℕ → ℕ → Option ℕ → Map ℕ Context → Map ℕ Context × Result ℕ
unfolding find_context
setpgid pid pgid current cs = elim (find_context 0 current cs) [
  | none ↦ (cs, err Errno.esrch)
  | some self ↦ elim (find_context pid current cs) [
    | none ↦ (cs, err Errno.esrch)
    | some c ↦
        let key = if pid == 0 then (elim current [ none ↦ 0 | some i ↦ i ]) else pid in
        if c.id == self.id || c.ppid == self.id
        then (insert key (record c { pgid = if pgid == 0 then c.id else pgid }) cs, ok 0)
        else (cs, err Errno.esrch)
  ]
]

-- Who sends a signal.
pub record Sender : Type 0 where
  pub ruid : ℕ
  pub euid : ℕ
  pub pgid : ℕ

unfoldable pub may_signal : Sender → Context → Bool
may_signal s c = s.euid == 0 || s.euid == c.ruid || s.ruid == c.ruid

-- A signal is put to the others; `SIGCONT`, the number `sigcont`, makes a stopped context blocked.
unfoldable pub add_signal : ℕ → ℕ → Context → Context
add_signal sigcont sig c =
    let pending = c.pending ++ sig % 2 ^ 8 ∷ [] in
    if sig == 0 then c else record c {
      pending = pending;
      status =
          if sig == sigcont
          then (elim c.status [
            | stopped n ↦ blocked
            | runnable ↦ runnable
            | blocked ↦ blocked
            | exited n ↦ exited n
          ])
          else c.status;
    }

-- The closure `send`.
unfoldable pub send : ℕ → Sender → ℕ → Context → Context × Bool
unfolding may_signal add_signal
send sigcont s sig c = if may_signal s c then (add_signal sigcont sig c, true) else (c, false)

-- The loop over the contexts that pass a test, with the numbers of those found and sent to.
unfoldable pub send_each : ℕ → Sender → ℕ → (Context → Bool) → Map ℕ Context → Map ℕ Context × ℕ × ℕ
unfolding send
send_each sigcont s sig test [] = ([], 0, 0)
send_each sigcont s sig test ((i, c) ∷ cs) =
    let (cs', found, sent) = send_each sigcont s sig test cs in
    let (c', was_sent) = send sigcont s sig c in
    if test c
    then ((i, c') ∷ cs', found + 1, if was_sent then sent + 1 else sent)
    else ((i, c) ∷ cs', found, sent)

unfoldable pub send_to : ℕ → Sender → ℕ → ℕ → Map ℕ Context → Map ℕ Context × ℕ × ℕ
unfolding send
send_to sigcont s sig pid cs = elim (get pid cs) [
  | none ↦ (cs, 0, 0)
  | some c ↦
      let (c', was_sent) = send sigcont s sig c in (insert pid c' cs, 1, if was_sent then 1 else 0)
]

-- `pid as isize > 0`
unfoldable pub is_positive : ℕ → Bool
is_positive pid = ltb 0 pid && ltb pid (2 ^ 63)

-- The test for a `pid` that is not positive: -1 is for every process, another one for a group.
unfoldable pub is_addressed : Sender → ℕ → Context → Bool
is_addressed s pid c =
    if pid == usize_mod - 1
    then ltb 2 c.id
    else c.pgid == (if pid == 0 then s.pgid else usize_mod - pid)

-- What is found and sent makes the result.
unfoldable pub outcome : ℕ → ℕ → Result ℕ
outcome found sent =
    if found == 0 then err Errno.esrch else if sent == 0 then err Errno.eperm else ok 0

unfoldable pub send_signal : ℕ → Sender → ℕ → ℕ → Map ℕ Context → Map ℕ Context × ℕ × ℕ
unfolding send_to send_each is_positive is_addressed
send_signal sigcont s sig pid cs =
    if is_positive pid
    then send_to sigcont s sig pid cs
    else send_each sigcont s sig (is_addressed s pid) cs

unfoldable pub kill : ℕ → ℕ → ℕ → Option ℕ → Map ℕ Context → Map ℕ Context × Result ℕ
unfolding send_signal outcome find_context
kill sigcont pid sig current cs = elim (find_context 0 current cs) [
  | none ↦ (cs, err Errno.esrch)
  | some c ↦
      let s : Sender = record { ruid = c.ruid; euid = c.euid; pgid = c.pgid } in
      let (cs', found, sent) = send_signal sigcont s sig pid cs in
      if ltb sig 127 then (cs', outcome found sent) else (cs, err Errno.einval)
]
