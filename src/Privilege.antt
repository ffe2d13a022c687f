-- ===== src/Privilege.antt =====
-- src/syscall/privilege.rs: the identifiers of the user, the group and the namespace of the current
-- context. A `u32` or `usize` that is -1 as a signed number has all bits set.
pub mod Reach
mod Tests
use redox_os_kernel.Prelude.{
  ℕ, ◌-◌, ◌^◌, Bool, true, false, Option, none, some, ◌==◌, if◌then◌else◌, usize_mod, Result, ok,
  err, panic, Errno, ◌>>=◌, ok_or,
}
use redox_os_kernel.Contexts.{Context}

abbrev pub u32_max : ℕ
u32_max = 4294967295

abbrev pub usize_max : ℕ
usize_max = 18446744073709551615

-- `getegid` and the other calls that read, by the field that each reads.
unfoldable pub get_field : (Context → ℕ) → Option Context → Result ℕ
get_field field current = do c ← ok_or current Errno.esrch; ok (field c)

abbrev pub getegid : Option Context → Result ℕ
getegid = get_field (λ c. c.egid)

abbrev pub getens : Option Context → Result ℕ
getens = get_field (λ c. c.ens)

abbrev pub geteuid : Option Context → Result ℕ
geteuid = get_field (λ c. c.euid)

abbrev pub getgid : Option Context → Result ℕ
getgid = get_field (λ c. c.rgid)

abbrev pub getns : Option Context → Result ℕ
getns = get_field (λ c. c.rns)

abbrev pub getuid : Option Context → Result ℕ
getuid = get_field (λ c. c.ruid)

-- Whether to set an identifier of a user or a group, for a context with the effective one `e` and the
-- real one `r`; `none` is `EPERM`.
unfoldable pub may_set : Bool → ℕ → ℕ → ℕ → ℕ → Result Bool
may_set root new e r ones =
    if root
    then ok true
    else if new == e
    then ok true
    else if new == r
    then ok true
    else if new == ones
    then ok false
    else err Errno.eperm

-- Whether to set a namespace, of which `old` is the one that would be replaced.
unfoldable pub may_set_ns : Bool → ℕ → ℕ → ℕ → ℕ → Result Bool
unfolding may_set
may_set_ns root new old e r =
    if new == 0
    then ok true
    else if old == 0
    then err Errno.eperm
    else may_set root new e r usize_max

unfoldable pub setregid : ℕ → ℕ → Context → Result Context
unfolding may_set
setregid rgid egid c = do
  set_rgid ← may_set (c.euid == 0) rgid c.egid c.rgid u32_max
  set_egid ← may_set (c.euid == 0) egid c.egid c.rgid u32_max
  ok (record c {
    rgid = if set_rgid then rgid else c.rgid;
    egid = if set_egid then egid else c.egid;
  })

unfoldable pub setrens : ℕ → ℕ → Context → Result Context
unfolding may_set_ns
setrens rns ens c = do
  set_rns ← may_set_ns (c.euid == 0) rns c.rns c.ens c.rns
  set_ens ← may_set_ns (c.euid == 0) ens c.ens c.ens c.rns
  ok (record c { rns = if set_rns then rns else c.rns; ens = if set_ens then ens else c.ens })

unfoldable pub setreuid : ℕ → ℕ → Context → Result Context
unfolding may_set
setreuid ruid euid c = do
  set_ruid ← may_set (c.euid == 0) ruid c.euid c.ruid u32_max
  set_euid ← may_set (c.euid == 0) euid c.euid c.ruid u32_max
  ok (record c {
    ruid = if set_ruid then ruid else c.ruid;
    euid = if set_euid then euid else c.euid;
  })
