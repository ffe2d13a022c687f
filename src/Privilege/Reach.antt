-- ===== src/Privilege/Reach.antt =====
-- What sequences of the calls can reach.
use redox_os_kernel.Prelude.{ℕ, ◌≡◌, ◌≢◌, ◌⊎◌, inl, inr, refl, ok, arith}
use redox_os_kernel.Contexts.{Context}
use redox_os_kernel.Privilege.{may_set, may_set_ns, setregid, setrens, setreuid}

-- A call that succeeds.
pub data Step : Context → Context → Type 0 where
  by_setregid : {c c' : Context} (rgid egid : ℕ) → setregid rgid egid c ≡ ok c' → Step c c'
  by_setrens : {c c' : Context} (rns ens : ℕ) → setrens rns ens c ≡ ok c' → Step c c'
  by_setreuid : {c c' : Context} (ruid euid : ℕ) → setreuid ruid euid c ≡ ok c' → Step c c'

pub data Steps : Context → Context → Type 0 where
  no_steps : {c : Context} → Steps c c
  more : {a b c : Context} → Step a b → Steps b c → Steps a c

-- The identifiers are among those that a context began with, which is not the superuser's.
pub record IsConfined (a c : Context) : Type 0 where
  pub not_root : c.euid ≢ 0
  pub ruid_from : (c.ruid ≡ a.ruid) ⊎ (c.ruid ≡ a.euid)
  pub euid_from : (c.euid ≡ a.ruid) ⊎ (c.euid ≡ a.euid)
  pub rgid_from : (c.rgid ≡ a.rgid) ⊎ (c.rgid ≡ a.egid)
  pub egid_from : (c.egid ≡ a.rgid) ⊎ (c.egid ≡ a.egid)

setreuid-IsConfined :
    (a c c' : Context) (ruid euid : ℕ)
    → a.euid ≢ 0
    → a.ruid ≢ 0
    → IsConfined a c
    → setreuid ruid euid c ≡ ok c'
    → IsConfined a c'
unfolding setreuid may_set
setreuid-IsConfined a c c' ruid euid h1 h2 i h = record {
  not_root = ground (arith, h, h1, h2, i.not_root, i.ruid_from, i.euid_from);
  ruid_from = ground (arith, h, i.not_root, i.ruid_from, i.euid_from);
  euid_from = ground (arith, h, i.not_root, i.ruid_from, i.euid_from);
  rgid_from = ground (arith, h, i.rgid_from);
  egid_from = ground (arith, h, i.egid_from);
}

setregid-IsConfined :
    (a c c' : Context) (rgid egid : ℕ)
    → IsConfined a c
    → setregid rgid egid c ≡ ok c'
    → IsConfined a c'
unfolding setregid may_set
setregid-IsConfined a c c' rgid egid i h = record {
  not_root = ground (arith, h, i.not_root);
  ruid_from = ground (arith, h, i.ruid_from);
  euid_from = ground (arith, h, i.euid_from);
  rgid_from = ground (arith, h, i.not_root, i.rgid_from, i.egid_from);
  egid_from = ground (arith, h, i.not_root, i.rgid_from, i.egid_from);
}

setrens-IsConfined :
    (a c c' : Context) (rns ens : ℕ) → IsConfined a c → setrens rns ens c ≡ ok c' → IsConfined a c'
unfolding setrens may_set may_set_ns
setrens-IsConfined a c c' rns ens i h = record {
  not_root = ground (arith, h, i.not_root);
  ruid_from = ground (arith, h, i.ruid_from);
  euid_from = ground (arith, h, i.euid_from);
  rgid_from = ground (arith, h, i.rgid_from);
  egid_from = ground (arith, h, i.egid_from);
}

-- The same from a context that is confined already.
Steps-IsConfined_from :
    (a b c : Context) → a.euid ≢ 0 → a.ruid ≢ 0 → IsConfined a b → Steps b c → IsConfined a c
Steps-IsConfined_from a b c h1 h2 i no_steps = i
Steps-IsConfined_from a b c h1 h2 i (more {b = m} (by_setregid rgid egid h) rest) =
    Steps-IsConfined_from a m c h1 h2 (setregid-IsConfined a b m rgid egid i h) rest
Steps-IsConfined_from a b c h1 h2 i (more {b = m} (by_setrens rns ens h) rest) =
    Steps-IsConfined_from a m c h1 h2 (setrens-IsConfined a b m rns ens i h) rest
Steps-IsConfined_from a b c h1 h2 i (more {b = m} (by_setreuid ruid euid h) rest) =
    Steps-IsConfined_from a m c h1 h2 (setreuid-IsConfined a b m ruid euid h1 h2 i h) rest

Step-ens : (b c : Context) → b.ens ≡ 0 → Step b c → c.ens ≡ 0
unfolding setregid setrens setreuid may_set may_set_ns
Step-ens b c null (by_setregid rgid egid h) = ground (arith, h, null)
Step-ens b c null (by_setrens rns ens h) = ground (arith, h, null)
Step-ens b c null (by_setreuid ruid euid h) = ground (arith, h, null)

-- No sequence of calls, not even of the superuser, leaves the null namespace, in which a context can
-- name no scheme but the few that are there.
pub Steps-ens : (b c : Context) → b.ens ≡ 0 → Steps b c → c.ens ≡ 0
Steps-ens b c null no_steps = null
Steps-ens b c null (more {b = m} step rest) = Steps-ens m c (Step-ens b m null step) rest

-- A sequence of calls of a context whose effective and real user are not the superuser gives it no
-- identifier of a user that was not its effective or real one before, and likewise for groups; it
-- does not become the superuser's.
pub Steps-IsConfined : (a c : Context) → a.euid ≢ 0 → a.ruid ≢ 0 → Steps a c → IsConfined a c
Steps-IsConfined a c h1 h2 = Steps-IsConfined_from a a c h1 h2 (record {
  not_root = h1;
  ruid_from = inl refl;
  euid_from = inr refl;
  rgid_from = inl refl;
  egid_from = inr refl;
})
