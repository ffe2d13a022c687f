-- ===== src/Privilege/Tests.antt =====
-- The theorems on privilege, at a context of the user 1000 that has the user 1001 as its real one.
use redox_os_kernel.Prelude.{◌≡◌, ◌≢◌, refl, ok, [], arith}
use redox_os_kernel.Contexts.{Context, new}
use redox_os_kernel.Privilege.{setreuid}
use redox_os_kernel.Privilege.Reach.{
  Steps, no_steps, more, by_setreuid, IsConfined, Steps-IsConfined,
}

abbrev before : Context
before = record (new 2 0 [] []) { ruid = 1001; euid = 1000; rns = 1; ens = 0 }

abbrev after : Context
after = record (new 2 0 [] []) { ruid = 1000; euid = 1001; rns = 1; ens = 0 }

swap : setreuid 1000 1001 before ≡ ok after
unfolding setreuid
swap = refl

swap_only : Steps before after
swap_only = more (by_setreuid 1000 1001 swap) no_steps

euid_apart : before.euid ≢ 0
euid_apart h = absurd (omega (arith, h))

ruid_apart : before.ruid ≢ 0
ruid_apart h = absurd (omega (arith, h))

Steps-IsConfined_example : IsConfined before after
Steps-IsConfined_example = Steps-IsConfined before after euid_apart ruid_apart swap_only
