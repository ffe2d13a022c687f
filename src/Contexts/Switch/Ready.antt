-- ===== src/Contexts/Switch/Ready.antt =====
-- Which contexts `update_runnable` finds ready.
use redox_os_kernel.Prelude.{
  ℕ, ◌≡◌, inl, inr, Bool, true, false, not, ◌&&◌, ◌||◌, none, some, ok, arith, leb, ◌==◌, length,
  is_nil, Option-cases, Result-cases, Bool-cases,
}
use redox_os_kernel.Contexts.{Context, unblock}
use redox_os_kernel.Contexts.Switch.{
  Arch, claim, restore, restore_stack, wake_for_signal, wake_for_time, update_runnable, is_cpu,
  is_runnable, is_blocked,
}

-- A context belongs to a processor, or to none and may run on it.
abbrev pub belongs : ℕ → Context → Bool
belongs cpu c = elim c.cpu_id [
  | some id ↦ id == cpu
  | none ↦ elim c.sched_affinity [ none ↦ true | some id ↦ id == cpu ]
]

-- What lets a blocked context go on.
abbrev pub is_called : ℕ → Context → Bool
is_called now c =
    c.ksig_restore
    || not (is_nil c.pending)
    || (elim c.wake [ none ↦ false | some time ↦ leb time now ])

abbrev pub may_run : ℕ → ℕ → Context → Bool
may_run cpu now c =
    not c.running
    && not c.ptrace_stop
    && belongs cpu c
    && (is_runnable c.status || (is_blocked c.status && is_called now c))

claim_lem :
    (cpu : ℕ) (c : Context)
    → (is_cpu cpu (claim cpu c).cpu_id ≡ belongs cpu c)
      × ((claim cpu c).status ≡ c.status)
      × ((claim cpu c).pending ≡ c.pending)
      × ((claim cpu c).wake ≡ c.wake)
      × ((claim cpu c).ksig_restore ≡ c.ksig_restore)
unfolding claim
claim_lem cpu c = elim (Option-cases c.cpu_id) [
  | inr (id, e) ↦ ground (arith, e)
  | inl e ↦ elim (Option-cases c.sched_affinity) [
    | inl e' ↦ ground (arith, e, e')
    | inr (id, e') ↦ ground (arith, e, e')
  ]
]

restore_lem :
    (a : Arch) (c d : Context)
    → restore a c ≡ ok d
    → (d.pending ≡ c.pending)
      × (d.wake ≡ c.wake)
      × (is_runnable d.status ≡ is_runnable c.status || (c.ksig_restore && is_blocked c.status))
      × (is_blocked d.status ≡ is_blocked c.status && not c.ksig_restore)
unfolding restore restore_stack unblock
restore_lem a c d h = elim (Bool-cases c.ksig_restore) [
  | inr f ↦ ground (arith, f, h)
  | inl t ↦ elim (Option-cases c.ksig) [
    | inl e ↦ absurd (ground (arith, t, e, h))
    | inr (k, e) ↦ elim (Option-cases c.kstack) [
      | inl e' ↦ absurd (ground (arith, t, e, e', h))
      | inr (stack, e') ↦ elim (Option-cases k.kstack) [
        | inl e'' ↦ absurd (ground (arith, t, e, e', e'', h))
        | inr (saved, e'') ↦ elim (Bool-cases (length saved == length stack)) [
          | inr f ↦ absurd (ground (arith, t, e, e', e'', f, h))
          | inl same ↦ ground (arith, t, e, e', e'', same, h)
        ]
      ]
    ]
  ]
]

woken_lem :
    (now : ℕ) (d : Context)
    → is_runnable (wake_for_time now (wake_for_signal d)).status
      ≡ is_runnable d.status
        || (is_blocked d.status
            && (not (is_nil d.pending)
                || (elim d.wake [ none ↦ false | some time ↦ leb time now ])))
unfolding wake_for_time wake_for_signal unblock
woken_lem now d = elim (Option-cases d.wake) [
  | inl e ↦ ground (arith, e)
  | inr (time, e) ↦ ground (arith, e)
]

-- A context is to run next just where it may.
pub may_run_lem :
    (a : Arch) (cpu now : ℕ) (c c' : Context) (runs : Bool)
    → update_runnable a cpu now c ≡ ok (c', runs)
    → may_run cpu now c ≡ runs
unfolding update_runnable
may_run_lem a cpu now c c' runs h =
    let owned = claim_lem cpu c in
    elim (Bool-cases c.running) [
      | inl t ↦ ground (arith, t, h)
      | inr f ↦ elim (Bool-cases c.ptrace_stop) [
        | inl t ↦ ground (arith, f, t, h)
        | inr g ↦ elim (Bool-cases (is_cpu cpu (claim cpu c).cpu_id)) [
          | inr other ↦ ground (arith, f, g, other, h, owned.0)
          | inl mine ↦ elim (Result-cases (restore a (claim cpu c))) [
            | inr (inl (e, r)) ↦ absurd (ground (arith, f, g, mine, r, h))
            | inr (inr r) ↦ absurd (ground (arith, f, g, mine, r, h))
            | inl (d, r) ↦
                let woken = wake_for_time now (wake_for_signal d) in
                let ran : is_runnable woken.status ≡ runs = ground (arith, f, g, mine, r, h) in
                ground
                  (arith, f, g, mine, owned, restore_lem a (claim cpu c) d r, woken_lem now d, ran)
          ]
        ]
      ]
    ]
