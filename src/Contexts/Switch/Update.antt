-- ===== src/Contexts/Switch/Update.antt =====
-- What bringing a context up to date may change.
use redox_os_kernel.Prelude.{
  ℕ, ◌≡◌, ◌⊎◌, inl, inr, refl, ◌∙◌, subst, Bool, true, false, none, some, ok, arith, length, ◌==◌,
  Option-cases, Result-cases, Bool-cases,
}
use redox_os_kernel.Contexts.{Status, runnable, blocked, stopped, exited, Context}
use redox_os_kernel.Contexts.Switch.{
  Arch, claim, restore, restore_stack, wake_for_signal, wake_for_time, update_runnable, is_cpu,
  is_runnable,
}

-- What stays: the identifier, whether it runs, and the processor.
pub record Kept (c c' : Context) : Type 0 where
  pub same_id : c'.id ≡ c.id
  pub same_running : c'.running ≡ c.running
  pub same_cpu : c'.cpu_id ≡ c.cpu_id

Kept-trans : (c d e : Context) → Kept c d → Kept d e → Kept c e
Kept-trans c d e h k = ground arith

wake_for_signal-Kept : (c : Context) → Kept c (wake_for_signal c)
unfolding wake_for_signal
wake_for_signal-Kept c = ground arith

wake_for_time-Kept : (now : ℕ) (c : Context) → Kept c (wake_for_time now c)
unfolding wake_for_time
wake_for_time-Kept now c = ground arith

restore-Kept : (a : Arch) (c d : Context) → restore a c ≡ ok d → Kept c d
unfolding restore restore_stack
restore-Kept a c d h = elim (Bool-cases c.ksig_restore) [
  | inr f ↦ ground (arith, f, h)
  | inl t ↦ elim (Option-cases c.ksig) [
    | inl e ↦ absurd (ground (arith, t, e, h))
    | inr (k, e) ↦ elim (Option-cases c.kstack) [
      | inl e' ↦ absurd (ground (arith, t, e, e', h))
      | inr (stack, e') ↦ elim (Option-cases k.kstack) [
        | inl e'' ↦ absurd (ground (arith, t, e, e', e'', h))
        | inr (saved, e'') ↦ elim (Bool-cases (length saved == length stack)) [
          | inr f ↦ absurd (ground (arith, t, e, e', e'', f, h))
          | inl same ↦ ground (arith, t, e, e', e'', same, h)
        ]
      ]
    ]
  ]
]

runnable_of : (s : Status) → is_runnable s ≡ true → s ≡ runnable
runnable_of runnable h = refl
runnable_of blocked h = cc
runnable_of (stopped n) h = cc
runnable_of (exited n) h = cc

-- The processor takes a context only from none.
claim_lem :
    (cpu : ℕ) (c : Context)
    → ((claim cpu c).id ≡ c.id)
      × ((claim cpu c).running ≡ c.running)
      × (is_cpu cpu (claim cpu c).cpu_id ≡ true
          → ((claim cpu c).cpu_id ≡ some cpu) × ((c.cpu_id ≡ none) ⊎ (c.cpu_id ≡ some cpu)))
unfolding claim
claim_lem cpu c = elim (Option-cases c.cpu_id) [
  | inr (id, e) ↦ ground (arith, e)
  | inl e ↦ elim (Option-cases c.sched_affinity) [
    | inl e' ↦ ground (arith, e, e')
    | inr (id, e') ↦ ground (arith, e, e')
  ]
]

-- Where a context is to run next, it did not run and was not stopped, it is runnable and belongs to
-- the processor, and it did not belong to another one before; a context that runs is left as it is.
pub update_runnable_lem :
    (a : Arch) (cpu now : ℕ) (c c' : Context) (runs : Bool)
    → update_runnable a cpu now c ≡ ok (c', runs)
    → (c'.id ≡ c.id)
      × (c'.running ≡ c.running)
      × (c.running ≡ true → c' ≡ c)
      × (runs ≡ true
          → (c.running ≡ false)
            × (c.ptrace_stop ≡ false)
            × (c'.status ≡ runnable)
            × (c'.cpu_id ≡ some cpu)
            × ((c.cpu_id ≡ none) ⊎ (c.cpu_id ≡ some cpu)))
unfolding update_runnable
update_runnable_lem a cpu now c c' runs h = elim (Bool-cases c.running) [
  | inl t ↦ ground (arith, t, h)
  | inr f ↦ elim (Bool-cases c.ptrace_stop) [
    | inl t ↦ ground (arith, f, t, h)
    | inr g ↦ elim (Bool-cases (is_cpu cpu (claim cpu c).cpu_id)) [
      | inr other ↦ ground (arith, f, g, other, h, claim_lem cpu c)
      | inl mine ↦ elim (Result-cases (restore a (claim cpu c))) [
        | inr (inl (e, r)) ↦ absurd (ground (arith, f, g, mine, r, h))
        | inr (inr r) ↦ absurd (ground (arith, f, g, mine, r, h))
        | inl (d, r) ↦
            let s = wake_for_signal d in
            let woken = wake_for_time now s in
            let kept : Kept (claim cpu c) woken =
              Kept-trans (claim cpu c) d woken (restore-Kept a (claim cpu c) d r)
                (Kept-trans d s woken (wake_for_signal-Kept d) (wake_for_time-Kept now s)) in
            let same : woken ≡ c' = ground (arith, f, g, mine, r, h) in
            let ran : is_runnable woken.status ≡ runs = ground (arith, f, g, mine, r, h) in
            let owned = claim_lem cpu c in
            subst
              (λ x.
                (x.id ≡ c.id)
                × (x.running ≡ c.running)
                × (c.running ≡ true → x ≡ c)
                × (runs ≡ true
                    → (c.running ≡ false)
                      × (c.ptrace_stop ≡ false)
                      × (x.status ≡ runnable)
                      × (x.cpu_id ≡ some cpu)
                      × ((c.cpu_id ≡ none) ⊎ (c.cpu_id ≡ some cpu))))
              same
              (
                kept.same_id ∙ owned.0,
                kept.same_running ∙ owned.1,
                (λ t. absurd (ground (arith, f, t))),
                λ yes_runs. (
                  f,
                  g,
                  runnable_of woken.status (ran ∙ yes_runs),
                  kept.same_cpu ∙ (owned.2 mine).0,
                  (owned.2 mine).1,
                ),
              )
      ]
    ]
  ]
]
