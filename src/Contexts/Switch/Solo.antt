-- ===== src/Contexts/Switch/Solo.antt =====
-- No context runs on two processors, and each processor runs one.
use native.Mathlib.Decide.{ℕ_discrete}
use redox_os_kernel.Prelude.{
  ℕ, ◌<◌, ◌≡◌, ◌≢◌, refl, ap, sym, ◌∙◌, subst, Bool, true, false, Option, none, some, List, ok,
  arith, if◌then◌else◌, ◌==◌, Option-cases, Result-cases, inl, inr,
}
use redox_os_kernel.Btree.{Map, get, insert, nat_key}
use redox_os_kernel.Btree.Laws.{get-insert}
use redox_os_kernel.Contexts.{Context}
use redox_os_kernel.Contexts.Switch.{
  Arch, World, candidates, locate, leave, deliver, enter, finish, switch, set_current,
}
use redox_os_kernel.Contexts.Switch.Locate.{locate-Tended, locate_absent, locate-Found}

pub record IsSolo (cpus : ℕ) (w : World) : Type 0 where
  -- A context is in the list by its own identifier.
  pub named : (i : ℕ) (c : Context) → get i w.contexts ≡ some c → c.id ≡ i
  -- The current context of a processor runs there.
  pub present :
      (cpu : ℕ)
      → cpu < cpus
      → (c : Context) × (get (w.current cpu) w.contexts ≡ some c)
        × (c.running ≡ true)
        × (c.cpu_id ≡ some cpu)
  -- A context that runs is the current one of its processor.
  pub alone :
      (i : ℕ) (c : Context)
      → get i w.contexts ≡ some c
      → c.running ≡ true
      → (cpu : ℕ) × (cpu < cpus) × (c.cpu_id ≡ some cpu) × (w.current cpu ≡ i)

deliver_lem :
    (a : Arch) (c : Context)
    → ((deliver a c).id ≡ c.id)
      × ((deliver a c).running ≡ c.running)
      × ((deliver a c).cpu_id ≡ c.cpu_id)
unfolding deliver
deliver_lem a c = elim (Option-cases c.ksig) [
  | inr (k, e) ↦ ground (arith, e)
  | inl e ↦ ground (arith, e)
]

-- What is in the contexts after the loop was in them before.
module _ (a : Arch) (cpu now : ℕ) (is : List ℕ) (cs cs' : Map ℕ Context) (o : Option ℕ)
    (h : locate a cpu now is cs ≡ ok (cs', o)) where
  before_loop :
      (i : ℕ) (c' : Context)
      → get i cs' ≡ some c'
      → (c : Context) × (get i cs ≡ some c)
        × (c'.id ≡ c.id)
        × (c'.running ≡ c.running)
        × (c.running ≡ true → c' ≡ c)
  before_loop i c' at_i = elim (Option-cases (get i cs)) [
    | inl gone ↦
        let gone' = locate_absent a cpu now is cs cs' o h i gone in
        absurd (ground (arith, gone', at_i))
    | inr (c, here) ↦
        let (d, at_d, ids, runs, same) = locate-Tended a cpu now is cs cs' o h i c here in
        let e : d ≡ c' = ground (arith, at_d, at_i) in
        (
          c,
          here,
          ap (λ x. x.id) (sym e) ∙ ids,
          ap (λ x. x.running) (sym e) ∙ runs,
          (λ t. sym e ∙ same t),
        )
  ]

module _ (a : Arch) (cpus cpu now : ℕ) (lt : cpu < cpus) (w : World) (v : IsSolo cpus w)
    (is : List ℕ) (cs' : Map ℕ Context) where
  -- The loop keeps all of it.
  loop-IsSolo :
      (o : Option ℕ)
      → locate a cpu now is w.contexts ≡ ok (cs', o)
      → IsSolo cpus (record w { contexts = cs' })
  loop-IsSolo o h = record {
    named = λ i c' at_i.
        let (c, here, ids, runs, same) = before_loop a cpu now is w.contexts cs' o h i c' at_i in
        ids ∙ v.named i c here;
    present = λ k k_lt.
        let (c, here, runs, mine) = v.present k k_lt in
        let (d, at_d, ids, runs', same) =
          locate-Tended a cpu now is w.contexts cs' o h (w.current k) c here in
        (d, at_d, runs' ∙ runs, ap (λ x. x.cpu_id) (same runs) ∙ mine);
    alone = λ i c' at_i runs'.
        let (c, here, ids, runs, same) = before_loop a cpu now is w.contexts cs' o h i c' at_i in
        let (k, k_lt, mine, cur) = v.alone i c here (sym runs ∙ runs') in
        (k, k_lt, ap (λ x. x.cpu_id) (same (sym runs ∙ runs')) ∙ mine, cur);
  }

-- The two contexts change places, where the next one is idle and belongs to the processor.
module _ (a : Arch) (cpus cpu now : ℕ) (lt : cpu < cpus) (w : World) (v : IsSolo cpus w) (n : ℕ)
    (c : Context) (here : get n w.contexts ≡ some c) (idle : c.running ≡ false)
    (mine : c.cpu_id ≡ some cpu) (p : Context) (at_p : get (w.current cpu) w.contexts ≡ some p)
    (runs : p.running ≡ true) where
  apart : n ≢ w.current cpu
  apart e = let same : c ≡ p = ground (arith, here, at_p, e) in ground (arith, same, idle, runs)

  owner_of_current : p.cpu_id ≡ some cpu
  owner_of_current =
      let (d, at_d, run_d, mine_d) = v.present cpu lt in
      let same : d ≡ p = ground (arith, at_d, at_p) in ap (λ x. x.cpu_id) (sym same) ∙ mine_d

  abbrev swapped : Map ℕ Context
  swapped = insert n (enter a now c) (insert (w.current cpu) (leave now p) w.contexts)

  abbrev after : World
  after = record w { contexts = swapped; current = set_current cpu n w.current }

  get-swapped :
      (i : ℕ)
      → get i swapped ≡ (
          if n == i
          then some (enter a now c)
          else if w.current cpu == i
          then some (leave now p)
          else get i w.contexts)
  get-swapped i = ground (
    arith,
    get-insert n i (enter a now c) (insert (w.current cpu) (leave now p) w.contexts),
    get-insert (w.current cpu) i (leave now p) w.contexts,
  )

  entered :
      ((enter a now c).id ≡ n)
      × ((enter a now c).running ≡ true)
      × ((enter a now c).cpu_id ≡ some cpu)
  unfolding enter
  entered =
      let (ids, run, owner) = deliver_lem a (record c { running = true; switch_time = now }) in
      (ids ∙ v.named n c here, run, owner ∙ mine)

  swapped-IsSolo : IsSolo cpus after
  unfolding leave
  swapped-IsSolo = record {
    named = λ i d at_i. elim (ℕ_discrete n i) [
      | yes q ↦ ground (arith, get-swapped i, q, entered, at_i)
      | no q ↦ elim (ℕ_discrete (w.current cpu) i) [
        | yes r ↦ ground (arith, get-swapped i, q, r, at_i, v.named (w.current cpu) p at_p)
        | no r ↦ v.named i d (ground (arith, get-swapped i, q, r, at_i))
      ]
    ];
    present = λ k k_lt. elim (ℕ_discrete k cpu) [
      | yes q ↦ (enter a now c, ground (arith, get-swapped n, q), entered.1, rw q entered.2)
      | no q ↦
          let (d, at_d, run_d, mine_d) = v.present k k_lt in
          let other : n ≢ w.current k = λ e.
            let same : c ≡ d = ground (arith, here, at_d, e) in ground (arith, same, idle, run_d) in
          let away : w.current cpu ≢ w.current k = λ e.
            let same : p ≡ d = ground (arith, at_p, at_d, e) in
            ground (arith, same, owner_of_current, mine_d, q) in
          let elsewhere : set_current cpu n w.current k ≡ w.current k = ground (arith, q) in
          (
            d,
            rw elsewhere (ground (arith, get-swapped (w.current k), other, away, at_d)),
            run_d,
            mine_d,
          )
    ];
    alone = λ i d at_i run. elim (ℕ_discrete n i) [
      | yes q ↦
          let same : enter a now c ≡ d = ground (arith, get-swapped i, q, at_i) in
          (cpu, lt, ap (λ x. x.cpu_id) (sym same) ∙ entered.2, ground (arith, q))
      | no q ↦ elim (ℕ_discrete (w.current cpu) i) [
        | yes r ↦
            let same : leave now p ≡ d = ground (arith, get-swapped i, q, r, at_i) in
            absurd (ground (arith, ap (λ x. x.running) same, run))
        | no r ↦
            let (k, k_lt, mine_d, cur) =
              v.alone i d (ground (arith, get-swapped i, q, r, at_i)) run in
            (k, k_lt, mine_d, ground (arith, cur, r))
      ]
    ];
  }

finish_lem :
    (a : Arch) (cpu now : ℕ) (w : World) (cs : Map ℕ Context) (n : ℕ) (p c : Context)
    → get (w.current cpu) cs ≡ some p
    → get n cs ≡ some c
    → n ≢ w.current cpu
    → finish a cpu now w (cs, some n)
      ≡ ok (
        record w {
          contexts = insert n (enter a now c) (insert (w.current cpu) (leave now p) cs);
          current = set_current cpu n w.current;
        },
        true,
      )
unfolding finish
finish_lem a cpu now w cs n p c at_p here far =
    let still : get n (insert (w.current cpu) (leave now p) cs) ≡ some c =
      ground (arith, get-insert (w.current cpu) n (leave now p) cs, far, here) in
    rw (at_p, still)

finish_stays :
    (a : Arch) (cpu now : ℕ) (w : World) (cs : Map ℕ Context)
    → finish a cpu now w (cs, none) ≡ ok (record w { contexts = cs }, false)
unfolding finish
finish_stays a cpu now w cs = refl

-- `switch` on a processor keeps it so that each processor runs its current context and no context
-- runs on two, whether it finds another context to run or not.
pub switch-IsSolo :
    (a : Arch) (cpus cpu now : ℕ) (w w' : World) (moved : Bool)
    → cpu < cpus
    → IsSolo cpus w
    → switch a cpu now w ≡ ok (w', moved)
    → IsSolo cpus w'
unfolding switch
switch-IsSolo a cpus cpu now w w' moved lt v h =
    let (p, at_p, runs, owner) = v.present cpu lt in
    let is = candidates p.id w.contexts in
    elim (Result-cases (locate a cpu now is w.contexts)) [
      | inr (inl (e, l)) ↦ absurd (ground (arith, at_p, l, h))
      | inr (inr l) ↦ absurd (ground (arith, at_p, l, h))
      | inl ((cs', none), l) ↦
          let same : record w { contexts = cs' } ≡ w' =
            ground (arith, at_p, l, h, finish_stays a cpu now w cs') in
          subst (IsSolo cpus) same (loop-IsSolo a cpus cpu now lt w v is cs' none l)
      | inl ((cs', some n), l) ↦
          let v' = loop-IsSolo a cpus cpu now lt w v is cs' (some n) l in
          let (c0, c, before, idle0, here, ids, idle, ready, mine) =
            locate-Found a cpu now is w.contexts cs' n l in
          let (q, at_q, runs_q, owner_q) = v'.present cpu lt in
          let far =
            apart a cpus cpu now lt (record w { contexts = cs' }) v' n c here idle mine q at_q
              runs_q in
          let same : after a cpus cpu now lt (record w { contexts = cs' }) v' n c here idle mine q
                at_q runs_q
              ≡ w' =
            ground (arith, at_p, l, h, finish_lem a cpu now w cs' n q c at_q here far) in
          subst (IsSolo cpus) same (
            swapped-IsSolo a cpus cpu now lt (record w { contexts = cs' }) v' n c here idle mine q
              at_q runs_q)
    ]
