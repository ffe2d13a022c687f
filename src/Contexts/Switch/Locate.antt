-- ===== src/Contexts/Switch/Locate.antt =====
-- What the loop of `switch` does to the contexts that it passes, and which one it finds.
use native.Mathlib.Decide.{ℕ_discrete}
use redox_os_kernel.Prelude.{
  ℕ, ◌≡◌, inl, inr, refl, ap, sym, ◌∙◌, subst, true, false, Option, none, some, List, [], ◌∷◌, ok,
  arith, Option-cases, Result-cases,
}
use redox_os_kernel.Btree.{Map, get, insert, nat_key}
use redox_os_kernel.Btree.Laws.{get-insert, get-insert_self}
use redox_os_kernel.Contexts.{runnable, Context}
use redox_os_kernel.Contexts.Switch.{Arch, update_runnable, locate}
use redox_os_kernel.Contexts.Switch.Update.{update_runnable_lem}

-- The context is where it was; it runs if it did, and is the same then.
abbrev pub Tended : Context → Map ℕ Context → ℕ → Type 0
Tended c cs i =
    (c' : Context) × (get i cs ≡ some c')
    × (c'.id ≡ c.id)
    × (c'.running ≡ c.running)
    × (c.running ≡ true → c' ≡ c)

-- The context that was found: it did not run, is runnable and belongs to the processor.
abbrev pub Found : ℕ → Map ℕ Context → Map ℕ Context → ℕ → Type 0
Found cpu cs cs' n =
    (c : Context) × (c' : Context) × (get n cs ≡ some c)
    × (c.running ≡ false)
    × (get n cs' ≡ some c')
    × (c'.id ≡ c.id)
    × (c'.running ≡ false)
    × (c'.status ≡ runnable)
    × (c'.cpu_id ≡ some cpu)

module _ (a : Arch) (cpu now : ℕ) where
  -- One context brought up to date.
  insert-Tended :
      (i : ℕ) (c c' : Context) (cs : Map ℕ Context)
      → get i cs ≡ some c
      → (c'.id ≡ c.id)
      → (c'.running ≡ c.running)
      → (c.running ≡ true → c' ≡ c)
      → (j : ℕ) (d : Context) → get j cs ≡ some d
      → Tended d (insert i c' cs) j
  insert-Tended i c c' cs here ids runs same j d there = elim (ℕ_discrete i j) [
    | yes p ↦
        let e : c ≡ d = ground (arith, here, there, p) in
        (
          c',
          ground (arith, get-insert i j c' cs, p),
          ids ∙ ap (λ x. x.id) e,
          runs ∙ ap (λ x. x.running) e,
          (λ t. same (ap (λ x. x.running) e ∙ t) ∙ e),
        )
    | no p ↦ (d, ground (arith, get-insert i j c' cs, p, there), refl, refl, (λ t. refl))
  ]

  Tended-trans :
      (c d : Context) (i : ℕ) (cs : Map ℕ Context)
      → (d.id ≡ c.id)
      → (d.running ≡ c.running)
      → (c.running ≡ true → d ≡ c)
      → Tended d cs i
      → Tended c cs i
  Tended-trans c d i cs ids runs same (e, at_i, ids', runs', same') =
      (e, at_i, ids' ∙ ids, runs' ∙ runs, (λ t. same' (runs ∙ t) ∙ same t))

  pub locate-Tended :
      (is : List ℕ) (cs cs' : Map ℕ Context) (o : Option ℕ)
      → locate a cpu now is cs ≡ ok (cs', o)
      → (j : ℕ) (d : Context) → get j cs ≡ some d
      → Tended d cs' j
  unfolding locate
  locate-Tended [] cs cs' o h j d there =
      let e : cs ≡ cs' = ground (arith, h) in (d, ground (arith, there, e), refl, refl, (λ t. refl))
  locate-Tended (i ∷ is) cs cs' o h j d there = elim (Option-cases (get i cs)) [
    | inl gone ↦ locate-Tended is cs cs' o (ground (arith, gone, h)) j d there
    | inr (c, here) ↦ elim (Result-cases (update_runnable a cpu now c)) [
      | inr (inl (e, u)) ↦ absurd (ground (arith, here, u, h))
      | inr (inr u) ↦ absurd (ground (arith, here, u, h))
      | inl ((c', true), u) ↦
          let (ids, runs, same, more) = update_runnable_lem a cpu now c c' true u in
          let e : insert i c' cs ≡ cs' = ground (arith, here, u, h) in
          subst (λ x. Tended d x j) e (insert-Tended i c c' cs here ids runs same j d there)
      | inl ((c', false), u) ↦
          let (ids, runs, same, more) = update_runnable_lem a cpu now c c' false u in
          let (d', there', ids', runs', same') =
            insert-Tended i c c' cs here ids runs same j d there in
          Tended-trans d d' j cs' ids' runs' same'
            (locate-Tended is (insert i c' cs) cs' o (ground (arith, here, u, h)) j d' there')
    ]
  ]

  pub locate_absent :
      (is : List ℕ) (cs cs' : Map ℕ Context) (o : Option ℕ)
      → locate a cpu now is cs ≡ ok (cs', o)
      → (j : ℕ) → get j cs ≡ none
      → get j cs' ≡ none
  unfolding locate
  locate_absent [] cs cs' o h j gone = let e : cs ≡ cs' = ground (arith, h) in rw (← e) gone
  locate_absent (i ∷ is) cs cs' o h j gone = elim (Option-cases (get i cs)) [
    | inl none_here ↦ locate_absent is cs cs' o (ground (arith, none_here, h)) j gone
    | inr (c, here) ↦ elim (Result-cases (update_runnable a cpu now c)) [
      | inr (inl (e, u)) ↦ absurd (ground (arith, here, u, h))
      | inr (inr u) ↦ absurd (ground (arith, here, u, h))
      | inl ((c', true), u) ↦
          let e : insert i c' cs ≡ cs' = ground (arith, here, u, h) in
          rw (← e) (ground (arith, here, gone, get-insert i j c' cs))
      | inl ((c', false), u) ↦
          locate_absent is (insert i c' cs) cs' o (ground (arith, here, u, h)) j
            (ground (arith, here, gone, get-insert i j c' cs))
    ]
  ]

  Found-insert :
      (i n : ℕ) (c c' : Context) (cs cs' : Map ℕ Context)
      → get i cs ≡ some c
      → (c'.id ≡ c.id)
      → (c'.running ≡ c.running)
      → Found cpu (insert i c' cs) cs' n
      → Found cpu cs cs' n
  Found-insert i n c c' cs cs' here ids runs
        (d, d', there, idle, there', ids', idle', ready, mine) =
      elim (ℕ_discrete i n) [
        | yes p ↦
            let e : c' ≡ d = ground (arith, there, p, get-insert i n c' cs) in
            (
              c,
              d',
              ground (arith, here, p),
              sym runs ∙ ap (λ x. x.running) e ∙ idle,
              there',
              ids' ∙ sym (ap (λ x. x.id) e) ∙ ids,
              idle',
              ready,
              mine,
            )
        | no p ↦ (
          d,
          d',
          ground (arith, there, p, get-insert i n c' cs),
          idle,
          there',
          ids',
          idle',
          ready,
          mine,
        )
      ]

  pub locate-Found :
      (is : List ℕ) (cs cs' : Map ℕ Context) (n : ℕ)
      → locate a cpu now is cs ≡ ok (cs', some n)
      → Found cpu cs cs' n
  unfolding locate
  locate-Found [] cs cs' n h = absurd (ground (arith, h))
  locate-Found (i ∷ is) cs cs' n h = elim (Option-cases (get i cs)) [
    | inl gone ↦ locate-Found is cs cs' n (ground (arith, gone, h))
    | inr (c, here) ↦ elim (Result-cases (update_runnable a cpu now c)) [
      | inr (inl (e, u)) ↦ absurd (ground (arith, here, u, h))
      | inr (inr u) ↦ absurd (ground (arith, here, u, h))
      | inl ((c', true), u) ↦
          let (ids, runs, same, more) = update_runnable_lem a cpu now c c' true u in
          let (idle, traced, ready, mine, before) = more refl in
          let e : insert i c' cs ≡ cs' = ground (arith, here, u, h) in
          let at_n : i ≡ n = ground (arith, here, u, h) in
          subst (λ x. Found cpu cs cs' x) at_n
            (c, c', here, idle, rw (← e) (get-insert_self i c' cs), ids, runs ∙ idle, ready, mine)
      | inl ((c', false), u) ↦
          let (ids, runs, same, more) = update_runnable_lem a cpu now c c' false u in
          Found-insert i n c c' cs cs' here ids runs
            (locate-Found is (insert i c' cs) cs' n (ground (arith, here, u, h)))
    ]
  ]
