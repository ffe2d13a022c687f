-- ===== src/Contexts/Switch/Order.antt =====
-- Contexts take turns: the one to run is the first that is ready, in the order of the identifiers
-- from the current one's on and round to it again.
use native.Mathlib.Decide.{dec_lt}
use redox_os_kernel.Prelude.{
  ℕ, ◌+◌, ◌<◌, ◌≤◌, ◌≡◌, ◌≢◌, refl, sym, ap, ◌∙◌, Bool, true, false, Option, none, some, List, [],
  ◌∷◌, ◌++◌, ok, arith, All, if◌then◌else◌, ◌==◌, ltb, leb, ◌&&◌, ◌||◌, ◌⊎◌, Bool-cases, lt→ltb,
  ge→ltb, Option-cases, Result-cases, inl, inr,
}
use redox_os_kernel.Btree.{Map, get, insert, nat_key}
use redox_os_kernel.Btree.Laws.{get-insert}
use redox_os_kernel.Contexts.{Context}
use redox_os_kernel.Contexts.Switch.Ready.{may_run, may_run_lem}
use redox_os_kernel.Contexts.Switch.{
  Arch, World, keys_from, keys_upto, candidates, update_runnable, locate, finish, switch,
  set_current, leave, enter,
}

-- Whether there is a context that is to run.
abbrev pub is_ready : ℕ → ℕ → Option Context → Bool
is_ready cpu now none = false
is_ready cpu now (some c) = may_run cpu now c

-- The first of the identifiers whose context is to run, as the contexts stand before the loop.
abbrev pub first_ready : ℕ → ℕ → List ℕ → Map ℕ Context → Option ℕ
first_ready cpu now [] cs = none
first_ready cpu now (i ∷ is) cs =
    if is_ready cpu now (get i cs) then some i else first_ready cpu now is cs

-- Whether `j` comes before `n` in the order from `id` on and round to it again.
abbrev pub is_sooner : ℕ → ℕ → ℕ → Bool
is_sooner id j n = (ltb id j && (ltb j n || leb n id)) || (ltb j id && ltb j n && leb n id)

-- The identifiers stand in this order.
abbrev pub InRound : ℕ → List ℕ → Type 0
InRound id [] = Unit {0}
InRound id (i ∷ is) = All (λ j. is_sooner id i j ≡ true) is × InRound id is

abbrev pub Among : ℕ → List ℕ → Type 0
Among j [] = ⊥
Among j (i ∷ is) = (i ≡ j) ⊎ Among j is

-- No identifier is there twice.
abbrev pub Nodup : List ℕ → Type 0
Nodup [] = Unit {0}
Nodup (i ∷ is) = All (λ j. i ≢ j) is × Nodup is

-- The keys are in order, as in every `BTreeMap`; the first is `lo` or above.
abbrev pub Ascending : ℕ → Map ℕ Context → Type 0
Ascending lo [] = Unit {0}
Ascending lo ((i, c) ∷ cs) = (lo ≤ i) × Ascending (i + 1) cs

first_ready-insert :
    (cpu now : ℕ) (is : List ℕ) (i : ℕ) (c : Context) (cs : Map ℕ Context)
    → All (λ j. i ≢ j) is
    → first_ready cpu now is (insert i c cs) ≡ first_ready cpu now is cs
first_ready-insert cpu now [] i c cs h = refl
first_ready-insert cpu now (j ∷ js) i c cs h =
    let ih = first_ready-insert cpu now js i c cs h.1 in
    let same : get j (insert i c cs) ≡ get j cs = ground (arith, get-insert i j c cs, h.0) in
    let ready : is_ready cpu now (get j (insert i c cs)) ≡ is_ready cpu now (get j cs) =
      ap (is_ready cpu now) same in
    ground (arith, ready, ih)

pub locate_first :
    (a : Arch) (cpu now : ℕ) (is : List ℕ) (cs cs' : Map ℕ Context) (o : Option ℕ)
    → Nodup is
    → locate a cpu now is cs ≡ ok (cs', o)
    → first_ready cpu now is cs ≡ o
unfolding locate
locate_first a cpu now [] cs cs' o d h = ground (arith, h)
locate_first a cpu now (i ∷ is) cs cs' o d h = elim (Option-cases (get i cs)) [
  | inl gone ↦
      let ih = locate_first a cpu now is cs cs' o d.1 (ground (arith, gone, h)) in
      ground (arith, gone, ih)
  | inr (c, here) ↦ elim (Result-cases (update_runnable a cpu now c)) [
    | inr (inl (e, u)) ↦ absurd (ground (arith, here, u, h))
    | inr (inr u) ↦ absurd (ground (arith, here, u, h))
    | inl ((c', true), u) ↦
        let ready = may_run_lem a cpu now c c' true u in ground (arith, here, u, ready, h)
    | inl ((c', false), u) ↦
        let ih =
          locate_first a cpu now is (insert i c' cs) cs' o d.1 (ground (arith, here, u, h)) in
        let ready = may_run_lem a cpu now c c' false u in
        ground (arith, here, u, ready, ih, first_ready-insert cpu now is i c' cs d.0)
  ]
]

All-mono : (P Q : ℕ → Type 0) (xs : List ℕ) → ((j : ℕ) → P j → Q j) → All P xs → All Q xs
All-mono P Q [] f h = tt
All-mono P Q (x ∷ xs) f h = (f x h.0, All-mono P Q xs f h.1)

All-append : (P : ℕ → Type 0) (xs ys : List ℕ) → All P xs → All P ys → All P (xs ++ ys)
All-append P [] ys h k = k
All-append P (x ∷ xs) ys h k = (h.0, All-append P xs ys h.1 k)

InRound-append :
    (id : ℕ) (xs ys : List ℕ)
    → InRound id xs
    → InRound id ys
    → All (λ x. All (λ y. is_sooner id x y ≡ true) ys) xs
    → InRound id (xs ++ ys)
InRound-append id [] ys h k apart = k
InRound-append id (x ∷ xs) ys h k apart = (
  All-append (λ y. is_sooner id x y ≡ true) xs ys h.0 apart.0,
  InRound-append id xs ys h.1 k apart.1,
)

Nodup-of_InRound : (id : ℕ) (is : List ℕ) → InRound id is → Nodup is
Nodup-of_InRound id [] h = tt
Nodup-of_InRound id (i ∷ is) h = (
  All-mono (λ j. is_sooner id i j ≡ true) (λ j. i ≢ j) is (λ j b e. ground (arith, b, e)) h.0,
  Nodup-of_InRound id is h.1,
)

-- Keys above and below the current one, in order.
keys_from_lem :
    (id lo : ℕ) (cs : Map ℕ Context)
    → Ascending lo cs
    → All (λ j. (lo ≤ j) × (id < j)) (keys_from id cs) × InRound id (keys_from id cs)
unfolding keys_from
keys_from_lem id lo [] h = (tt, tt)
keys_from_lem id lo ((i, c) ∷ cs) h =
    let (bounds, order) = keys_from_lem id (i + 1) cs h.1 in
    let wider =
      All-mono (λ j. (i + 1 ≤ j) × (id < j)) (λ j. (lo ≤ j) × (id < j)) (keys_from id cs)
        (λ j b. omega arith) bounds in
    elim (dec_lt id i) [
      | yes p ↦
          let later =
            All-mono (λ j. (i + 1 ≤ j) × (id < j)) (λ j. is_sooner id i j ≡ true) (keys_from id cs)
              (λ j b. ground (arith, b, p)) bounds in
          rw (lt→ltb id i p) (((omega arith, p), wider), (later, order))
      | no p ↦ rw (ge→ltb id i (omega arith)) (wider, order)
    ]

keys_upto_lem :
    (id lo : ℕ) (cs : Map ℕ Context)
    → Ascending lo cs
    → All (λ j. (lo ≤ j) × (j < id)) (keys_upto id cs) × InRound id (keys_upto id cs)
unfolding keys_upto
keys_upto_lem id lo [] h = (tt, tt)
keys_upto_lem id lo ((i, c) ∷ cs) h =
    let (bounds, order) = keys_upto_lem id (i + 1) cs h.1 in
    let wider =
      All-mono (λ j. (i + 1 ≤ j) × (j < id)) (λ j. (lo ≤ j) × (j < id)) (keys_upto id cs)
        (λ j b. omega arith) bounds in
    elim (dec_lt i id) [
      | yes p ↦
          let later =
            All-mono (λ j. (i + 1 ≤ j) × (j < id)) (λ j. is_sooner id i j ≡ true) (keys_upto id cs)
              (λ j b. ground (arith, b, p)) bounds in
          rw (lt→ltb i id p) (((omega arith, p), wider), (later, order))
      | no p ↦ rw (ge→ltb i id (omega arith)) (wider, order)
    ]

candidates-InRound : (id : ℕ) (cs : Map ℕ Context) → Ascending 0 cs → InRound id (candidates id cs)
unfolding candidates
candidates-InRound id cs h =
    let (above, first) = keys_from_lem id 0 cs h in
    let (below, second) = keys_upto_lem id 0 cs h in
    InRound-append id (keys_from id cs) (keys_upto id cs) first second (
      All-mono (λ j. (0 ≤ j) × (id < j)) (λ x. All (λ y. is_sooner id x y ≡ true) (keys_upto id cs))
        (keys_from id cs)
        (λ x b.
          All-mono (λ j. (0 ≤ j) × (j < id)) (λ y. is_sooner id x y ≡ true) (keys_upto id cs)
            (λ y d. ground (arith, b, d)) below)
        above)

Among-left : (j : ℕ) (xs ys : List ℕ) → Among j xs → Among j (xs ++ ys)
Among-left j [] ys h = absurd h
Among-left j (x ∷ xs) ys (inl e) = inl e
Among-left j (x ∷ xs) ys (inr h) = inr (Among-left j xs ys h)

Among-right : (j : ℕ) (xs ys : List ℕ) → Among j ys → Among j (xs ++ ys)
Among-right j [] ys h = h
Among-right j (x ∷ xs) ys h = inr (Among-right j xs ys h)

Among-keys_from :
    (id j : ℕ) (c : Context) (cs : Map ℕ Context)
    → get j cs ≡ some c
    → id < j
    → Among j (keys_from id cs)
unfolding keys_from get
Among-keys_from id j c [] h lt = absurd (ground (arith, h))
Among-keys_from id j c ((i, d) ∷ cs) h lt = elim (Bool-cases (i == j)) [
  | inl e ↦ let same : i ≡ j = ground (arith, e) in rw (same, lt→ltb id j lt) (inl refl)
  | inr e ↦
      let ih = Among-keys_from id j c cs (ground (arith, e, h)) lt in
      elim (Bool-cases (ltb id i)) [ inl f ↦ rw f (inr ih) | inr f ↦ rw f ih ]
]

Among-keys_upto :
    (id j : ℕ) (c : Context) (cs : Map ℕ Context)
    → get j cs ≡ some c
    → j < id
    → Among j (keys_upto id cs)
unfolding keys_upto get
Among-keys_upto id j c [] h lt = absurd (ground (arith, h))
Among-keys_upto id j c ((i, d) ∷ cs) h lt = elim (Bool-cases (i == j)) [
  | inl e ↦ let same : i ≡ j = ground (arith, e) in rw (same, lt→ltb j id lt) (inl refl)
  | inr e ↦
      let ih = Among-keys_upto id j c cs (ground (arith, e, h)) lt in
      elim (Bool-cases (ltb i id)) [ inl f ↦ rw f (inr ih) | inr f ↦ rw f ih ]
]

-- Every context but the current one is a candidate.
Among-candidates :
    (id j : ℕ) (c : Context) (cs : Map ℕ Context)
    → get j cs ≡ some c
    → j ≢ id
    → Among j (candidates id cs)
unfolding candidates
Among-candidates id j c cs h other = elim (dec_lt id j) [
  | yes above ↦ Among-left j (keys_from id cs) (keys_upto id cs) (Among-keys_from id j c cs h above)
  | no q ↦
      Among-right j (keys_from id cs) (keys_upto id cs)
        (Among-keys_upto id j c cs h (ground (arith, q, other)))
]

-- Where the first is found, it is ready and those before it are not; else none is ready.
first_ready-some :
    (cpu now id n : ℕ) (is : List ℕ) (cs : Map ℕ Context)
    → InRound id is
    → first_ready cpu now is cs ≡ some n
    → (is_ready cpu now (get n cs) ≡ true)
      × Among n is
      × ((j : ℕ) → Among j is → is_sooner id j n ≡ true → is_ready cpu now (get j cs) ≡ false)
first_ready-some cpu now id n [] cs order h = absurd (ground (arith, h))
first_ready-some cpu now id n (i ∷ is) cs order h =
    elim (Bool-cases (is_ready cpu now (get i cs))) [
      | inl ready ↦
          let same : i ≡ n = ground (arith, ready, h) in
          (
            rw (← same) ready,
            inl same,
            λ j among sooner. absurd (not_before j among (rw same sooner)),
          )
      | inr idle ↦
          let (ready, there, rest) =
            first_ready-some cpu now id n is cs order.1 (ground (arith, idle, h)) in
          (
            ready,
            inr there,
            λ j among sooner. elim among [
              | inl e ↦ rw (← e) idle
              | inr later ↦ rest j later sooner
            ],
          )
    ]
  where
    before :
        (j : ℕ) (js : List ℕ)
        → Among j js
        → All (λ k. is_sooner id i k ≡ true) js
        → is_sooner id i j ≡ true
    before j [] a h = absurd a
    before j (k ∷ js) (inl e) h = rw (← e) h.0
    before j (k ∷ js) (inr a) h = before j js a h.1

    not_before : (j : ℕ) → Among j (i ∷ is) → is_sooner id j i ≡ true → ⊥
    not_before j (inl e) s = ground (arith, e, s)
    not_before j (inr a) s = ground (arith, before j is a order.0, s)

first_ready-none :
    (cpu now : ℕ) (is : List ℕ) (cs : Map ℕ Context)
    → first_ready cpu now is cs ≡ none
    → (j : ℕ) → Among j is
    → is_ready cpu now (get j cs) ≡ false
first_ready-none cpu now [] cs h j among = absurd among
first_ready-none cpu now (i ∷ is) cs h j among = elim (Bool-cases (is_ready cpu now (get i cs))) [
  | inl ready ↦ absurd (ground (arith, ready, h))
  | inr idle ↦ elim among [
    | inl e ↦ rw (← e) idle
    | inr later ↦ first_ready-none cpu now is cs (ground (arith, idle, h)) j later
  ]
]

finish_stays :
    (a : Arch) (cpu now : ℕ) (w w' : World) (cs : Map ℕ Context) (moved : Bool)
    → finish a cpu now w (cs, none) ≡ ok (w', moved)
    → (moved ≡ false) × (w'.current cpu ≡ w.current cpu)
unfolding finish
finish_stays a cpu now w w' cs moved h =
    let e : record w { contexts = cs } ≡ w' = ground (arith, h) in
    (ground (arith, h), ap (λ x. x.current cpu) (sym e))

finish_moves :
    (a : Arch) (cpu now : ℕ) (w w' : World) (cs : Map ℕ Context) (n : ℕ) (moved : Bool)
    → finish a cpu now w (cs, some n) ≡ ok (w', moved)
    → (moved ≡ true) × (w'.current cpu ≡ n)
unfolding finish
finish_moves a cpu now w w' cs n moved h = elim (Option-cases (get (w.current cpu) cs)) [
  | inl gone ↦ absurd (ground (arith, gone, h))
  | inr (p, at_p) ↦
      let cs' = insert (w.current cpu) (leave now p) cs in
      elim (Option-cases (get n cs')) [
        | inl gone ↦ absurd (ground (arith, at_p, gone, h))
        | inr (c, here) ↦
            let after : World = record w {
              contexts = insert n (enter a now c) cs';
              current = set_current cpu n w.current;
            } in
            let e : after ≡ w' = ground (arith, at_p, here, h) in
            let at_cpu : set_current cpu n w.current cpu ≡ n = ground arith in
            (ground (arith, at_p, here, h), ap (λ x. x.current cpu) (sym e) ∙ at_cpu)
      ]
]

-- What holds of every candidate holds of every context but the current one.
not_ready_lem :
    (cpu now id j : ℕ) (cs : Map ℕ Context)
    → (Among j (candidates id cs) → is_ready cpu now (get j cs) ≡ false)
    → j ≢ id
    → is_ready cpu now (get j cs) ≡ false
not_ready_lem cpu now id j cs h other = elim (Option-cases (get j cs)) [
  | inl gone ↦ ground (arith, gone)
  | inr (c, here) ↦ h (Among-candidates id j c cs here other)
]

-- `switch` goes to the first context that is ready, in the order of the identifiers from the current
-- one's on and round to it again, and stays where no other context is ready. A context is ready if it
-- does not run, is not stopped by a tracer, belongs to the processor or to none and may run there, and is
-- runnable or is blocked and has a signal, a time to wake that has come or a signal handler to return
-- from. The readiness is that before the call.
pub switch_first :
    (a : Arch) (cpu now : ℕ) (w w' : World) (p : Context) (moved : Bool)
    → Ascending 0 w.contexts
    → get (w.current cpu) w.contexts ≡ some p
    → switch a cpu now w ≡ ok (w', moved)
    → ((moved ≡ true)
        × (is_ready cpu now (get (w'.current cpu) w.contexts) ≡ true)
        × ((j : ℕ)
            → is_sooner p.id j (w'.current cpu) ≡ true
            → is_ready cpu now (get j w.contexts) ≡ false))
      ⊎ ((moved ≡ false)
          × (w'.current cpu ≡ w.current cpu)
          × ((j : ℕ) → j ≢ p.id → is_ready cpu now (get j w.contexts) ≡ false))
unfolding switch
switch_first a cpu now w w' p moved sorted at_p h =
    let is = candidates p.id w.contexts in
    let order = candidates-InRound p.id w.contexts sorted in
    let distinct = Nodup-of_InRound p.id is order in
    elim (Result-cases (locate a cpu now is w.contexts)) [
      | inr (inl (e, l)) ↦ absurd (ground (arith, at_p, l, h))
      | inr (inr l) ↦ absurd (ground (arith, at_p, l, h))
      | inl ((cs', none), l) ↦
          let first = locate_first a cpu now is w.contexts cs' none distinct l in
          let (stays, same) = finish_stays a cpu now w w' cs' moved (ground (arith, at_p, l, h)) in
          inr (
            stays,
            same,
            λ j other.
                not_ready_lem cpu now p.id j w.contexts
                  (first_ready-none cpu now is w.contexts first j) other,
          )
      | inl ((cs', some n), l) ↦
          let first = locate_first a cpu now is w.contexts cs' (some n) distinct l in
          let (moves, there) =
            finish_moves a cpu now w w' cs' n moved (ground (arith, at_p, l, h)) in
          let (ready, among, before) = first_ready-some cpu now p.id n is w.contexts order first in
          inl (
            moves,
            rw there ready,
            λ j sooner.
                not_ready_lem cpu now p.id j w.contexts
                  (λ there_j. before j there_j (rw (← there) sooner))
                  (λ e. ground (arith, e, sooner)),
          )
    ]
