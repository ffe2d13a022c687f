-- ===== src/Futex/Wake.antt =====
-- What FUTEX_WAKE takes out of the queue.
use native.Mathlib.Decide.{ℕ_discrete}
use redox_os_kernel.Prelude.{
  ℕ, zero, suc, ◌+◌, ◌-◌, ◌≤◌, ◌<◌, min, ◌≡◌, refl, sym, ap, none, some, List, [], ◌∷◌, ok, arith,
  length, get_elem?, set, take, if◌then◌else◌, ◌==◌, Option-cases, inl, inr, length-take, take_all,
  ◌&&◌,
}
use redox_os_kernel.Contexts.{unblock_all}
use redox_os_kernel.Futex.{
  FutexEntry, FutexList, swap_remove_back, wake_loop, futex_wake, World, Machine,
}

abbrev pub total : (FutexEntry → ℕ) → FutexList → ℕ
total f [] = 0
total f (e ∷ xs) = f e + total f xs

abbrev pub at_address : ℕ → FutexEntry → ℕ
at_address target e = if e.target_physaddr == target then 1 else 0

abbrev pub of_context : ℕ → ℕ → FutexEntry → ℕ
of_context target ctx e = if e.target_physaddr == target && e.context_lock == ctx then 1 else 0

-- How many entries there are at an address.
abbrev pub sleepers : ℕ → FutexList → ℕ
sleepers target = total (at_address target)

-- How often a context waits at an address.
abbrev pub waits : ℕ → ℕ → FutexList → ℕ
waits target ctx = total (of_context target ctx)

-- How often a context is in a list.
abbrev pub times : ℕ → List ℕ → ℕ
times ctx [] = 0
times ctx (c ∷ cs) = (if c == ctx then 1 else 0) + times ctx cs

pub in_range :
    (i : ℕ) (xs : FutexList) → i < length xs → (e : FutexEntry) × (get_elem? xs i ≡ some e)
in_range i [] h = absurd (omega arith)
in_range zero (x ∷ xs) h = (x, refl)
in_range (suc i) (x ∷ xs) h = in_range i xs (omega arith)

out_of_range : (i : ℕ) (xs : FutexList) → get_elem? xs i ≡ none → length xs ≤ i
out_of_range i [] h = omega arith
out_of_range zero (x ∷ xs) h = absurd (ground (arith, h))
out_of_range (suc i) (x ∷ xs) h = omega (arith, out_of_range i xs h)

pub before_end : (i : ℕ) (e : FutexEntry) (xs : FutexList) → get_elem? xs i ≡ some e → i < length xs
before_end i e [] h = absurd (ground (arith, h))
before_end zero e (x ∷ xs) h = omega arith
before_end (suc i) e (x ∷ xs) h = omega (arith, before_end i e xs h)

total-set :
    (f : FutexEntry → ℕ) (i : ℕ) (e l : FutexEntry) (xs : FutexList)
    → get_elem? xs i ≡ some e
    → total f (set xs i l) + f e ≡ total f xs + f l
total-set f i e l [] h = absurd (ground (arith, h))
total-set f zero e l (x ∷ xs) h = let w : f x ≡ f e = ap f (ground (arith, h)) in omega arith
total-set f (suc i) e l (x ∷ xs) h = let ih = total-set f i e l xs h in omega arith

-- All but the last entry.
total-init :
    (f : FutexEntry → ℕ) (n : ℕ) (l : FutexEntry) (xs : FutexList)
    → length xs ≡ suc n
    → get_elem? xs n ≡ some l
    → total f (take n xs) + f l ≡ total f xs
total-init f n l [] size h = absurd (omega arith)
total-init f zero l (x ∷ []) size h = let w : f x ≡ f l = ap f (ground (arith, h)) in omega arith
total-init f zero l (x ∷ y ∷ xs) size h = absurd (omega arith)
total-init f (suc n) l (x ∷ xs) size h = let ih = total-init f n l xs (omega arith) h in omega arith

total-take-suc :
    (f : FutexEntry → ℕ) (i : ℕ) (e : FutexEntry) (xs : FutexList)
    → get_elem? xs i ≡ some e
    → total f (take (suc i) xs) ≡ total f (take i xs) + f e
total-take-suc f i e [] h = absurd (ground (arith, h))
total-take-suc f zero e (x ∷ xs) h = let w : f x ≡ f e = ap f (ground (arith, h)) in omega arith
total-take-suc f (suc i) e (x ∷ xs) h = let ih = total-take-suc f i e xs h in omega arith

pub length-set : (i : ℕ) (l : FutexEntry) (xs : FutexList) → length (set xs i l) ≡ length xs
length-set i l [] = refl
length-set zero l (x ∷ xs) = refl
length-set (suc i) l (x ∷ xs) = ap suc (length-set i l xs)

take-take-set :
    (i n : ℕ) (l : FutexEntry) (xs : FutexList) → i ≤ n → take i (take n (set xs i l)) ≡ take i xs
take-take-set zero n l xs h = refl
take-take-set (suc i) zero l xs h = absurd (omega arith)
take-take-set (suc i) (suc n) l [] h = refl
take-take-set (suc i) (suc n) l (x ∷ xs) h = ap (◌∷◌ x) (take-take-set i n l xs (omega arith))

get-set_last :
    (i n : ℕ) (e l : FutexEntry) (xs : FutexList)
    → get_elem? xs i ≡ some e
    → get_elem? xs n ≡ some l
    → get_elem? (set xs i l) n ≡ some l
get-set_last i n e l [] h h' = absurd (ground (arith, h))
get-set_last zero zero e l (x ∷ xs) h h' = refl
get-set_last zero (suc n) e l (x ∷ xs) h h' = h'
get-set_last (suc i) zero e l (x ∷ xs) h h' = h'
get-set_last (suc i) (suc n) e l (x ∷ xs) h h' = get-set_last i n e l xs h h'

-- An entry that goes: the others stay, and those before it stay where they are.
pub swap_remove_lem :
    (i : ℕ) (e : FutexEntry) (xs : FutexList)
    → get_elem? xs i ≡ some e
    → (ys : FutexList) × (swap_remove_back i xs ≡ some (e, ys))
      × (suc (length ys) ≡ length xs)
      × (take i ys ≡ take i xs)
      × ((f : FutexEntry → ℕ) → total f xs ≡ f e + total f ys)
unfolding swap_remove_back
swap_remove_lem i e xs h =
    let n = length xs - 1 in
    let here = before_end i e xs h in
    let (l, last) = in_range n xs (omega arith) in
    let moved = set xs i l in
    let size = length-set i l xs in
    let end_of = get-set_last i n e l xs h last in
    (
      take n moved,
      ground (arith, h, last),
      omega (arith, size, length-take n moved),
      take-take-set i n l xs (omega arith),
      λ f.
          omega
            (arith, total-set f i e l xs h, total-init f n l moved (omega (arith, size)) end_of),
    )

wake_loop_lem :
    (fuel target i val : ℕ) (xs : FutexList)
    → length xs ≤ i + fuel
    → i ≤ length xs
    → sleepers target (take i xs) ≡ 0
    → (length (wake_loop fuel target i val xs).0 ≡ min val (sleepers target xs))
      × ((t c : ℕ)
          → waits t c xs
            ≡ (if t == target then times c (wake_loop fuel target i val xs).0 else 0)
              + waits t c (wake_loop fuel target i val xs).1)
unfolding wake_loop
wake_loop_lem zero target i val xs fits le clear =
    let whole : sleepers target xs ≡ 0 = rw (sym (take_all i xs (omega arith))) clear in
    (omega arith, λ t c. ground arith)
wake_loop_lem (suc fuel) target i zero xs fits le clear = (omega arith, λ t c. ground arith)
wake_loop_lem (suc fuel) target i (suc val) xs fits le clear =
    elim (Option-cases (get_elem? xs i)) [
      | inl gone ↦
          let whole : sleepers target xs ≡ 0 =
            rw (sym (take_all i xs (out_of_range i xs gone))) clear in
          (ground (arith, gone), λ t c. ground (arith, gone))
      | inr (e, h) ↦ elim (ℕ_discrete e.target_physaddr target) [
        | no other ↦
            let skip = total-take-suc (at_address target) i e xs h in
            let clear' : sleepers target (take (i + 1) xs) ≡ 0 =
              ground (arith, skip, clear, other) in
            let ih =
              wake_loop_lem fuel target (i + 1) (suc val) xs (omega arith)
                (omega (arith, before_end i e xs h)) clear' in
            (ground (arith, h, other, ih.0), λ t c. ground (arith, h, other, ih.1 t c))
        | yes it ↦
            let (ys, removed, size, front, sum) = swap_remove_lem i e xs h in
            let ih =
              wake_loop_lem fuel target i val ys (omega arith) (omega (arith, before_end i e xs h))
                (rw front clear) in
            (
              ground (arith, h, it, removed, ih.0, sum (at_address target)),
              λ t c. ground (arith, h, it, removed, ih.1 t c, sum (of_context t c)),
            )
      ]
    ]

-- FUTEX_WAKE returns the number of entries at its address, or `val` if there are more; it wakes as
-- many contexts. Each time a context is woken it waits at the address once less than before, and
-- everything else in the queue still waits where it did.
pub futex_wake_lem :
    {M : Type 0} (mach : Machine M) (target val : ℕ) (w : World)
    → (woken : List ℕ) × (rest : FutexList) × (futex_wake mach target val w ≡ (
      record w { futexes = rest; contexts = unblock_all woken w.contexts },
      ok (min val (sleepers target w.futexes)),
    ))
      × (length woken ≡ min val (sleepers target w.futexes))
      × ((t c : ℕ)
          → waits t c w.futexes ≡ (if t == target then times c woken else 0) + waits t c rest)
unfolding futex_wake
futex_wake_lem mach target val w =
    let (woken, rest) = wake_loop (length w.futexes) target 0 val w.futexes in
    let (size, each) =
      wake_loop_lem (length w.futexes) target 0 val w.futexes (omega arith) (omega arith) refl in
    (woken, rest, ground (arith, size), size, each)
