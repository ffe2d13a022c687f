-- ===== src/Btree/Free.antt =====
-- The search for a key that is not in a map, from a number upwards, as in
-- `while map.contains_key(&id) { id += 1; }`.
use native.Mathlib.Decide.{ℕ_discrete}
use redox_os_kernel.Prelude.{
  ℕ, zero, suc, ◌+◌, ◌≤◌, ◌<◌, ◌≡◌, true, false, none, some, [], ◌∷◌, arith, length, leb,
  if◌then◌else◌, Option-cases, inl, inr,
}
use redox_os_kernel.Btree.{Map, get, contains_key, nat_key}

module _ {S : Type 0} where
  unfoldable pub next_free : ℕ → Map ℕ S → ℕ → ℕ
  next_free zero m id = id
  next_free (suc fuel) m id = elim (contains_key id m) [
    | false ↦ id
    | true ↦ next_free fuel m (id + 1)
  ]

  -- How many entries have a key from `id` on.
  abbrev from_on : ℕ → Map ℕ S → ℕ
  from_on id [] = 0
  from_on id ((j, s) ∷ m) = (if leb id j then 1 else 0) + from_on id m

  from_on_mono : (id : ℕ) (m : Map ℕ S) → from_on (id + 1) m ≤ from_on id m
  from_on_mono id [] = omega arith
  from_on_mono id ((j, s) ∷ m) = ground (arith, from_on_mono id m)

  from_on-length : (id : ℕ) (m : Map ℕ S) → from_on id m ≤ length m
  from_on-length id [] = omega arith
  from_on-length id ((j, s) ∷ m) = ground (arith, from_on-length id m)

  from_on-get :
      (id : ℕ) (s : S) (m : Map ℕ S) → get id m ≡ some s → from_on (id + 1) m < from_on id m
  unfolding get
  from_on-get id s [] h = absurd (ground (arith, h))
  from_on-get id s ((j, t) ∷ m) h = elim (ℕ_discrete j id) [
    | yes p ↦ ground (arith, from_on_mono id m, p)
    | no p ↦ ground (arith, from_on-get id s m, h, p)
  ]

  -- As much fuel as there are entries is enough, and no key that is passed over is free.
  next_free_from :
      (fuel id : ℕ) (m : Map ℕ S)
      → from_on id m ≤ fuel
      → (get (next_free fuel m id) m ≡ none) × (id ≤ next_free fuel m id)
  unfolding next_free contains_key
  next_free_from zero id m h = elim (Option-cases (get id m)) [
    | inl free ↦ (free, omega arith)
    | inr (s, used) ↦ absurd (omega (arith, from_on-get id s m used))
  ]
  next_free_from (suc fuel) id m h = elim (Option-cases (get id m)) [
    | inl free ↦ (ground (arith, free), ground (arith, free))
    | inr (s, used) ↦
        let ih = next_free_from fuel (id + 1) m (omega (arith, from_on-get id s m used)) in
        (ground (arith, used, ih.0), ground (arith, used, ih.1))
  ]

  pub next_free_lem :
      (m : Map ℕ S) (id : ℕ)
      → (get (next_free (length m) m id) m ≡ none) × (id ≤ next_free (length m) m id)
  next_free_lem m id = next_free_from (length m) id m (from_on-length id m)
