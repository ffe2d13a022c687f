-- ===== src/Btree.antt =====
-- `BTreeMap` of `alloc`, which the kernel keeps its tables in: an association list in the order of
-- the keys. Insertion keeps the order, so that iteration visits the keys in the order of the source.
pub mod Laws
pub mod Free
use redox_os_kernel.Prelude.{
  ℕ, ◌≡◌, ◌↔◌, Bool, true, false, Option, none, some, List, [], ◌∷◌, ltb, ◌==◌, ==_iff,
  if◌then◌else◌,
}

-- `Ord` of a key type: what the map uses of it.
pub record Key {ℓ} (K : Type ℓ) : Type ℓ where
  pub lt_key : K → K → Bool
  pub eq_key : K → K → Bool
  pub eq_key_iff : (a b : K) → (eq_key a b ≡ true) ↔ (a ≡ b)

instance abbrev pub nat_key : Key ℕ
nat_key = record { lt_key = ltb; eq_key = ◌==◌; eq_key_iff = ==_iff }

abbrev pub Map {ℓ κ} : Type ℓ → Type κ → Type (ℓ ⊔ κ)
Map K V = List (K × V)

module _ {ℓ κ} {K : Type ℓ} {V : Type κ} ⦃o : Key K⦄ where
  unfoldable pub get : K → Map K V → Option V
  get k [] = none
  get k ((j, v) ∷ m) = if o.eq_key j k then some v else get k m

  unfoldable pub contains_key : K → Map K V → Bool
  unfolding get
  contains_key k m = elim (get k m) [ none ↦ false | some v ↦ true ]

  unfoldable pub insert : K → V → Map K V → Map K V
  insert k v [] = (k, v) ∷ []
  insert k v ((j, w) ∷ m) =
      if o.eq_key j k
      then (k, v) ∷ m
      else if o.lt_key k j
      then (k, v) ∷ (j, w) ∷ m
      else (j, w) ∷ insert k v m

  unfoldable pub remove : K → Map K V → Map K V
  remove k [] = []
  remove k ((j, v) ∷ m) = if o.eq_key j k then remove k m else (j, v) ∷ remove k m

  -- `range(..k).next_back()`: the last entry whose key is below `k`.
  unfoldable pub last_below : K → Map K V → Option (K × V)
  last_below k [] = none
  last_below k ((j, v) ∷ m) =
      if o.lt_key j k
      then (elim (last_below k m) [ none ↦ some (j, v) | some e ↦ some e ])
      else none
