-- ===== src/Btree/Laws.antt =====
-- Lookup laws of the ordered map.
use redox_os_kernel.Prelude.{◌≡◌, refl, true, none, some, [], ◌∷◌, arith, if◌then◌else◌}
use redox_os_kernel.Btree.{Key, Map, get, insert, remove}

pub eq_key_refl {ℓ} : {K : Type ℓ} ⦃o : Key K⦄ (k : K) → o.eq_key k k ≡ true
eq_key_refl ⦃o⦄ k = (o.eq_key_iff k k).1 refl

module _ {ℓ κ} {K : Type ℓ} {V : Type κ} ⦃o : Key K⦄ where
  pub get-insert :
      (k j : K) (v : V) (m : Map K V)
      → get j (insert k v m) ≡ (if o.eq_key k j then some v else get j m)
  unfolding get insert
  get-insert k j v [] = refl
  get-insert k j v ((i, w) ∷ m) =
      ground (arith, o.eq_key_iff k j, o.eq_key_iff i k, o.eq_key_iff i j, get-insert k j v m)

  pub get-remove :
      (k j : K) (m : Map K V) → get j (remove k m) ≡ (if o.eq_key k j then none else get j m)
  unfolding get remove
  get-remove k j [] = ground arith
  get-remove k j ((i, w) ∷ m) =
      ground (arith, o.eq_key_iff k j, o.eq_key_iff i k, o.eq_key_iff i j, get-remove k j m)

  pub get-insert_self : (k : K) (v : V) (m : Map K V) → get k (insert k v m) ≡ some v
  get-insert_self k v m = rw (get-insert, eq_key_refl k)

  pub get-remove_self : (k : K) (m : Map K V) → get k (remove k m) ≡ none
  get-remove_self k m = rw (get-remove, eq_key_refl k)
