-- ===== src/Schemes/Remove.antt =====
-- What `remove` does: the scheme and every name of it go, and nothing else.
use redox_os_kernel.Prelude.{
  ℕ, ◌≡◌, refl, sym, subst, false, none, some, List, [], ◌∷◌, ok, map_ok, arith, if◌then◌else◌,
  Option-cases, Bool-cases, inl, inr, ◌==◌, All,
}
use redox_os_kernel.Btree.{Map, get, contains_key, remove, nat_key}
use redox_os_kernel.Btree.Laws.{get-remove}
use redox_os_kernel.Schemes.{
  SchemeList, get_scheme, get_name, names_of, remove_names, remove_everywhere, remove_scheme,
}
use redox_os_kernel.Schemes.Names.{Name, name_key, eq_name, eq_name_iff}

-- No name is there twice, as in every `BTreeMap`.
abbrev pub Distinct : Map Name ℕ → Type 0
Distinct [] = Unit {0}
Distinct ((name, id) ∷ names) = (get name names ≡ none) × Distinct names

abbrev pub keep : ℕ → Map Name ℕ → Map Name ℕ
keep id [] = []
keep id ((name, i) ∷ names) = if i == id then keep id names else (name, i) ∷ keep id names

abbrev pub keep_each : ℕ → Map ℕ (Map Name ℕ) → Map ℕ (Map Name ℕ)
keep_each id [] = []
keep_each id ((ns, names) ∷ rest) = (ns, keep id names) ∷ keep_each id rest

remove_absent :
    (name : Name) (names : Map Name ℕ) → get name names ≡ none → remove name names ≡ names
unfolding remove get
remove_absent name [] h = refl
remove_absent name ((n, i) ∷ names) h = ground (arith, h, remove_absent name names)

names_of_apart :
    (id : ℕ) (name : Name) (names : Map Name ℕ)
    → get name names ≡ none
    → All (λ n. eq_name name n ≡ false) (names_of id names)
unfolding names_of get
names_of_apart id name [] h = tt
names_of_apart id name ((n, i) ∷ names) h =
    ground (arith, h, eq_name_iff n name, eq_name_iff name n, names_of_apart id name names)

remove_names_skip :
    (name : Name) (id : ℕ) (ns : List Name) (names : Map Name ℕ)
    → All (λ n. eq_name name n ≡ false) ns
    → remove_names ns ((name, id) ∷ names) ≡ map_ok (λ m. (name, id) ∷ m) (remove_names ns names)
unfolding remove_names remove contains_key get
remove_names_skip name id [] names h = refl
remove_names_skip name id (n ∷ ns) names h =
    let ih = remove_names_skip name id ns (remove n names) h.1 in
    elim (Bool-cases (contains_key n names)) [
      | inl t ↦ ground (arith, h.0, ih, t)
      | inr t ↦ ground (arith, h.0, ih, t)
    ]

remove_names_lem :
    (id : ℕ) (names : Map Name ℕ)
    → Distinct names
    → remove_names (names_of id names) names ≡ ok (keep id names)
unfolding names_of remove_names remove contains_key get
remove_names_lem id [] d = refl
remove_names_lem id ((name, i) ∷ names) d =
    let ih = remove_names_lem id names d.1 in
    let gone = remove_absent name names d.0 in
    let skip =
      remove_names_skip name i (names_of id names) names (names_of_apart id name names d.0) in
    ground (arith, ih, gone, skip, eq_name_iff name name)

get-keep :
    (id : ℕ) (name : Name) (names : Map Name ℕ)
    → Distinct names
    → get name (keep id names)
      ≡ elim (get name names) [ none ↦ none | some i ↦ if i == id then none else some i ]
unfolding get
get-keep id name [] d = refl
get-keep id name ((n, i) ∷ names) d =
    let ih = get-keep id name names d.1 in
    elim (Bool-cases (eq_name n name)) [
      | inl t ↦
          let same : n ≡ name = (eq_name_iff n name).0 t in
          let absent : get name names ≡ none = rw (sym same) d.0 in ground (arith, ih, t, absent)
      | inr t ↦ ground (arith, ih, t)
    ]

-- In every namespace.
abbrev pub DistinctNames : Map ℕ (Map Name ℕ) → Type 0
DistinctNames [] = Unit {0}
DistinctNames ((ns, names) ∷ rest) = Distinct names × DistinctNames rest

remove_everywhere_lem :
    (id : ℕ) (nss : Map ℕ (Map Name ℕ))
    → DistinctNames nss
    → remove_everywhere id nss ≡ ok (keep_each id nss)
unfolding remove_everywhere
remove_everywhere_lem id [] d = refl
remove_everywhere_lem id ((ns, names) ∷ rest) d =
    rw (remove_names_lem id names d.0, remove_everywhere_lem id rest d.1)

get-keep_each :
    (id ns : ℕ) (nss : Map ℕ (Map Name ℕ))
    → get ns (keep_each id nss)
      ≡ elim (get ns nss) [ none ↦ none | some names ↦ some (keep id names) ]
unfolding get
get-keep_each id ns [] = refl
get-keep_each id ns ((j, names) ∷ rest) = ground (arith, get-keep_each id ns rest)

get-Distinct :
    (ns : ℕ) (names : Map Name ℕ) (nss : Map ℕ (Map Name ℕ))
    → DistinctNames nss
    → get ns nss ≡ some names
    → Distinct names
unfolding get
get-Distinct ns names [] d h = absurd (ground (arith, h))
get-Distinct ns names ((j, m) ∷ rest) d h = elim (Bool-cases (j == ns)) [
  | inl t ↦ let same : m ≡ names = ground (arith, h, t) in subst Distinct same d.0
  | inr t ↦ get-Distinct ns names rest d.1 (ground (arith, h, t))
]

module _ {S : Type 0} where
  -- `remove` of a scheme in the list succeeds; afterwards no name stands for it, in whatever
  -- namespace, and every name of another scheme stands for it as before. No name may be twice in a
  -- namespace.
  pub remove_scheme_lem :
      (l : SchemeList S) (id : ℕ) (s : S)
      → DistinctNames l.names
      → get_scheme l id ≡ some s
      → (l' : SchemeList S) × (remove_scheme l id ≡ ok l')
        × ((ns : ℕ) (name : Name)
            → get_name l' ns name ≡ elim (get_name l ns name) [
              | none ↦ none
              | some (i, t) ↦ if i == id then none else some (i, t)
            ])
  unfolding remove_scheme get_name get_scheme contains_key
  remove_scheme_lem l id s d here =
      let each = remove_everywhere_lem id l.names d in
      (
        record l { map = remove id l.map; names = keep_each id l.names },
        ground (arith, here, each),
        λ ns name. elim (Option-cases (get ns l.names)) [
          | inl gone ↦ ground (arith, gone, get-keep_each id ns l.names)
          | inr (names, at_ns) ↦
              let kept = get-keep id name names (get-Distinct ns names l.names d at_ns) in
              elim (Option-cases (get name names)) [
                | inl gone ↦ ground (arith, at_ns, gone, kept, get-keep_each id ns l.names)
                | inr (i, at_name) ↦ ground (
                  arith,
                  at_ns,
                  at_name,
                  kept,
                  get-keep_each id ns l.names,
                  get-remove id i l.map,
                )
              ]
        ],
      )
