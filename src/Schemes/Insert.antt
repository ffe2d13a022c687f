-- ===== src/Schemes/Insert.antt =====
-- What `insert` does to the lookup by name.
use redox_os_kernel.Prelude.{
  ℕ, ◌≡◌, ◌==◌, ◌&&◌, ==_iff, Option, if◌then◌else◌, none, some, ok, err, Errno, arith,
  Option-cases, inl, inr,
}
use redox_os_kernel.Btree.{Map, get, contains_key, insert, nat_key}
use redox_os_kernel.Btree.Laws.{get-insert, get-insert_self}
use redox_os_kernel.Schemes.{
  SchemeList, get_scheme, get_name, is_taken, insert_at, insert_scheme, free_id,
}
use redox_os_kernel.Schemes.Names.{Name, name_key, eq_name, eq_name_iff}
use redox_os_kernel.Schemes.Fresh.{free_id_lem}

module _ {S : Type 0} where
  pub get_name_parts :
      (l : SchemeList S) (ns : ℕ) (name : Name) (id : ℕ) (s : S)
      → get_name l ns name ≡ some (id, s)
      → (names : Map Name ℕ) × (get ns l.names ≡ some names)
        × (get name names ≡ some id)
        × (get id l.map ≡ some s)
  unfolding get_name get_scheme
  get_name_parts l ns name id s h = elim (Option-cases (get ns l.names)) [
    | inl gone ↦ absurd (ground (arith, gone, h))
    | inr (names, at_ns) ↦ elim (Option-cases (get name names)) [
      | inl gone ↦ absurd (ground (arith, at_ns, gone, h))
      | inr (i, at_name) ↦ elim (Option-cases (get i l.map)) [
        | inl gone ↦ absurd (ground (arith, at_ns, at_name, gone, h))
        | inr (t, at_id) ↦
            let same : i ≡ id = ground (arith, at_ns, at_name, at_id, h) in
            (names, at_ns, ground (arith, at_name, same), ground (arith, at_ns, at_name, at_id, h))
      ]
    ]
  ]

  -- The identifier that a name has in a namespace, if there are both.
  abbrev pub id_of : SchemeList S → ℕ → Name → Option ℕ
  id_of l ns name = elim (get ns l.names) [ none ↦ none | some names ↦ get name names ]

  -- `insert` of a name that is free in a namespace that exists returns an identifier of no scheme;
  -- afterwards the name stands for that identifier and the new scheme, and every name that stood for
  -- a scheme, in whatever namespace, stands for the same one. The identifier of every other name, in
  -- whatever namespace, is what it was, none where there was none, and so is the scheme of every other
  -- identifier.
  pub insert_scheme_lem :
      (l : SchemeList S) (ns : ℕ) (name : Name) (scheme_fn : ℕ → S) (names : Map Name ℕ)
      → get ns l.names ≡ some names
      → get name names ≡ none
      → ((insert_scheme l ns name scheme_fn).1 ≡ ok (free_id l))
        × (get_scheme l (free_id l) ≡ none)
        × (get_name (insert_scheme l ns name scheme_fn).0 ns name
            ≡ some (free_id l, scheme_fn (free_id l)))
        × ((ns' : ℕ) (name' : Name) (id : ℕ) (s : S)
            → get_name l ns' name' ≡ some (id, s)
            → get_name (insert_scheme l ns name scheme_fn).0 ns' name' ≡ some (id, s))
        × ((ns' : ℕ) (name' : Name)
            → id_of (insert_scheme l ns name scheme_fn).0 ns' name'
              ≡ (if ns == ns' && eq_name name name' then some (free_id l) else id_of l ns' name'))
        × ((id : ℕ)
            → get_scheme (insert_scheme l ns name scheme_fn).0 id
              ≡ (if free_id l == id then some (scheme_fn (free_id l)) else get_scheme l id))
  unfolding insert_scheme insert_at is_taken get_name get_scheme contains_key
  insert_scheme_lem l ns name scheme_fn names here free =
      let fresh = free_id_lem l in
      let id = free_id l in
      let names' = insert name id names in
      (
        ground (arith, here, free, fresh),
        fresh,
        ground (
          arith,
          here,
          free,
          fresh,
          get-insert_self name id names,
          get-insert_self ns names' l.names,
          get-insert_self id (scheme_fn id) l.map,
        ),
        λ ns' name' i s known.
            let (old, at_ns, at_name, at_id) = get_name_parts l ns' name' i s known in
            ground (
              arith,
              here,
              free,
              fresh,
              at_ns,
              at_name,
              at_id,
              get-insert ns ns' names' l.names,
              get-insert name name' id names,
              eq_name_iff name name',
              get-insert id i (scheme_fn id) l.map,
            ),
        λ ns' name'. ground (
          arith,
          here,
          free,
          fresh,
          get-insert ns ns' names' l.names,
          get-insert name name' id names,
          ==_iff ns ns',
        ),
        λ i. ground (arith, here, free, fresh, get-insert id i (scheme_fn id) l.map),
      )

  -- `insert` into a namespace that does not exist fails with ENODEV, but the scheme that it made stays
  -- in the list by its identifier.
  pub insert_scheme_nowhere :
      (l : SchemeList S) (ns : ℕ) (name : Name) (scheme_fn : ℕ → S)
      → get ns l.names ≡ none
      → ((insert_scheme l ns name scheme_fn).1 ≡ err Errno.enodev)
        × (get_scheme l (free_id l) ≡ none)
        × (get_scheme (insert_scheme l ns name scheme_fn).0 (free_id l)
            ≡ some (scheme_fn (free_id l)))
  unfolding insert_scheme insert_at is_taken get_scheme contains_key
  insert_scheme_nowhere l ns name scheme_fn gone =
      let fresh = free_id_lem l in
      let kept = get-insert_self (free_id l) (scheme_fn (free_id l)) l.map in
      (ground (arith, gone, fresh), fresh, ground (arith, gone, fresh, kept))
