-- ===== src/Schemes.antt =====
-- `SchemeList` of src/scheme/mod.rs: the schemes by their identifier, and in each namespace the
-- identifiers by name. A scheme object is a value of a type `S`; `scheme_fn` makes it.
pub mod Names
pub mod Builtin
pub mod Namespaces
pub mod Fresh
pub mod Insert
pub mod Remove
mod Tests
use redox_os_kernel.Prelude.{
  ℕ, zero, suc, ◌+◌, ◌%◌, ◌≡◌, Bool, true, false, not, ◌&&◌, ◌||◌, Option, none, some, List, [],
  ◌∷◌, Result, ok, err, panic, Errno, ok_or, expect, guard, assert, ◌>>=◌, ◌>>◌, ltb, leb, ◌==◌,
  length, if◌then◌else◌, usize_mod,
}
use redox_os_kernel.Btree.{Key, Map, get, contains_key, insert, remove, nat_key}
use redox_os_kernel.Btree.Free.{next_free}
use redox_os_kernel.Schemes.Names.{Name, name_key}

abbrev pub scheme_max_schemes : ℕ
scheme_max_schemes = 65536

pub record SchemeList (S : Type 0) : Type 0 where
  pub map : Map ℕ S
  pub names : Map ℕ (Map Name ℕ)
  pub next_ns : ℕ
  pub next_id : ℕ

-- The names in a namespace that stand for the scheme.
unfoldable pub names_of : ℕ → Map Name ℕ → List Name
names_of id [] = []
names_of id ((name, name_id) ∷ names) =
    if name_id == id then name ∷ names_of id names else names_of id names

unfoldable pub remove_names : List Name → Map Name ℕ → Result (Map Name ℕ)
remove_names [] names = ok names
remove_names (n ∷ ns) names = do assert (contains_key n names); remove_names ns (remove n names)

unfoldable pub remove_everywhere : ℕ → Map ℕ (Map Name ℕ) → Result (Map ℕ (Map Name ℕ))
unfolding names_of remove_names
remove_everywhere id [] = ok []
remove_everywhere id ((ns, names) ∷ rest) = do
  names' ← remove_names (names_of id names) names
  rest' ← remove_everywhere id rest
  ok ((ns, names') ∷ rest')

module _ {S : Type 0} where
  unfoldable pub get_scheme : SchemeList S → ℕ → Option S
  get_scheme l id = get id l.map

  -- `get_name`
  unfoldable pub get_name : SchemeList S → ℕ → Name → Option (ℕ × S)
  unfolding get_scheme
  get_name l ns name = elim (get ns l.names) [
    | none ↦ none
    | some names ↦ elim (get name names) [
      | none ↦ none
      | some id ↦ elim (get_scheme l id) [ none ↦ none | some scheme ↦ some (id, scheme) ]
    ]
  ]

  -- The `while` loop cannot go on for longer than there are schemes, and so stays far from 2^64.
  unfoldable pub free_id : SchemeList S → ℕ
  unfolding next_free
  free_id l =
      next_free (length l.map) l.map (if leb scheme_max_schemes l.next_id then 1 else l.next_id)

  -- Whether the name is taken.
  unfoldable pub is_taken : SchemeList S → ℕ → Name → Bool
  is_taken l ns name = elim (get ns l.names) [ none ↦ false | some names ↦ contains_key name names ]

  -- `insert` once the identifier is found. The scheme stays in `map` where there is no namespace.
  unfoldable pub insert_at : SchemeList S → ℕ → Name → (ℕ → S) → ℕ → SchemeList S × Result ℕ
  insert_at l ns name scheme_fn id =
      let l' = record l { map = insert id (scheme_fn id) l.map; next_id = id + 1 } in
      if contains_key id l.map then (l', panic) else elim (get ns l.names) [
        | none ↦ (l', err Errno.enodev)
        | some names ↦
            if contains_key name names
            then (l', panic)
            else (record l' { names = insert ns (insert name id names) l.names }, ok id)
      ]

  unfoldable pub insert_scheme : SchemeList S → ℕ → Name → (ℕ → S) → SchemeList S × Result ℕ
  unfolding free_id is_taken insert_at
  insert_scheme l ns name scheme_fn =
      if is_taken l ns name
      then (l, err Errno.eexist)
      else insert_at l ns name scheme_fn (free_id l)

  unfoldable pub remove_scheme : SchemeList S → ℕ → Result (SchemeList S)
  unfolding remove_everywhere
  remove_scheme l id = do
    assert (contains_key id l.map)
    names ← remove_everywhere id l.names
    ok (record l { map = remove id l.map; names = names })
