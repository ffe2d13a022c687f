-- ===== src/Schemes/Namespaces/Made.antt =====
-- A new namespace has the common names.
use redox_os_kernel.Prelude.{
  ℕ, ◌+◌, ◌%◌, ◌≡◌, ◌≢◌, refl, sym, subst, usize_mod, false, none, some, List, [], ◌∷◌, Result, ok,
  ◌∙◌, arith, All,
}
use redox_os_kernel.Btree.{Map, get, contains_key, insert, nat_key}
use redox_os_kernel.Btree.Laws.{get-insert, get-insert_self}
use redox_os_kernel.Schemes.{
  SchemeList, get_scheme, get_name, is_taken, insert_at, insert_scheme, free_id,
}
use redox_os_kernel.Schemes.Names.{Name, name_key, eq_name}
use redox_os_kernel.Schemes.Fresh.{free_id_lem}
use redox_os_kernel.Schemes.Insert.{insert_scheme_lem}
use redox_os_kernel.Schemes.Namespaces.{Makers, insert_each, common_schemes, new_ns}

-- No name is there twice.
abbrev pub Apart : List Name → Type 0
Apart [] = Unit {0}
Apart (n ∷ ns) = All (λ m. eq_name n m ≡ false) ns × Apart ns

-- No name is in the map.
abbrev pub AllFree : Map Name ℕ → List Name → Type 0
AllFree names = All (λ n. get n names ≡ none)

pub AllFree-insert :
    (name : Name) (id : ℕ) (names : Map Name ℕ) (ns : List Name)
    → All (λ m. eq_name name m ≡ false) ns
    → AllFree names ns
    → AllFree (insert name id names) ns
AllFree-insert name id names [] apart free = tt
AllFree-insert name id names (n ∷ ns) apart free = (
  ground (arith, get-insert name n id names, apart.0, free.0),
  AllFree-insert name id names ns apart.1 free.1,
)

module _ {S : Type 0} where
  abbrev pub names_in : List (Name × (ℕ → S)) → List Name
  names_in [] = []
  names_in ((name, scheme_fn) ∷ rest) = name ∷ names_in rest

  -- Every name that stands for a scheme in `l` stands for the same one in `l'`.
  abbrev pub Keeps : SchemeList S → SchemeList S → Type 0
  Keeps l l' =
      (ns : ℕ) (name : Name) (id : ℕ) (s : S)
      → get_name l ns name ≡ some (id, s)
      → get_name l' ns name ≡ some (id, s)

  -- Every name of the list stands for the scheme that its function makes.
  abbrev pub Stand : SchemeList S → ℕ → List (Name × (ℕ → S)) → Type 0
  Stand l ns = All (λ e. (id : ℕ) × (get_name l ns e.0 ≡ some (id, e.1 id)))

  insert_scheme_names :
      (l : SchemeList S) (ns : ℕ) (name : Name) (scheme_fn : ℕ → S) (names : Map Name ℕ)
      → get ns l.names ≡ some names
      → get name names ≡ none
      → get ns (insert_scheme l ns name scheme_fn).0.names ≡ some (insert name (free_id l) names)
  unfolding insert_scheme insert_at is_taken contains_key
  insert_scheme_names l ns name scheme_fn names here free =
      ground (
        arith,
        here,
        free,
        free_id_lem l,
        get-insert_self ns (insert name (free_id l) names) l.names,
      )

  insert_scheme_elsewhere :
      (l : SchemeList S) (ns ns' : ℕ) (name : Name) (scheme_fn : ℕ → S) (names : Map Name ℕ)
      → get ns l.names ≡ some names
      → get name names ≡ none
      → ns ≢ ns'
      → get ns' (insert_scheme l ns name scheme_fn).0.names ≡ get ns' l.names
  unfolding insert_scheme insert_at is_taken contains_key
  insert_scheme_elsewhere l ns ns' name scheme_fn names here free other = ground (
    arith,
    here,
    free,
    other,
    free_id_lem l,
    get-insert ns ns' (insert name (free_id l) names) l.names,
  )

  -- What some insertions into a namespace, which had the given names, come to.
  pub record Inserted (ns : ℕ) (list : List (Name × (ℕ → S))) (names : Map Name ℕ)
      (l : SchemeList S) (p : SchemeList S × Result (Unit {0})) : Type 0 where
    pub succeeds : p.1 ≡ ok tt
    pub keeps : Keeps l p.0
    pub stand : Stand p.0 ns list
    pub after : Map Name ℕ
    pub is_after : get ns p.0.names ≡ some after
    pub elsewhere : (ns' : ℕ) → ns ≢ ns' → get ns' p.0.names ≡ get ns' l.names
    pub others :
        (n : Name)
        → get n names ≡ none
        → All (λ e. eq_name e n ≡ false) (names_in list)
        → get n after ≡ none

  insert_each_lem :
      (ns : ℕ) (list : List (Name × (ℕ → S))) (l : SchemeList S) (names : Map Name ℕ)
      → get ns l.names ≡ some names
      → AllFree names (names_in list)
      → Apart (names_in list)
      → Inserted ns list names l (insert_each ns list l)
  unfolding insert_each
  insert_each_lem ns [] l names here free apart = record {
    succeeds = refl;
    keeps = λ ns' n id s h. h;
    stand = tt;
    after = names;
    is_after = here;
    elsewhere = λ ns' other. refl;
    others = λ n h a. h;
  }
  insert_each_lem ns ((name, scheme_fn) ∷ rest) l names here free apart =
      let (done, fresh, stands, keeps, ids, schemes) =
        insert_scheme_lem l ns name scheme_fn names here free.0 in
      let (l1, r1) = insert_scheme l ns name scheme_fn in
      let id = free_id l in
      let ih =
        insert_each_lem ns rest l1 (insert name id names)
          (insert_scheme_names l ns name scheme_fn names here free.0)
          (AllFree-insert name id names (names_in rest) apart.0 free.1) apart.1 in
      let e : insert_each ns ((name, scheme_fn) ∷ rest) l ≡ insert_each ns rest l1 =
        ground (arith, done) in
      subst (Inserted ns ((name, scheme_fn) ∷ rest) names l) (sym e) (record {
        succeeds = ih.succeeds;
        keeps = λ ns' n i s known. ih.keeps ns' n i s (keeps ns' n i s known);
        stand = ((id, ih.keeps ns name id (scheme_fn id) stands), ih.stand);
        after = ih.after;
        is_after = ih.is_after;
        elsewhere = λ ns' other.
            ih.elsewhere ns' other
            ∙ insert_scheme_elsewhere l ns ns' name scheme_fn names here free.0 other;
        others =
            λ n gone a. ih.others n (ground (arith, get-insert name n id names, gone, a.0)) a.1;
      })

  -- What `new_ns` comes to.
  pub record Made (k : Makers S) (l l' : SchemeList S) (r : Result ℕ) : Type 0 where
    pub succeeds : r ≡ ok l.next_ns
    pub keeps :
        (ns : ℕ) (name : Name) (id : ℕ) (s : S)
        → ns ≢ l.next_ns
        → get_name l ns name ≡ some (id, s)
        → get_name l' ns name ≡ some (id, s)
    pub stand : Stand l' l.next_ns (common_schemes k l.next_ns)
    pub after : Map Name ℕ
    pub is_after : get l.next_ns l'.names ≡ some after
    pub elsewhere : (ns : ℕ) → l.next_ns ≢ ns → get ns l'.names ≡ get ns l.names
    pub others :
        (n : Name)
        → All (λ e. eq_name e n ≡ false) (names_in (common_schemes k l.next_ns))
        → get n after ≡ none

  -- `new_ns` succeeds and gives the next number; the new namespace has the common names, each for the
  -- scheme that is made for it, and no other. A name of another namespace stands for the same scheme
  -- as before.
  pub new_ns-Made : (k : Makers S) (l : SchemeList S) → Made k l (new_ns k l).0 (new_ns k l).1
  unfolding new_ns get_name get_scheme get
  new_ns-Made k l =
      let ns = l.next_ns in
      let l1 : SchemeList S = record l {
        names = insert ns [] l.names;
        next_ns = (ns + 1) % usize_mod;
      } in
      let here = get-insert_self ns [] l.names in
      let free : AllFree [] (names_in (common_schemes k ns)) = ground arith in
      let apart : Apart (names_in (common_schemes k ns)) = ground arith in
      let done = insert_each_lem ns (common_schemes k ns) l1 [] here free apart in
      record {
        succeeds = ground (arith, done.succeeds);
        keeps = λ n name id s other known.
            done.keeps n name id s (ground (arith, get-insert ns n [] l.names, known, other));
        stand = done.stand;
        after = done.after;
        is_after = done.is_after;
        elsewhere =
            λ n other. ground (arith, done.elsewhere n other, get-insert ns n [] l.names, other);
        others = λ n a. done.others n refl a;
      }
