-- ===== src/Schemes/Namespaces/Copied.antt =====
-- `make_ns` gives a namespace the names that it is to have from another one.
use redox_os_kernel.Prelude.{
  ℕ, ◌≡◌, ◌≢◌, refl, sym, subst, ◌∙◌, false, none, some, List, [], ◌∷◌, Result, ok, arith, All,
}
use redox_os_kernel.Btree.{Map, get, contains_key, insert, nat_key}
use redox_os_kernel.Btree.Laws.{get-insert, get-insert_self}
use redox_os_kernel.Schemes.{SchemeList, get_scheme, get_name}
use redox_os_kernel.Schemes.Names.{Name, name_key, eq_name, eq_name_iff}
use redox_os_kernel.Schemes.Insert.{get_name_parts, id_of}
use redox_os_kernel.Schemes.Namespaces.{
  Makers, common_schemes, new_ns, copy_name, copy_names, make_ns,
}
use redox_os_kernel.Schemes.Namespaces.Made.{
  Apart, AllFree, Stand, AllFree-insert, names_in, Keeps, Made, new_ns-Made,
}

module _ {S : Type 0} where
  -- What the loop of `make_ns` comes to, from the namespace `from` to `to`.
  pub record Copied (from to : ℕ) (list : List Name) (l : SchemeList S)
      (p : SchemeList S × Result (Unit {0})) : Type 0 where
    pub succeeds : p.1 ≡ ok tt
    pub keeps : Keeps l p.0
    pub same : All (λ name. get_name p.0 to name ≡ get_name l from name) list
    pub elsewhere : (ns : ℕ) → to ≢ ns → get ns p.0.names ≡ get ns l.names
    pub only : (n : Name) → All (λ e. eq_name e n ≡ false) list → id_of p.0 to n ≡ id_of l to n

  copy_name_lem :
      (to : ℕ) (name : Name) (id : ℕ) (s : S) (l : SchemeList S) (names : Map Name ℕ)
      → get to l.names ≡ some names
      → get name names ≡ none
      → get_scheme l id ≡ some s
      → ((copy_name to name id l).1 ≡ ok tt)
        × (get to (copy_name to name id l).0.names ≡ some (insert name id names))
        × (get_name (copy_name to name id l).0 to name ≡ some (id, s))
        × Keeps l (copy_name to name id l).0
        × ((ns : ℕ) → to ≢ ns → get ns (copy_name to name id l).0.names ≡ get ns l.names)
        × ((n : Name)
            → eq_name name n ≡ false
            → id_of (copy_name to name id l).0 to n ≡ id_of l to n)
  unfolding copy_name contains_key get_name get_scheme
  copy_name_lem to name id s l names here free known =
      let at_to = get-insert_self to (insert name id names) l.names in
      let at_name = get-insert_self name id names in
      (
        ground (arith, here, free),
        ground (arith, here, at_to),
        ground (arith, here, at_to, at_name, known),
        λ ns' name' i t found.
            let (old, at_ns, at_old, at_id) = get_name_parts l ns' name' i t found in
            ground (
              arith,
              here,
              free,
              at_ns,
              at_old,
              at_id,
              get-insert to ns' (insert name id names) l.names,
              get-insert name name' id names,
              eq_name_iff name name',
            ),
        λ ns other. ground (arith, here, other, get-insert to ns (insert name id names) l.names),
        λ n other. ground (arith, here, at_to, other, get-insert name n id names),
      )

  -- Every name of the list stands for a scheme in the namespace.
  abbrev pub AllKnown : SchemeList S → ℕ → List Name → Type 0
  AllKnown l from = All (λ name. (e : ℕ × S) × (get_name l from name ≡ some e))

  AllKnown-Keeps :
      (l l' : SchemeList S) (from : ℕ) (list : List Name)
      → Keeps l l'
      → AllKnown l from list
      → AllKnown l' from list
  AllKnown-Keeps l l' from [] keeps known = tt
  AllKnown-Keeps l l' from (name ∷ list) keeps (((id, s), here), known) =
      (((id, s), keeps from name id s here), AllKnown-Keeps l l' from list keeps known)

  same-Keeps :
      (l l1 l2 : SchemeList S) (from to : ℕ) (list : List Name)
      → Keeps l l1
      → AllKnown l from list
      → All (λ name. get_name l2 to name ≡ get_name l1 from name) list
      → All (λ name. get_name l2 to name ≡ get_name l from name) list
  same-Keeps l l1 l2 from to [] keeps known same = tt
  same-Keeps l l1 l2 from to (name ∷ list) keeps (((id, s), here), known) same = (
    same.0 ∙ keeps from name id s here ∙ sym here,
    same-Keeps l l1 l2 from to list keeps known same.1,
  )

  copy_names-Copied :
      (from to : ℕ) (list : List Name) (l : SchemeList S) (names : Map Name ℕ)
      → get to l.names ≡ some names
      → AllFree names list
      → Apart list
      → AllKnown l from list
      → Copied from to list l (copy_names from to list l)
  unfolding copy_names
  copy_names-Copied from to [] l names here free apart known = record {
    succeeds = refl;
    keeps = λ ns n id s h. h;
    same = tt;
    elsewhere = λ ns other. refl;
    only = λ n other. refl;
  }
  copy_names-Copied from to (name ∷ list) l names here free apart (((id, s), stands), known) =
      let (old, at_ns, at_name, at_id) = get_name_parts l from name id s stands in
      let (done, here', copied, keeps, elsewhere, only) =
        copy_name_lem to name id s l names here free.0 at_id in
      let l1 = (copy_name to name id l).0 in
      let ih =
        copy_names-Copied from to list l1 (insert name id names) here'
          (AllFree-insert name id names list apart.0 free.1) apart.1
          (AllKnown-Keeps l l1 from list keeps known) in
      let e : copy_names from to (name ∷ list) l ≡ copy_names from to list l1 =
        ground (arith, stands, done) in
      subst (Copied from to (name ∷ list) l) (sym e) (record {
        succeeds = ih.succeeds;
        keeps = λ ns n i t h. ih.keeps ns n i t (keeps ns n i t h);
        same = (
          ih.keeps to name id s copied ∙ sym stands,
          same-Keeps l l1 (copy_names from to list l1).0 from to list keeps known ih.same,
        );
        elsewhere = λ ns other. ih.elsewhere ns other ∙ elsewhere ns other;
        only = λ n others. ih.only n others.1 ∙ only n others.0;
      })

  AllFree-others :
      (k : Makers S) (l l' : SchemeList S) (r : Result ℕ) (made : Made k l l' r) (list : List Name)
      → All (λ n. All (λ e. eq_name e n ≡ false) (names_in (common_schemes k l.next_ns))) list
      → AllFree made.after list
  AllFree-others k l l' r made [] h = tt
  AllFree-others k l l' r made (n ∷ list) h =
      (made.others n h.0, AllFree-others k l l' r made list h.1)

  AllKnown-Made :
      (k : Makers S) (l l' : SchemeList S) (r : Result ℕ) (from : ℕ) (list : List Name)
      → Made k l l' r
      → from ≢ l.next_ns
      → AllKnown l from list
      → AllKnown l' from list × All (λ n. get_name l' from n ≡ get_name l from n) list
  AllKnown-Made k l l' r from [] made other known = (tt, tt)
  AllKnown-Made k l l' r from (n ∷ list) made other (((id, s), here), known) =
      let kept = made.keeps from n id s other here in
      let (rest, same) = AllKnown-Made k l l' r from list made other known in
      ((((id, s), kept), rest), (kept ∙ sym here, same))

  All-trans :
      (l l1 l2 : SchemeList S) (from to : ℕ) (list : List Name)
      → All (λ n. get_name l2 to n ≡ get_name l1 from n) list
      → All (λ n. get_name l1 from n ≡ get_name l from n) list
      → All (λ n. get_name l2 to n ≡ get_name l from n) list
  All-trans l l1 l2 from to [] h1 h2 = tt
  All-trans l l1 l2 from to (n ∷ list) h1 h2 =
      (h1.0 ∙ h2.0, All-trans l l1 l2 from to list h1.1 h2.1)

  Stand-Keeps :
      (l l' : SchemeList S) (ns : ℕ) (list : List (Name × (ℕ → S)))
      → Keeps l l'
      → Stand l ns list
      → Stand l' ns list
  Stand-Keeps l l' ns [] keeps stand = tt
  Stand-Keeps l l' ns (e ∷ list) keeps ((id, here), stand) =
      ((id, keeps ns e.0 id (e.1 id) here), Stand-Keeps l l' ns list keeps stand)

  id_of-none :
      (l : SchemeList S) (ns : ℕ) (n : Name) (names : Map Name ℕ)
      → get ns l.names ≡ some names
      → get n names ≡ none
      → id_of l ns n ≡ none
  id_of-none l ns n names here gone = ground (arith, here, gone)

  -- `make_ns` succeeds with the next number. In the new namespace each of the names stands for the same
  -- scheme as in the given one, each common name for a scheme that is made for it, and there is no
  -- other name. The names of every other namespace and their identifiers are what they were, and those
  -- that stood for a scheme stand for the same one. The names must be known in the given namespace, which is not the new one, be apart, and
  -- none of them be a common one.
  pub make_ns_lem :
      (k : Makers S) (from : ℕ) (list : List Name) (l : SchemeList S)
      → from ≢ l.next_ns
      → AllKnown l from list
      → Apart list
      → All (λ n. All (λ e. eq_name e n ≡ false) (names_in (common_schemes k l.next_ns))) list
      → let (l', r) = make_ns k from list l in
        (r ≡ ok l.next_ns)
        × All (λ n. get_name l' l.next_ns n ≡ get_name l from n) list
        × ((ns : ℕ) (name : Name) (id : ℕ) (s : S)
            → ns ≢ l.next_ns
            → get_name l ns name ≡ some (id, s)
            → get_name l' ns name ≡ some (id, s))
        × ((ns : ℕ) → l.next_ns ≢ ns → get ns l'.names ≡ get ns l.names)
        × Stand l' l.next_ns (common_schemes k l.next_ns)
        × ((n : Name)
            → All (λ e. eq_name e n ≡ false) list
            → All (λ e. eq_name e n ≡ false) (names_in (common_schemes k l.next_ns))
            → id_of l' l.next_ns n ≡ none)
  unfolding make_ns
  make_ns_lem k from list l other known apart strange =
      let made = new_ns-Made k l in
      let l1 = (new_ns k l).0 in
      let (known1, same1) = AllKnown-Made k l l1 (new_ns k l).1 from list made other known in
      let free = AllFree-others k l l1 (new_ns k l).1 made list strange in
      let copied =
        copy_names-Copied from l.next_ns list l1 made.after made.is_after free apart known1 in
      let l2 = (copy_names from l.next_ns list l1).0 in
      let e : make_ns k from list l ≡ (l2, ok l.next_ns) =
        ground (arith, made.succeeds, copied.succeeds) in
      subst
        (λ p.
          (p.1 ≡ ok l.next_ns)
          × All (λ n. get_name p.0 l.next_ns n ≡ get_name l from n) list
          × ((ns : ℕ) (name : Name) (id : ℕ) (s : S)
              → ns ≢ l.next_ns
              → get_name l ns name ≡ some (id, s)
              → get_name p.0 ns name ≡ some (id, s))
          × ((ns : ℕ) → l.next_ns ≢ ns → get ns p.0.names ≡ get ns l.names)
          × Stand p.0 l.next_ns (common_schemes k l.next_ns)
          × ((n : Name)
              → All (λ e. eq_name e n ≡ false) list
              → All (λ e. eq_name e n ≡ false) (names_in (common_schemes k l.next_ns))
              → id_of p.0 l.next_ns n ≡ none))
        (sym e)
        (
          refl,
          All-trans l l1 l2 from l.next_ns list copied.same same1,
          λ ns name id s apart' h. copied.keeps ns name id s (made.keeps ns name id s apart' h),
          λ ns apart'. copied.elsewhere ns apart' ∙ made.elsewhere ns apart',
          Stand-Keeps l1 l2 l.next_ns (common_schemes k l.next_ns) copied.keeps made.stand,
          λ n unasked uncommon.
              copied.only n unasked
              ∙ id_of-none l1 l.next_ns n made.after made.is_after (made.others n uncommon),
        )
