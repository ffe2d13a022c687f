-- ===== src/Schemes/Namespaces.antt =====
-- The namespaces of src/scheme/mod.rs: `new_ns`, `new_null`, `new_root` and `make_ns`. A name is the
-- list of its bytes.
pub mod Made
pub mod Copied
use redox_os_kernel.Prelude.{
  ℕ, zero, suc, ◌+◌, ◌%◌, Bool, true, false, not, Option, none, some, List, [], ◌∷◌, ◌++◌, Result,
  ok, err, panic, Errno, assert, if◌then◌else◌, usize_mod,
}
use redox_os_kernel.Btree.{Map, get, contains_key, insert, nat_key}
use redox_os_kernel.Schemes.{SchemeList, get_name, insert_scheme}
use redox_os_kernel.Schemes.Names.{Name, name_key}
use redox_os_kernel.Schemes.Builtin.{
  event_name, itimer_name, memory_name, pipe_name, sys_name, time_name, thisproc_name, debug_name,
  irq_name, proc_name, serio_name, acpi_name, disk_live_name,
}

-- The constructors of the schemes that the kernel has in every namespace (`RootScheme::new` and so
-- on), and in the null namespace and the root one.
pub record Makers (S : Type 0) : Type 0 where
  pub root : ℕ → ℕ → S
  pub event : S
  pub itimer : S
  pub memory : S
  pub pipe : ℕ → S
  pub sys : S
  pub time : ℕ → S
  pub thisproc : S
  pub debug : ℕ → S
  pub irq : ℕ → S
  pub proc : ℕ → S
  pub serio : ℕ → S
  pub acpi : Option (ℕ → S)
  pub disk_live : Option S

module _ {S : Type 0} where
  -- `insert(...).unwrap()` for each name in turn.
  unfoldable pub insert_each :
      ℕ → List (Name × (ℕ → S)) → SchemeList S → SchemeList S × Result (Unit {0})
  unfolding insert_scheme
  insert_each ns [] l = (l, ok tt)
  insert_each ns ((name, scheme_fn) ∷ rest) l =
      let (l', r) = insert_scheme l ns name scheme_fn in
      let after = insert_each ns rest l' in
      elim r [ ok id ↦ after | err e ↦ (l', panic) | panic ↦ (l', panic) ]

  abbrev pub null_schemes : Makers S → List (Name × (ℕ → S))
  null_schemes k =
      (memory_name, λ id. k.memory) ∷ (thisproc_name, λ id. k.thisproc) ∷ (pipe_name, k.pipe) ∷ []

  abbrev pub common_schemes : Makers S → ℕ → List (Name × (ℕ → S))
  common_schemes k ns =
      ([], k.root ns)
      ∷ (event_name, λ id. k.event)
      ∷ (itimer_name, λ id. k.itimer)
      ∷ (memory_name, λ id. k.memory)
      ∷ (pipe_name, k.pipe)
      ∷ (sys_name, λ id. k.sys)
      ∷ (time_name, k.time)
      ∷ []

  abbrev pub root_schemes : Makers S → List (Name × (ℕ → S))
  root_schemes k =
      (elim k.acpi [ none ↦ [] | some acpi ↦ (acpi_name, acpi) ∷ [] ])
      ++ (debug_name, k.debug)
        ∷ (irq_name, k.irq)
        ∷ (proc_name, k.proc)
        ∷ (thisproc_name, λ id. k.thisproc)
        ∷ (serio_name, k.serio)
        ∷ (elim k.disk_live [ none ↦ [] | some disk ↦ (disk_live_name, λ id. disk) ∷ [] ])

  unfoldable pub new_null : Makers S → SchemeList S → SchemeList S × Result (Unit {0})
  unfolding insert_each
  new_null k l = insert_each 0 (null_schemes k) (record l { names = insert 0 [] l.names })

  unfoldable pub new_ns : Makers S → SchemeList S → SchemeList S × Result ℕ
  unfolding insert_each
  new_ns k l =
      let ns = l.next_ns in
      let l1 = record l { names = insert ns [] l.names; next_ns = (ns + 1) % usize_mod } in
      let (l2, r) = insert_each ns (common_schemes k ns) l1 in
      (l2, elim r [ ok u ↦ ok ns | err e ↦ err e | panic ↦ panic ])

  unfoldable pub new_root : Makers S → SchemeList S → SchemeList S × Result (Unit {0})
  unfolding new_ns insert_each
  new_root k l =
      let (l', r) = new_ns k l in
      elim r [
        | ok ns ↦ insert_each ns (root_schemes k) l'
        | err e ↦ (l', err e)
        | panic ↦ (l', panic)
      ]

  -- `SchemeList::new`
  unfoldable pub new : Makers S → SchemeList S × Result (Unit {0})
  unfolding new_null new_root
  new k =
      let (l, r) = new_null k (record { map = []; names = []; next_ns = 1; next_id = 1 }) in
      elim r [ ok u ↦ new_root k l | err e ↦ (l, err e) | panic ↦ (l, panic) ]

  -- A turn of the loop of `make_ns`, once the name is found.
  unfoldable pub copy_name : ℕ → Name → ℕ → SchemeList S → SchemeList S × Result (Unit {0})
  copy_name to name id l = elim (get to l.names) [
    | none ↦ (l, panic)
    | some names ↦ (
      record l { names = insert to (insert name id names) l.names },
      assert (not (contains_key name names)),
    )
  ]

  unfoldable pub copy_names : ℕ → ℕ → List Name → SchemeList S → SchemeList S × Result (Unit {0})
  unfolding get_name copy_name
  copy_names from to [] l = (l, ok tt)
  copy_names from to (name ∷ names) l = elim (get_name l from name) [
    | none ↦ (l, err Errno.enodev)
    | some (id, scheme) ↦
        let (l', r) = copy_name to name id l in
        let after = copy_names from to names l' in
        elim r [ ok u ↦ after | err e ↦ (l', err e) | panic ↦ (l', panic) ]
  ]

  unfoldable pub make_ns : Makers S → ℕ → List Name → SchemeList S → SchemeList S × Result ℕ
  unfolding new_ns copy_names
  make_ns k from names l =
      let (l1, r) = new_ns k l in
      elim r [
        | err e ↦ (l1, err e)
        | panic ↦ (l1, panic)
        | ok to ↦
            let (l2, r2) = copy_names from to names l1 in
            (l2, elim r2 [ ok u ↦ ok to | err e ↦ err e | panic ↦ panic ])
      ]
