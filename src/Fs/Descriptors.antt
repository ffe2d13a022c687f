-- ===== src/Fs/Descriptors.antt =====
-- src/context/file.rs. A file description is shared, and has as many owners as there are
-- `FileDescriptor`s for it in the tables of files: `store` has the descriptions by name, each with the
-- number of its owners.
use redox_os_kernel.Prelude.{
  ℕ, ◌+◌, ◌-◌, Bool, none, some, ◌==◌, leb, if◌then◌else◌, Result, ok, err, panic, Errno,
}
use redox_os_kernel.Btree.{Map, get, insert, remove, nat_key}
use redox_os_kernel.Schemes.{SchemeList, get_scheme}
use redox_os_kernel.Events.{Events, unregister_file}

pub record FileDescription : Type 0 where
  pub namespace : ℕ
  pub scheme : ℕ
  pub number : ℕ
  pub flags : ℕ

pub record Owned : Type 0 where
  pub description : FileDescription
  pub owners : ℕ

pub record FileDescriptor : Type 0 where
  pub description : ℕ
  pub cloexec : Bool

abbrev pub Store : Type 0
Store = Map ℕ Owned

-- `Arc::clone`
unfoldable pub share : ℕ → Store → Store
share d store = elim (get d store) [
  | none ↦ store
  | some o ↦ insert d (record o { owners = o.owners + 1 }) store
]

-- An owner is dropped, and the description with the last one.
unfoldable pub release : ℕ → Store → Store
release d store = elim (get d store) [
  | none ↦ store
  | some o ↦
      if leb o.owners 1 then remove d store else insert d (record o { owners = o.owners - 1 }) store
]

module _ {S X : Type 0} (scheme_close : S → ℕ → X → X × Result ℕ) (schemes : SchemeList S) where
  -- What the last owner does to the file.
  unfoldable pub close_file : FileDescription → Events X → Events X × Result ℕ
  unfolding unregister_file get_scheme
  close_file file ev =
      let gone = unregister_file file.scheme file.number ev in
      elim (get_scheme schemes file.scheme) [
        | none ↦ (gone, err Errno.ebadf)
        | some scheme ↦
            let (outside, r) = scheme_close scheme file.number gone.outside in
            (record gone { outside = outside }, r)
      ]

  -- `FileDescriptor::close`
  unfoldable pub close_descriptor :
      FileDescriptor → Store × Events X → (Store × Events X) × Result ℕ
  unfolding release close_file
  close_descriptor fd (store, ev) = elim (get fd.description store) [
    | none ↦ ((store, ev), panic)
    | some o ↦
        let (ev', r) = close_file o.description ev in
        let store' = release fd.description store in
        if o.owners == 1 then ((store', ev'), r) else ((store', ev), ok 0)
  ]
