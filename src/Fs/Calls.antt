-- ===== src/Fs/Calls.antt =====
-- What the steps of the calls do to the number of the owners of a description.
use redox_os_kernel.Prelude.{
  Bool, ℕ, ◌+◌, ◌-◌, ◌≤◌, ◌<◌, ◌≡◌, ◌≢◌, refl, Option, none, some, [], arith, ◌==◌, ==_iff,
  Option-cases, inl, inr, Result, ok, err, panic,
}
use redox_os_kernel.Btree.{get, nat_key}
use redox_os_kernel.Btree.Laws.{get-insert, get-remove}
use redox_os_kernel.Fs.{
  World, Current, OpenResult, scheme_local, external, with_files, make_description, placed, place,
  opened_file,
}
use redox_os_kernel.Fs.Descriptors.{FileDescription, Owned, FileDescriptor, Store, share, release}
use redox_os_kernel.Fs.Owners.{
  Table, Adds, one_if, refers, count, owners_in, owners_in-share, owners_in-release,
}

pub get-release_absent :
    (d e : ℕ) (store : Store) → get e store ≡ none → get e (release d store) ≡ none
unfolding release
get-release_absent d e store h = elim (Option-cases (get d store)) [
  | inl gone ↦ ground (arith, gone, h)
  | inr (o, here) ↦ ground (
    arith,
    h,
    here,
    get-insert d e (record o { owners = o.owners - 1 }) store,
    get-remove d e store,
    ==_iff d e,
  )
]

get-share_absent : (d e : ℕ) (store : Store) → get e store ≡ none → get e (share d store) ≡ none
unfolding share
get-share_absent d e store h = elim (Option-cases (get d store)) [
  | inl gone ↦ ground (arith, gone, h)
  | inr (o, here) ↦
      ground (arith, h, here, get-insert d e (record o { owners = o.owners + 1 }) store, ==_iff d e)
]

-- What a call holds that results in a descriptor.
unfoldable pub held_by : Result FileDescriptor → ℕ → ℕ
held_by (ok file) d = one_if (file.description == d)
held_by (err e) d = 0
held_by panic d = 0

module _ {X : Type 0} where
  unfoldable pub files_of : World X → Table
  files_of w = elim w.current [ none ↦ [] | some c ↦ c.files ]

  -- A description has one owner for each descriptor of the table, with `elsewhere` those of the other
  -- tables and `held` those that a call has in its hands; no description has a name that is still to
  -- be given.
  pub record Tallied (elsewhere held : ℕ → ℕ) (w : World X) : Type 0 where
    pub counted : (d : ℕ) → owners_in d w.store ≡ count d (files_of w) + elsewhere d + held d
    pub fresh : (d : ℕ) → w.next ≤ d → get d w.store ≡ none

  abbrev pub IsCounted : (ℕ → ℕ) → World X → Type 0
  IsCounted elsewhere = Tallied elsewhere (λ d. 0)

  placed-IsCounted :
      (elsewhere : ℕ → ℕ) (c : Current) (file : FileDescriptor) (r : Table × Option ℕ) (w : World X)
      → w.current ≡ some c
      → Adds file c.files r
      → Tallied elsewhere (held_by (ok file)) w
      → IsCounted elsewhere (placed file r w).0
  unfolding placed with_files files_of held_by refers
  placed-IsCounted elsewhere c file (files, some i) w here adds t = record {
    counted = λ d. ground (arith, here, adds d, t.counted d);
    fresh = λ d h. ground (arith, here, t.fresh d, h);
  }
  placed-IsCounted elsewhere c file (files, none) w here adds t =
      let e = file.description in
      let some_owner : 0 < owners_in e w.store = ground (arith, here, t.counted e, ==_iff e e) in
      record {
        counted = λ d.
            ground (arith, here, adds d, t.counted d, owners_in-release e d w.store some_owner);
        fresh = λ d h. ground (arith, here, get-release_absent e d w.store, t.fresh d, h);
      }

  pub place-IsCounted :
      (elsewhere : ℕ → ℕ) (add : Table → FileDescriptor → Table × Option ℕ)
      (r : Result FileDescriptor) (w : World X)
      → ((files : Table) (file : FileDescriptor) → Adds file files (add files file))
      → Tallied elsewhere (held_by r) w
      → IsCounted elsewhere (place add (w, r)).0
  unfolding place files_of held_by
  place-IsCounted elsewhere add (err e) w adds t = t
  place-IsCounted elsewhere add panic w adds t = t
  place-IsCounted elsewhere add (ok file) w adds t = elim (Option-cases w.current) [
    | inl gone ↦
        let e = file.description in
        let some_owner : 0 < owners_in e w.store = ground (arith, gone, t.counted e, ==_iff e e) in
        record {
          counted =
              λ d. ground (arith, gone, t.counted d, owners_in-release e d w.store some_owner);
          fresh = λ d h. ground (arith, gone, get-release_absent e d w.store, t.fresh d, h);
        }
    | inr (c, here) ↦
        let placed =
          placed-IsCounted elsewhere c file (add c.files file) w here (adds c.files file) t in
        record {
          counted = λ d. ground (arith, here, placed.counted d);
          fresh = λ d h. ground (arith, here, placed.fresh d);
        }
  ]

  pub share-Tallied :
      (elsewhere : ℕ → ℕ) (d : ℕ) (o : Owned) (w : World X)
      → get d w.store ≡ some o
      → IsCounted elsewhere w
      → Tallied elsewhere (λ e. one_if (d == e)) (record w { store = share d w.store })
  unfolding files_of
  share-Tallied elsewhere d o w there t = record {
    counted = λ e. ground (arith, t.counted e, owners_in-share d e o w.store there);
    fresh = λ e h. ground (arith, t.fresh e, h, get-share_absent d e w.store);
  }

  pub opened_file-Tallied :
      (elsewhere : ℕ → ℕ) (file : FileDescription) (cloexec : Bool) (r : Result OpenResult)
      (w : World X)
      → ((d : ℕ) → r ≢ ok (external d))
      → IsCounted elsewhere w
      → let (w', r') = opened_file file cloexec r w in Tallied elsewhere (held_by r') w'
  unfolding opened_file make_description held_by files_of owners_in
  opened_file-Tallied elsewhere file cloexec (err e) w local t = t
  opened_file-Tallied elsewhere file cloexec panic w local t = t
  opened_file-Tallied elsewhere file cloexec (ok (external d)) w local t = absurd (local d refl)
  opened_file-Tallied elsewhere file cloexec (ok (scheme_local number)) w local t =
      let made : Owned = record { description = record file { number = number }; owners = 1 } in
      record {
        counted = λ d.
            ground
              (arith, t.counted d, t.fresh d, get-insert w.next d made w.store, ==_iff w.next d);
        fresh =
            λ d h. ground (arith, t.fresh d, h, get-insert w.next d made w.store, ==_iff w.next d);
      }
