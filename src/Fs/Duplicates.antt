-- ===== src/Fs/Duplicates.antt =====
-- `close`, `dup` and `dup2` keep the number of the owners of every description.
use native.Mathlib.Decide.{ℕ_discrete}
use redox_os_kernel.Prelude.{
  ℕ, ◌<◌, ◌≡◌, ◌≢◌, false, Option, arith, ==_iff, Option-cases, Bool-cases, inl, inr, ok, err,
  panic, Errno,
}
use redox_os_kernel.Btree.{get, nat_key}
use redox_os_kernel.Schemes.{SchemeList, get_scheme}
use redox_os_kernel.UserSlice.{UserSlice, is_empty}
use redox_os_kernel.Contexts.Files.{get_file, add_file, insert_file}
use redox_os_kernel.Contexts.Files.Lookup.{remove_file_lem}
use redox_os_kernel.Fs.{
  World, Caller, SchemeCalls, Flags, external, with_files, place, close, opened_file,
  duplicate_file, dup, dup2,
}
use redox_os_kernel.Fs.Descriptors.{FileDescriptor, share, close_descriptor}
use redox_os_kernel.Fs.Owners.{
  Table, refers, owners_in, owners_in-release, count-remove_file, insert_file-Adds,
  add_file_min-Adds,
}
use redox_os_kernel.Fs.Calls.{
  get-release_absent, held_by, files_of, Tallied, IsCounted, place-IsCounted, share-Tallied,
  opened_file-Tallied,
}

module _ {S X : Type 0} (calls : SchemeCalls S X) (f : Flags) (schemes : SchemeList S) where
  -- After `close`, in whatever way it ends, every description has as many owners as it has
  -- descriptors, if it had before.
  pub close-IsCounted :
      (elsewhere : ℕ → ℕ) (fd : ℕ) (w : World X)
      → IsCounted elsewhere w
      → IsCounted elsewhere (close calls f schemes fd w).0
  unfolding close with_files files_of close_descriptor refers owners_in
  close-IsCounted elsewhere fd w t = elim (Option-cases w.current) [
    | inl gone ↦ record {
      counted = λ d. ground (arith, gone, t.counted d);
      fresh = λ d h. ground (arith, gone, t.fresh d, h);
    }
    | inr (c, here) ↦
        let removed = remove_file_lem c.files fd in
        elim (Option-cases (get_file c.files fd)) [
          | inl free ↦ record {
            counted = λ d.
                ground (arith, here, free, removed.0, t.counted d, count-remove_file d fd c.files);
            fresh = λ d h. ground (arith, here, free, removed.0, t.fresh d, h);
          }
          | inr (file, opened) ↦
              let e = file.description in
              let owned : 0 < owners_in e w.store =
                ground
                  (arith, here, opened, t.counted e, count-remove_file e fd c.files, ==_iff e e) in
              elim (Option-cases (get e w.store)) [
                | inl gone ↦ absurd (ground (arith, owned, gone))
                | inr (o, there) ↦ record {
                  counted = λ d. ground (
                    arith,
                    here,
                    opened,
                    there,
                    removed.0,
                    t.counted d,
                    count-remove_file d fd c.files,
                    owners_in-release e d w.store owned,
                  );
                  fresh = λ d h. ground (
                    arith,
                    here,
                    opened,
                    there,
                    removed.0,
                    get-release_absent e d w.store,
                    t.fresh d,
                    h,
                  );
                }
              ]
        ]
  ]

  -- `kdup` makes no description that others share.
  abbrev pub IsLocal : Type 0
  IsLocal =
      (s : S) (n : ℕ) (buf : UserSlice) (caller : Caller) (x : X) (d : ℕ)
      → (calls.kdup s n buf caller x).1 ≢ ok (external d)

  pub duplicate_file-Tallied :
      (elsewhere : ℕ → ℕ) (fd : ℕ) (buf : UserSlice) (w : World X)
      → IsLocal
      → IsCounted elsewhere w
      → let (w', r) = duplicate_file calls f schemes fd buf w in Tallied elsewhere (held_by r) w'
  unfolding duplicate_file held_by files_of
  duplicate_file-Tallied elsewhere fd buf w local t =
      let call = duplicate_file calls f schemes fd buf w in
      elim (Option-cases w.current) [
        | inl gone ↦ let e : call ≡ (w, err Errno.esrch) = ground (arith, gone) in rw e t
        | inr (c, here) ↦ elim (Option-cases (get_file c.files fd)) [
          | inl free ↦ let e : call ≡ (w, err Errno.ebadf) = ground (arith, here, free) in rw e t
          | inr (file, opened) ↦ elim (Option-cases (get file.description w.store)) [
            | inl missing ↦
                let e : call ≡ (w, panic) = ground (arith, here, opened, missing) in rw e t
            | inr (o, there) ↦ elim (Bool-cases (is_empty buf)) [
              | inl empty ↦
                  let e : call ≡ (
                    record w { store = share file.description w.store },
                    ok (record { description = file.description; cloexec = false }),
                  ) =
                    ground (arith, here, opened, there, empty) in
                  rw e (share-Tallied elsewhere file.description o w there t)
              | inr full ↦ elim (Option-cases (get_scheme schemes o.description.scheme)) [
                | inl unknown ↦
                    let e : call ≡ (w, err Errno.ebadf) =
                      ground (arith, here, opened, there, full, unknown) in
                    rw e t
                | inr (s, known) ↦
                    let (x, r) = calls.kdup s o.description.number buf c.caller w.events.outside in
                    let w' : World X = record w { events = record w.events { outside = x } } in
                    let e : call ≡ opened_file o.description false r w' =
                      ground (arith, here, opened, there, full, known) in
                    rw e (
                      opened_file-Tallied elsewhere o.description false r w'
                        (local s o.description.number buf c.caller w.events.outside)
                        (record { counted = t.counted; fresh = t.fresh }))
              ]
            ]
          ]
        ]
      ]

  -- `dup` keeps for every description that it has as many owners as descriptors, in whatever way it
  -- ends: also where the table is full, and the file that was made for the call is dropped. The
  -- schemes must make no description that others share.
  pub dup-IsCounted :
      (elsewhere : ℕ → ℕ) (fd : ℕ) (buf : UserSlice) (w : World X)
      → IsLocal
      → IsCounted elsewhere w
      → IsCounted elsewhere (dup calls f schemes fd buf w).0
  unfolding dup add_file
  dup-IsCounted elsewhere fd buf w local t =
      let (w', r) = duplicate_file calls f schemes fd buf w in
      place-IsCounted elsewhere add_file r w' (λ files file. add_file_min-Adds file 0 files)
        (duplicate_file-Tallied elsewhere fd buf w local t)

  -- `dup2`, which closes the file that it replaces, keeps for every description that it has as many
  -- owners as descriptors, in whatever way it ends. The schemes must make no description that others
  -- share.
  pub dup2-IsCounted :
      (elsewhere : ℕ → ℕ) (fd new_fd : ℕ) (buf : UserSlice) (w : World X)
      → IsLocal
      → IsCounted elsewhere w
      → IsCounted elsewhere (dup2 calls f schemes fd new_fd buf w).0
  unfolding dup2
  dup2-IsCounted elsewhere fd new_fd buf w local t = elim (ℕ_discrete fd new_fd) [
    | yes same ↦
        let e : dup2 calls f schemes fd new_fd buf w ≡ (w, ok new_fd) = ground (arith, same) in
        rw e t
    | no apart ↦
        let closed = (close calls f schemes new_fd w).0 in
        let add : Table → FileDescriptor → Table × Option ℕ =
          λ files file. insert_file files new_fd file in
        let (w', r) = duplicate_file calls f schemes fd buf closed in
        let e : dup2 calls f schemes fd new_fd buf w ≡ place add (w', r) = ground (arith, apart) in
        rw e (
          place-IsCounted elsewhere add r w' (λ files file. insert_file-Adds file new_fd files)
            (duplicate_file-Tallied elsewhere fd buf closed local
              (close-IsCounted elsewhere new_fd w t)))
  ]
