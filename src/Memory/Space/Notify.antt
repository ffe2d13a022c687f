-- ===== src/Memory/Space/Notify.antt =====
-- `munmap` of src/context/memory.rs, with the loop that tells the schemes of the files that lay in the
-- range. What a scheme does is a parameter, and may change the state of the schemes.
use redox_os_kernel.Prelude.{
  ℕ, ◌≡◌, ◌≢◌, ◌==◌, refl, inl, inr, arith, Bool-cases, Option-cases, Result-cases, none, some,
  List, [], ◌∷◌, Result, ok, err, panic, ◌>>=◌, map_ok,
}
use redox_os_kernel.Btree.{get, nat_key}
use redox_os_kernel.Memory.Region.{Region}
use redox_os_kernel.Memory.Grants.{GrantFileRef}
use redox_os_kernel.Memory.Space.{AddrSpace, Mapper, PageFlags, munmap_grants}
use redox_os_kernel.Schemes.{SchemeList, get_scheme}
use redox_os_kernel.Events.{Events, unregister_file}
use redox_os_kernel.Fs.Descriptors.{
  FileDescriptor, Owned, Store, release, close_descriptor, close_file,
}

-- `funmap` and `close` of a scheme object.
pub record Calls (S X : Type 0) : Type 0 where
  pub funmap : S → ℕ → ℕ → X → X × Result ℕ
  pub close : S → ℕ → X → X × Result ℕ

module _ {S X : Type 0} (calls : Calls S X) (schemes : SchemeList S) where
  -- The end of a round: `let _ = file_ref.desc.close()`.
  unfoldable pub close_file_ref : FileDescriptor → Store × Events X → Result (Store × Events X)
  unfolding close_descriptor
  close_file_ref desc w =
      let (w', r) = close_descriptor calls.close schemes desc w in
      elim r [ ok n ↦ ok w' | err e ↦ ok w' | panic ↦ panic ]

  -- A round. Without a scheme the reference is dropped, and not closed. The description of a reference
  -- is always there, since the reference owns it.
  unfoldable pub tell_file :
      {F : Type 0}
      → GrantFileRef F FileDescriptor × Region
      → Store × Events X
      → Result (Store × Events X)
  unfolding close_file_ref release get_scheme
  tell_file (file_ref, intersection) (store, ev) = elim (get file_ref.desc.description store) [
    | none ↦ ok (store, ev)
    | some o ↦ elim (get_scheme schemes o.description.scheme) [
      | none ↦ ok (release file_ref.desc.description store, ev)
      | some scheme ↦
          let (outside, r) = calls.funmap scheme intersection.start intersection.size ev.outside in
          let closed = close_file_ref file_ref.desc (store, record ev { outside = outside }) in
          elim r [ ok n ↦ closed | err e ↦ closed | panic ↦ panic ]
    ]
  ]

  unfoldable pub tell_files :
      {F : Type 0}
      → List (GrantFileRef F FileDescriptor × Region)
      → Store × Events X
      → Result (Store × Events X)
  unfolding tell_file
  tell_files [] w = ok w
  tell_files (file ∷ files) w = tell_file file w >>= tell_files files

-- `munmap`
unfoldable pub munmap :
    {S X F M : Type 0}
    → ℕ
    → PageFlags F
    → Mapper F M
    → Calls S X
    → SchemeList S
    → ℕ
    → ℕ
    → AddrSpace F FileDescriptor M × Store × Events X
    → Result (AddrSpace F FileDescriptor M × Store × Events X)
unfolding munmap_grants tell_files
munmap page api mapper calls schemes number count (s, store, ev) =
    munmap_grants page api mapper number count s >>= λ (s', notify).
    map_ok (λ w'. (s', w'.0, w'.1)) (tell_files calls schemes notify (store, ev))

-- `funmap` and `close` of a scheme return, with a value or an error.
pub record Returns {S X : Type 0} (calls : Calls S X) : Type 0 where
  pub funmap_returns : (s : S) (a n : ℕ) (x : X) → (calls.funmap s a n x).1 ≢ panic
  pub close_returns : (s : S) (n : ℕ) (x : X) → (calls.close s n x).1 ≢ panic

module _ {S X : Type 0} (calls : Calls S X) (schemes : SchemeList S) (returns : Returns calls) where
  close_file_ref-returns :
      (desc : FileDescriptor) (o : Owned) (w : Store × Events X)
      → get desc.description w.0 ≡ some o
      → (w' : Store × Events X) × (close_file_ref calls schemes desc w ≡ ok w')
  unfolding close_file_ref close_descriptor close_file unregister_file get_scheme
  close_file_ref-returns desc o (store, ev) there =
      let gone = unregister_file o.description.scheme o.description.number ev in
      elim (Bool-cases (o.owners == 1)) [
        | inr more ↦ ((release desc.description store, ev), ground (arith, there, more))
        | inl last ↦ elim (Option-cases (get_scheme schemes o.description.scheme)) [
          | inl missing ↦
              ((release desc.description store, gone), ground (arith, there, last, missing))
          | inr (scheme, known) ↦
              let c = calls.close scheme o.description.number gone.outside in
              let after : Store × Events X =
                (release desc.description store, record gone { outside = c.0 }) in
              elim (Result-cases c.1) [
                | inl (k, e) ↦ (after, ground (arith, there, last, known, e))
                | inr (inl (x, e)) ↦ (after, ground (arith, there, last, known, e))
                | inr (inr e) ↦
                    absurd (returns.close_returns scheme o.description.number gone.outside e)
              ]
        ]
      ]

  tell_file-returns :
      {F : Type 0} (file : GrantFileRef F FileDescriptor × Region) (w : Store × Events X)
      → (w' : Store × Events X) × (tell_file calls schemes file w ≡ ok w')
  unfolding tell_file
  tell_file-returns (file, r) (store, ev) = elim (Option-cases (get file.desc.description store)) [
    | inl gone ↦ ((store, ev), ground (arith, gone))
    | inr (o, there) ↦ elim (Option-cases (get_scheme schemes o.description.scheme)) [
      | inl missing ↦ ((release file.desc.description store, ev), ground (arith, there, missing))
      | inr (scheme, known) ↦
          let c = calls.funmap scheme r.start r.size ev.outside in
          let (after, closed) =
            close_file_ref-returns file.desc o (store, record ev { outside = c.0 }) there in
          elim (Result-cases c.1) [
            | inl (k, e) ↦ (after, ground (arith, there, known, e, closed))
            | inr (inl (x, e)) ↦ (after, ground (arith, there, known, e, closed))
            | inr (inr e) ↦ absurd (returns.funmap_returns scheme r.start r.size ev.outside e)
          ]
    ]
  ]

  -- The second loop comes to its end.
  pub tell_files-returns :
      {F : Type 0} (files : List (GrantFileRef F FileDescriptor × Region)) (w : Store × Events X)
      → (w' : Store × Events X) × (tell_files calls schemes files w ≡ ok w')
  unfolding tell_files
  tell_files-returns [] w = (w, refl)
  tell_files-returns (file ∷ files) w =
      let (w1, e1) = tell_file-returns file w in
      let (w2, e2) = tell_files-returns files w1 in (w2, rw e1 e2)
