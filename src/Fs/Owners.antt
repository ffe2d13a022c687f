-- ===== src/Fs/Owners.antt =====
-- How many descriptors of a table are of a description, and what the updates do to this number and to
-- the number of its owners.
use native.Mathlib.Decide.{dec_lt}
use redox_os_kernel.Prelude.{
  ℕ, zero, suc, ◌+◌, ◌-◌, ◌<◌, ◌≡◌, refl, Bool, Option, none, some, List, [], ◌∷◌, ◌++◌, arith,
  ◌==◌, ==_iff, length, set, if◌then◌else◌, Option-cases, inl, inr,
}
use redox_os_kernel.Btree.{get, nat_key}
use redox_os_kernel.Btree.Laws.{get-insert, get-remove}
use redox_os_kernel.Contexts.Files.{
  get_file, remove_file, add_file_min, insert_file, push_free, context_max_files,
}
use redox_os_kernel.Contexts.Files.Lookup.{get_file_beyond, length-push_free}
use redox_os_kernel.Contexts.Files.Lowest.{free_slot_lem}
use redox_os_kernel.Fs.Descriptors.{Owned, FileDescriptor, Store, share, release}

abbrev pub Table : Type 0
Table = List (Option FileDescriptor)

abbrev pub one_if : Bool → ℕ
one_if b = if b then 1 else 0

unfoldable pub refers : ℕ → Option FileDescriptor → ℕ
refers d none = 0
refers d (some file) = one_if (file.description == d)

unfoldable pub count : ℕ → Table → ℕ
unfolding refers
count d [] = 0
count d (slot ∷ files) = refers d slot + count d files

unfoldable pub owners_in : ℕ → Store → ℕ
owners_in d store = elim (get d store) [ none ↦ 0 | some o ↦ o.owners ]

pub count-set :
    (d i : ℕ) (slot : Option FileDescriptor) (files : Table)
    → i < length files
    → count d (set files i slot) + refers d (get_file files i) ≡ count d files + refers d slot
unfolding count get_file
count-set d i slot [] h = absurd (omega arith)
count-set d zero slot (s ∷ files) h = omega arith
count-set d (suc i) slot (s ∷ files) h = omega (arith, count-set d i slot files (omega arith))

count-append :
    (d : ℕ) (slot : Option FileDescriptor) (files : Table)
    → count d (files ++ slot ∷ []) ≡ count d files + refers d slot
unfolding count
count-append d slot [] = omega arith
count-append d slot (s ∷ files) = omega (arith, count-append d slot files)

count-push_free : (d n : ℕ) (files : Table) → count d (push_free n files) ≡ count d files
unfolding push_free refers
count-push_free d zero files = refl
count-push_free d (suc n) files =
    omega (arith, count-push_free d n (files ++ none ∷ []), count-append d none files)

pub count-remove_file :
    (d i : ℕ) (files : Table)
    → count d (remove_file files i).0 + refers d (get_file files i) ≡ count d files
unfolding remove_file refers
count-remove_file d i files = elim (dec_lt i (length files)) [
  | yes p ↦ ground (arith, count-set d i none files p)
  | no p ↦ ground (arith, get_file_beyond files i)
]

-- An update that puts a file into a free slot, or finds none and keeps all files.
abbrev pub Adds : FileDescriptor → Table → Table × Option ℕ → Type 0
Adds file files r =
    (d : ℕ) → count d r.0 ≡ count d files + (elim r.1 [ none ↦ 0 | some i ↦ refers d (some file) ])

pub insert_file-Adds :
    (file : FileDescriptor) (i : ℕ) (files : Table) → Adds file files (insert_file files i file)
unfolding insert_file refers
insert_file-Adds file i files d =
    let files' = push_free (i + 1 - length files) files in
    let same = count-push_free d (i + 1 - length files) files in
    elim (dec_lt i context_max_files) [
      | yes p ↦ elim (Option-cases (get_file files' i)) [
        | inl free ↦
            let long = length-push_free (i + 1 - length files) files in
            let filled = count-set d i (some file) files' (omega (arith, long)) in
            ground (arith, p, free, filled, same)
        | inr (taken, here) ↦ ground (arith, p, here, same)
      ]
      | no p ↦ ground (arith, p)
    ]

pub add_file_min-Adds :
    (file : FileDescriptor) (min : ℕ) (files : Table)
    → Adds file files (add_file_min files file min)
unfolding add_file_min refers
add_file_min-Adds file min files d = elim (free_slot_lem min 0 files) [
  | inl (i, found, bound, above, free, rest) ↦
      ground (arith, found, free, count-set d i (some file) files bound)
  | inr (gone, rest) ↦
      ground (arith, gone, count-append d (some file) files, insert_file-Adds file min files d)
]

pub owners_in-share :
    (d e : ℕ) (o : Owned) (store : Store)
    → get d store ≡ some o
    → owners_in e (share d store) ≡ owners_in e store + one_if (d == e)
unfolding owners_in share
owners_in-share d e o store h =
    ground (arith, h, get-insert d e (record o { owners = o.owners + 1 }) store, ==_iff d e)

pub owners_in-release :
    (d e : ℕ) (store : Store)
    → 0 < owners_in d store
    → owners_in e (release d store) + one_if (d == e) ≡ owners_in e store
unfolding owners_in release
owners_in-release d e store h = elim (Option-cases (get d store)) [
  | inl gone ↦ absurd (ground (arith, gone, h))
  | inr (o, here) ↦ ground (
    arith,
    h,
    here,
    get-insert d e (record o { owners = o.owners - 1 }) store,
    get-remove d e store,
    ==_iff d e,
  )
]
