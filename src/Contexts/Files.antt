-- ===== src/Contexts/Files.antt =====
-- The table of open files of a context: `add_file`, `add_file_min`, `get_file`, `insert_file` and
-- `remove_file` of src/context/context.rs. A file descriptor is a value of a type `A`.
pub mod Lookup
pub mod Lowest
use redox_os_kernel.Prelude.{
  ℕ, zero, suc, ◌+◌, ◌-◌, ◌≡◌, Bool, true, false, ◌&&◌, Option, none, some, List, [], ◌∷◌, ◌++◌,
  ltb, leb, length, get_elem?, set, if◌then◌else◌,
}

abbrev pub context_max_files : ℕ
context_max_files = 65536

module _ {ℓ} {A : Type ℓ} where
  unfoldable pub get_file : List (Option A) → ℕ → Option A
  get_file files i = elim (get_elem? files i) [ none ↦ none | some file ↦ file ]

  -- The loop of `add_file_min`: the first slot that is free, from `min` on; `i` is the index of the
  -- first slot in the list.
  unfoldable pub free_slot : ℕ → ℕ → List (Option A) → Option ℕ
  free_slot min i [] = none
  free_slot min i (some file ∷ files) = free_slot min (i + 1) files
  free_slot min i (none ∷ files) = if leb min i then some i else free_slot min (i + 1) files

  -- The loop of `insert_file`, for `n` more slots.
  unfoldable pub push_free : ℕ → List (Option A) → List (Option A)
  push_free zero files = files
  push_free (suc n) files = push_free n (files ++ none ∷ [])

  unfoldable pub insert_file : List (Option A) → ℕ → A → List (Option A) × Option ℕ
  unfolding push_free get_file
  insert_file files i file =
      let files' = push_free (i + 1 - length files) files in
      if ltb i context_max_files
      then elim (get_file files' i) [
        | none ↦ (set files' i (some file), some i)
        | some taken ↦ (files', none)
      ]
      else (files, none)

  unfoldable pub add_file_min : List (Option A) → A → ℕ → List (Option A) × Option ℕ
  unfolding free_slot insert_file
  add_file_min files file min = elim (free_slot min 0 files) [
    | some i ↦ (set files i (some file), some i)
    | none ↦
        let len = length files in
        if ltb len context_max_files
        then if leb min len then (files ++ some file ∷ [], some len) else insert_file files min file
        else (files, none)
  ]

  unfoldable pub add_file : List (Option A) → A → List (Option A) × Option ℕ
  unfolding add_file_min
  add_file files file = add_file_min files file 0

  unfoldable pub remove_file : List (Option A) → ℕ → List (Option A) × Option A
  unfolding get_file
  remove_file files i =
      if ltb i (length files) then (set files i none, get_file files i) else (files, none)
