-- ===== src/Contexts/Files/Lowest.antt =====
-- `add_file_min` takes the lowest free slot.
use native.Mathlib.Decide.{dec_lt}
use redox_os_kernel.Prelude.{
  ℕ, zero, suc, ◌+◌, ◌-◌, ◌≤◌, ◌<◌, ◌≡◌, ◌≢◌, ◌⊎◌, inl, inr, refl, Option, none, some, List, [],
  ◌∷◌, arith, ◌==◌, length, if◌then◌else◌, length-append,
}
use redox_os_kernel.Contexts.Files.{
  get_file, free_slot, push_free, insert_file, add_file_min, context_max_files,
}
use redox_os_kernel.Contexts.Files.Lookup.{
  get_file-set, length-set, get_file_beyond, get_file-append, length-push_free, get_file-push_free,
}

module _ {ℓ} {A : Type ℓ} where
  -- Every slot from `min` on, below `end`, has a file.
  abbrev pub Taken : ℕ → ℕ → List (Option A) → Type ℓ
  Taken min end files = (j : ℕ) → min ≤ j → j < end → get_file files j ≢ none

  -- The table `after` is the table `before` with the file in slot `i`, which was the lowest free one
  -- from `min` on.
  pub record Placed (before after : List (Option A)) (file : A) (min i : ℕ) : Type ℓ where
    pub from_min : min ≤ i
    pub in_bounds : i < context_max_files
    pub was_free : get_file before i ≡ none
    pub is_lowest : Taken min i before
    pub is_placed : (j : ℕ) → get_file after j ≡ (if j == i then some file else get_file before j)
    pub stays_bounded : length after ≤ context_max_files

  -- The slots before `b` have files, where they count from `min` on; `i` is the index of the first.
  abbrev Before : ℕ → ℕ → ℕ → List (Option A) → Type ℓ
  Before min i b files = (e : ℕ) → e < b → min ≤ i + e → get_file files e ≢ none

  Before-taken :
      (min i b : ℕ) (file : A) (files : List (Option A))
      → Before min (i + 1) b files
      → Before min i (suc b) (some file ∷ files)
  unfolding get_file
  Before-taken min i b file files h zero lt m = λ e. ground (arith, e)
  Before-taken min i b file files h (suc e) lt m = h e (omega arith) (omega arith)

  Before-below :
      (min i b : ℕ) (files : List (Option A))
      → i < min
      → Before min (i + 1) b files
      → Before min i (suc b) (none ∷ files)
  unfolding get_file
  Before-below min i b files below h zero lt m = absurd (omega arith)
  Before-below min i b files below h (suc e) lt m = h e (omega arith) (omega arith)

  pub free_slot_lem :
      (min i : ℕ) (files : List (Option A))
      → ((d : ℕ) × (free_slot min i files ≡ some (i + d))
          × (d < length files)
          × (min ≤ i + d)
          × (get_file files d ≡ none)
          × Before min i d files)
        ⊎ ((free_slot min i files ≡ none) × Before min i (length files) files)
  unfolding free_slot get_file
  free_slot_lem min i [] = inr (refl, λ e h. absurd (omega arith))
  free_slot_lem min i (some file ∷ files) = elim (free_slot_lem min (i + 1) files) [
    | inl (d, found, h, m, free, low) ↦
        let shift : i + 1 + d ≡ i + suc d = omega arith in
        inl (
          suc d,
          ground (arith, found, shift),
          omega arith,
          omega arith,
          free,
          Before-taken min i d file files low,
        )
    | inr (gone, low) ↦ inr (gone, Before-taken min i (length files) file files low)
  ]
  free_slot_lem min i (none ∷ files) = elim (dec_lt i min) [
    | yes below ↦ elim (free_slot_lem min (i + 1) files) [
      | inl (d, found, h, m, free, low) ↦
          let shift : i + 1 + d ≡ i + suc d = omega arith in
          inl (
            suc d,
            ground (arith, found, shift),
            omega arith,
            omega arith,
            free,
            Before-below min i d files below low,
          )
      | inr (gone, low) ↦
          inr (ground (arith, gone), Before-below min i (length files) files below low)
    ]
    | no above ↦
        let here : i ≡ i + 0 = omega arith in
        inl (0, ground (arith, here), omega arith, omega arith, refl, λ e h. absurd (omega arith))
  ]

  -- A file for a slot that is free, and beyond all the files from `min` on.
  insert_file_lem :
      (files : List (Option A)) (file : A) (min : ℕ)
      → length files ≤ context_max_files
      → length files ≤ min
      → min < context_max_files
      → ((insert_file files min file).1 ≡ some min)
        × Placed files (insert_file files min file).0 file min min
  unfolding insert_file
  insert_file_lem files file min fits beyond lt =
      let n = min + 1 - length files in
      let size = length-push_free n files in
      let free = get_file_beyond files min beyond in
      let still = get_file-push_free n files min in
      (
        ground (arith, free, still),
        record {
          from_min = omega arith;
          in_bounds = lt;
          was_free = free;
          is_lowest = λ j a b. absurd (omega arith);
          is_placed = λ j. ground (
            arith,
            free,
            still,
            get_file-push_free n files j,
            get_file-set (push_free n files) min j (some file) (omega arith),
          );
          stays_bounded =
              ground (arith, free, still, length-set (push_free n files) min (some file), size);
        },
      )

  insert_file_full :
      (files : List (Option A)) (file : A) (min : ℕ)
      → context_max_files ≤ min
      → insert_file files min file ≡ (files, none)
  unfolding insert_file
  insert_file_full files file min h = ground arith

  -- `add_file_min` puts the file into the lowest free slot from `min` on and returns its number, and
  -- changes no other slot; it fails exactly where every slot from `min` on has a file, and then
  -- changes nothing. The table never grows over its limit.
  pub add_file_min_lem :
      (files : List (Option A)) (file : A) (min : ℕ)
      → length files ≤ context_max_files
      → ((i : ℕ) × ((add_file_min files file min).1 ≡ some i)
          × Placed files (add_file_min files file min).0 file min i)
        ⊎ ((add_file_min files file min ≡ (files, none)) × Taken min context_max_files files)
  unfolding add_file_min
  add_file_min_lem files file min fits = elim (free_slot_lem min 0 files) [
    | inl (d, found, h, m, free, low) ↦ inl (
      d,
      ground (arith, found),
      record {
        from_min = omega arith;
        in_bounds = omega arith;
        was_free = free;
        is_lowest = λ j a b. low j b (omega arith);
        is_placed = λ j. ground (arith, found, get_file-set files d j (some file) h);
        stays_bounded = ground (arith, found, length-set files d (some file));
      },
    )
    | inr (gone, low) ↦ elim (dec_lt (length files) context_max_files) [
      | no full ↦ inr (ground (arith, gone), λ j a b. low j (omega arith) (omega arith))
      | yes room ↦ elim (dec_lt (length files) min) [
        | no p ↦ inl (
          length files,
          ground (arith, gone),
          record {
            from_min = omega arith;
            in_bounds = omega arith;
            was_free = get_file_beyond files (length files) (omega arith);
            is_lowest = λ j a b. low j b (omega arith);
            is_placed = λ j. ground (arith, gone, get_file-append files j (some file));
            stays_bounded = ground (arith, gone, length-append files (some file ∷ []));
          },
        )
        | yes p ↦ elim (dec_lt min context_max_files) [
          | yes q ↦
              let (e, placed) = insert_file_lem files file min fits (omega arith) q in
              let same : add_file_min files file min ≡ insert_file files min file =
                ground (arith, gone) in
              inl (min, rw same e, rw same placed)
          | no q ↦
              let same : add_file_min files file min ≡ (files, none) =
                ground (arith, gone, insert_file_full files file min (omega arith)) in
              inr (same, λ j a b. absurd (omega arith))
        ]
      ]
    ]
  ]
