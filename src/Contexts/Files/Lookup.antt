-- ===== src/Contexts/Files/Lookup.antt =====
-- What the updates of the table do to a lookup.
use native.Mathlib.Decide.{dec_lt}
use redox_os_kernel.Prelude.{
  ℕ, zero, suc, ◌+◌, ◌≤◌, ◌<◌, ◌≡◌, refl, ap, Option, none, List, [], ◌∷◌, ◌++◌, arith, ◌==◌,
  length, set, if◌then◌else◌, length-append,
}
use redox_os_kernel.Contexts.Files.{get_file, push_free, remove_file}

module _ {ℓ} {A : Type ℓ} where
  pub get_file-set :
      (files : List (Option A)) (i j : ℕ) (o : Option A)
      → i < length files
      → get_file (set files i o) j ≡ (if j == i then o else get_file files j)
  unfolding get_file
  get_file-set [] i j o h = absurd (omega arith)
  get_file-set (f ∷ files) zero zero o h = refl
  get_file-set (f ∷ files) zero (suc j) o h = ground arith
  get_file-set (f ∷ files) (suc i) zero o h = ground arith
  get_file-set (f ∷ files) (suc i) (suc j) o h =
      ground (arith, get_file-set files i j o (omega arith))

  pub length-set :
      (files : List (Option A)) (i : ℕ) (o : Option A) → length (set files i o) ≡ length files
  length-set [] i o = refl
  length-set (f ∷ files) zero o = refl
  length-set (f ∷ files) (suc i) o = ap suc (length-set files i o)

  pub get_file_beyond :
      (files : List (Option A)) (j : ℕ) → length files ≤ j → get_file files j ≡ none
  unfolding get_file
  get_file_beyond [] j h = refl
  get_file_beyond (f ∷ files) zero h = absurd (omega arith)
  get_file_beyond (f ∷ files) (suc j) h = get_file_beyond files j (omega arith)

  pub get_file-append :
      (files : List (Option A)) (j : ℕ) (o : Option A)
      → get_file (files ++ o ∷ []) j ≡ (if j == length files then o else get_file files j)
  unfolding get_file
  get_file-append [] zero o = refl
  get_file-append [] (suc j) o = ground arith
  get_file-append (f ∷ files) zero o = ground arith
  get_file-append (f ∷ files) (suc j) o = ground (arith, get_file-append files j o)

  pub length-push_free :
      (n : ℕ) (files : List (Option A)) → length (push_free n files) ≡ n + length files
  unfolding push_free
  length-push_free zero files = omega arith
  length-push_free (suc n) files =
      omega (arith, length-push_free n (files ++ none ∷ []), length-append files (none ∷ []))

  pub get_file-push_free :
      (n : ℕ) (files : List (Option A)) (j : ℕ) → get_file (push_free n files) j ≡ get_file files j
  unfolding push_free
  get_file-push_free zero files j = refl
  get_file-push_free (suc n) files j = ground (
    arith,
    get_file-push_free n (files ++ none ∷ []) j,
    get_file-append files j none,
    get_file_beyond files j,
  )

  -- `remove_file` gives the file of its slot, if it has one, and frees that slot and no other.
  pub remove_file_lem :
      (files : List (Option A)) (i : ℕ)
      → ((remove_file files i).1 ≡ get_file files i)
        × ((j : ℕ)
            → get_file (remove_file files i).0 j ≡ (if j == i then none else get_file files j))
  unfolding remove_file
  remove_file_lem files i = elim (dec_lt i (length files)) [
    | yes p ↦ (ground arith, λ j. ground (arith, get_file-set files i j none p))
    | no p ↦
        let free = get_file_beyond files i (omega arith) in
        (ground (arith, free), λ j. ground (arith, free))
  ]
