-- ===== src/UserSlice/Chunks.antt =====
-- Walking a slice in chunks.
use native.Mathlib.Decide.{dec_lt}
use redox_os_kernel.Prelude.{
  ℕ, zero, suc, ◌+◌, ◌-◌, ◌*◌, ◌/◌, ◌≤◌, ◌<◌, ◌≡◌, refl, true, false, List, [], ◌∷◌, ok, arith, ltb,
  ◌==◌,
}
use native.Mathlib.Nat.{div-add-mod'}
use redox_os_kernel.UserSlice.{
  UserSlice, in_exact_chunks, exact_chunks_from, in_variable_chunks, variable_chunks_from,
}
use redox_os_kernel.UserSlice.Bounds.{IsUser, advance_lem, limit_lem}

-- `n` slices of `chunk` bytes, one behind the other from `base` on.
abbrev pub slices : ℕ → ℕ → ℕ → List UserSlice
slices zero chunk base = []
slices (suc n) chunk base = record { base = base; len = chunk } ∷ slices n chunk (base + chunk)

exact_chunks_from_lem :
    (s : UserSlice) (chunk n i : ℕ)
    → IsUser s
    → (i + n) * chunk ≤ s.len
    → exact_chunks_from n s chunk i ≡ ok (slices n chunk (s.base + i * chunk))
unfolding exact_chunks_from
exact_chunks_from_lem s chunk zero i h le = refl
exact_chunks_from_lem s chunk (suc n) i h le =
    let ih = exact_chunks_from_lem s chunk n (i + 1) h (omega arith) in
    let next : s.base + (i + 1) * chunk ≡ s.base + i * chunk + chunk = omega arith in
    rw (
      advance_lem s (i * chunk) h (omega arith),
      limit_lem (record { base = s.base + i * chunk; len = s.len - i * chunk }) chunk (omega arith),
      ih,
      next,
    )

-- `in_exact_chunks` of a slice of user memory gives as many whole chunks as fit, one behind the other
-- from its start, if a chunk is not empty.
pub in_exact_chunks_lem :
    (s : UserSlice) (chunk : ℕ)
    → IsUser s
    → 0 < chunk
    → in_exact_chunks s chunk ≡ ok (slices (s.len / chunk) chunk s.base)
unfolding in_exact_chunks
in_exact_chunks_lem s chunk h pos =
    let no_step : (chunk == 0) ≡ false = ground arith in
    let start : s.base + 0 * chunk ≡ s.base = omega arith in
    rw (
      no_step,
      exact_chunks_from_lem s chunk (s.len / chunk) 0 h (omega (arith, div-add-mod' s.len chunk)),
      start,
    )

-- The ends of a slice from every `chunk`-th byte on.
abbrev pub tails : ℕ → ℕ → ℕ → ℕ → List UserSlice
tails zero chunk base len = []
tails (suc n) chunk base len = elim (ltb 0 len) [
  | false ↦ []
  | true ↦ record { base = base; len = len } ∷ tails n chunk (base + chunk) (len - chunk)
]

variable_chunks_from_lem :
    (s : UserSlice) (chunk fuel i : ℕ)
    → IsUser s
    → variable_chunks_from fuel s chunk i ≡ ok (tails fuel chunk (s.base + i) (s.len - i))
unfolding variable_chunks_from
variable_chunks_from_lem s chunk zero i h = refl
variable_chunks_from_lem s chunk (suc fuel) i h =
    let ih = variable_chunks_from_lem s chunk fuel (i + chunk) h in
    let next : s.base + (i + chunk) ≡ s.base + i + chunk = omega arith in
    let less : s.len - (i + chunk) ≡ s.len - i - chunk = omega arith in
    elim (dec_lt i s.len) [
      | yes p ↦ ground (arith, advance_lem s i h (omega arith), ih, next, less)
      | no p ↦ ground arith
    ]

-- `in_variable_chunks` of a slice of user memory gives the rest of the slice from every `chunk`-th
-- byte on (each reaches to the end of the slice), if the step is not 0.
pub in_variable_chunks_lem :
    (s : UserSlice) (chunk : ℕ)
    → IsUser s
    → 0 < chunk
    → in_variable_chunks s chunk ≡ ok (tails s.len chunk s.base s.len)
unfolding in_variable_chunks
in_variable_chunks_lem s chunk h pos =
    let no_step : (chunk == 0) ≡ false = ground arith in
    let start : s.base + 0 ≡ s.base = omega arith in
    let whole : s.len - 0 ≡ s.len = omega arith in
    rw (no_step, variable_chunks_from_lem s chunk s.len 0 h, start, whole)
