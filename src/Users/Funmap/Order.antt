-- ===== src/Users/Funmap/Order.antt =====
-- The map behind `funmap` of src/scheme/user.rs, in order, and where an address comes from.
use redox_os_kernel.Prelude.{
  ℕ, ◌+◌, ◌-◌, ◌^◌, ◌≤◌, ◌<◌, ◌≡◌, refl, inl, inr, Bool, Option, none, some, List, [], ◌∷◌, ltb,
  leb, ◌==◌, ◌&&◌, if◌then◌else◌, arith, Bool-cases,
}
use redox_os_kernel.Memory.Region.{Region}
use redox_os_kernel.Users.Funmap.{funmap_insert, funmap_part}

abbrev pub is_within : ℕ → ℕ → ℕ → Bool
is_within start size a = leb start a && ltb a (start + size)

-- Where an address comes from in the memory of the handler.
abbrev pub origin : ℕ → List (Region × ℕ) → Option ℕ
origin a [] = none
origin a ((r, b) ∷ m) = if is_within r.start r.size a then some (b + (a - r.start)) else origin a m

-- The regions stand in order from `lo` on, none is empty, and no range of addresses wraps around.
abbrev pub Ordered : ℕ → List (Region × ℕ) → Type 0
Ordered lo [] = Unit {0}
Ordered lo ((r, b) ∷ m) =
    (lo ≤ r.start)
    × (0 < r.size)
    × (r.start + r.size < 2 ^ 64)
    × (b + r.size < 2 ^ 64)
    × Ordered (r.start + r.size) m

pub Ordered-lower : (lo lo' : ℕ) (m : List (Region × ℕ)) → lo ≤ lo' → Ordered lo' m → Ordered lo m
Ordered-lower lo lo' [] le h = tt
Ordered-lower lo lo' ((r, b) ∷ m) le h = (omega (arith, h.0), h.1, h.2, h.3, h.4)

pub origin_below : (a lo : ℕ) (m : List (Region × ℕ)) → Ordered lo m → a < lo → origin a m ≡ none
origin_below a lo [] h lt = refl
origin_below a lo ((r, b) ∷ m) h lt =
    ground (arith, h, origin_below a (r.start + r.size) m h.4 (omega (arith, h.0)))

pub insert_front :
    (r : Region) (a lo : ℕ) (m : List (Region × ℕ))
    → Ordered lo m
    → r.start < lo
    → funmap_insert r a m ≡ (r, a) ∷ m
unfolding funmap_insert
insert_front r a lo [] h lt = refl
insert_front r a lo ((s, b) ∷ m) h lt = ground (arith, h.0)

-- The part from `start` to `end`, if there is any.
abbrev pub part : ℕ → ℕ → Option Region
part start end =
    if end - start == 0 then none else some (record { start = start; size = end - start })

pub part_behind :
    (start end a : ℕ) (s : Region) (b : ℕ) (m : List (Region × ℕ))
    → s.start < start
    → funmap_part (part start end) a ((s, b) ∷ m) ≡ (s, b) ∷ funmap_part (part start end) a m
unfolding funmap_part funmap_insert
part_behind start end a s b m lt = elim (Bool-cases (end - start == 0)) [
  | inl e ↦ rw e refl
  | inr n ↦ ground (arith, n)
]

pub part_front :
    (start end a : ℕ) (m : List (Region × ℕ))
    → Ordered end m
    → start ≤ end
    → end < 2 ^ 64
    → a + (end - start) < 2 ^ 64
    → Ordered start (funmap_part (part start end) a m)
      × ((x : ℕ)
          → origin x (funmap_part (part start end) a m)
            ≡ (if is_within start (end - start) x then some (a + (x - start)) else origin x m))
unfolding funmap_part
part_front start end a m h le small fits = elim (Bool-cases (end - start == 0)) [
  | inl e ↦ rw e (Ordered-lower start end m (omega arith) h, λ x. ground (arith, e))
  | inr n ↦
      let r : Region = record { start = start; size = end - start } in
      let whole : start + (end - start) ≡ end = omega arith in
      rw (n, insert_front r a end m h (ground (arith, n)))
        ((omega arith, ground (arith, n), omega arith, fits, rw whole h), λ x. refl)
]
