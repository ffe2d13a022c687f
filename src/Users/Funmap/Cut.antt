-- ===== src/Users/Funmap/Cut.antt =====
-- What `funmap` leaves of the map: every other address goes where it went.
use native.Mathlib.Decide.{dec_lt, dec_le}
use redox_os_kernel.Prelude.{
  ℕ, ◌+◌, ◌-◌, ◌^◌, ◌≤◌, ◌<◌, ◌≡◌, ◌⊎◌, refl, inl, inr, true, false, none, some, List, [], ◌∷◌, ltb,
  leb, ◌==◌, ◌&&◌, if◌then◌else◌, Bool, All, ok, err, Errno, arith, add_usize_lem, sub_usize_lem,
  Option-cases, Bool-cases,
}
use redox_os_kernel.Memory.Region.{
  Region, end_address, before, after, rebase, between, non_empty, is_empty,
}
use redox_os_kernel.Users.Funmap.{funmap, funmap_at, funmap_remove, funmap_part}
use redox_os_kernel.Users.Funmap.Order.{
  origin, Ordered, Ordered-lower, origin_below, insert_front, part, part_behind, part_front,
}

-- The map without `r`, with the parts of it before `g` and from `e` on.
abbrev pub cut : Region → ℕ → ℕ → ℕ → List (Region × ℕ) → List (Region × ℕ)
cut r b g e m =
    funmap_part (part e (r.start + r.size)) (b + (e - r.start))
      (funmap_part (part r.start g) b (funmap_remove r m))

-- Every address has the origin that it had, but those from `g` up to `e` have none.
abbrev pub IsCut : ℕ → ℕ → List (Region × ℕ) → List (Region × ℕ) → Type 0
IsCut g e m m' = (x : ℕ) → origin x m' ≡ (if leb g x && ltb x e then none else origin x m)

-- Both parts, in front of what follows.
both_parts_lem :
    (r : Region) (b g e : ℕ) (m : List (Region × ℕ))
    → Ordered r.start ((r, b) ∷ m)
    → r.start ≤ g
    → g ≤ e
    → e ≤ r.start + r.size
    → let m' =
        funmap_part
          (part e (r.start + r.size))
          (b + (e - r.start))
          (funmap_part (part r.start g) b m) in
      Ordered r.start m' × IsCut g e ((r, b) ∷ m) m'
unfolding funmap_part
both_parts_lem r b g e m (_, pos, small, fits, h) hg he hr =
    let end = r.start + r.size in
    let right = part_front e end (b + (e - r.start)) m h hr small (omega arith) in
    elim (Bool-cases (g - r.start == 0)) [
      | inl none_left ↦
          let first : g ≡ r.start = ground (arith, none_left) in
          rw none_left (
            Ordered-lower r.start e _ (omega arith) right.0,
            λ x. rw (right.1 x) (elim (dec_lt x end) [
              | yes p ↦ ground (arith, origin_below x end m h p)
              | no q ↦ ground arith
            ]),
          )
      | inr some_left ↦
          let some_more : r.start < g = ground (arith, some_left) in
          let l : Region = record { start = r.start; size = g - r.start } in
          let front = insert_front l b end m h (omega arith) in
          let behind : funmap_part (part e end) (b + (e - r.start)) ((l, b) ∷ m)
              ≡ (l, b) ∷ funmap_part (part e end) (b + (e - r.start)) m =
            part_behind e end (b + (e - r.start)) l b m (omega arith) in
          let whole : r.start + (g - r.start) ≤ e = omega arith in
          rw (some_left, front, behind)
            (
              (
                omega arith,
                omega arith,
                omega arith,
                omega arith,
                Ordered-lower (r.start + (g - r.start)) e _ whole right.0,
              ),
              λ x. rw (right.1 x) (elim (dec_lt x end) [
                | yes p ↦ ground (arith, origin_below x end m h p)
                | no q ↦ ground arith
              ]),
            )
    ]

remove_front :
    (r : Region) (lo : ℕ) (m : List (Region × ℕ))
    → Ordered lo m
    → r.start < lo
    → funmap_remove r m ≡ m
unfolding funmap_remove
remove_front r lo [] h lt = refl
remove_front r lo ((s, b) ∷ m) h lt =
    ground (arith, h.0, remove_front r (s.start + s.size) m h.4 (omega (arith, h.0)))

-- The region that is found starts at `lo` or behind it.
funmap_at_lower :
    (g lo : ℕ) (m : List (Region × ℕ)) (r : Region) (b : ℕ)
    → Ordered lo m
    → funmap_at g m ≡ some (r, b)
    → (lo ≤ r.start)
      × (r.start ≤ g)
      × (0 < r.size)
      × (r.start + r.size < 2 ^ 64)
      × (b + r.size < 2 ^ 64)
unfolding funmap_at
funmap_at_lower g lo [] r b h found = absurd (ground (arith, found))
funmap_at_lower g lo ((s, c) ∷ m) r b h found = elim (Bool-cases (leb s.start g)) [
  | inr late ↦ absurd (ground (arith, late, found))
  | inl early ↦ elim (Option-cases (funmap_at g m)) [
    | inl last ↦
        let same_r : s ≡ r = ground (arith, early, last, found) in
        let same_b : c ≡ b = ground (arith, early, last, found) in
        rw (← same_r, ← same_b) (h.0, ground (arith, early), h.1, h.2, h.3)
    | inr ((r', b'), later) ↦
        let ih =
          funmap_at_lower g (s.start + s.size) m r b h.4 (ground (arith, early, later, found)) in
        (omega (arith, h.0, ih.0), ih.1, ih.2, ih.3, ih.4)
  ]
]

cut_lem :
    (lo g e : ℕ) (m : List (Region × ℕ)) (r : Region) (b : ℕ)
    → Ordered lo m
    → funmap_at g m ≡ some (r, b)
    → g ≤ e
    → e ≤ r.start + r.size
    → Ordered lo (cut r b g e m) × IsCut g e m (cut r b g e m)
unfolding funmap_at funmap_remove
cut_lem lo g e [] r b h found he hr = absurd (ground (arith, found))
cut_lem lo g e ((s, c) ∷ m) r b h found he hr = elim (Bool-cases (leb s.start g)) [
  | inr late ↦ absurd (ground (arith, late, found))
  | inl early ↦ elim (Option-cases (funmap_at g m)) [
    | inl last ↦
        let same_r : s ≡ r = ground (arith, early, last, found) in
        let same_b : c ≡ b = ground (arith, early, last, found) in
        let itself : (s.start == s.start) ≡ true = ground arith in
        let base : Ordered s.start ((s, c) ∷ m) = (omega arith, h.1, h.2, h.3, h.4) in
        let found_first = both_parts_lem s c g e m base (ground (arith, early)) he (rw same_r hr) in
        rw (← same_r, ← same_b, itself)
          (Ordered-lower lo s.start _ h.0 found_first.0, found_first.1)
    | inr ((r', b'), later) ↦
        let found' : funmap_at g m ≡ some (r, b) = ground (arith, early, later, found) in
        let ih = cut_lem (s.start + s.size) g e m r b h.4 found' he hr in
        let low = funmap_at_lower g (s.start + s.size) m r b h.4 found' in
        let other : (s.start == r.start) ≡ false = ground (arith, h.1, low.0) in
        let left = part_behind r.start g b s c (funmap_remove r m) (omega (arith, h.1, low.0)) in
        let right =
          part_behind e (r.start + r.size) (b + (e - r.start)) s c
            (funmap_part (part r.start g) b (funmap_remove r m))
            (omega (arith, h.1, low.0, low.1)) in
        rw (other, left, right)
          ((h.0, h.1, h.2, h.3, ih.0), λ x. rw (ih.1 x) (ground (arith, low.0, low.1)))
  ]
]

before_lem : (r q : Region) → r.start ≤ q.start → before r q ≡ ok (part r.start q.start)
unfolding before between non_empty is_empty
before_lem r q le = ground arith

after_lem :
    (r q : Region)
    → q.start + q.size ≤ r.start + r.size
    → r.start + r.size < 2 ^ 64
    → after r q ≡ ok (part (q.start + q.size) (r.start + r.size))
unfolding after between non_empty is_empty end_address
after_lem r q le small =
    ground (
      arith,
      add_usize_lem q.start q.size (omega arith),
      add_usize_lem r.start r.size (omega arith),
    )

rebase_lem :
    (r q : Region) (x : ℕ)
    → r.start ≤ x
    → x < 2 ^ 64
    → q.start + (x - r.start) < 2 ^ 64
    → rebase r q x ≡ q.start + (x - r.start)
unfolding rebase
rebase_lem r q x le small fits =
    rw (sub_usize_lem x r.start le small) (add_usize_lem q.start (x - r.start) fits)

funmap_hit :
    (g size : ℕ) (m : List (Region × ℕ)) (r : Region) (b : ℕ)
    → funmap_at g m ≡ some (r, b)
    → r.start ≤ g
    → g + size ≤ r.start + r.size
    → r.start + r.size < 2 ^ 64
    → b + r.size < 2 ^ 64
    → funmap g size m ≡ ok (cut r b g (g + size) m, b + (g - r.start))
unfolding funmap funmap_part end_address
funmap_hit g size m r b found le fits small fits_b =
    let q : Region = record { start = g; size = size } in
    let user : Region = record { start = b; size = r.size } in
    let end_q : end_address q ≡ g + size = add_usize_lem g size (omega arith) in
    let end_r : end_address r ≡ r.start + r.size = add_usize_lem r.start r.size (omega arith) in
    let left = before_lem r q le in
    let right = after_lem r q fits small in
    let told = rebase_lem r user g le (omega arith) (omega arith) in
    elim (Bool-cases (r.start + r.size - (g + size) == 0)) [
      | inl gone ↦ ground (arith, found, end_q, end_r, left, right, told, gone)
      | inr kept ↦
          let more : g + size < r.start + r.size = ground (arith, kept) in
          let moved : rebase r user (g + size) ≡ b + (g + size - r.start) =
            rebase_lem r user (g + size) (omega arith) (omega arith) (omega arith) in
          ground (arith, found, end_q, end_r, left, right, told, kept, moved)
    ]

-- The map has this entry.
abbrev pub Has : Region → ℕ → List (Region × ℕ) → Type 0
Has r b [] = ⊥
Has r b ((s, c) ∷ m) = ((s ≡ r) × (c ≡ b)) ⊎ Has r b m

-- Whether a range lies inside a region.
abbrev pub is_inside : ℕ → ℕ → Region → Bool
is_inside g size r = leb r.start g && leb (g + size) (r.start + r.size)

funmap_at-Has :
    (g : ℕ) (m : List (Region × ℕ)) (r : Region) (b : ℕ) → funmap_at g m ≡ some (r, b) → Has r b m
unfolding funmap_at
funmap_at-Has g [] r b found = absurd (ground (arith, found))
funmap_at-Has g ((s, c) ∷ m) r b found = elim (Bool-cases (leb s.start g)) [
  | inr late ↦ absurd (ground (arith, late, found))
  | inl early ↦ elim (Option-cases (funmap_at g m)) [
    | inl last ↦ inl (ground (arith, early, last, found), ground (arith, early, last, found))
    | inr ((r', b'), later) ↦ inr (funmap_at-Has g m r b (ground (arith, early, later, found)))
  ]
]

-- Regions behind the start of the range do not have it inside.
late_outside :
    (g size lo : ℕ) (m : List (Region × ℕ))
    → Ordered lo m
    → g < lo
    → All (λ e. is_inside g size e.0 ≡ false) m
late_outside g size lo [] h lt = tt
late_outside g size lo ((s, c) ∷ m) h lt =
    (ground (arith, h.0), late_outside g size (s.start + s.size) m h.4 (omega (arith, h.0)))

-- Where the range has no region to start in or ends behind it, it lies inside of none.
outside_lem :
    (g size lo : ℕ) (m : List (Region × ℕ))
    → Ordered lo m
    → ((r : Region) (b : ℕ) → funmap_at g m ≡ some (r, b) → r.start + r.size < g + size)
    → All (λ e. is_inside g size e.0 ≡ false) m
unfolding funmap_at
outside_lem g size lo [] h past = tt
outside_lem g size lo ((s, c) ∷ m) h past = elim (Bool-cases (leb s.start g)) [
  | inr late ↦
      (ground (arith, late), late_outside g size (s.start + s.size) m h.4 (ground (arith, late)))
  | inl early ↦ elim (Option-cases (funmap_at g m)) [
    | inl last ↦
        let over = past s c (ground (arith, early, last)) in
        (
          ground (arith, over),
          outside_lem g size (s.start + s.size) m h.4 (λ r b e. absurd (ground (arith, last, e))),
        )
    | inr ((r, b), later) ↦
        let over = past r b (ground (arith, early, later)) in
        let low = funmap_at_lower g (s.start + s.size) m r b h.4 later in
        (
          ground (arith, over, low.0, low.2),
          outside_lem g size (s.start + s.size) m h.4
              (λ r' b' e. past r' b' (ground (arith, early, e))),
        )
  ]
]

-- `funmap` of a range that does not wrap around and lies inside a region of the map takes exactly the
-- addresses of the range out of the map: every other address that went to the memory of the handler
-- still goes to the same place there, the map stays in order, and the handler is told where the range
-- lies in its memory. A range that lies inside no region is refused with EINVAL. It never panics. The
-- regions of the map stand in order, are not empty and do not wrap around, nor do those that they come
-- from.
pub funmap_lem :
    (g size lo : ℕ) (m : List (Region × ℕ))
    → Ordered lo m
    → g + size < 2 ^ 64
    → ((r : Region) × (b : ℕ) × (m' : List (Region × ℕ)) × Has r b m
        × (is_inside g size r ≡ true)
        × (funmap g size m ≡ ok (m', b + (g - r.start)))
        × Ordered lo m'
        × IsCut g (g + size) m m')
      ⊎ (All (λ e. is_inside g size e.0 ≡ false) m × (funmap g size m ≡ err Errno.einval))
unfolding funmap end_address
funmap_lem g size lo m h small = elim (Option-cases (funmap_at g m)) [
  | inl missing ↦ inr (
    outside_lem g size lo m h (λ r b e. absurd (ground (arith, missing, e))),
    ground (arith, missing),
  )
  | inr ((r, b), found) ↦
      let low = funmap_at_lower g lo m r b h found in
      elim (dec_le (g + size) (r.start + r.size)) [
        | no past ↦
            let over : r.start + r.size < g + size = omega (arith, past) in
            inr (
              outside_lem g size lo m h
                  (λ r' b' e. let same : r ≡ r' = ground (arith, found, e) in rw (← same) over),
              let end_q = add_usize_lem g size small in
                  let end_r = add_usize_lem r.start r.size low.3 in
                  ground (arith, found, end_q, end_r, past),
            )
        | yes fits ↦
            let cut_out = cut_lem lo g (g + size) m r b h found (omega arith) fits in
            inl (
              r,
              b,
              cut r b g (g + size) m,
              funmap_at-Has g m r b found,
              ground (arith, low.1, fits),
              funmap_hit g size m r b found low.1 fits low.3 low.4,
              cut_out.0,
              cut_out.1,
            )
      ]
]
