-- ===== src/Memory/Grants/Sets.antt =====
-- How insertion and removal act on the ordered grants.
use redox_os_kernel.Prelude.{
  ℕ, ◌+◌, ◌≤◌, ◌<◌, ◌≡◌, refl, true, false, ◌||◌, some, List, [], ◌∷◌, arith, inl, inr,
  Option-cases,
}
use redox_os_kernel.Memory.Region.{Region}
use redox_os_kernel.Memory.Grants.{Grant, set_insert, set_take}
use redox_os_kernel.Memory.Grants.Shape.{
  Fits, in_region, meets, Tiled, Tiled-mono, in_grants, overlapping,
}

module _ {F D : Type 0} (page : ℕ) where
  abbrev pub Meetless : Region → List (Grant F D) → Type 0
  Meetless r [] = Unit {0}
  Meetless r (g ∷ gs) = (meets g.region r ≡ false) × Meetless r gs

  pub Meetless-of_overlapping :
      (r : Region) (gs : List (Grant F D)) → overlapping r gs ≡ [] → Meetless r gs
  Meetless-of_overlapping r [] e = tt
  Meetless-of_overlapping r (g ∷ gs) e = (ground arith, Meetless-of_overlapping r gs (ground arith))

  pub overlapping_of_Meetless :
      (r : Region) (gs : List (Grant F D)) → Meetless r gs → overlapping r gs ≡ []
  overlapping_of_Meetless r [] m = refl
  overlapping_of_Meetless r (g ∷ gs) m = ground (arith, overlapping_of_Meetless r gs m.1)

  pub Meetless-in_grants :
      (a : ℕ) (r : Region) (gs : List (Grant F D))
      → Meetless r gs
      → in_region a r ≡ true
      → in_grants a gs ≡ false
  Meetless-in_grants a r [] m h = refl
  Meetless-in_grants a r (g ∷ gs) m h = ground (arith, Meetless-in_grants a r gs m.1 h)

  pub Tiled-set_insert :
      (lo hi : ℕ) (g : Grant F D) (gs : List (Grant F D))
      → Tiled page lo hi gs
      → Fits page lo hi g.region
      → Meetless g.region gs
      → Tiled page lo hi (set_insert g gs)
  unfolding set_insert
  Tiled-set_insert lo hi g [] t f m = (f, tt)
  Tiled-set_insert lo hi g (h ∷ gs) t f m = ground (
    arith,
    Tiled-set_insert (h.start + h.size) hi g gs t.1,
    Tiled-mono page (h.start + h.size) (h.start + h.size) hi gs,
  )

  pub in_grants-set_insert :
      (lo hi a : ℕ) (g : Grant F D) (gs : List (Grant F D))
      → Tiled page lo hi gs
      → Fits page lo hi g.region
      → Meetless g.region gs
      → in_grants a (set_insert g gs) ≡ in_grants a gs || in_region a g.region
  unfolding set_insert
  in_grants-set_insert lo hi a g [] t f m = ground arith
  in_grants-set_insert lo hi a g (h ∷ gs) t f m =
      ground (arith, in_grants-set_insert (h.start + h.size) hi a g gs t.1)

  pub Meetless-above :
      (lo hi : ℕ) (r : Region) (gs : List (Grant F D))
      → Tiled page lo hi gs
      → r.start + r.size ≤ lo
      → Meetless r gs
  Meetless-above lo hi r [] t h = tt
  Meetless-above lo hi r (g ∷ gs) t h =
      (ground arith, Meetless-above (g.start + g.size) hi r gs t.1 (omega arith))

  pub set_take-Tiled :
      (lo hi a : ℕ) (g : Grant F D) (gs rest : List (Grant F D))
      → Tiled page lo hi gs
      → set_take a gs ≡ some (g, rest)
      → (g.start ≡ a) × Fits page lo hi g.region × Tiled page lo hi rest × Meetless g.region rest
  unfolding set_take
  set_take-Tiled lo hi a g [] rest t e = ground arith
  set_take-Tiled lo hi a g (h ∷ gs) rest t e = elim (Option-cases (set_take a gs)) [
    | inl n ↦ ground (
      arith,
      Meetless-above (h.start + h.size) hi h.region gs t.1,
      Tiled-mono page (h.start + h.size) lo hi gs,
    )
    | inr ((g', rest'), n) ↦ ground (
      arith,
      Meetless-above (h.start + h.size) hi h.region gs t.1,
      Tiled-mono page (h.start + h.size) lo hi gs,
      set_take-Tiled (h.start + h.size) hi a g' gs rest' t.1 n,
    )
  ]

  pub in_grants-set_take :
      (b a : ℕ) (g : Grant F D) (gs rest : List (Grant F D))
      → set_take a gs ≡ some (g, rest)
      → in_grants b gs ≡ in_grants b rest || in_region b g.region
  unfolding set_take
  in_grants-set_take b a g [] rest e = ground arith
  in_grants-set_take b a g (h ∷ gs) rest e = elim (Option-cases (set_take a gs)) [
    | inl n ↦ ground arith
    | inr ((g', rest'), n) ↦ ground (arith, in_grants-set_take b a g' gs rest' n)
  ]

  -- Taking out what was inserted gives back the grant and the list.
  pub set_take-set_insert :
      (g : Grant F D) (gs : List (Grant F D))
      → 0 < g.size
      → Meetless g.region gs
      → (lo hi : ℕ) → Tiled page lo hi gs
      → set_take g.start (set_insert g gs) ≡ some (g, gs)
  unfolding set_take set_insert
  set_take-set_insert g [] n m lo hi t = ground arith
  set_take-set_insert g (h ∷ gs) n m lo hi t =
      ground (arith, set_take-set_insert g gs n m.1 (h.start + h.size) hi t.1)
