-- ===== src/Memory/Space/Cut.antt =====
-- Taking a grant out and putting back the parts outside a region: what each round of `munmap` and of
-- `mprotect` does to the grants.
use redox_os_kernel.Prelude.{
  ℕ, ◌+◌, ◌-◌, ◌≤◌, ◌<◌, ◌≡◌, refl, ◌∙◌, true, false, ◌&&◌, ◌||◌, some, List, [], ◌∷◌, ok, arith,
  ltb, leb, ◌⊎◌, inl, inr, Bool-cases,
}
use native.Mathlib.Decide.{dec_lt}
use redox_os_kernel.Memory.Region.{Region}
use redox_os_kernel.Memory.Holes.{reserve, unreserve}
use redox_os_kernel.Memory.Holes.Align.{Aligned, Aligned-add, Aligned-sub}
use redox_os_kernel.Memory.Grants.{
  Grant, UserGrants, user_end_offset, insert, take, set_take, set_insert,
}
use redox_os_kernel.Memory.Grants.Shape.{Fits, in_region, meets, Tiled, in_grants, overlapping}
use redox_os_kernel.Memory.Grants.Sets.{
  Meetless, Meetless-of_overlapping, overlapping_of_Meetless, set_take-Tiled, in_grants-set_insert,
  in_grants-set_take,
}
use redox_os_kernel.Memory.Grants.Valid.{IsValid, insert_into, take_from}
use redox_os_kernel.Memory.Grants.Update.{conflicts_lem}
use redox_os_kernel.Memory.Space.{insert_part}
use redox_os_kernel.Memory.Space.Split.{piece}

module _ {F D : Type 0} where
  overlapping-set_insert :
      (r : Region) (h : Grant F D) (gs : List (Grant F D))
      → meets h.region r ≡ false
      → overlapping r (set_insert h gs) ≡ overlapping r gs
  unfolding set_insert
  overlapping-set_insert r h [] m = ground arith
  overlapping-set_insert r h (g ∷ gs) m = ground (arith, overlapping-set_insert r h gs m)

  overlapping_bounds :
      (page lo hi : ℕ) (r : Region) (g : Grant F D) (gs rest : List (Grant F D))
      → Tiled page lo hi gs
      → overlapping r gs ≡ g ∷ rest
      → lo ≤ g.start
  overlapping_bounds page lo hi r g [] rest t e = ground arith
  overlapping_bounds page lo hi r g (h ∷ gs) rest t e =
      ground (arith, overlapping_bounds page (h.start + h.size) hi r g gs rest t.1)

  -- The first grant that meets the request can be taken out; the others that meet it remain.
  pub overlapping-set_take :
      (page lo hi : ℕ) (r : Region) (g : Grant F D) (gs rest : List (Grant F D))
      → Tiled page lo hi gs
      → overlapping r gs ≡ g ∷ rest
      → (left : List (Grant F D)) × (set_take g.start gs ≡ some (g, left))
        × (overlapping r left ≡ rest)
        × (meets g.region r ≡ true)
  unfolding set_take
  overlapping-set_take page lo hi r g [] rest t e = absurd (ground arith)
  overlapping-set_take page lo hi r g (h ∷ gs) rest t e = elim (Bool-cases (meets h.region r)) [
    | inl m ↦ (gs, ground arith, ground arith, ground arith)
    | inr m ↦
        let e' : overlapping r gs ≡ g ∷ rest = ground arith in
        let b = overlapping_bounds page (h.start + h.size) hi r g gs rest t.1 e' in
        let ih = overlapping-set_take page (h.start + h.size) hi r g gs rest t.1 e' in
        (h ∷ ih.0, ground (arith, ih.1, b), ground (arith, ih.2), ih.3)
  ]

module _ {F D : Type 0} (page : ℕ) where
  -- What meets no part of a region meets no part of a smaller one.
  Meetless-sub :
      (r : Region) (start size : ℕ) (gs : List (Grant F D))
      → r.start ≤ start
      → start + size ≤ r.start + r.size
      → Meetless page r gs
      → Meetless page (record { start = start; size = size }) gs
  Meetless-sub r start size [] from to m = tt
  Meetless-sub r start size (g ∷ gs) from to m =
      (ground arith, Meetless-sub r start size gs from to m.1)

module _ {F D : Type 0} (page : ℕ) (big : 1 < page) where
  -- `u'` is `u` with the bytes from `start` to `end` granted as well.
  pub record Placed (u : UserGrants F D) (start end : ℕ) (u' : UserGrants F D) : Type 0 where
    pub valid : IsValid page u'
    pub bytes : (a : ℕ) → in_grants a u'.inner ≡ in_grants a u.inner || (leb start a && ltb a end)
    pub others :
        (r : Region)
        → (start ≡ end) ⊎ (end ≤ r.start) ⊎ (r.start + r.size ≤ start)
        → overlapping r u'.inner ≡ overlapping r u.inner

  insert_piece :
      (u : UserGrants F D) (g : Grant F D) (start end : ℕ)
      → IsValid page u
      → start ≤ end
      → end ≤ user_end_offset
      → Aligned page start
      → Aligned page end
      → overlapping (record { start = start; size = end - start }) u.inner ≡ []
      → (u' : UserGrants F D) × (insert_part page (piece g start end) u ≡ ok u')
        × Placed u start end u'
  unfolding insert_part insert
  insert_piece u g start end v le top p q o = elim (dec_lt start end) [
    | no same ↦
        (u, ground arith, record { valid = v; bytes = λ a. ground arith; others = λ r h. refl })
    | yes lt ↦
        let h : Grant F D = record g { region = record { start = start; size = end - start } } in
        let f : Fits page 0 user_end_offset h.region =
          (omega arith, omega arith, omega arith, p, Aligned-sub page end start q p le) in
        let m = Meetless-of_overlapping page h.region u.inner o in
        (
          record u { inner = set_insert h u.inner; holes = reserve h.region u.holes },
          ground (arith, conflicts_lem page big u h.region v f),
          record {
            valid = insert_into page big u h v f m;
            bytes = λ a.
                ground (arith, in_grants-set_insert page 0 user_end_offset a h u.inner v.tiled f m);
            others = λ r far. overlapping-set_insert r h u.inner (ground arith);
          },
        )
  ]

  -- `u3` is `u` after the grant `g` was taken out, which leaves `left`, and the parts of it before
  -- and behind `r` were put back.
  pub record Cut (u : UserGrants F D) (g : Grant F D) (left : List (Grant F D)) (r : Region)
      (u1 u2 u3 : UserGrants F D) : Type 0 where
    pub taken : take u g.region ≡ some (g, u1)
    pub first : insert_part page (piece g g.start r.start) u1 ≡ ok u2
    pub second : insert_part page (piece g (r.start + r.size) (g.start + g.size)) u2 ≡ ok u3
    pub valid : IsValid page u3
    pub bytes : (a : ℕ) → in_grants a u.inner ≡ in_grants a u3.inner || in_region a r
    pub free : overlapping r u3.inner ≡ []
    pub others :
        (q : Region)
        → (g.start ≡ r.start) ⊎ (r.start ≤ q.start)
        → (r.start + r.size ≡ g.start + g.size) ⊎ (q.start + q.size ≤ r.start + r.size)
        → overlapping q u3.inner ≡ overlapping q left

  pub cut_lem :
      (u : UserGrants F D) (g : Grant F D) (left : List (Grant F D)) (r : Region)
      → IsValid page u
      → set_take g.start u.inner ≡ some (g, left)
      → Aligned page r.start
      → Aligned page r.size
      → 0 < r.size
      → g.start ≤ r.start
      → r.start + r.size ≤ g.start + g.size
      → (u1 u2 u3 : UserGrants F D) × Cut u g left r u1 u2 u3
  unfolding take
  cut_lem u g left r v e al sz n from to =
      let t = set_take-Tiled page 0 user_end_offset g.start g u.inner left v.tiled e in
      let f : Fits page 0 user_end_offset g.region = t.1 in
      let u1 : UserGrants F D = record u { inner = left; holes = unreserve g.region u.holes } in
      let v1 : IsValid page u1 = take_from page big u g.start g left v e in
      let end = r.start + r.size in
      let gend = g.start + g.size in
      let ar : Aligned page end = Aligned-add page r.start r.size al sz in
      let ag : Aligned page gend = Aligned-add page g.start g.size f.3 f.4 in
      let p2 = insert_piece u1 g g.start r.start v1 from (omega arith) f.3 al (
        overlapping_of_Meetless page (record { start = g.start; size = r.start - g.start }) left
          (Meetless-sub page g.region g.start (r.start - g.start) left (omega arith) (omega arith)
            t.3)) in
      let p3 = insert_piece p2.0 g end gend p2.2.valid to f.2 ar ag (
        p2.2.others (record { start = end; size = gend - end }) (inr (inl (omega arith)))
        ∙ overlapping_of_Meetless page (record { start = end; size = gend - end }) left
            (Meetless-sub page g.region end (gend - end) left (omega arith) (omega arith) t.3)) in
      (
        u1,
        p2.0,
        p3.0,
        record {
          taken = rw (e, take);
          first = p2.1;
          second = p3.1;
          valid = p3.2.valid;
          bytes = λ a. ground (
            arith,
            in_grants-set_take page a g.start g u.inner left e,
            p2.2.bytes a,
            p3.2.bytes a,
          );
          free =
              p3.2.others r (inr (inr (omega arith)))
              ∙ p2.2.others r (inr (inl (omega arith)))
              ∙ overlapping_of_Meetless page r left
                  (Meetless-sub page g.region r.start r.size left from to t.3);
          others = λ q h k. p3.2.others q (ground arith) ∙ p2.2.others q (ground arith);
        },
      )
