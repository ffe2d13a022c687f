-- ===== src/Memory/Holes/Align.antt =====
-- Holes whose starts and sizes are multiples of the page size stay so.
use redox_os_kernel.Prelude.{
  ℕ, suc, ◌+◌, ◌-◌, ◌%◌, ◌≤◌, ◌<◌, max, ◌≡◌, sym, ap, ◌∙◌, [], ◌∷◌, arith, some, Option-cases, inl,
  inr,
}
use redox_os_kernel.Memory.Region.{Region}
use Prim.Native.Nat.{min}
use native.Mathlib.Decide.{dec_lt}
use native.Mathlib.Nat.{add-mod, zero-mod, mod-mod, add-zero}
use redox_os_kernel.Memory.Holes.{Holes, find_free, find_fit, skip_below}
use redox_os_kernel.Memory.Holes.Shape.{Spaced}
use redox_os_kernel.Memory.Holes.Reserve.{carve}
use redox_os_kernel.Memory.Holes.Unreserve.{fill, join_right}

-- `page`-alignment, and what follows from it.
abbrev pub Aligned : ℕ → ℕ → Type 0
Aligned page a = a % page ≡ 0

pub Aligned-add : (page a b : ℕ) → Aligned page a → Aligned page b → Aligned page (a + b)
Aligned-add page a b h k = rw (add-mod, h, k) (zero-mod page)

pub Aligned-sub : (page a b : ℕ) → Aligned page a → Aligned page b → b ≤ a → Aligned page (a - b)
Aligned-sub page a b h k le =
    let e : (a - b + b) % page ≡ a % page = ap (λ n. n % page) (omega arith) in
    sym (mod-mod (a - b) page)
    ∙ ap (λ n. n % page) (sym (add-zero ((a - b) % page)))
    ∙ rw (← k) (sym (add-mod (a - b) b page))
    ∙ e
    ∙ h

pub Aligned-max : (page a b : ℕ) → Aligned page a → Aligned page b → Aligned page (max a b)
Aligned-max page a b h k = elim (dec_lt a b) [
  | yes p ↦ let e : max a b ≡ b = omega arith in rw e k
  | no p ↦ let e : max a b ≡ a = omega arith in rw e h
]

pub Aligned-min : (page a b : ℕ) → Aligned page a → Aligned page b → Aligned page (min a b)
Aligned-min page a b h k = elim (dec_lt a b) [
  | yes p ↦ let e : min a b ≡ a = omega arith in rw e h
  | no p ↦ let e : min a b ≡ b = omega arith in rw e k
]

pub Aligned-gap : (page a b : ℕ) → Aligned page a → Aligned page b → a < b → a + page ≤ b
Aligned-gap page a b h k lt = grind arith

module _ (page : ℕ) where
  abbrev pub AlignedHoles : Holes → Type 0
  AlignedHoles [] = Unit {0}
  AlignedHoles ((o, s) ∷ hs) = Aligned page o × Aligned page s × AlignedHoles hs

  pub AlignedHoles-carve :
      (lo hi start end : ℕ) (hs : Holes)
      → Spaced lo hi hs
      → AlignedHoles hs
      → Aligned page start
      → Aligned page end
      → AlignedHoles (carve start end hs)
  unfolding carve
  AlignedHoles-carve lo hi start end [] w a p q = tt
  AlignedHoles-carve lo hi start end ((o, s) ∷ hs) w a p q = ground (
    arith,
    AlignedHoles-carve (suc (o + s)) hi start end hs w.3 a.2 p q,
    Aligned-sub page start o p a.0,
    Aligned-sub page (o + s) end (Aligned-add page o s a.0 a.1) q,
  )

  AlignedHoles-join_right :
      (start end : ℕ) (hs : Holes)
      → AlignedHoles hs
      → Aligned page start
      → Aligned page end
      → start ≤ end
      → AlignedHoles (join_right start end hs)
  unfolding join_right
  AlignedHoles-join_right start end [] a p q le = ground (arith, Aligned-sub page end start q p le)
  AlignedHoles-join_right start end ((o, s) ∷ hs) a p q le = ground (
    arith,
    Aligned-sub page end start q p le,
    Aligned-sub page (o + s) start (Aligned-add page o s a.0 a.1) p,
  )

  pub AlignedHoles-fill :
      (start end : ℕ) (hs : Holes)
      → AlignedHoles hs
      → Aligned page start
      → Aligned page end
      → start ≤ end
      → AlignedHoles (fill start end hs)
  unfolding fill
  AlignedHoles-fill start end [] a p q le = ground (arith, Aligned-sub page end start q p le)
  AlignedHoles-fill start end ((o, s) ∷ hs) a p q le = ground (
    arith,
    AlignedHoles-fill start end hs a.2 p q le,
    AlignedHoles-join_right start end ((o, s) ∷ hs) a p q le,
    AlignedHoles-join_right o end hs a.2 a.0 q,
  )

find_fit-Aligned :
    (page min size o : ℕ) (hs : Holes)
    → AlignedHoles page hs
    → find_fit min size hs ≡ some o
    → Aligned page o
unfolding find_fit
find_fit-Aligned page min size o [] a e = ground arith
find_fit-Aligned page min size o ((j, s) ∷ hs) a e =
    ground (arith, find_fit-Aligned page min size o hs a.2)

AlignedHoles-skip_below :
    (page min : ℕ) (hs : Holes) → AlignedHoles page hs → AlignedHoles page (skip_below min hs)
unfolding skip_below
AlignedHoles-skip_below page min [] a = tt
AlignedHoles-skip_below page min ((o, s) ∷ hs) a =
    ground (arith, AlignedHoles-skip_below page min hs a.2)

pub find_free-Aligned :
    (page min size : ℕ) (hs : Holes) {r : Region}
    → AlignedHoles page hs
    → Aligned page min
    → find_free min size hs ≡ some r
    → Aligned page r.start
unfolding find_free
find_free-Aligned page min size hs a m e =
    elim (Option-cases (find_fit min size (skip_below min hs))) [
      | inl n ↦ ground arith
      | inr (o, n) ↦ ground (
        arith,
        find_fit-Aligned page min size o (skip_below min hs) (AlignedHoles-skip_below page min hs a)
            n,
      )
    ]
