-- ===== src/Memory/Holes/Shape.antt =====
-- The shape that `holes` always has, and how the map's operations act on it.
use redox_os_kernel.Prelude.{
  ℕ, suc, ◌+◌, ◌≤◌, ◌<◌, ◌≡◌, refl, Bool, false, ◌&&◌, ◌||◌, none, some, [], ◌∷◌, ltb, leb, arith,
  inl, inr, ◌⊎◌,
}
use redox_os_kernel.Btree.{Map, get, insert, remove, last_below, nat_key}

-- From `lo` to `hi` there are holes of positive size, apart from one another by at least one byte.
-- (The first starts at `lo` or above; the next at least one past the end of the one before it.)
abbrev pub Spaced : ℕ → ℕ → Map ℕ ℕ → Type 0
Spaced lo hi [] = Unit {0}
Spaced lo hi ((o, s) ∷ hs) = (lo ≤ o) × (0 < s) × (o + s ≤ hi) × Spaced (suc (o + s)) hi hs

-- Byte `a` lies in a hole.
abbrev pub in_holes : ℕ → Map ℕ ℕ → Bool
in_holes a [] = false
in_holes a ((o, s) ∷ hs) = (leb o a && ltb a (o + s)) || in_holes a hs

-- One hole holds all of the bytes from `start` to `end`.
abbrev pub Within : ℕ → ℕ → Map ℕ ℕ → Type 0
Within start end [] = ⊥
Within start end ((o, s) ∷ hs) = ((o ≤ start) × (end ≤ o + s)) ⊎ Within start end hs

pub Spaced-mono : (lo lo' hi : ℕ) (hs : Map ℕ ℕ) → lo' ≤ lo → Spaced lo hi hs → Spaced lo' hi hs
Spaced-mono lo lo' hi [] h w = tt
Spaced-mono lo lo' hi ((o, s) ∷ hs) h w = (omega arith, w.1, w.2, w.3)

pub in_holes_below : (lo hi a : ℕ) (hs : Map ℕ ℕ) → Spaced lo hi hs → a < lo → in_holes a hs ≡ false
in_holes_below lo hi a [] w h = refl
in_holes_below lo hi a ((o, s) ∷ hs) w h = ground (arith, in_holes_below (suc (o + s)) hi a hs w.3)

pub Within-bounds :
    (lo hi start end : ℕ) (hs : Map ℕ ℕ)
    → Spaced lo hi hs
    → Within start end hs
    → (lo ≤ start) × (end ≤ hi)
Within-bounds lo hi start end [] w h = absurd h
Within-bounds lo hi start end ((o, s) ∷ hs) w (inl h) = omega arith
Within-bounds lo hi start end ((o, s) ∷ hs) w (inr h) =
    omega (arith, Within-bounds (suc (o + s)) hi start end hs w.3 h)

pub get_below : (lo hi k : ℕ) (hs : Map ℕ ℕ) → Spaced lo hi hs → k < lo → get k hs ≡ none
unfolding get
get_below lo hi k [] w h = refl
get_below lo hi k ((o, s) ∷ hs) w h = ground (arith, get_below (suc (o + s)) hi k hs w.3)

pub remove_below : (lo hi k : ℕ) (hs : Map ℕ ℕ) → Spaced lo hi hs → k < lo → remove k hs ≡ hs
unfolding remove
remove_below lo hi k [] w h = refl
remove_below lo hi k ((o, s) ∷ hs) w h = ground (arith, remove_below (suc (o + s)) hi k hs w.3)

pub last_below-none :
    (lo hi k : ℕ) (hs : Map ℕ ℕ) → Spaced lo hi hs → k ≤ lo → last_below k hs ≡ none
unfolding last_below
last_below-none lo hi k [] w h = refl
last_below-none lo hi k ((o, s) ∷ hs) w h = ground arith

pub insert_below :
    (lo hi k v : ℕ) (hs : Map ℕ ℕ) → Spaced lo hi hs → k < lo → insert k v hs ≡ (k, v) ∷ hs
unfolding insert
insert_below lo hi k v [] w h = refl
insert_below lo hi k v ((o, s) ∷ hs) w h = ground arith

-- The hole found below `k` is one of the list, and starts below `k`.
pub last_below_bounds :
    (lo hi k o s : ℕ) (hs : Map ℕ ℕ)
    → Spaced lo hi hs
    → last_below k hs ≡ some (o, s)
    → (lo ≤ o) × (o < k) × (o + s ≤ hi) × (0 < s)
unfolding last_below
last_below_bounds lo hi k o s [] w e = ground arith
last_below_bounds lo hi k o s ((j, v) ∷ hs) w e =
    ground (arith, last_below_bounds (suc (j + v)) hi k o s hs w.3)
