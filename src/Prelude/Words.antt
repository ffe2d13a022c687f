-- ===== src/Prelude/Words.antt =====
-- `usize` on a 64-bit target, as the release profile computes with it: arithmetic wraps.
use Prim.Native.Nat.{ℕ, ◌+◌, ◌-◌, ◌%◌, ◌^◌, ◌≤◌, ◌<◌, min}
use mathlib.Core.Path.{◌≡◌}
use native.Mathlib.Omega.{arith}

abbrev pub usize_mod : ℕ
usize_mod = 2 ^ 64

unfoldable pub add_usize : ℕ → ℕ → ℕ
add_usize a b = (a + b) % usize_mod

unfoldable pub sub_usize : ℕ → ℕ → ℕ
sub_usize a b = (a + usize_mod - b) % usize_mod

-- `a.saturating_add(b)`
unfoldable pub saturating_add : ℕ → ℕ → ℕ
saturating_add a b = min (a + b) (usize_mod - 1)

pub add_usize_lem : (a b : ℕ) → a + b < usize_mod → add_usize a b ≡ a + b
unfolding add_usize
add_usize_lem a b h = omega arith

pub sub_usize_lem : (a b : ℕ) → b ≤ a → a < usize_mod → sub_usize a b ≡ a - b
unfolding sub_usize
sub_usize_lem a b h k = omega arith

pub saturating_add_lem : (a b : ℕ) → a + b < usize_mod → saturating_add a b ≡ a + b
unfolding saturating_add
saturating_add_lem a b h = omega arith
