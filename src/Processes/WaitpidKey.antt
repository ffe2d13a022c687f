-- ===== src/Processes/WaitpidKey.antt =====
-- `WaitpidKey` of src/context/context.rs, and its order.
use redox_os_kernel.Prelude.{ℕ, ◌≡◌, ◌≢◌, ◌↔◌, Option, none, some, arith, ltb, ◌==◌, if◌then◌else◌}

pub data Ordering : Type 0 where
  less equal greater : Ordering

pub record Key : Type 0 where
  pub pid : Option ℕ
  pub pgid : Option ℕ

abbrev pub cmp_nat : ℕ → ℕ → Ordering
cmp_nat a b = if ltb a b then less else if a == b then equal else greater

-- What decides where not both have the identifiers: which of them is there.
unfoldable pub cmp_presence : Option ℕ → Option ℕ → Ordering → Ordering
cmp_presence (some a) b rest = greater
cmp_presence none (some b) rest = less
cmp_presence none none rest = rest

unfoldable pub cmp_rest : Key → Key → Ordering
unfolding cmp_presence
cmp_rest a b = cmp_presence a.pid b.pid (cmp_presence a.pgid b.pgid equal)

unfoldable pub cmp_pgid : Key → Key → Ordering
unfolding cmp_rest
cmp_pgid a b = elim a.pgid [
  | none ↦ cmp_rest a b
  | some g ↦ elim b.pgid [ none ↦ cmp_rest a b | some h ↦ cmp_nat g h ]
]

unfoldable pub cmp : Key → Key → Ordering
unfolding cmp_pgid
cmp a b = elim a.pid [
  | none ↦ cmp_pgid a b
  | some p ↦ elim b.pid [ none ↦ cmp_pgid a b | some q ↦ cmp_nat p q ]
]

-- The key of a process, and of a process in a group, as the kernel sends them and asks for them.
abbrev pub of_process : ℕ → ℕ → Key
of_process p g = record { pid = some p; pgid = some g }

abbrev pub of_group : ℕ → Key
of_group g = record { pid = none; pgid = some g }

abbrev pub of_pid : ℕ → Key
of_pid p = record { pid = some p; pgid = none }

-- A key that asks for a process, or for a group, is equal to the key of every process that it is for
-- and to no other. This equality is not transitive: two processes of a group have keys that are not
-- equal, and that are both equal to the key of the group.
pub cmp_lem :
    (p q g h : ℕ)
    → ((cmp (of_pid q) (of_process p g) ≡ equal) ↔ (q ≡ p))
      × ((cmp (of_group h) (of_process p g) ≡ equal) ↔ (h ≡ g))
      × (p ≢ q
          → (cmp (of_process p g) (of_group g) ≡ equal)
            × (cmp (of_group g) (of_process q g) ≡ equal)
            × (cmp (of_process p g) (of_process q g) ≢ equal))
unfolding cmp cmp_pgid
cmp_lem p q g h =
    (ground arith, ground arith, λ apart. (ground arith, ground arith, ground (arith, apart)))
