-- ===== src/Memory/Space/Munmap.antt =====
-- `munmap`: which bytes stay granted, and which pages mapped.
use redox_os_kernel.Prelude.{
  ℕ, ◌*◌, ◌∙◌, ◌+◌, ◌-◌, ◌<◌, ◌≡◌, ◌∙◌, true, false, not, ◌&&◌, none, some, List, if◌then◌else◌,
  max, min,
}
use redox_os_kernel.Memory.Region.{Region}
use redox_os_kernel.Memory.Grants.{Grant, user_end_offset}
use redox_os_kernel.Memory.Grants.Shape.{in_region, in_grants}
use redox_os_kernel.Memory.Grants.Valid.{IsValid}
use redox_os_kernel.Memory.Space.{AddrSpace}
use redox_os_kernel.Memory.Space.Copy.{Tables}
use redox_os_kernel.Events.{Events}

-- The bytes that an aligned grant and an aligned request share.
abbrev pub shared : Region → Region → Region
shared g r = record {
  start = max g.start r.start;
  size = min (g.start + g.size) (r.start + r.size) - max g.start r.start;
}

module _ {F M : Type 0} (page : ℕ) (tables : Tables F M) where
  -- The pages of the grants in a range translate.
  abbrev pub IsBacked : {D : Type 0} → Region → List (Grant F D) → M → Type 0
  IsBacked req gs m =
      (n : ℕ)
      → n * page < user_end_offset
      → in_region (n * page) req ≡ true
      → in_grants (n * page) gs ≡ true
      → (frame : ℕ) × (tables.translate (n * page) m ≡ some frame)

  -- What the loop comes to: the bytes in the range go, and exactly their pages are unmapped.
  pub record Unmapped {D : Type 0} (req : Region) (s s' : AddrSpace F D M) : Type 0 where
    pub valid : IsValid page s'.grants
    pub bytes :
        (a : ℕ) → in_region a req ≡ false → in_grants a s'.grants.inner ≡ in_grants a s.grants.inner
    pub less : (a : ℕ) → in_grants a s'.grants.inner ≡ true → in_grants a s.grants.inner ≡ true
    pub pages :
        (n : ℕ)
        → n * page < user_end_offset
        → tables.translate (n * page) s'.table ≡ (
            if in_grants (n * page) s.grants.inner && not (in_grants (n * page) s'.grants.inner)
            then none
            else tables.translate (n * page) s.table)
