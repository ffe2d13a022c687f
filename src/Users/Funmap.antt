-- ===== src/Users/Funmap.antt =====
-- `funmap` of `UserScheme` in src/scheme/user.rs, and the map that it changes: from the regions that a
-- scheme is mapped to, to where they come from in the memory of its handler.
pub mod Order
pub mod Cut
use redox_os_kernel.Prelude.{
  ℕ, ◌+◌, ◌-◌, ◌≤◌, ◌<◌, ◌≡◌, Bool, true, false, Option, none, some, List, [], ◌∷◌, ltb, leb, ◌==◌,
  if◌then◌else◌, Result, ok, err, panic, Errno, ◌>>=◌, arith,
}
use redox_os_kernel.Memory.Region.{Region, end_address, before, after, rebase}

-- `BTreeMap::insert`: regions compare by their start, and the key that is there stays.
unfoldable pub funmap_insert : Region → ℕ → List (Region × ℕ) → List (Region × ℕ)
funmap_insert r a [] = (r, a) ∷ []
funmap_insert r a ((s, b) ∷ m) =
    if r.start == s.start
    then (s, a) ∷ m
    else if ltb r.start s.start
    then (r, a) ∷ (s, b) ∷ m
    else (s, b) ∷ funmap_insert r a m

-- `BTreeMap::remove`
unfoldable pub funmap_remove : Region → List (Region × ℕ) → List (Region × ℕ)
funmap_remove r [] = []
funmap_remove r ((s, b) ∷ m) = if s.start == r.start then m else (s, b) ∷ funmap_remove r m

-- `range(..=byte).next_back()`
unfoldable pub funmap_at : ℕ → List (Region × ℕ) → Option (Region × ℕ)
funmap_at a [] = none
funmap_at a ((s, b) ∷ m) =
    if leb s.start a then elim (funmap_at a m) [ none ↦ some (s, b) | some e ↦ some e ] else none

-- `if let Some(part) = part { funmap.insert(part, base) }`
unfoldable pub funmap_part : Option Region → ℕ → List (Region × ℕ) → List (Region × ℕ)
unfolding funmap_insert
funmap_part none a m = m
funmap_part (some r) a m = funmap_insert r a m

-- What is left of the map, and the address for the handler. The region behind the requested one goes on
-- where it lies in the memory of the handler.
unfoldable pub funmap : ℕ → ℕ → List (Region × ℕ) → Result (List (Region × ℕ) × ℕ)
unfolding funmap_remove funmap_at funmap_part
funmap grant_address size m = elim (funmap_at grant_address m) [
  | none ↦ err Errno.einval
  | some (grant, user_base) ↦
      let requested : Region = record { start = grant_address; size = size } in
      let user : Region = record { start = user_base; size = grant.size } in
      if ltb (end_address grant) (end_address requested) then err Errno.einval else do
        left ← before grant requested
        right ← after grant requested
        let rest = funmap_part left user_base (funmap_remove grant m)
        ok (
          elim right [
            | none ↦ rest
            | some r ↦ funmap_part (some r) (rebase grant user r.start) rest
          ],
          rebase grant user grant_address,
        )
]
