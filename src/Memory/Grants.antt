-- ===== src/Memory/Grants.antt =====
-- `Grant` and `UserGrants` of src/context/memory.rs: which ranges of the address space are mapped.
-- The page size (crate `rmm`), the flag type of page tables and the file descriptors that a grant
-- keeps are parameters. A `BTreeSet<Grant>` is a list in the order of the start addresses, by which
-- the source compares grants.
pub mod Shape
pub mod Sets
pub mod Update
pub mod Find
pub mod Valid
pub mod Conflicts
use redox_os_kernel.Prelude.{
  ℕ, suc, ◌+◌, ◌-◌, ◌*◌, ◌%◌, ◌^◌, ◌≡◌, Bool, true, false, not, ◌&&◌, ◌||◌, Option, none, some,
  List, [], ◌∷◌, Result, ok, err, panic, Errno, assert, ok_or, ◌>>=◌, ◌>>◌, ltb, leb, ◌==◌, is_nil,
  if◌then◌else◌, Option-cases, inl, inr,
}
use redox_os_kernel.Memory.Region.{
  Region, byte, end_address, intersect, is_empty, occupies, before, after,
}
use redox_os_kernel.Memory.Holes.{Holes, reserve, unreserve, find_free}

-- `USER_END_OFFSET` of src/arch/x86_64/consts.rs: 256 * PML4_SIZE.
abbrev pub user_end_offset : ℕ
user_end_offset = 256 * 0x80_0000_0000

module _ (F D : Type 0) where
  pub record GrantFileRef : Type 0 where
    pub desc : D
    pub offset : ℕ
    pub map_flags : ℕ

  pub record Grant : Type 0 where
    pub region : Region
    pub open region use *
    pub flags : F
    pub mapped : Bool
    pub owned : Bool
    pub allocator_owned : Bool
    pub desc_opt : Option GrantFileRef

  pub record UserGrants : Type 0 where
    pub inner : List Grant
    pub holes : Holes
    pub funmap : List (Region × ℕ)

-- `UserGrants::new`
unfoldable pub new : (F D : Type 0) → UserGrants F D
new F D = record { inner = []; holes = (0, user_end_offset) ∷ []; funmap = [] }

module _ {F D : Type 0} where
  -- `inner.range(..=byte).next_back()`
  unfoldable pub last_upto : ℕ → List (Grant F D) → Option (Grant F D)
  last_upto a [] = none
  last_upto a (g ∷ gs) =
      if leb g.start a then (elim (last_upto a gs) [ none ↦ some g | some h ↦ some h ]) else none

  filter_occupies : ℕ → Region → Option (Grant F D) → Option (Grant F D)
  filter_occupies page r none = none
  filter_occupies page r (some g) = if occupies page g.region r then some g else none

  unfoldable pub contains : ℕ → List (Grant F D) → ℕ → Option (Grant F D)
  unfolding last_upto filter_occupies
  contains page gs address = filter_occupies page (byte address) (last_upto address gs)

  -- `inner.range(start..)`
  unfoldable pub range_from : ℕ → List (Grant F D) → List (Grant F D)
  range_from a [] = []
  range_from a (g ∷ gs) = if ltb g.start a then range_from a gs else g ∷ gs

  unfoldable pub take_while_meeting : Region → List (Grant F D) → List (Grant F D)
  take_while_meeting requested [] = []
  take_while_meeting requested (g ∷ gs) =
      if not (is_empty (intersect g.region requested))
      then g ∷ take_while_meeting requested gs
      else []

  start_of : Region → Option (Grant F D) → ℕ
  start_of requested none = requested.start
  start_of requested (some g) = g.start

  unfoldable pub conflicts : ℕ → List (Grant F D) → Region → List (Grant F D)
  unfolding contains range_from take_while_meeting start_of
  conflicts page gs requested =
      let start = start_of requested (contains page gs requested.start) in
      take_while_meeting requested (range_from start gs)

  -- `BTreeSet::insert` keeps an element that compares equal.
  unfoldable pub set_insert : Grant F D → List (Grant F D) → List (Grant F D)
  set_insert g [] = g ∷ []
  set_insert g (h ∷ gs) =
      if g.start == h.start
      then h ∷ gs
      else if ltb g.start h.start
      then g ∷ h ∷ gs
      else h ∷ set_insert g gs

  -- `BTreeSet::take`
  unfoldable pub set_take : ℕ → List (Grant F D) → Option (Grant F D × List (Grant F D))
  set_take a [] = none
  set_take a (h ∷ gs) =
      if h.start == a
      then some (h, gs)
      else (elim (set_take a gs) [ none ↦ none | some (g, rest) ↦ some (g, h ∷ rest) ])

  unfoldable pub insert : ℕ → UserGrants F D → Grant F D → Result (UserGrants F D)
  insert page u g = do
    assert (is_nil (conflicts page u.inner g.region))
    ok (record u { inner = set_insert g u.inner; holes = reserve g.region u.holes })

  unfoldable pub take : UserGrants F D → Region → Option (Grant F D × UserGrants F D)
  take u region = elim (set_take region.start u.inner) [
    | none ↦ none
    | some (g, rest) ↦ some (g, record u { inner = rest; holes = unreserve g.region u.holes })
  ]

  -- The grant that `take` found is dropped, which panics where it is still mapped.
  unfoldable pub remove : UserGrants F D → Region → Result (Bool × UserGrants F D)
  unfolding take
  remove u region = elim (take u region) [
    | none ↦ ok (false, u)
    | some (g, u') ↦ if g.mapped then panic else ok (true, u')
  ]

  -- `Grant::extract`: the parts before, inside and behind a region of the grant.
  part : Grant F D → Option Region → Option (Grant F D)
  part g none = none
  part g (some r) = some (record g { region = r })

  unfoldable pub extract :
      ℕ → Grant F D → Region → Result (Option (Grant F D) × Grant F D × Option (Grant F D))
  unfolding part before after
  extract page g region = do
    assert (region.start % page == 0)
    assert (region.size % page == 0)
    b ← before g.region region
    a ← after g.region region
    ok (part g b, record g { region = region }, part g a)

  -- What `MapFlags` of crate `syscall` says of a request: MAP_FIXED_NOREPLACE and MAP_FIXED.
  unfoldable pub find_free_at : ℕ → UserGrants F D → ℕ → ℕ → ℕ → Bool → Bool → Result Region
  find_free_at page u min address size fixed_noreplace fixed =
      if address == 0
      then ok_or (find_free min size u.holes) Errno.enomem
      else let requested : Region = record { start = address; size = size } in
        if ltb user_end_offset (end_address requested) || not (address % page == 0)
        then err Errno.einval
        else if is_nil (conflicts page u.inner requested)
        then ok requested
        else if fixed_noreplace
        then err Errno.eexist
        else if fixed
        then err Errno.eopnotsupp
        else ok_or (find_free min requested.size u.holes) Errno.enomem
