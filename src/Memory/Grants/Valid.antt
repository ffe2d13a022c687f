-- ===== src/Memory/Grants/Valid.antt =====
-- The invariant of `UserGrants`: grants in order and page-aligned, holes well spaced, and every byte
-- below the end of user space either in a hole or in a grant.
use redox_os_kernel.Prelude.{ℕ, ◌+◌, ◌≤◌, ◌<◌, ◌≡◌, ap, ◌∙◌, true, false, not, some, List, arith}
use redox_os_kernel.Memory.Region.{Region}
use redox_os_kernel.Memory.Holes.{reserve, unreserve}
use native.Mathlib.Nat.{zero-mod}
use redox_os_kernel.Memory.Holes.Align.{
  Aligned, Aligned-add, AlignedHoles, AlignedHoles-carve, AlignedHoles-fill,
}
use redox_os_kernel.Memory.Holes.Shape.{Spaced, in_holes, Within}
use redox_os_kernel.Memory.Holes.Reserve.{carve, reserve-eq-carve, in_holes-carve, Spaced-carve}
use redox_os_kernel.Memory.Holes.Unreserve.{fill, unreserve-eq-fill, in_holes-fill, Spaced-fill}
use redox_os_kernel.Memory.Grants.{Grant, UserGrants, new, user_end_offset, set_insert, set_take}
use redox_os_kernel.Memory.Grants.Shape.{Fits, Tiled, in_grants}
use redox_os_kernel.Memory.Holes.Runs.{Within-of_free, Apart-of_used}
use redox_os_kernel.Memory.Grants.Sets.{
  Meetless, Meetless-in_grants, Tiled-set_insert, in_grants-set_insert, set_take-Tiled,
  in_grants-set_take,
}

-- Every grant lies below `user_end_offset`, and so does every hole.
module _ {F D : Type 0} (page : ℕ) where
  pub record IsValid (u : UserGrants F D) : Type 0 where
    pub tiled : Tiled page 0 user_end_offset u.inner
    pub spaced : Spaced 0 user_end_offset u.holes
    pub aligned : AlignedHoles page u.holes
    pub split : (a : ℕ) → a < user_end_offset → in_holes a u.holes ≡ not (in_grants a u.inner)

-- The empty set of grants is valid, if the page size divides the size of user space.
pub new-IsValid : (F D : Type 0) (page : ℕ) → Aligned page user_end_offset → IsValid page (new F D)
unfolding new
new-IsValid F D page h = record {
  tiled = tt;
  spaced = (omega arith, omega arith, omega arith, tt);
  aligned = (zero-mod page, h, tt);
  split = λ a lt. ground arith;
}

module _ {F D : Type 0} (page : ℕ) (big : 1 < page) where
  -- The bytes of a region that meets no grant are free.
  free_of_Meetless :
      (u : UserGrants F D) (r : Region)
      → IsValid page u
      → Meetless page r u.inner
      → r.start + r.size ≤ user_end_offset
      → (a : ℕ) → r.start ≤ a
      → a < r.start + r.size
      → in_holes a u.holes ≡ true
  free_of_Meetless u r v m top a from to =
      v.split a (omega arith) ∙ ap not (Meetless-in_grants page a r u.inner m (ground arith))

  pub Within-of_Meetless :
      (u : UserGrants F D) (g : Grant F D)
      → IsValid page u
      → Fits page 0 user_end_offset g.region
      → Meetless page g.region u.inner
      → Within g.start (g.start + g.size) u.holes
  Within-of_Meetless u g v f m =
      Within-of_free 0 user_end_offset g.start (g.start + g.size) u.holes v.spaced (omega arith)
        (free_of_Meetless u g.region v m f.2)

  -- What `insert` makes of a grant that fits and meets no other.
  pub insert_into :
      (u : UserGrants F D) (g : Grant F D)
      → IsValid page u
      → Fits page 0 user_end_offset g.region
      → Meetless page g.region u.inner
      → IsValid page (record u { inner = set_insert g u.inner; holes = reserve g.region u.holes })
  insert_into u g v f m =
      let end = g.start + g.size in
      let w = Within-of_Meetless u g v f m in
      let lt : g.start < end = omega arith in
      let e : reserve g.region u.holes ≡ carve g.start end u.holes =
        reserve-eq-carve g.region 0 user_end_offset u.holes v.spaced (omega arith) f.1 w in
      record {
        tiled = Tiled-set_insert page 0 user_end_offset g u.inner v.tiled f m;
        spaced = rw e (Spaced-carve 0 user_end_offset g.start end u.holes v.spaced lt w);
        aligned = rw e (
            AlignedHoles-carve page 0 user_end_offset g.start end u.holes v.spaced v.aligned f.3
              (Aligned-add page g.start g.size f.3 f.4));
        split = λ a top. ground (
          arith,
          e,
          in_holes-carve 0 user_end_offset g.start end a u.holes v.spaced lt w,
          in_grants-set_insert page 0 user_end_offset a g u.inner v.tiled f m,
          v.split a top,
        );
      }

  -- What `take` leaves, where it finds a grant.
  pub take_from :
      (u : UserGrants F D) (a : ℕ) (g : Grant F D) (rest : List (Grant F D))
      → IsValid page u
      → set_take a u.inner ≡ some (g, rest)
      → IsValid page (record u { inner = rest; holes = unreserve g.region u.holes })
  take_from u a g rest v e =
      let end = g.start + g.size in
      let t = set_take-Tiled page 0 user_end_offset a g u.inner rest v.tiled e in
      let f : Fits page 0 user_end_offset g.region = t.1 in
      let lt : g.start < end = omega arith in
      let used : (b : ℕ) → g.start ≤ b → b < end → in_holes b u.holes ≡ false = λ b from to.
        ground (arith, in_grants-set_take page b a g u.inner rest e, v.split b (omega arith)) in
      let apart = Apart-of_used 0 user_end_offset g.start end u.holes v.spaced lt used in
      let eq : unreserve g.region u.holes ≡ fill g.start end u.holes =
        unreserve-eq-fill g.region 0 user_end_offset u.holes v.spaced (omega arith) f.1 f.2 apart in
      record {
        tiled = t.2;
        spaced =
            rw eq (
              Spaced-fill 0 user_end_offset g.start end u.holes v.spaced (omega arith) lt f.2
                apart);
        aligned = rw eq (
            AlignedHoles-fill page g.start end u.holes v.aligned f.3
              (Aligned-add page g.start g.size f.3 f.4) (omega arith));
        split = λ b top. ground (
          arith,
          eq,
          in_holes-fill g.start end b u.holes lt,
          in_grants-set_take page b a g u.inner rest e,
          Meetless-in_grants page b g.region rest t.3,
          v.split b top,
        );
      }
