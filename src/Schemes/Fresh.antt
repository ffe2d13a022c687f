-- ===== src/Schemes/Fresh.antt =====
-- The search for a free identifier ends, and finds one.
use redox_os_kernel.Prelude.{◌≡◌, none, if◌then◌else◌, leb}
use redox_os_kernel.Btree.{get, nat_key}
use redox_os_kernel.Btree.Free.{next_free_lem}
use redox_os_kernel.Schemes.{SchemeList, free_id}

module _ {S : Type 0} where
  -- The loop of `insert` ends within as many rounds as there are schemes, at an identifier of none.
  pub free_id_lem : (l : SchemeList S) → get (free_id l) l.map ≡ none
  unfolding free_id
  free_id_lem l = (next_free_lem l.map (if leb 65536 l.next_id then 1 else l.next_id)).0
