-- ===== src/Timers/Tests.antt =====
-- The theorems on timers, at one handle and two specifications of two bytes each.
use redox_os_kernel.Prelude.{ℕ, ◌≡◌, refl, some, List, [], ◌∷◌, ◌++◌, ok, arith}
use redox_os_kernel.Btree.{get, nat_key}
use redox_os_kernel.UserSlice.{UserSlice}
use redox_os_kernel.UserSlice.Listed.{Bytes, listed, listed-CopyLaws, load}
use redox_os_kernel.Timers.{TimeScheme, SpecLayout, kwrite}
use redox_os_kernel.Timers.Alarm.{timeouts_of, kwrite_lem}

abbrev first_or_zero : List ℕ → ℕ
first_or_zero [] = 0
first_or_zero (v ∷ vs) = v

abbrev layout : SpecLayout
layout = record {
  size = 2;
  encode = λ (sec, nsec). sec ∷ nsec ∷ [];
  decode = λ bytes. (first_or_zero bytes, 0);
}

abbrev one_handle : TimeScheme
one_handle = record { scheme_id = 9; next_id = 1; handles = (0, 4) ∷ [] }

abbrev buf : UserSlice
buf = record { base = 4096; len = 5 }

abbrev memory : Bytes
memory = (4096, 3) ∷ (4097, 0) ∷ (4098, 7) ∷ (4099, 0) ∷ []

has_handle : get 0 one_handle.handles ≡ some 4
unfolding get
has_handle = refl

kwrite_lem_example :
    kwrite listed layout 0 buf one_handle memory []
    ≡ ([] ++ timeouts_of layout 9 0 4 2 (load 4096 4 memory), ok 4)
kwrite_lem_example =
    kwrite_lem listed listed-CopyLaws layout 0 4 buf one_handle memory (load 4096 4 memory) []
      (omega arith) (omega arith) has_handle refl

abbrev path : List ℕ
path = 116 ∷ 105 ∷ 109 ∷ 101 ∷ 58 ∷ 52 ∷ []
