-- ===== src/UserSlice/Tests.antt =====
-- The theorems on slices of user memory, at one slice.
use redox_os_kernel.Prelude.{ℕ}
use redox_os_kernel.UserSlice.{UserSlice}

abbrev ten : UserSlice
ten = record { base = 4096; len = 10 }

abbrev page_size : ℕ
page_size = 4096
