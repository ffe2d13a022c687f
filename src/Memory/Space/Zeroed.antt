-- ===== src/Memory/Space/Zeroed.antt =====
-- `Grant::zeroed` of src/context/memory.rs, as the closure that `mmap` runs for anonymous memory.
use redox_os_kernel.Prelude.{ℕ, ◌*◌, ◌%◌, ◌≡◌, refl, inl, inr, arith, usize_mod, Bool-cases}
use redox_os_kernel.Memory.Grants.{user_end_offset}
use redox_os_kernel.Memory.Grants.Shape.{Fits}
use redox_os_kernel.Memory.Space.{page_region, page_address}
use redox_os_kernel.Memory.Space.Mmap.{Placement, pages_at}
use redox_os_kernel.Memory.Space.Copy.{Tables, zeroed, zeroed_pages}

-- Asked for pages of user space, it makes a grant for them, or fails with an error.
pub zeroed-Placement :
    {F M : Type 0} (D : Type 0) (page : ℕ) (tables : Tables F M) (count number : ℕ) (f : F) (m : M)
    → Fits page 0 user_end_offset (pages_at page number count)
    → Placement {F = F} {D = D} page number count (zeroed page tables number count f m).1
unfolding zeroed page_region page_address
zeroed-Placement D page tables count number f m fits =
    let start : number * page % usize_mod ≡ number * page = omega (arith, fits.2) in
    let size : count * page % usize_mod ≡ count * page = omega (arith, fits.2) in
    elim (Bool-cases (zeroed_pages page tables f count number m).1) [
      | inl all ↦ rw (all, start, size) refl
      | inr short ↦ rw short tt
    ]
