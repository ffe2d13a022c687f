-- ===== src/Memory/Space/Tests.antt =====
-- `borrow` and `munmap` with page tables that are maps from addresses to frames, with room for two pages.
use redox_os_kernel.Prelude.{
  ℕ, ◌+◌, ◌*◌, ◌≡◌, true, false, refl, Option, none, some, [], ◌∷◌, length, ltb, if◌then◌else◌,
  arith, ok, Bool-cases, ==_iff, ◌==◌, inl, inr,
}
use redox_os_kernel.Btree.{Map, get, insert, remove, nat_key}
use redox_os_kernel.Btree.Laws.{get-insert, get-remove}
use redox_os_kernel.Memory.Grants.{Grant, UserGrants}
use redox_os_kernel.Memory.Space.{Mapper, PageFlags, AddrSpace}
use redox_os_kernel.Memory.Space.Copy.{Tables, borrow}
use redox_os_kernel.Memory.Space.Pages.{IsTable, Borrowed}
use redox_os_kernel.Memory.Space.Borrow.{borrow_lem}
use redox_os_kernel.Memory.Region.{Region}
use redox_os_kernel.Memory.Space.Notify.{Calls}
use redox_os_kernel.Schemes.{SchemeList}
use redox_os_kernel.Events.{Events}
use redox_os_kernel.Fs.Descriptors.{FileDescriptor, Store}

abbrev frames : ℕ → Map ℕ ℕ → Option ℕ
frames a m = get a m

abbrev mapper : Mapper ℕ (Map ℕ ℕ)
mapper = record {
  remap = λ a f m. some m;
  unmap_phys = λ a m. elim (get a m) [ none ↦ none | some frame ↦ some (frame, remove a m) ];
  deallocate_frame = λ a m. m;
}

abbrev tables : Tables ℕ (Map ℕ ℕ)
tables = record {
  translate = frames;
  map_phys = λ a frame f m. if ltb (length m) 2 then some (insert a frame m) else none;
  map = λ a f m. some m;
}

same_page : (n k : ℕ) → (n * 4096 == k * 4096) ≡ (n == k)
same_page n k = elim (Bool-cases (n == k)) [ inl e ↦ ground (arith, e) | inr e ↦ ground (arith, e) ]

tables-IsTable : IsTable 4096 mapper tables
tables-IsTable = record {
  after_map = λ number frame f m m' small e n lt. elim (Bool-cases (ltb (length m) 2)) [
    | inl room ↦ ground (
      arith,
      e,
      room,
      get-insert (number * 4096) (n * 4096) frame m,
      same_page number n,
      ==_iff number n,
      ==_iff n number,
    )
    | inr full ↦ absurd (ground (arith, e, full))
  ];
  after_unmap = λ number frame m small e. (
    remove (number * 4096) m,
    ground (arith, e),
    λ n lt. ground (
      arith,
      get-remove (number * 4096) (n * 4096) m,
      same_page number n,
      ==_iff number n,
      ==_iff n number,
    ),
  );
  after_deallocate = λ frame m n lt. refl;
}

abbrev from : Map ℕ ℕ
from = (4096, 70) ∷ (8192, 80) ∷ []

from_frames : (get 4096 from ≡ some 70) × (get 8192 from ≡ some 80)
unfolding get
from_frames = (refl, refl)

abbrev to : Map ℕ ℕ
to = []

to_free : (a : ℕ) → get a to ≡ none
unfolding get
to_free a = refl

borrow_lem_example :
    (to' : Map ℕ ℕ) × (o : Option (Grant ℕ ℕ)) × (borrow 4096 mapper tables 1 5 2 0 none (from, to)
      ≡ ok (from, to', o))
    × Borrowed 4096 tables 1 5 2 from to to' o
borrow_lem_example =
    borrow_lem 4096 mapper tables tables-IsTable 1 5 2 0 none from to (omega arith) (omega arith)
      (omega arith) ((70, from_frames.0), ((80, from_frames.1), tt))
      (to_free (5 * 4096), (to_free (6 * 4096), tt))

abbrev two_pages : Region
two_pages = record { start = 4096; size = 8192 }

abbrev file : FileDescriptor
file = record { description = 7; cloexec = false }

abbrev grant : Grant ℕ FileDescriptor
grant = record {
  region = two_pages;
  flags = 1;
  mapped = true;
  owned = true;
  allocator_owned = true;
  desc_opt = some (record { desc = file; offset = 0; map_flags = 0 });
}

abbrev one_grant : UserGrants ℕ FileDescriptor
one_grant = record {
  inner = grant ∷ [];
  holes = (0, 4096) ∷ (12288, 0x7fff_ffff_d000) ∷ [];
  funmap = [];
}

abbrev flag_api : PageFlags ℕ
flag_api = record {
  new = 0;
  user = λ on f. f;
  execute = λ on f. f;
  write = λ on f. f;
  has_execute = λ f. false;
  has_write = λ f. true;
}

abbrev space : AddrSpace ℕ FileDescriptor (Map ℕ ℕ)
space = record { table = from; grants = one_grant; mmap_min = 4096 }

-- A scheme that counts what it is told.
abbrev calls : Calls (Unit {0}) ℕ
calls = record { funmap = λ s a n x. (x + 1, ok 0); close = λ s n x. (x + 1, ok 0) }

abbrev schemes : SchemeList (Unit {0})
schemes = record { map = (1, tt) ∷ []; names = []; next_ns = 1; next_id = 2 }

abbrev store : Store
store =
    (
      7,
      record {
        description = record { namespace = 1; scheme = 1; number = 3; flags = 0 };
        owners = 1;
      },
    )
    ∷ []

abbrev queues : Events ℕ
queues = record { registry = []; queues = []; next_id = 1; outside = 0 }
