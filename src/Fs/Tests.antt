-- ===== src/Fs/Tests.antt =====
-- The theorems on file descriptors, at a table of two descriptors of one description.
use redox_os_kernel.Prelude.{ℕ, ◌+◌, false, some, [], ◌∷◌, ok, arith}
use redox_os_kernel.Btree.{get, nat_key}
use redox_os_kernel.Schemes.{SchemeList}
use redox_os_kernel.UserSlice.{UserSlice}
use redox_os_kernel.Fs.{World, Caller, SchemeCalls, Flags, scheme_local, close, dup2}
use redox_os_kernel.Fs.Descriptors.{FileDescription, FileDescriptor}
use redox_os_kernel.Fs.Calls.{IsCounted, files_of}
use redox_os_kernel.Fs.Sequences.{Run, no_call, and_call, by_close, by_dup2, Run-IsCounted}
use redox_os_kernel.Fs.Duplicates.{IsLocal}
use redox_os_kernel.Fs.Owners.{count, owners_in}

abbrev description : FileDescription
description = record { namespace = 1; scheme = 1; number = 5; flags = 0 }

abbrev descriptor : FileDescriptor
descriptor = record { description = 0; cloexec = false }

abbrev caller : Caller
caller = record { pid = 2; uid = 0; gid = 0 }

abbrev world : World ℕ
world = record {
  current = some (record {
    caller = caller;
    ens = 1;
    umask = 18;
    files = some descriptor ∷ some descriptor ∷ [];
  });
  store = (0, record { description = description; owners = 2 }) ∷ [];
  next = 1;
  events = record { registry = []; queues = []; next_id = 0; outside = 0 };
}

abbrev schemes : SchemeList ℕ
schemes = record { map = (1, 10) ∷ []; names = []; next_ns = 1; next_id = 2 }

abbrev calls : SchemeCalls ℕ ℕ
calls = record {
  close = λ s number x. (x, ok 0);
  kdup = λ s number buf c x. (x + 1, ok (scheme_local (number + 1)));
  fcntl = λ s number cmd arg x. (x, ok 0);
}

abbrev flags : Flags
flags = record {
  f_dupfd = 0;
  f_getfd = 1;
  f_setfd = 2;
  f_getfl = 3;
  f_setfl = 4;
  o_cloexec = 0x1000000;
  o_accmode = 0x30000;
}

abbrev buf : UserSlice
buf = record { base = 4096; len = 2 }

calls-IsLocal : IsLocal calls flags schemes
calls-IsLocal s n b c x d h = absurd (ground (arith, h))

world-IsCounted : IsCounted (λ d. 0) world
unfolding owners_in count files_of get
world-IsCounted = record { counted = λ d. ground arith; fresh = λ d h. ground (arith, h) }

abbrev closed : World ℕ
closed = (close calls flags schemes 0 world).0

abbrev duplicated : World ℕ
duplicated = (dup2 calls flags schemes 1 4 buf closed).0

calls_made : Run calls flags schemes world duplicated
calls_made = and_call (by_close 0) (and_call (by_dup2 1 4 buf) no_call)

Run-IsCounted_example : IsCounted (λ d. 0) duplicated
Run-IsCounted_example =
    Run-IsCounted calls flags schemes (λ d. 0) world duplicated calls-IsLocal calls_made
      world-IsCounted
