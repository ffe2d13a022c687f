-- ===== src/Users/Tests.antt =====
-- A scheme in user space with a call that waits.
use redox_os_kernel.Prelude.{
  ℕ, ◌+◌, ◌-◌, ◌*◌, if◌then◌else◌, ◌≡◌, ◌≢◌, ◌⊎◌, refl, true, false, none, some, List, [], ◌∷◌,
  ◌==◌, All, arith, ok, err, panic, Result, Errno,
}
use redox_os_kernel.Btree.{get, nat_key}
use redox_os_kernel.Sync.{done, wait}
use redox_os_kernel.Sync.Queue
use redox_os_kernel.Events.{Events}
use redox_os_kernel.Fs.{Caller}
use redox_os_kernel.Fs.Descriptors.{FileDescriptor}
use redox_os_kernel.Schemes.{SchemeList}
use redox_os_kernel.Memory.Region.{Region}
use redox_os_kernel.UserSlice.{UserMem, UserSlice}
use redox_os_kernel.Users.{
  UserInner, Packet, Response, Mapping, Api, new, receive, returned, call_extended,
  call_extended_inner, fmap_request, MapData, call_packet, next_id, unmount,
}
use redox_os_kernel.Users.Packets.{World, Paging, handle_packet, read, may_block}
use redox_os_kernel.Users.Funmap.{funmap}
use redox_os_kernel.Users.Funmap.Order.{Ordered}
use redox_os_kernel.Users.Funmap.Cut.{IsCut, Has, is_inside, funmap_lem}
use redox_os_kernel.Users.Answers.{handle_packet-answers, handle_packet_unaligned}
use redox_os_kernel.Users.Unmount.{unmount_lem}
use redox_os_kernel.Users.Numbers.{IsNumbered, numbered, queued, here, next, Reach-IsNumbered}
use redox_os_kernel.Users.Capture.{parts, Laid, page_range_containing, parts_lem}

-- A result is its value and 1, or 0.
abbrev api : Api
api = record {
  mux = λ r. elim r [ ok n ↦ n + 1 | err e ↦ 0 | panic ↦ 0 ];
  demux = λ a. if a == 0 then err Errno.eio else ok (a - 1);
  is_skmsg = λ a. a == 999;
  truncate = λ c. c;
  event_read = 2;
  o_nonblock = 4;
  sys_fevent = 10;
  sys_fmap = 11;
  skmsg_freturnfd = 1;
}

abbrev paging : Paging (Unit {0}) (Unit {0})
paging = record {
  page = 4096;
  page_flags = record {
    new = tt;
    user = λ b f. f;
    execute = λ b f. f;
    write = λ b f. f;
    has_execute = λ f. true;
    has_write = λ f. true;
  };
  map_flags =
      λ n. record { prot_exec = false; prot_write = true; fixed = false; fixed_noreplace = false };
  mapper = record {
    remap = λ a f m. some m;
    unmap_phys = λ a m. some (a, m);
    deallocate_frame = λ a m. m;
  };
  tables = record {
    translate = λ a m. some a;
    map_phys = λ a b f m. some m;
    map = λ a f m. some m;
  };
}

abbrev Empty : Type 0
Empty = World (Unit {0}) (Unit {0}) (Unit {0})

abbrev queues : Events (Unit {0})
queues = record { registry = []; queues = []; next_id = 1; outside = tt }

abbrev schemes : SchemeList (Unit {0})
schemes = record { map = []; names = []; next_ns = 1; next_id = 1 }

abbrev scheme_close : Unit {0} → ℕ → Unit {0} → Unit {0} × Result ℕ
scheme_close s number x = (x, ok 0)

abbrev fresh : UserInner
fresh = new 3 9 (102 ∷ []) 0 5

abbrev ctx : Caller
ctx = record { pid = 7; uid = 0; gid = 0 }

abbrev calling : UserInner
calling = (call_extended api ctx 20 1 2 3 (fresh, queues)).0.0

abbrev with_inner : UserInner → Empty
with_inner u = record {
  inner = u;
  events = queues;
  store = [];
  contexts = [];
  spaces = [];
  current = none;
}

abbrev answer : ℕ → Packet
answer a = record { id = 1; pid = 0; uid = 0; gid = 0; a = a; b = 0; c = 0; d = 0 }

calling_fmap : get 1 calling.fmap ≡ none
unfolding get call_extended new
calling_fmap = refl

handle_packet-answers_example :
    let (w', result) =
      handle_packet api paging scheme_close schemes (answer 43) (with_inner calling) in
    let (u, t) = receive 1 w'.inner in
    (result ≡ ok tt)
    × (w' ≡ record (with_inner calling) { inner = record calling { done = w'.inner.done } })
    × ((response : Response) × (t ≡ done (ok response)) × (returned api response ≡ ok 42))
    × ((j : ℕ) → get j u.done.inner ≡ (if 1 == j then none else get j calling.done.inner))
handle_packet-answers_example =
    handle_packet-answers api paging scheme_close schemes (answer 43) (ok 42) (with_inner calling)
      (λ e. ground (arith, e)) refl refl refl calling_fmap

abbrev asked : Mapping
asked = record {
  context = 7;
  desc = record { description = 4; cloexec = false };
  map = record { offset = 0; size = 4096; address = 0; flags = 0 };
}

abbrev mapping : UserInner
mapping = record fresh { fmap = (1, asked) ∷ [] }

mapping_fmap : get 1 mapping.fmap ≡ some asked
unfolding get
mapping_fmap = refl

mapping_done : get 1 mapping.done.inner ≡ none
unfolding get new
mapping_done = refl

-- The handler answers with the address 41.
handle_packet_unaligned_example :
    let (w1, r1) = handle_packet api paging scheme_close schemes (answer 42) (with_inner mapping) in
    let (w2, r2) = handle_packet api paging scheme_close schemes (answer 42) w1 in
    (r1 ≡ err Errno.einval)
    × ((receive 1 w1.inner).1 ≡ wait)
    × (w1.spaces ≡ [])
    × (r2 ≡ ok tt)
    × ((response : Response) × ((receive 1 w2.inner).1 ≡ done (ok response))
        × (returned api response ≡ ok 41))
    × (w2.spaces ≡ [])
handle_packet_unaligned_example =
    handle_packet_unaligned api paging scheme_close schemes (answer 42) asked 41
      (with_inner mapping) (λ e. ground (arith, e)) refl mapping_fmap mapping_done refl refl

abbrev mem : UserMem (Unit {0})
mem = record { copy_from_user = λ a n m. some []; copy_to_user = λ a bytes m. (m, true) }

abbrev layout : Queue.Layout Packet
layout = record { size = 64; to_bytes = λ p. p.id ∷ [] }

abbrev buf : UserSlice
buf = record { base = 4096; len = 128 }

unmount_lem_example :
    let (u', ev') = (unmount api (fresh, queues)).0 in
    let after = read mem layout (λ q. (q, [])) buf (may_block api u') (u', tt) in
    ((packet : Packet) → call_extended_inner api packet (u', ev') ≡ ((u', ev'), err Errno.enodev))
    × ((c : Caller) (a b d e : ℕ)
        → let (s, r) = call_extended api c a b d e (u', ev') in
          (r ≡ err Errno.enodev) × (s.0.todo ≡ fresh.todo))
    × ((c : Caller) (file : ℕ) (desc : FileDescriptor) (map : MapData) (base len context : ℕ)
        → let (s, r) = fmap_request api c file desc map base len context (u', ev') in
          (r ≡ err Errno.enodev) × (s.0.todo ≡ fresh.todo))
    × ((fresh.todo.inner ≡ []) × (after.1 ≡ done (ok 0))
        ⊎ (fresh.todo.inner ≢ [])
          × ((r : Result ℕ) × (let got =
                  Queue.receive_into_user mem layout (λ q. (q, [])) buf true (fresh.todo, tt) in
                (got.1 ≡ done r) × (after ≡ ((record u' { todo = got.0.0 }, got.0.1), done r)))))
unmount_lem_example = unmount_lem mem layout (λ q. (q, [])) api fresh queues buf tt (omega arith)

fresh-IsNumbered : IsNumbered (fresh, [])
unfolding IsNumbered new
fresh-IsNumbered = (omega arith, λ k. omega arith, λ k used. absurd (omega (arith, used)), tt)

-- Two calls that take their numbers in one order and queue their packets in the other.
abbrev two_numbers : UserInner
two_numbers = (next_id (next_id fresh).0).0

abbrev two_packets : UserInner
two_packets =
    (call_extended_inner api (call_packet ctx 1 20 1 2 3) (
      (call_extended_inner api (call_packet ctx 2 20 1 2 3) (two_numbers, queues)).0.0,
      queues,
    )).0.0

Reach-IsNumbered_example : IsNumbered (two_packets, [])
unfolding new next_id call_packet
Reach-IsNumbered_example =
    Reach-IsNumbered api paging scheme_close schemes (fresh, []) (two_packets, [])
      (next (numbered (omega arith)) (
        next (numbered (omega arith)) (
          next (queued (call_packet ctx 2 20 1 2 3) [] (1 ∷ []) queues)
            (next (queued (call_packet ctx 1 20 1 2 3) [] [] queues) here))))
      fresh-IsNumbered

abbrev regions : List (Region × ℕ)
regions =
    (record { start = 4096; size = 12288 }, 65536)
    ∷ (record { start = 20480; size = 4096 }, 131072)
    ∷ []

funmap_lem_example :
    ((r : Region) × (b : ℕ) × (m' : List (Region × ℕ)) × Has r b regions
      × (is_inside 8192 4096 r ≡ true)
      × (funmap 8192 4096 regions ≡ ok (m', b + (8192 - r.start)))
      × Ordered 0 m'
      × IsCut 8192 (8192 + 4096) regions m')
    ⊎ (All (λ e. is_inside 8192 4096 e.0 ≡ false) regions
        × (funmap 8192 4096 regions ≡ err Errno.einval))
funmap_lem_example =
    funmap_lem 8192 4096 0 regions
      (
        omega arith,
        omega arith,
        omega arith,
        omega arith,
        (omega arith, omega arith, omega arith, omega arith, tt),
      )
      (omega arith)

parts_lem_example :
    let p = parts 4096 5000 10000 (9 * 4096) in
    Laid 4096 5000 10000 p
    × (page_range_containing 4096 p.base 10000 ≡ (9, p.page_count, p.base - 9 * 4096))
parts_lem_example = parts_lem 4096 5000 10000 9 (omega arith) (omega arith)
