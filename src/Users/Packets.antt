-- ===== src/Users/Packets.antt =====
-- `UserInner::read`, `write` and `handle_packet` of src/scheme/user.rs: what the process that handles a
-- scheme does. It is the current context.
use redox_os_kernel.Prelude.{
  ℕ, ◌+◌, ◌-◌, ◌*◌, ◌/◌, ◌%◌, Bool, true, not, ◌||◌, Option, none, some, List, [], ◌∷◌, ltb, ◌==◌,
  if◌then◌else◌, Result, ok, err, panic, Errno, map_ok, bit_and,
}
use redox_os_kernel.Btree.{Map, get, insert, remove, nat_key}
use redox_os_kernel.Sync.{Turn, done, wait}
use redox_os_kernel.Sync.Queue
use redox_os_kernel.Sync.WaitMap
use redox_os_kernel.Events.{Events, trigger}
use redox_os_kernel.Contexts.{Context}
use redox_os_kernel.Contexts.Files.{remove_file}
use redox_os_kernel.Schemes.{SchemeList}
use redox_os_kernel.Fs.Descriptors.{FileDescriptor, Store, release, close_descriptor}
use redox_os_kernel.Memory.Grants.{Grant, GrantFileRef}
use redox_os_kernel.Memory.Space.{
  AddrSpace, MapFlags, PageFlags, Mapper, mmap, page_region, page_address,
}
use redox_os_kernel.Memory.Space.Copy.{Tables, borrow}
use redox_os_kernel.UserSlice.{UserMem, UserSlice, in_exact_chunks, read_exact}
use redox_os_kernel.Users.{UserInner, Packet, Response, regular, fd, Mapping, Api}
use redox_os_kernel.Users.Funmap.{funmap_insert}

-- The current context: its address space, and its files.
pub record Handler : Type 0 where
  pub addr_space : Option ℕ
  pub files : List (Option FileDescriptor)

pub record World (F M X : Type 0) : Type 0 where
  pub inner : UserInner
  pub events : Events X
  pub store : Store
  pub contexts : Map ℕ Context
  pub spaces : Map ℕ (AddrSpace F FileDescriptor M)
  pub current : Option Handler

-- The page tables, as `mmap` and `borrow` use them.
pub record Paging (F M : Type 0) : Type 0 where
  pub page : ℕ
  pub page_flags : PageFlags F
  pub map_flags : ℕ → MapFlags
  pub mapper : Mapper F M
  pub tables : Tables F M

module _ {F M X : Type 0} where
  -- `self.done.send(id, response)`
  unfoldable pub respond : ℕ → Response → World F M X → World F M X
  unfolding WaitMap.send
  respond id response w =
      let u = w.inner in record w { inner = record u { done = WaitMap.send id response u.done } }

  -- `SKMSG_FRETURNFD`: a file of the handler goes into the response.
  unfoldable pub return_fd : ℕ → ℕ → World F M X → World F M X × Result (Unit {0})
  unfolding respond remove_file
  return_fd id number w = elim w.current [
    | none ↦ (w, err Errno.esrch)
    | some h ↦
        let (files, removed) = remove_file h.files number in
        let w' = record w { current = some (record h { files = files }) } in
        elim removed [
          | none ↦ (w', err Errno.einval)
          | some file ↦ (respond id (fd file.description) w', ok tt)
        ]
  ]

  -- A descriptor goes out of scope.
  unfoldable pub drop_file : FileDescriptor → World F M X → World F M X
  unfolding release
  drop_file desc w = record w { store = release desc.description w.store }

-- The page tables of the handler; those of `taken` are in use already. A spin lock that is taken twice
-- never returns, which is a panic here.
unfoldable pub handler_table : {F M X : Type 0} → ℕ → World F M X → Result M
handler_table taken w = elim w.current [
  | none ↦ err Errno.esrch
  | some h ↦ elim h.addr_space [
    | none ↦ err Errno.esrch
    | some n ↦
        if n == taken then panic else elim (get n w.spaces) [ none ↦ panic | some s ↦ ok s.table ]
  ]
]

-- The closure for `mmap`: pages of the handler's tables `from` are borrowed.
unfoldable pub borrow_pages :
    {F M : Type 0}
    → Paging F M
    → Result M
    → ℕ
    → ℕ
    → GrantFileRef F FileDescriptor
    → ℕ
    → F
    → M
    → M × Result (Grant F FileDescriptor)
unfolding borrow
borrow_pages pg (err e) src count file dst flags to = (to, err e)
borrow_pages pg panic src count file dst flags to = (to, panic)
borrow_pages pg (ok from) src count file dst flags to =
    elim (borrow pg.page pg.mapper pg.tables src dst count flags (some file) (from, to)) [
      | ok (from', to', got) ↦ elim got [ none ↦ (to', err Errno.enomem) | some g ↦ (to', ok g) ]
      | err e ↦ (to, err e)
      | panic ↦ (to, panic)
    ]

module _ {F M X : Type 0} (api : Api) (pg : Paging F M) where
  -- What becomes of the mapping, with the address space `space` of the caller at `n` after `mmap`.
  unfoldable pub mapped :
      Packet
      → ℕ
      → ℕ
      → FileDescriptor
      → ℕ
      → AddrSpace F FileDescriptor M
      → Result ℕ
      → World F M X
      → World F M X × Result (Unit {0})
  unfolding respond drop_file funmap_insert page_region page_address
  mapped packet address n desc count space (ok start) w =
      let funmap = funmap_insert (page_region pg.page start count) address space.grants.funmap in
      let grants = space.grants in
      let space' = record space { grants = record grants { funmap = funmap } } in
      let w' = record w { spaces = insert n space' w.spaces } in
      (respond packet.id (regular (api.mux (ok (page_address pg.page start)))) w', ok tt)
  mapped packet address n desc count space (err e) w =
      let w' = record w { spaces = insert n space w.spaces } in
      (respond packet.id (regular (api.mux (err e))) (drop_file desc w'), ok tt)
  mapped packet address n desc count space panic w = (w, panic)

  -- The answer to a call of `fmap`, at an aligned address of the handler.
  unfoldable pub map_file : Packet → ℕ → Mapping → World F M X → World F M X × Result (Unit {0})
  unfolding respond drop_file borrow_pages handler_table mapped mmap
  map_file packet address asked w = elim (get asked.context w.contexts) [
    | none ↦ (respond packet.id (regular packet.a) (drop_file asked.desc w), ok tt)
    | some c ↦ elim c.addr_space [
      | none ↦ (drop_file asked.desc w, err Errno.esrch)
      | some n ↦ elim (get n w.spaces) [
        | none ↦ (w, panic)
        | some space ↦
            let map = asked.map in
            let count = (map.size + pg.page - 1) / pg.page in
            let hint = if ltb 0 map.address then some (map.address / pg.page) else none in
            let file : GrantFileRef F FileDescriptor = record {
              desc = asked.desc;
              offset = map.offset;
              map_flags = map.flags;
            } in
            let place = borrow_pages pg (handler_table n w) (address / pg.page) count file in
            let (space', r) =
              mmap pg.page pg.page_flags hint count (pg.map_flags map.flags) place space in
            mapped packet address n asked.desc count space' r w
      ]
    ]
  ]

  module _ {S : Type 0} (scheme_close : S → ℕ → X → X × Result ℕ) (schemes : SchemeList S) where
    -- The answer to a call of `fmap`.
    unfoldable pub answer_fmap : Packet → Mapping → World F M X → World F M X × Result (Unit {0})
    unfolding respond drop_file map_file close_descriptor
    answer_fmap packet asked w = elim (api.demux packet.a) [
      | ok address ↦
          if not (address % pg.page == 0) || not (asked.map.size % pg.page == 0)
          then (drop_file asked.desc w, err Errno.einval)
          else map_file packet address asked w
      | err e ↦
          let ((store, events), r) =
            close_descriptor scheme_close schemes asked.desc (w.store, w.events) in
          (
            respond packet.id (regular packet.a) (record w { store = store; events = events }),
            ok tt,
          )
      | panic ↦ (w, panic)
    ]

    unfoldable pub handle_packet : Packet → World F M X → World F M X × Result (Unit {0})
    unfolding respond return_fd answer_fmap trigger
    handle_packet packet w =
        let u = w.inner in
        if packet.id == 0
        then (
          if packet.a == api.sys_fevent
              then record w {
                events = trigger u.scheme_id packet.b (api.truncate packet.c) w.events;
              }
              else w,
          ok tt,
        )
        else if api.is_skmsg packet.a
        then if packet.b == api.skmsg_freturnfd
          then return_fd packet.id packet.c w
          else (w, err Errno.einval)
        else elim (get packet.id u.fmap) [
          | none ↦ (respond packet.id (regular packet.a) w, ok tt)
          | some asked ↦
              answer_fmap packet asked
                (record w { inner = record u { fmap = remove packet.id u.fmap } })
        ]

    -- The loop of `write` on the packets as they are read, each or an error; `n` have been handled.
    unfoldable pub write_each : ℕ → List (Result Packet) → World F M X → World F M X × Result ℕ
    unfolding handle_packet
    write_each n [] w = (w, ok n)
    write_each n (ok packet ∷ packets) w =
        let (w', r) = handle_packet packet w in
        let rest = write_each (n + 1) packets w' in
        elim r [
          | ok u ↦ rest
          | err e ↦ if ltb 0 n then (w', ok n) else (w', err e)
          | panic ↦ (w', panic)
        ]
    write_each n (err e ∷ packets) w = (w, err e)
    write_each n (panic ∷ packets) w = (w, panic)

-- What `in_exact_chunks` and `read_exact` give of the buffer of `write`: the packets, each or an error.
unfoldable pub packets_in :
    {M : Type 0} → UserMem M → (List ℕ → Packet) → ℕ → List UserSlice → M → List (Result Packet)
unfolding read_exact
packets_in mem packet_of size [] m = []
packets_in mem packet_of size (chunk ∷ chunks) m =
    map_ok packet_of (read_exact mem chunk size m) ∷ packets_in mem packet_of size chunks m

module _ {F M X U : Type 0} (api : Api) (pg : Paging F M) (mem : UserMem U) where
  -- `write`; `size` and `packet_of` are how a packet lies in memory.
  unfoldable pub write :
      {S : Type 0}
      → (S → ℕ → X → X × Result ℕ)
      → SchemeList S
      → (List ℕ → Packet)
      → ℕ
      → UserSlice
      → U
      → World F M X
      → World F M X × Result ℕ
  unfolding write_each packets_in in_exact_chunks
  write scheme_close schemes packet_of size buf m w = elim (in_exact_chunks buf size) [
    | ok chunks ↦
        let packets = packets_in mem packet_of size chunks m in
        let (w', r) = write_each api pg scheme_close schemes 0 packets w in
        (w', map_ok (λ n. n * size) r)
    | err e ↦ (w, err e)
    | panic ↦ (w, panic)
  ]

-- `block` of `read`, which is fixed when the call begins.
unfoldable pub may_block : Api → UserInner → Bool
may_block api u = not (bit_and u.flags api.o_nonblock == api.o_nonblock || u.unmounting)

-- What `read` makes of what the queue gives.
unfoldable pub read_result : Bool → Result ℕ → Result ℕ
read_result true (err Errno.eagain) = ok 0
read_result unmounting r = r

unfoldable pub read_end : Bool → Turn ℕ → Turn ℕ
unfolding read_result
read_end unmounting wait = wait
read_end unmounting (done r) = done (read_result unmounting r)

-- A round of `read`.
unfoldable pub read :
    {U : Type 0}
    → UserMem U
    → Queue.Layout Packet
    → (List Packet → List Packet × List Packet)
    → UserSlice
    → Bool
    → UserInner × U
    → (UserInner × U) × Turn ℕ
unfolding read_end Queue.receive_into_user
read mem layout slices buf block (u, m) =
    let ((todo, m'), t) = Queue.receive_into_user mem layout slices buf block (u.todo, m) in
    ((record u { todo = todo }, m'), read_end u.unmounting t)
