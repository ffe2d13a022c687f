-- ===== src/Users.antt =====
-- src/scheme/user.rs: a scheme in user space. A call sends a packet to the process that handles the
-- scheme, and waits for the response with the number of the packet. The numbers of crate syscall and
-- its coding of a result in a word are parameters; so are the page tables (crate rmm).
pub mod Packets
pub mod Funmap
pub mod Answers
pub mod Unmount
pub mod Kept
pub mod Numbers
pub mod Capture
mod Tests
use redox_os_kernel.Prelude.{
  ℕ, zero, suc, ◌+◌, ◌-◌, ◌*◌, ◌/◌, ◌%◌, ◌^◌, Bool, true, false, not, ◌&&◌, ◌||◌, Option, none,
  some, List, [], ◌∷◌, ltb, ◌==◌, if◌then◌else◌, Result, ok, err, panic, Errno, map_ok, bit_and,
}
use redox_os_kernel.Btree.{Map, get, insert, remove, nat_key}
use redox_os_kernel.Sync.{Turn, done, wait}
use redox_os_kernel.Sync.Queue
use redox_os_kernel.Sync.WaitMap
use redox_os_kernel.Events.{Events, trigger}
use redox_os_kernel.Fs.{Caller, OpenResult, scheme_local, external}
use redox_os_kernel.Fs.Descriptors.{FileDescriptor}

-- `Response`; `fd` names a file description.
pub data Response : Type 0 where
  regular : ℕ → Response
  fd : ℕ → Response

-- `Packet` and `Map` of crate syscall.
pub record Packet : Type 0 where
  pub id : ℕ
  pub pid : ℕ
  pub uid : ℕ
  pub gid : ℕ
  pub a : ℕ
  pub b : ℕ
  pub c : ℕ
  pub d : ℕ

pub record MapData : Type 0 where
  pub offset : ℕ
  pub size : ℕ
  pub address : ℕ
  pub flags : ℕ

-- A call of `fmap` that waits: the context that made it, the file and what it asked for.
pub record Mapping : Type 0 where
  pub context : ℕ
  pub desc : FileDescriptor
  pub map : MapData

-- `signals` counts the calls of `notify_signal` on the condition of `todo`.
pub record UserInner : Type 0 where
  pub root_id : ℕ
  pub handle_id : ℕ
  pub name : List ℕ
  pub flags : ℕ
  pub scheme_id : ℕ
  pub next_id : ℕ
  pub context : ℕ
  pub todo : Queue.WaitQueue Packet
  pub fmap : Map ℕ Mapping
  pub done : WaitMap.WaitMap ℕ Response
  pub unmounting : Bool
  pub signals : ℕ

-- Of crate syscall: a result in a word, and the numbers that the scheme uses.
pub record Api : Type 0 where
  pub mux : Result ℕ → ℕ
  pub demux : ℕ → Result ℕ
  pub is_skmsg : ℕ → Bool
  pub truncate : ℕ → ℕ
  pub event_read : ℕ
  pub o_nonblock : ℕ
  pub sys_fevent : ℕ
  pub sys_fmap : ℕ
  pub skmsg_freturnfd : ℕ

unfoldable pub new : ℕ → ℕ → List ℕ → ℕ → ℕ → UserInner
new root_id handle_id name flags context = record {
  root_id = root_id;
  handle_id = handle_id;
  name = name;
  flags = flags;
  scheme_id = 0;
  next_id = 1;
  context = context;
  todo = Queue.new;
  fmap = [];
  done = WaitMap.new;
  unmounting = false;
  signals = 0;
}

unfoldable pub next_id : UserInner → UserInner × ℕ
next_id u = (record u { next_id = (u.next_id + 1) % 2 ^ 64 }, u.next_id)

-- The packet of a call.
unfoldable pub call_packet : Caller → ℕ → ℕ → ℕ → ℕ → ℕ → Packet
call_packet ctx id a b c d = record {
  id = id;
  pid = ctx.pid;
  uid = ctx.uid;
  gid = ctx.gid;
  a = a;
  b = b;
  c = c;
  d = d;
}

-- `self.fmap.lock().insert(..)`
unfoldable pub note_fmap : ℕ → Mapping → UserInner → UserInner
note_fmap id asked u = record u { fmap = insert id asked u.fmap }

module _ {X : Type 0} (api : Api) where
  unfoldable pub unmount : UserInner × Events X → (UserInner × Events X) × Result ℕ
  unfolding trigger
  unmount (u, ev) = (
    (
      record u { unmounting = true; signals = u.signals + 1 },
      trigger u.root_id u.handle_id api.event_read ev,
    ),
    ok 0,
  )

  -- `call_extended_inner` up to its wait, which is a loop of rounds `receive`.
  unfoldable pub call_extended_inner :
      Packet → UserInner × Events X → (UserInner × Events X) × Result ℕ
  unfolding trigger Queue.send
  call_extended_inner packet (u, ev) = if u.unmounting then ((u, ev), err Errno.enodev) else (
    (
      record u { todo = (Queue.send u.todo packet).0 },
      trigger u.root_id u.handle_id api.event_read ev,
    ),
    ok packet.id,
  )

  -- `call_extended` up to its wait, where no other call comes between its two parts: it takes a number,
  -- and then queues a packet, each under a lock of its own.
  unfoldable pub call_extended :
      Caller → ℕ → ℕ → ℕ → ℕ → UserInner × Events X → (UserInner × Events X) × Result ℕ
  unfolding call_extended_inner next_id call_packet
  call_extended ctx a b c d (u, ev) =
      let (u', id) = next_id u in call_extended_inner (call_packet ctx id a b c d) (u', ev)

  -- A call of `fmap` on the file `desc` of the context `ctx`, once the record `map` lies in the memory of
  -- the scheme, `len` bytes at `base`, and the size is rounded up to pages, up to the wait, where no other
  -- call comes between its three parts.
  unfoldable pub fmap_request :
      Caller
      → ℕ
      → FileDescriptor
      → MapData
      → ℕ
      → ℕ
      → ℕ
      → UserInner × Events X
      → (UserInner × Events X) × Result ℕ
  unfolding call_extended_inner next_id call_packet note_fmap
  fmap_request ctx file desc aligned base len context (u, ev) =
      let (u', id) = next_id u in
      let asked : Mapping = record { context = context; desc = desc; map = aligned } in
      call_extended_inner (call_packet ctx id api.sys_fmap file base len)
        (note_fmap id asked u', ev)

-- A round of the wait for the response to the packet `id`.
unfoldable pub receive : ℕ → UserInner → UserInner × Turn Response
unfolding WaitMap.receive
receive id u = let (responses, t) = WaitMap.receive id u.done in (record u { done = responses }, t)

-- What `call` and `fmap_inner` make of a response.
unfoldable pub returned : Api → Response → Result ℕ
returned api (regular code) = api.demux code
returned api (fd d) = err Errno.eio

-- What `kopen` and `kdup` make of it, and `open` of what `kopen` gives.
unfoldable pub opened : Api → Response → Result OpenResult
opened api (regular code) = map_ok scheme_local (api.demux code)
opened api (fd d) = ok (external d)

unfoldable pub handle_open_res : OpenResult → Result ℕ
handle_open_res (scheme_local number) = ok number
handle_open_res (external d) = err Errno.eio

-- `seek`, on a response that is not an error: the offset must fit in an `isize`.
unfoldable pub seek_offset : ℕ → Result ℕ
seek_offset offset = if ltb offset (2 ^ 63) then ok offset else err Errno.eoverflow
