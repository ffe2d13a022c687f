-- ===== src/Lib.antt =====
-- The Redox kernel: a library of models of its parts and of theorems about them.
--
-- Modelled are the following parts of the kernel, on a 64-bit target whose `usize` arithmetic wraps.
--
-- Memory (src/context/memory.rs) is the user address space of a context. Memory/Region has `Region`;
-- Memory/Holes the map `holes` of the free ranges, with `reserve`, `unreserve` and `find_free`;
-- Memory/Grants has `Grant::extract` and `UserGrants`, with `insert`, `take`, `conflicts` and
-- `find_free_at`; Memory/Space has `AddrSpace` with `mmap`, `mprotect` and `munmap`, which take grants
-- out, cut them and put the parts back. `munmap` is in Memory/Space/Notify: its first loop is
-- `munmap_grants`, and its second one tells the schemes of the files. Memory/Space/Copy has the
-- constructors of `Grant`, as `borrow` and `transfer`. The children of each are named for what they
-- prove. The invariant that ties `holes` and `inner` together is `IsValid` of Memory/Grants/Valid, and
-- `IsTable` of Memory/Space/Pages says what is relied on of the page tables.
--
-- UserSlice (src/syscall/usercopy.rs) is a checked range of user memory, with the ways to cut it, to
-- walk it in chunks and to copy from and to it, and `validate_region`. The other parts reach user
-- memory by it alone.
--
-- Pipe (src/scheme/pipe.rs) is the scheme `pipe:`. Pipe has the calls that do not wait, Pipe/Io has
-- `kread` and `kwrite`. A call that may wait is a loop of rounds under the lock of the queue; a round
-- ends the call or waits. What happens between rounds is a step relation in Pipe/Steps, where the two
-- parts of `close` are steps of their own. Wakes and events are a log in the state.
--
-- Contexts (src/context/context.rs) is the context, a process or a thread. Contexts/Files is its table
-- of open files, Contexts/Registry the list of contexts (src/context/list.rs), and Contexts/Switch the
-- scheduler (src/context/switch.rs), up to the change of registers: `update_runnable`, the loop that
-- finds the next context, and what becomes of the two. The current context of each processor is part
-- of its state.
--
-- Futex (src/syscall/futex.rs) is the queue of contexts that wait on a word of user memory, with all
-- operations of `futex`; FUTEX_WAIT is cut in two at the switch to another context. The contexts are those
-- of Contexts.
--
-- Sync (src/sync) has the rounds of a call that may wait, which Pipe uses too; Sync/Condition is
-- `WaitCondition`, whose wait is cut in two at the switch, Sync/Queue is `WaitQueue` and Sync/WaitMap
-- is `WaitMap`.
--
-- Events (src/event.rs) has the event queues, which are wait queues, and the registry of what they wait
-- for; Events/Timeouts (src/context/timeout.rs) triggers the events of files at a time.
-- Events/EventScheme (src/scheme/event.rs) is the scheme `event:` on the queues, and Timers
-- (src/scheme/time.rs) the scheme `time:`, whose handles register the timeouts.
--
-- Fs (src/syscall/fs.rs) has `close`, `dup`, `dup2` and `fcntl` on the table of Contexts/Files,
-- Fs/Paths the calls that take a path (`open`, which is `open_path` here, `rmdir`, `unlink` and
-- `frename`), and Fs/Descriptors (src/context/file.rs) the file descriptions, which descriptors
-- share. The closing of the last descriptor ends the registrations of the file in Events and calls
-- its scheme in Schemes.
--
-- Privilege (src/syscall/privilege.rs) has the calls that read and set the users, groups and
-- namespaces of a context, and sequences of them. Processes (src/syscall/process.rs) has the groups of
-- processes and `kill`, Processes/Exit has `exit` from when the files are closed, Processes/Wait
-- `waitpid` in rounds with `reap`, Processes/WaitpidKey the order of the keys of `waitpid`, and
-- Processes/Masks `sigprocmask` and `sigreturn`.
--
-- Ptrace (src/ptrace.rs) has the sessions of tracers, which processes share by name. `wait` is cut into
-- rounds (`wait_round`), as is `breakpoint_callback` (`stop_round`, with the search for the session
-- `breakpoint_round`). Ptrace/Awake has what can happen to the sessions as a step relation, and
-- Ptrace/Chunks the memory of a tracee in pieces (`page_aligned_chunks`, `context_memory`). Its contexts
-- are those of Contexts, and its events go to Events.
--
-- Users (src/scheme/user.rs) has the schemes in user space: `UserInner` with its calls up to their wait,
-- which is a loop of rounds `receive`. Users/Packets has what the handler does (`read`, `write` and
-- `handle_packet`, which maps files into the memory of Memory/Space), Users/Funmap the map behind
-- `funmap`, Users/Capture where `capture_inner` lays a buffer out, and Users/Numbers the parts of
-- calls, the answers and the responses as a step relation.
--
-- Schemes (src/scheme/mod.rs) is `SchemeList`: the schemes by identifier and, in each namespace, the
-- identifiers by name, with `get`, `get_name`, `insert` and `remove` (`get_scheme`, `insert_scheme` and
-- `remove_scheme` here). Schemes/Namespaces has `new`, `new_null`, `new_root`, `new_ns` and `make_ns`,
-- for given constructors of the schemes.
--
-- Prelude has what the parts share: Boolean tests, lists on native numbers, results with errors and
-- panics, and `usize`. Btree is `BTreeMap`, as a list in the order of the keys.
--
-- Fuel: the loops over chunks take the length of the slice, those of the futexes the length of the
-- queue, the searches for a free identifier (`next_free` of Btree/Free, for schemes and contexts) the
-- number of entries, and the loop over the timeouts their number; the theorems on chunks, on
-- `write_round`, `futex_wake`, `next_free` and the timeouts say what comes out of the whole loop, so the
-- fuel is enough. `ancestors` of Contexts/Registry takes any fuel, as its loop need not end. All other
-- loops are by recursion on a list or a count.
--
-- Not modelled, and parameters where a part uses it: page tables, page flags and frames (crate rmm),
-- the constants and records of crate syscall, the copy routines in assembly, the layout of a
-- `VecDeque` in memory, registers and stacks as bytes, the clock, and the calls of the scheme objects.
-- A lock is what makes a round or a call one step. The map of `waitpid` is a parameter, since its keys
-- have no order. Of tracing, the registers of a tracee are not modelled, and of user schemes the copying
-- of buffers. Other parts of the kernel (devices, interrupts, signal handlers, the other schemes) are not
-- modelled.
pub mod Prelude
pub mod Btree
pub mod Memory
pub mod Timers
pub mod UserSlice
pub mod Users
pub mod Sync
pub mod Events
pub mod Fs
pub mod Privilege
pub mod Ptrace
pub mod Processes
pub mod Pipe
pub mod Contexts
pub mod Futex
pub mod Schemes
