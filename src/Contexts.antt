-- ===== src/Contexts.antt =====
-- src/context/context.rs: a context, which is a process or a thread. Registers and stacks are bytes;
-- an address space and the table of files of a context are numbers that name them. What only copies
-- of the source's fields would add (the names, the buffers of system calls) is left out.
pub mod Files
pub mod Registry
pub mod Switch
mod Tests
use redox_os_kernel.Prelude.{ℕ, Bool, true, false, Option, none, some, List, [], ◌∷◌}
use redox_os_kernel.Btree.{Map, get, insert, nat_key}

pub data Status : Type 0 where
  runnable blocked : Status
  stopped exited : ℕ → Status

-- What is kept of a context while it handles a signal: the registers, those of the floating-point
-- unit, the kernel stack and the signal.
pub record Backup : Type 0 where
  pub arch : List ℕ
  pub kfx : List ℕ
  pub kstack : Option (List ℕ)
  pub sig : ℕ

pub record Context : Type 0 where
  pub id : ℕ
  pub pgid : ℕ
  pub ppid : ℕ
  pub ruid : ℕ
  pub rgid : ℕ
  pub rns : ℕ
  pub euid : ℕ
  pub egid : ℕ
  pub ens : ℕ
  pub umask : ℕ
  pub status : Status
  pub running : Bool
  pub cpu_id : Option ℕ
  pub switch_time : ℕ
  pub cpu_time : ℕ
  pub sched_affinity : Option ℕ
  pub vfork : Bool
  pub pending : List ℕ
  pub wake : Option ℕ
  pub arch : List ℕ
  pub kfx : List ℕ
  pub kstack : Option (List ℕ)
  pub ksig : Option Backup
  pub ksig_restore : Bool
  pub addr_space : Option ℕ
  pub files : ℕ
  pub ptrace_stop : Bool

-- `Context::new`; `files` names the empty table of files that is made, and `arch` and `kfx` are the
-- registers that a context starts with.
abbrev pub new : ℕ → ℕ → List ℕ → List ℕ → Context
new id files arch kfx = record {
  id = id;
  pgid = id;
  ppid = 0;
  ruid = 0;
  rgid = 0;
  rns = 0;
  euid = 0;
  egid = 0;
  ens = 0;
  umask = 0x12;
  status = blocked;
  running = false;
  cpu_id = none;
  switch_time = 0;
  cpu_time = 0;
  sched_affinity = none;
  vfork = false;
  pending = [];
  wake = none;
  arch = arch;
  kfx = kfx;
  kstack = none;
  ksig = none;
  ksig_restore = false;
  addr_space = none;
  files = files;
  ptrace_stop = false;
}

-- `Context::block` and `Context::unblock`, less the interrupt to another processor.
unfoldable pub block : Context → Context
block c = elim c.status [ runnable ↦ record c { status = blocked } | _ ↦ c ]

unfoldable pub unblock : Context → Context
unblock c = elim c.status [ blocked ↦ record c { status = runnable } | _ ↦ c ]

unfoldable pub change : (Context → Context) → ℕ → Map ℕ Context → Map ℕ Context
change f i cs = elim (get i cs) [ none ↦ cs | some c ↦ insert i (f c) cs ]

-- Each of the contexts, in order.
unfoldable pub unblock_all : List ℕ → Map ℕ Context → Map ℕ Context
unfolding change unblock
unblock_all [] cs = cs
unblock_all (i ∷ is) cs = unblock_all is (change unblock i cs)
