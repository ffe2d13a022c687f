-- ===== src/Schemes/Builtin.antt =====
-- The names of the schemes that src/scheme/mod.rs puts into the namespaces, as bytes.
use redox_os_kernel.Prelude.{[], ◌∷◌}
use redox_os_kernel.Schemes.Names.{Name}

-- "event"
abbrev pub event_name : Name
event_name = 101 ∷ 118 ∷ 101 ∷ 110 ∷ 116 ∷ []

-- "itimer"
abbrev pub itimer_name : Name
itimer_name = 105 ∷ 116 ∷ 105 ∷ 109 ∷ 101 ∷ 114 ∷ []

-- "memory"
abbrev pub memory_name : Name
memory_name = 109 ∷ 101 ∷ 109 ∷ 111 ∷ 114 ∷ 121 ∷ []

-- "pipe"
abbrev pub pipe_name : Name
pipe_name = 112 ∷ 105 ∷ 112 ∷ 101 ∷ []

-- "sys"
abbrev pub sys_name : Name
sys_name = 115 ∷ 121 ∷ 115 ∷ []

-- "time"
abbrev pub time_name : Name
time_name = 116 ∷ 105 ∷ 109 ∷ 101 ∷ []

-- "thisproc"
abbrev pub thisproc_name : Name
thisproc_name = 116 ∷ 104 ∷ 105 ∷ 115 ∷ 112 ∷ 114 ∷ 111 ∷ 99 ∷ []

-- "debug"
abbrev pub debug_name : Name
debug_name = 100 ∷ 101 ∷ 98 ∷ 117 ∷ 103 ∷ []

-- "irq"
abbrev pub irq_name : Name
irq_name = 105 ∷ 114 ∷ 113 ∷ []

-- "proc"
abbrev pub proc_name : Name
proc_name = 112 ∷ 114 ∷ 111 ∷ 99 ∷ []

-- "serio"
abbrev pub serio_name : Name
serio_name = 115 ∷ 101 ∷ 114 ∷ 105 ∷ 111 ∷ []

-- "kernel/acpi"
abbrev pub acpi_name : Name
acpi_name = 107 ∷ 101 ∷ 114 ∷ 110 ∷ 101 ∷ 108 ∷ 47 ∷ 97 ∷ 99 ∷ 112 ∷ 105 ∷ []

-- "disk/live"
abbrev pub disk_live_name : Name
disk_live_name = 100 ∷ 105 ∷ 115 ∷ 107 ∷ 47 ∷ 108 ∷ 105 ∷ 118 ∷ 101 ∷ []
