-- ===== src/Processes/Tests.antt =====
-- The theorems on processes, at three contexts of which two are of the group 7.
use redox_os_kernel.Prelude.{ℕ, List, [], ◌∷◌, ◌++◌, ◌==◌, true, if◌then◌else◌}
use redox_os_kernel.Btree.{Map, nat_key}
use redox_os_kernel.Contexts.{Context, new}
use redox_os_kernel.Processes.{Sender}
use redox_os_kernel.Processes.Exit.{Waits, World}
use redox_os_kernel.Processes.WaitpidKey.{Key}

abbrev self : Context
self = record (new 3 0 [] []) { pgid = 7; ruid = 1000; euid = 1000 }

abbrev contexts : Map ℕ Context
contexts =
    (3, self)
    ∷ (4, record (new 4 0 [] []) { pgid = 7; ruid = 1000 })
    ∷ (5, record (new 5 0 [] []) { pgid = 7; ruid = 1001 })
    ∷ []

abbrev sender : Sender
sender = record { ruid = 1000; euid = 1000; pgid = 7 }

abbrev three : ℕ
three = 3

abbrev group : ℕ
group = 7

-- What `waitpid` is to tell, as the list of what was sent.
abbrev waits : Waits (List (Key × ℕ × ℕ))
waits = record {
  insert = λ key told x. x ++ (key, told.0, told.1) ∷ [];
  receive_all = λ x. ([], x);
}

abbrev family : World (List (Key × ℕ × ℕ))
family = record {
  contexts =
      (3, self)
      ∷ (4, record (new 4 0 [] []) { ppid = 3; vfork = true })
      ∷ (5, record (new 5 0 [] []) { ppid = 4 })
      ∷ [];
  waits = λ i. [];
  waiting = λ i. if i == 3 then 3 ∷ [] else [];
}

abbrev child : Context
child = record (new 4 0 [] []) { ppid = 3; vfork = true }
