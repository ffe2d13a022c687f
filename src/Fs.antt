-- ===== src/Fs.antt =====
-- src/syscall/fs.rs: the calls on file descriptors of the current context. `SchemeCalls` are the
-- calls of a scheme object of a type `S`; each may change the state of the schemes, of a type `X`.
pub mod Descriptors
pub mod Owners
pub mod Calls
pub mod Duplicates
pub mod Sequences
pub mod Paths
mod Tests
use redox_os_kernel.Prelude.{
  ℕ, zero, suc, ◌+◌, ◌-◌, Bool, true, false, ◌||◌, Option, none, some, List, [], ◌∷◌, ◌==◌,
  if◌then◌else◌, bit_and, bit_or, usize_mod, set, Result, ok, err, panic, Errno,
}
use redox_os_kernel.Btree.{Map, get, insert, nat_key}
use redox_os_kernel.Schemes.{SchemeList, get_scheme}
use redox_os_kernel.UserSlice.{UserSlice, is_empty}
use redox_os_kernel.Events.{Events}
use redox_os_kernel.Contexts.Files.{get_file, remove_file, add_file, add_file_min, insert_file}
use redox_os_kernel.Fs.Descriptors.{
  FileDescription, Owned, FileDescriptor, Store, share, release, close_descriptor,
}

-- `CallerCtx`
pub record Caller : Type 0 where
  pub pid : ℕ
  pub uid : ℕ
  pub gid : ℕ

-- What the calls use of the current context: who calls, its namespace, its mask for the mode of files
-- that are made, and its table of files.
pub record Current : Type 0 where
  pub caller : Caller
  pub ens : ℕ
  pub umask : ℕ
  pub files : List (Option FileDescriptor)

-- `next` is the name of the next description that is made.
pub record World (X : Type 0) : Type 0 where
  pub current : Option Current
  pub store : Store
  pub next : ℕ
  pub events : Events X

-- `OpenResult`; the caller becomes an owner of an external description.
pub data OpenResult : Type 0 where
  scheme_local : ℕ → OpenResult
  external : ℕ → OpenResult

pub record SchemeCalls (S X : Type 0) : Type 0 where
  pub close : S → ℕ → X → X × Result ℕ
  pub kdup : S → ℕ → UserSlice → Caller → X → X × Result OpenResult
  pub fcntl : S → ℕ → ℕ → ℕ → X → X × Result ℕ

-- The numbers of `syscall::flag`.
pub record Flags : Type 0 where
  pub f_dupfd : ℕ
  pub f_getfd : ℕ
  pub f_setfd : ℕ
  pub f_getfl : ℕ
  pub f_setfl : ℕ
  pub o_cloexec : ℕ
  pub o_accmode : ℕ

-- `!n`
abbrev pub complement : ℕ → ℕ
complement n = usize_mod - 1 - n

module _ {X : Type 0} where
  unfoldable pub with_files : List (Option FileDescriptor) → World X → World X
  with_files files w = elim w.current [
    | none ↦ w
    | some c ↦ record w { current = some (record c { files = files }) }
  ]

  -- A new description with its first owner.
  unfoldable pub make_description : FileDescription → World X → World X × ℕ
  make_description file w = (
    record w {
      store = insert w.next (record { description = file; owners = 1 }) w.store;
      next = w.next + 1;
    },
    w.next,
  )

  -- The descriptor for what a scheme opens: a new description, or one that it has.
  unfoldable pub opened_file :
      FileDescription → Bool → Result OpenResult → World X → World X × Result FileDescriptor
  unfolding make_description
  opened_file file cloexec r w = elim r [
    | err e ↦ (w, err e)
    | panic ↦ (w, panic)
    | ok opened ↦ elim opened [
      | external d ↦ (w, ok (record { description = d; cloexec = cloexec }))
      | scheme_local number ↦
          let (w', d) = make_description (record file { number = number }) w in
          (w', ok (record { description = d; cloexec = cloexec }))
    ]
  ]

  -- What `add_file`, `add_file_min` or `insert_file` makes of the table: if there is no slot, the
  -- descriptor is dropped.
  unfoldable pub placed :
      FileDescriptor → List (Option FileDescriptor) × Option ℕ → World X → World X × Result ℕ
  unfolding with_files release
  placed file (files, slot) w = elim slot [
    | some fd ↦ (with_files files w, ok fd)
    | none ↦
        (with_files files (record w { store = release file.description w.store }), err Errno.emfile)
  ]

  -- The rest of a call that places the file that `duplicate_file` gives.
  unfoldable pub place :
      (List (Option FileDescriptor) → FileDescriptor → List (Option FileDescriptor) × Option ℕ)
      → World X × Result FileDescriptor
      → World X × Result ℕ
  unfolding placed
  place add (w, r) = elim r [
    | err e ↦ (w, err e)
    | panic ↦ (w, panic)
    | ok file ↦ elim w.current [
      | none ↦ (record w { store = release file.description w.store }, err Errno.esrch)
      | some c ↦ placed file (add c.files file) w
    ]
  ]

module _ {S X : Type 0} (calls : SchemeCalls S X) (f : Flags) (schemes : SchemeList S) where
  unfoldable pub close : ℕ → World X → World X × Result ℕ
  unfolding remove_file close_descriptor with_files
  close fd w = elim w.current [
    | none ↦ (w, err Errno.esrch)
    | some c ↦
        let (files, removed) = remove_file c.files fd in
        elim removed [
          | none ↦ (with_files files w, err Errno.ebadf)
          | some file ↦
              let ((store, ev), r) =
                close_descriptor calls.close schemes file (w.store, w.events) in
              (with_files files (record w { store = store; events = ev }), r)
        ]
  ]

  unfoldable pub duplicate_file : ℕ → UserSlice → World X → World X × Result FileDescriptor
  unfolding get_file share opened_file get_scheme
  duplicate_file fd user_buf w = elim w.current [
    | none ↦ (w, err Errno.esrch)
    | some c ↦ elim (get_file c.files fd) [
      | none ↦ (w, err Errno.ebadf)
      | some file ↦ elim (get file.description w.store) [
        | none ↦ (w, panic)
        | some o ↦
            if is_empty user_buf
            then (
              record w { store = share file.description w.store },
              ok (record { description = file.description; cloexec = false }),
            )
            else elim (get_scheme schemes o.description.scheme) [
              | none ↦ (w, err Errno.ebadf)
              | some scheme ↦
                  let (outside, r) =
                    calls.kdup scheme o.description.number user_buf c.caller w.events.outside in
                  opened_file o.description false r
                    (record w { events = record w.events { outside = outside } })
            ]
      ]
    ]
  ]

  unfoldable pub dup : ℕ → UserSlice → World X → World X × Result ℕ
  unfolding duplicate_file place add_file
  dup fd buf w = place add_file (duplicate_file fd buf w)

  unfoldable pub dup2 : ℕ → ℕ → UserSlice → World X → World X × Result ℕ
  unfolding duplicate_file place insert_file close
  dup2 fd new_fd buf w =
      if fd == new_fd
      then (w, ok new_fd)
      else place (λ files file. insert_file files new_fd file)
          (duplicate_file fd buf (close new_fd w).0)

  -- What `fcntl` asks of the scheme.
  unfoldable pub ask_scheme : ℕ → ℕ → FileDescription → World X → World X × Result ℕ
  unfolding get_scheme
  ask_scheme cmd arg file w = elim (get_scheme schemes file.scheme) [
    | none ↦ (w, err Errno.ebadf)
    | some scheme ↦
        let (outside, r) = calls.fcntl scheme file.number cmd arg w.events.outside in
        (record w { events = record w.events { outside = outside } }, r)
  ]

  -- The description with the flags that F_SETFL gives it.
  unfoldable pub with_flags : ℕ → Owned → Owned
  with_flags arg o =
      let old = o.description.flags in
      let flags = bit_or (bit_and old f.o_accmode) (bit_and arg (complement f.o_accmode)) in
      record o { description = record o.description { flags = flags } }

  -- The rest of `fcntl`, other than F_DUPFD, on a descriptor `file` of the description `o`.
  unfoldable pub control :
      ℕ
      → ℕ
      → ℕ
      → FileDescriptor
      → Owned
      → List (Option FileDescriptor)
      → World X
      → World X × Result ℕ
  unfolding with_files with_flags
  control fd cmd arg file o files w =
      if cmd == f.f_getfd
      then (w, ok (if file.cloexec then f.o_cloexec else 0))
      else if cmd == f.f_setfd
      then (
        with_files
            (set files fd (some (record file { cloexec = bit_and arg f.o_cloexec == f.o_cloexec })))
            w,
        ok 0,
      )
      else if cmd == f.f_getfl
      then (w, ok o.description.flags)
      else if cmd == f.f_setfl
      then (record w { store = insert file.description (with_flags arg o) w.store }, ok 0)
      else (w, err Errno.einval)

  unfoldable pub fcntl : ℕ → ℕ → ℕ → World X → World X × Result ℕ
  unfolding get_file ask_scheme control duplicate_file place add_file_min
  fcntl fd cmd arg w = elim w.current [
    | none ↦ (w, err Errno.esrch)
    | some c ↦ elim (get_file c.files fd) [
      | none ↦ (w, err Errno.ebadf)
      | some file ↦ elim (get file.description w.store) [
        | none ↦ (w, panic)
        | some o ↦
            if cmd == f.f_dupfd
            then place (λ files new_file. add_file_min files new_file arg)
                (duplicate_file fd (record { base = 0; len = 0 }) w)
            else if cmd == f.f_getfd || cmd == f.f_setfd
            then control fd cmd arg file o c.files w
            else let (w', r) = ask_scheme cmd arg o.description w in
              elim r [
                | ok n ↦ control fd cmd arg file o c.files w'
                | err e ↦ (w', err e)
                | panic ↦ (w', panic)
              ]
      ]
    ]
  ]
