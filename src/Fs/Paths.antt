-- ===== src/Fs/Paths.antt =====
-- The calls of src/syscall/fs.rs that take a path. `utf8` is the test of `String::from_utf8`, and
-- `PathCalls` are the calls of a scheme object on the part of a path that it gets.
pub mod Opened
use redox_os_kernel.Prelude.{
  ℕ, zero, suc, ◌+◌, ◌-◌, Bool, true, false, Option, none, some, List, [], ◌∷◌, ltb, ◌==◌,
  if◌then◌else◌, bit_and, bit_or, Result, ok, err, panic, Errno, guard, ok_or, ◌>>=◌, ◌>>◌,
}
use redox_os_kernel.Btree.{get, nat_key}
use redox_os_kernel.Schemes.{SchemeList, get_name, get_scheme}
use redox_os_kernel.UserSlice.{UserMem, UserSlice, copy_common_bytes_to_slice}
use redox_os_kernel.Contexts.Files.{get_file, add_file}
use redox_os_kernel.Fs.{World, Current, Caller, Flags, OpenResult, complement, opened_file, place}
use redox_os_kernel.Fs.Descriptors.{FileDescription, FileDescriptor}

pub record PathCalls (S X : Type 0) : Type 0 where
  pub kopen : S → List ℕ → ℕ → Caller → X → X × Result OpenResult
  pub rmdir : S → List ℕ → ℕ → ℕ → X → X × Result ℕ
  pub unlink : S → List ℕ → ℕ → ℕ → X → X × Result ℕ
  pub frename : S → ℕ → List ℕ → ℕ → ℕ → X → X × Result ℕ

-- `splitn(2, ':')`: what is before the first colon, and what is behind it, if there is one.
unfoldable pub split_path : List ℕ → List ℕ × List ℕ
split_path [] = ([], [])
split_path (c ∷ path) =
    let (name, reference) = split_path path in if c == 58 then ([], path) else (c ∷ name, reference)

-- The bits of the mode that the mask takes away; 511 is 0o777.
unfoldable pub mask_mode : ℕ → ℕ → ℕ
mask_mode umask flags =
    bit_or (bit_and flags (complement 511))
      (bit_and (bit_and flags 511) (complement (bit_and umask 511)))

module _ {S X M : Type 0} (calls : PathCalls S X) (f : Flags) (schemes : SchemeList S)
    (mem : UserMem M) (utf8 : List ℕ → Bool) (path_max : ℕ) where
  unfoldable pub copy_path_to_buf : UserSlice → M → Result (List ℕ)
  unfolding copy_common_bytes_to_slice
  copy_path_to_buf raw m = if ltb path_max raw.len then err Errno.enametoolong else do
    path ← copy_common_bytes_to_slice mem raw path_max m
    guard (utf8 path) Errno.einval
    ok path

  -- The scheme that a path names in a namespace, and what the scheme gets of the path.
  unfoldable pub resolve : ℕ → UserSlice → M → Result (ℕ × S × List ℕ)
  unfolding copy_path_to_buf split_path get_name
  resolve ens raw m = do
    path ← copy_path_to_buf raw m
    let (name, reference) = split_path path
    (id, scheme) ← ok_or (get_name schemes ens name) Errno.enodev
    ok (id, scheme, reference)

  unfoldable pub open_path : UserSlice → ℕ → M → World X → World X × Result ℕ
  unfolding resolve mask_mode opened_file place add_file
  open_path raw mode m w = elim w.current [
    | none ↦ (w, err Errno.esrch)
    | some c ↦
        let flags = mask_mode c.umask mode in
        elim (resolve c.ens raw m) [
          | err e ↦ (w, err e)
          | panic ↦ (w, panic)
          | ok (id, scheme, reference) ↦
              let (outside, r) = calls.kopen scheme reference flags c.caller w.events.outside in
              let file : FileDescription = record {
                namespace = c.ens;
                scheme = id;
                number = 0;
                flags = bit_and flags (complement f.o_cloexec);
              } in
              let cloexec = bit_and flags f.o_cloexec == f.o_cloexec in
              place add_file (
                opened_file file cloexec r
                  (record w { events = record w.events { outside = outside } }))
        ]
  ]

  -- `rmdir` and `unlink`, by the call of the scheme.
  unfoldable pub path_call :
      (S → List ℕ → ℕ → ℕ → X → X × Result ℕ) → UserSlice → M → World X → World X × Result ℕ
  unfolding resolve
  path_call call raw m w = elim w.current [
    | none ↦ (w, err Errno.esrch)
    | some c ↦ elim (resolve c.ens raw m) [
      | err e ↦ (w, err e)
      | panic ↦ (w, panic)
      | ok (id, scheme, reference) ↦
          let (outside, r) = call scheme reference c.caller.uid c.caller.gid w.events.outside in
          (record w { events = record w.events { outside = outside } }, r)
    ]
  ]

  unfoldable pub rmdir : UserSlice → M → World X → World X × Result ℕ
  unfolding path_call
  rmdir raw m w = path_call calls.rmdir raw m w

  unfoldable pub unlink : UserSlice → M → World X → World X × Result ℕ
  unfolding path_call
  unlink raw m w = path_call calls.unlink raw m w

  -- The rest of `frename`, for a descriptor of the description `file`.
  unfoldable pub rename_in :
      FileDescription → UserSlice → M → Current → World X → World X × Result ℕ
  unfolding resolve
  rename_in file raw m c w = elim (resolve c.ens raw m) [
    | err e ↦ (w, err e)
    | panic ↦ (w, panic)
    | ok (id, scheme, reference) ↦
        let (outside, r) =
          calls.frename scheme file.number reference c.caller.uid c.caller.gid w.events.outside in
        if id == file.scheme
        then (record w { events = record w.events { outside = outside } }, r)
        else (w, err Errno.exdev)
  ]

  unfoldable pub frename : ℕ → UserSlice → M → World X → World X × Result ℕ
  unfolding rename_in get_file
  frename fd raw m w = elim w.current [
    | none ↦ (w, err Errno.esrch)
    | some c ↦ elim (get_file c.files fd) [
      | none ↦ (w, err Errno.ebadf)
      | some file ↦ elim (get file.description w.store) [
        | none ↦ (w, panic)
        | some o ↦ rename_in o.description raw m c w
      ]
    ]
  ]
