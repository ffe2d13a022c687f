-- ===== src/Fs/Sequences.antt =====
-- Sequences of the calls keep the number of the owners of every description.
use native.Mathlib.Decide.{dec_lt}
use redox_os_kernel.Prelude.{
  ℕ, ◌<◌, ◌≡◌, ◌||◌, Option, some, length, ◌==◌, ==_iff, bit_and, err, panic, Errno, arith,
  Option-cases, Result-cases, Bool-cases, inl, inr,
}
use redox_os_kernel.Btree.{get, nat_key}
use redox_os_kernel.Btree.Laws.{get-insert}
use redox_os_kernel.Schemes.{SchemeList, get_scheme}
use redox_os_kernel.UserSlice.{UserSlice}
use redox_os_kernel.Contexts.Files.{get_file, add_file_min}
use redox_os_kernel.Contexts.Files.Lookup.{get_file_beyond}
use redox_os_kernel.Fs.{
  World, Current, SchemeCalls, Flags, with_files, with_flags, place, close, duplicate_file, dup,
  dup2, ask_scheme, control, fcntl,
}
use redox_os_kernel.Fs.Descriptors.{FileDescriptor, Owned}
use redox_os_kernel.Fs.Owners.{Table, refers, owners_in, count-set, add_file_min-Adds}
use redox_os_kernel.Fs.Calls.{files_of, IsCounted, place-IsCounted}
use redox_os_kernel.Fs.Duplicates.{
  IsLocal, close-IsCounted, duplicate_file-Tallied, dup-IsCounted, dup2-IsCounted,
}

get_file-bound :
    (files : Table) (fd : ℕ) (file : FileDescriptor)
    → get_file files fd ≡ some file
    → fd < length files
get_file-bound files fd file h = elim (dec_lt fd (length files)) [
  | yes p ↦ p
  | no p ↦ absurd (ground (arith, h, get_file_beyond files fd (omega arith)))
]

module _ {S X : Type 0} (calls : SchemeCalls S X) (f : Flags) (schemes : SchemeList S) where
  control-IsCounted :
      (elsewhere : ℕ → ℕ) (fd cmd arg : ℕ) (file : FileDescriptor) (o : Owned) (c : Current)
      (w : World X)
      → w.current ≡ some c
      → get_file c.files fd ≡ some file
      → get file.description w.store ≡ some o
      → IsCounted elsewhere w
      → IsCounted elsewhere (control calls f schemes fd cmd arg file o c.files w).0
  unfolding control with_files with_flags files_of refers owners_in
  control-IsCounted elsewhere fd cmd arg file o c w here opened there t =
      let cloexec = bit_and arg f.o_cloexec == f.o_cloexec in
      let file' : FileDescriptor = record file { cloexec = cloexec } in
      let bound = get_file-bound c.files fd file opened in
      let o' = with_flags calls f schemes arg o in
      record {
        counted = λ d. ground (
          arith,
          here,
          opened,
          there,
          t.counted d,
          count-set d fd (some file') c.files bound,
          get-insert file.description d o' w.store,
          ==_iff file.description d,
        );
        fresh = λ d h. ground (
          arith,
          here,
          there,
          t.fresh d,
          h,
          get-insert file.description d o' w.store,
          ==_iff file.description d,
        );
      }

  -- `fcntl` of a file that is open.
  known_file-IsCounted :
      (elsewhere : ℕ → ℕ) (fd cmd arg : ℕ) (w : World X) (c : Current) (file : FileDescriptor)
      (o : Owned)
      → w.current ≡ some c
      → get_file c.files fd ≡ some file
      → get file.description w.store ≡ some o
      → IsLocal calls f schemes
      → IsCounted elsewhere w
      → IsCounted elsewhere (fcntl calls f schemes fd cmd arg w).0
  unfolding fcntl ask_scheme files_of
  known_file-IsCounted elsewhere fd cmd arg w c file o here opened there local t =
      let call = fcntl calls f schemes fd cmd arg w in
      elim (Bool-cases (cmd == f.f_dupfd)) [
        | inl is_dup ↦
            let nothing : UserSlice = record { base = 0; len = 0 } in
            let add : Table → FileDescriptor → Table × Option ℕ =
              λ files new_file. add_file_min files new_file arg in
            let (w', r) = duplicate_file calls f schemes fd nothing w in
            let e : call ≡ place add (w', r) = ground (arith, here, opened, there, is_dup) in
            rw e (
              place-IsCounted elsewhere add r w'
                (λ files new_file. add_file_min-Adds new_file arg files)
                (duplicate_file-Tallied calls f schemes elsewhere fd nothing w local t))
        | inr other ↦ elim (Bool-cases (cmd == f.f_getfd || cmd == f.f_setfd)) [
          | inl own ↦
              let e : call ≡ control calls f schemes fd cmd arg file o c.files w =
                ground (arith, here, opened, there, other, own) in
              rw e (control-IsCounted elsewhere fd cmd arg file o c w here opened there t)
          | inr shared ↦ elim (Option-cases (get_scheme schemes o.description.scheme)) [
            | inl unknown ↦
                let e : call ≡ (w, err Errno.ebadf) =
                  ground (arith, here, opened, there, other, shared, unknown) in
                rw e t
            | inr (s, known) ↦
                let (x, r) = calls.fcntl s o.description.number cmd arg w.events.outside in
                let w' : World X = record w { events = record w.events { outside = x } } in
                let t' : IsCounted elsewhere w' = record { counted = t.counted; fresh = t.fresh } in
                elim (Result-cases r) [
                  | inr (inl (n, e1)) ↦
                      let e : call ≡ (w', err n) =
                        ground (arith, here, opened, there, other, shared, known, e1) in
                      rw e t'
                  | inr (inr e1) ↦
                      let e : call ≡ (w', panic) =
                        ground (arith, here, opened, there, other, shared, known, e1) in
                      rw e t'
                  | inl (n, e1) ↦
                      let e : call ≡ control calls f schemes fd cmd arg file o c.files w' =
                        ground (arith, here, opened, there, other, shared, known, e1) in
                      rw e (control-IsCounted elsewhere fd cmd arg file o c w' here opened there t')
                ]
          ]
        ]
      ]

  fcntl-IsCounted :
      (elsewhere : ℕ → ℕ) (fd cmd arg : ℕ) (w : World X)
      → IsLocal calls f schemes
      → IsCounted elsewhere w
      → IsCounted elsewhere (fcntl calls f schemes fd cmd arg w).0
  unfolding fcntl ask_scheme
  fcntl-IsCounted elsewhere fd cmd arg w local t =
      let call = fcntl calls f schemes fd cmd arg w in
      elim (Option-cases w.current) [
        | inl gone ↦ let e : call ≡ (w, err Errno.esrch) = ground (arith, gone) in rw e t
        | inr (c, here) ↦ elim (Option-cases (get_file c.files fd)) [
          | inl free ↦ let e : call ≡ (w, err Errno.ebadf) = ground (arith, here, free) in rw e t
          | inr (file, opened) ↦ elim (Option-cases (get file.description w.store)) [
            | inl missing ↦
                let e : call ≡ (w, panic) = ground (arith, here, opened, missing) in rw e t
            | inr (o, there) ↦
                known_file-IsCounted elsewhere fd cmd arg w c file o here opened there local t
          ]
        ]
      ]

  -- A call of the current context.
  pub data Call : World X → World X → Type 0 where
    by_close : {w : World X} (fd : ℕ) → Call w (close calls f schemes fd w).0
    by_dup : {w : World X} (fd : ℕ) (buf : UserSlice) → Call w (dup calls f schemes fd buf w).0
    by_dup2 :
        {w : World X} (fd new_fd : ℕ) (buf : UserSlice)
        → Call w (dup2 calls f schemes fd new_fd buf w).0
    by_fcntl : {w : World X} (fd cmd arg : ℕ) → Call w (fcntl calls f schemes fd cmd arg w).0

  pub data Run : World X → World X → Type 0 where
    no_call : {w : World X} → Run w w
    and_call : {a b c : World X} → Call a b → Run b c → Run a c

  Call-IsCounted :
      (elsewhere : ℕ → ℕ) (a b : World X)
      → IsLocal calls f schemes
      → Call a b
      → IsCounted elsewhere a
      → IsCounted elsewhere b
  Call-IsCounted elsewhere a b local (by_close fd) t =
      close-IsCounted calls f schemes elsewhere fd a t
  Call-IsCounted elsewhere a b local (by_dup fd buf) t =
      dup-IsCounted calls f schemes elsewhere fd buf a local t
  Call-IsCounted elsewhere a b local (by_dup2 fd new_fd buf) t =
      dup2-IsCounted calls f schemes elsewhere fd new_fd buf a local t
  Call-IsCounted elsewhere a b local (by_fcntl fd cmd arg) t =
      fcntl-IsCounted elsewhere fd cmd arg a local t

  -- Whatever calls of `close`, `dup`, `dup2` and `fcntl` a context makes, and however they end, every
  -- description has as many owners as it has descriptors, if it had at first. The schemes must make no
  -- description that others share.
  pub Run-IsCounted :
      (elsewhere : ℕ → ℕ) (a b : World X)
      → IsLocal calls f schemes
      → Run a b
      → IsCounted elsewhere a
      → IsCounted elsewhere b
  Run-IsCounted elsewhere a b local no_call t = t
  Run-IsCounted elsewhere a b local (and_call {b = m} call rest) t =
      Run-IsCounted elsewhere m b local rest (Call-IsCounted elsewhere a m local call t)
