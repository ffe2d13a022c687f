-- ===== src/Fs/Paths/Opened.antt =====
-- What `open` makes, and the parts of a path.
use redox_os_kernel.Prelude.{
  ℕ, ◌≡◌, ◌≢◌, refl, Bool, false, List, [], ◌∷◌, ◌++◌, ◌==◌, bit_and, ok, err, panic, Errno, arith,
  Option-cases, Result-cases, inl, inr, All,
}
use redox_os_kernel.Schemes.{SchemeList}
use redox_os_kernel.UserSlice.{UserMem, UserSlice}
use redox_os_kernel.Contexts.Files.{add_file}
use redox_os_kernel.Fs.{World, Caller, Flags, external, opened_file, place, complement}
use redox_os_kernel.Fs.Descriptors.{FileDescription}
use redox_os_kernel.Fs.Owners.{add_file_min-Adds}
use redox_os_kernel.Fs.Calls.{IsCounted, files_of, opened_file-Tallied, place-IsCounted}
use redox_os_kernel.Fs.Paths.{PathCalls, split_path, mask_mode, resolve, open_path}

-- A path is cut at its first colon.
pub split_path-append :
    (name reference : List ℕ)
    → All (λ c. (c == 58) ≡ false) name
    → split_path (name ++ 58 ∷ reference) ≡ (name, reference)
unfolding split_path
split_path-append [] reference h = refl
split_path-append (c ∷ name) reference h =
    let ih = split_path-append name reference h.1 in ground (arith, h.0, ih)

module _ {S X M : Type 0} (calls : PathCalls S X) (f : Flags) (schemes : SchemeList S)
    (mem : UserMem M) (utf8 : List ℕ → Bool) (path_max : ℕ) where
  -- `kopen` makes no description that others share.
  abbrev pub OpensLocal : Type 0
  OpensLocal =
      (s : S) (path : List ℕ) (flags : ℕ) (caller : Caller) (x : X) (d : ℕ)
      → (calls.kopen s path flags caller x).1 ≢ ok (external d)

  -- After `open`, in whatever way it ends, every description has as many owners as it has descriptors,
  -- if it had before. The schemes must make no description that others share.
  pub open_path-IsCounted :
      (elsewhere : ℕ → ℕ) (raw : UserSlice) (mode : ℕ) (m : M) (w : World X)
      → OpensLocal
      → IsCounted elsewhere w
      → IsCounted elsewhere (open_path calls f schemes mem utf8 path_max raw mode m w).0
  unfolding open_path files_of add_file
  open_path-IsCounted elsewhere raw mode m w local t =
      let call = open_path calls f schemes mem utf8 path_max raw mode m w in
      elim (Option-cases w.current) [
        | inl gone ↦ let e : call ≡ (w, err Errno.esrch) = ground (arith, gone) in rw e t
        | inr (c, here) ↦
            let found = resolve calls f schemes mem utf8 path_max c.ens raw m in
            elim (Result-cases found) [
              | inr (inl (n, e1)) ↦ let e : call ≡ (w, err n) = ground (arith, here, e1) in rw e t
              | inr (inr e1) ↦ let e : call ≡ (w, panic) = ground (arith, here, e1) in rw e t
              | inl ((id, scheme, reference), e1) ↦
                  let flags = mask_mode c.umask mode in
                  let (x, r) = calls.kopen scheme reference flags c.caller w.events.outside in
                  let w' : World X = record w { events = record w.events { outside = x } } in
                  let file : FileDescription = record {
                    namespace = c.ens;
                    scheme = id;
                    number = 0;
                    flags = bit_and flags (complement f.o_cloexec);
                  } in
                  let cloexec = bit_and flags f.o_cloexec == f.o_cloexec in
                  let (w'', r') = opened_file file cloexec r w' in
                  let e : call ≡ place add_file (w'', r') = ground (arith, here, e1) in
                  rw e (
                    place-IsCounted elsewhere add_file r' w''
                      (λ files new_file. add_file_min-Adds new_file 0 files)
                      (opened_file-Tallied elsewhere file cloexec r w'
                        (local scheme reference flags c.caller w.events.outside)
                        (record { counted = t.counted; fresh = t.fresh })))
            ]
      ]
