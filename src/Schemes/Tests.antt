-- ===== src/Schemes/Tests.antt =====
-- The theorems on the list of schemes, at a list with one namespace; the scheme objects are numbers.
use redox_os_kernel.Prelude.{
  All, arith, false, ◌≢◌, ℕ, ◌≡◌, refl, none, some, [], ◌∷◌, ok, if◌then◌else◌, ◌==◌, ◌&&◌,
}
use redox_os_kernel.Btree.{Map, get, nat_key}
use redox_os_kernel.Schemes.{
  SchemeList, get_scheme, get_name, free_id, insert_scheme, remove_scheme,
}
use redox_os_kernel.Schemes.Names.{Name, name_key, eq_name}
use redox_os_kernel.Schemes.Namespaces.{Makers, common_schemes, make_ns}
use redox_os_kernel.Schemes.Namespaces.Made.{names_in, Stand}
use redox_os_kernel.Schemes.Namespaces.Copied.{AllKnown, make_ns_lem}
use redox_os_kernel.Schemes.Insert.{id_of, insert_scheme_lem}
use redox_os_kernel.Schemes.Remove.{DistinctNames, remove_scheme_lem}

abbrev time : Name
time = b't' ∷ b'i' ∷ []

abbrev pipe_name : Name
pipe_name = b'p' ∷ b'i' ∷ []

abbrev one_name : Map Name ℕ
one_name = (time, 1) ∷ []

abbrev one_scheme : SchemeList ℕ
one_scheme = record {
  map = (1, 10) ∷ [];
  names = (1, (time, 1) ∷ []) ∷ [];
  next_ns = 2;
  next_id = 1;
}

has_time : get 1 one_scheme.names ≡ some one_name
unfolding get
has_time = refl

no_pipe : get pipe_name one_name ≡ none
unfolding get
no_pipe = refl

no_namespace : get 2 one_scheme.names ≡ none
unfolding get
no_namespace = refl

has_scheme : get_scheme one_scheme 1 ≡ some 10
unfolding get_scheme get
has_scheme = refl

time-Distinct : DistinctNames one_scheme.names
unfolding get
time-Distinct = ((refl, tt), tt)

insert_scheme_lem_example :
    ((insert_scheme one_scheme 1 pipe_name (λ id. id)).1 ≡ ok (free_id one_scheme))
    × (get_scheme one_scheme (free_id one_scheme) ≡ none)
    × (get_name (insert_scheme one_scheme 1 pipe_name (λ id. id)).0 1 pipe_name
        ≡ some (free_id one_scheme, free_id one_scheme))
    × ((ns' : ℕ) (name' : Name) (id : ℕ) (s : ℕ)
        → get_name one_scheme ns' name' ≡ some (id, s)
        → get_name (insert_scheme one_scheme 1 pipe_name (λ id. id)).0 ns' name' ≡ some (id, s))
    × ((ns' : ℕ) (name' : Name)
        → id_of (insert_scheme one_scheme 1 pipe_name (λ id. id)).0 ns' name' ≡ (
            if 1 == ns' && eq_name pipe_name name'
            then some (free_id one_scheme)
            else id_of one_scheme ns' name'))
    × ((id : ℕ)
        → get_scheme (insert_scheme one_scheme 1 pipe_name (λ id. id)).0 id ≡ (
            if free_id one_scheme == id
            then some (free_id one_scheme)
            else get_scheme one_scheme id))
insert_scheme_lem_example =
    insert_scheme_lem one_scheme 1 pipe_name (λ id. id) one_name has_time no_pipe

remove_scheme_lem_example :
    (l' : SchemeList ℕ) × (remove_scheme one_scheme 1 ≡ ok l')
    × ((ns : ℕ) (name : Name)
        → get_name l' ns name ≡ elim (get_name one_scheme ns name) [
          | none ↦ none
          | some (i, t) ↦ if i == 1 then none else some (i, t)
        ])
remove_scheme_lem_example = remove_scheme_lem one_scheme 1 10 time-Distinct has_scheme

abbrev makers : Makers ℕ
makers = record {
  root = λ ns id. id;
  event = 100;
  itimer = 101;
  memory = 102;
  pipe = λ id. id;
  sys = 103;
  time = λ id. id;
  thisproc = 104;
  debug = λ id. id;
  irq = λ id. id;
  proc = λ id. id;
  serio = λ id. id;
  acpi = none;
  disk_live = none;
}

abbrev one : ℕ
one = 1

time_known : AllKnown one_scheme one (time ∷ [])
unfolding get_name get_scheme get
time_known = (((1, 10), refl), tt)

not_the_next : one ≢ one_scheme.next_ns
not_the_next h = absurd (omega (arith, h))

time_strange :
    All (λ n. All (λ e. eq_name e n ≡ false) (names_in (common_schemes makers 2))) (time ∷ [])
time_strange = ground arith

make_ns_lem_example :
    let (l', r) = make_ns makers one (time ∷ []) one_scheme in
    (r ≡ ok one_scheme.next_ns)
    × All (λ n. get_name l' one_scheme.next_ns n ≡ get_name one_scheme one n) (time ∷ [])
    × ((ns : ℕ) (name : Name) (id : ℕ) (s : ℕ)
        → ns ≢ one_scheme.next_ns
        → get_name one_scheme ns name ≡ some (id, s)
        → get_name l' ns name ≡ some (id, s))
    × ((ns : ℕ) → one_scheme.next_ns ≢ ns → get ns l'.names ≡ get ns one_scheme.names)
    × Stand l' one_scheme.next_ns (common_schemes makers one_scheme.next_ns)
    × ((n : Name)
        → All (λ e. eq_name e n ≡ false) (time ∷ [])
        → All (λ e. eq_name e n ≡ false) (names_in (common_schemes makers one_scheme.next_ns))
        → id_of l' one_scheme.next_ns n ≡ none)
make_ns_lem_example =
    make_ns_lem makers one (time ∷ []) one_scheme not_the_next time_known (tt, tt) time_strange
