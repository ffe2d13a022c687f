-- ===== src/Contexts/Tests.antt =====
-- The theorems on contexts, at two contexts of one processor, and at a small table of files.
use redox_os_kernel.Prelude.{
  ℕ, ◌<◌, ◌≡◌, ◌≢◌, ◌⊎◌, refl, Bool, true, false, Option, none, some, List, [], ◌∷◌, Result, ok,
  err, panic, Errno, arith, if◌then◌else◌, ◌==◌,
}
use redox_os_kernel.Btree.{Map, get, nat_key}
use redox_os_kernel.Contexts.{Context, runnable, new}
use redox_os_kernel.Contexts.Files.{context_max_files, add_file_min}
use redox_os_kernel.Contexts.Files.Lowest.{Placed, Taken, add_file_min_lem}
use redox_os_kernel.Contexts.Registry.{ContextList, new_context, context_max_contexts}
use redox_os_kernel.Contexts.Registry.Fresh.{new_context_lem}
use redox_os_kernel.Contexts.Switch.{Arch, World, switch}
use redox_os_kernel.Contexts.Switch.Solo.{IsSolo, switch-IsSolo}
use redox_os_kernel.Contexts.Switch.Order.{is_ready, is_sooner, switch_first}

abbrev table : List (Option ℕ)
table = some 10 ∷ none ∷ some 12 ∷ []

add_file_min_lem_example :
    ((i : ℕ) × ((add_file_min table 7 0).1 ≡ some i)
      × Placed table (add_file_min table 7 0).0 7 0 i)
    ⊎ ((add_file_min table 7 0 ≡ (table, none)) × Taken 0 context_max_files table)
add_file_min_lem_example = add_file_min_lem table 7 0 (omega arith)

abbrev arch : Arch
arch = record {
  is_singlestep = λ c. false;
  set_singlestep = λ b stack. stack;
  signal_stack = λ sig regs. regs;
}

abbrev running_one : Context
running_one = record (new 1 0 [] []) { running = true; cpu_id = some 0; status = runnable }

abbrev idle_one : Context
idle_one = record (new 2 0 [] []) { cpu_id = some 0; status = runnable }

abbrev list_of_two : ContextList
list_of_two = record { map = (1, running_one) ∷ (2, idle_one) ∷ []; next_id = 3 }

abbrev make : ℕ → Result Context
make id = ok (new id 0 [] [])

make_calm : (id : ℕ) → make id ≢ panic
make_calm id h = absurd (ground (arith, h))

new_context_lem_example :
    let (l', r) = new_context make 1 list_of_two in
    ((e : Errno) × (r ≡ err e) × (l'.map ≡ list_of_two.map))
    ⊎ ((id : ℕ) × (c : Context) × (r ≡ ok id)
        × (make id ≡ ok c)
        × (get id list_of_two.map ≡ none)
        × (1 < id)
        × (id < context_max_contexts)
        × ((other : ℕ)
            → get other l'.map ≡ (if id == other then some c else get other list_of_two.map)))
new_context_lem_example = new_context_lem make 1 list_of_two make_calm

abbrev two : World
two = record { contexts = list_of_two.map; current = λ cpu. 1 }

two-IsSolo : IsSolo 1 two
unfolding get
two-IsSolo = record {
  named = λ i c h. ground (arith, h);
  present = λ cpu h. (running_one, refl, refl, let e : cpu ≡ 0 = omega arith in ground (arith, e));
  alone = λ i c h r. (0, omega arith, ground (arith, h, r), ground (arith, h, r));
}

abbrev or_same : Result (World × Bool) → World × Bool
or_same (ok x) = x
or_same (err e) = (two, false)
or_same panic = (two, false)

switched : switch arch 0 5 two ≡ ok (or_same (switch arch 0 5 two))
unfolding switch get redox_os_kernel.Btree.insert
switched = refl

switch-IsSolo_example : IsSolo 1 (or_same (switch arch 0 5 two)).0
switch-IsSolo_example =
    switch-IsSolo arch 1 0 5 two (or_same (switch arch 0 5 two)).0 (or_same (switch arch 0 5 two)).1
      (omega arith) two-IsSolo switched

here : get (two.current 0) two.contexts ≡ some running_one
unfolding get
here = refl

switch_first_example :
    let (w', moved) = or_same (switch arch 0 5 two) in
    ((moved ≡ true)
      × (is_ready 0 5 (get (w'.current 0) two.contexts) ≡ true)
      × ((j : ℕ) → is_sooner 1 j (w'.current 0) ≡ true → is_ready 0 5 (get j two.contexts) ≡ false))
    ⊎ ((moved ≡ false)
        × (w'.current 0 ≡ 1)
        × ((j : ℕ) → j ≢ 1 → is_ready 0 5 (get j two.contexts) ≡ false))
switch_first_example =
    switch_first arch 0 5 two (or_same (switch arch 0 5 two)).0 running_one
      (or_same (switch arch 0 5 two)).1 (omega arith, (omega arith, tt)) here switched
