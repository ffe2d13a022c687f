-- ===== src/Sync/Tests.antt =====
-- The theorems on waiting, at a queue of words of two bytes, a map of two numbers and one condition.
use redox_os_kernel.Prelude.{
  ℕ, ◌*◌, ◌/◌, ◌≡◌, refl, append-nil, true, List, [], ◌∷◌, arith, ok, min, take, drop,
}
use redox_os_kernel.Btree.{Map, nat_key}
use redox_os_kernel.Contexts.{new}
use redox_os_kernel.UserSlice.{UserSlice}
use redox_os_kernel.UserSlice.Listed.{listed, listed-CopyLaws}
use redox_os_kernel.Sync.{done}
use redox_os_kernel.Sync.Condition.{World, wait_begin, wait_end}
use redox_os_kernel.Sync.Condition.Wakes.{
  Act, notified, signalled, joined, left, perform_all, IsOther, wait_lem,
}
use redox_os_kernel.Sync.Queue.{Layout, all_bytes, receive_into_user}
use redox_os_kernel.Sync.Queue.Receive.{receive_into_user_lem}
use redox_os_kernel.Sync.WaitMap.{WaitMap}
use redox_os_kernel.Sync.WaitMap.Drain.{DistinctKeys}

abbrev one_waiter : World
one_waiter = record { waiters = 3 ∷ []; contexts = (2, new 2 0 [] []) ∷ (3, new 3 0 [] []) ∷ [] }

abbrev acts : List Act
acts = signalled ∷ joined 4 ∷ notified ∷ left 4 ∷ []

joined_four-IsOther : IsOther 2 (joined 4)
joined_four-IsOther h = absurd (omega (arith, h))

wait_lem_example : (wait_end 2 (perform_all acts (wait_begin 2 one_waiter))).1 ≡ true
wait_lem_example =
    wait_lem 2 acts one_waiter refl (tt, (joined_four-IsOther, (tt, (joined_four-IsOther, tt))))

abbrev word : Layout ℕ
word = record { size = 2; to_bytes = λ v. v ∷ 0 ∷ [] }

abbrev buf : UserSlice
buf = record { base = 4096; len = 3 }

abbrev contiguous : List ℕ → List ℕ × List ℕ
contiguous q = (q, [])

receive_into_user_lem_example :
    receive_into_user listed word contiguous buf true
      (record { inner = 7 ∷ 8 ∷ []; notified = 1 }, [])
    ≡ (
      (
        record { inner = drop (min 3 (2 * 2) / 2) (7 ∷ 8 ∷ []); notified = 1 },
        (listed.copy_to_user 4096 (take 3 (all_bytes word (7 ∷ 8 ∷ []))) []).0,
      ),
      done (ok (min 3 (2 * 2))),
    )
receive_into_user_lem_example =
    receive_into_user_lem listed listed-CopyLaws word contiguous buf true 7 (8 ∷ []) 1 []
      (λ q. append-nil q) (omega arith) (refl, (refl, tt)) refl

abbrev two_numbers : WaitMap ℕ ℕ
two_numbers = record { inner = (1, 10) ∷ (2, 20) ∷ []; notified = 2 }

two-DistinctKeys : DistinctKeys two_numbers.inner
unfolding redox_os_kernel.Btree.get
two-DistinctKeys = (refl, (refl, tt))
