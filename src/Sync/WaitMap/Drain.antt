-- ===== src/Sync/WaitMap/Drain.antt =====
-- What is sent is received once, and in the order of the keys where any key will do.
use redox_os_kernel.Prelude.{
  ℕ, zero, suc, ◌+◌, ◌≡◌, refl, none, some, [], ◌∷◌, ok, if◌then◌else◌, arith, length,
}
use redox_os_kernel.Btree.{Key, Map, get, insert, remove}
use redox_os_kernel.Btree.Laws.{eq_key_refl, get-insert, get-remove}
use redox_os_kernel.Sync.{done}
use redox_os_kernel.Sync.WaitMap.{
  WaitMap, receive, receive_any_nonblock, receive_all, first_key, send,
}

module _ {ℓ κ} {K : Type ℓ} {V : Type κ} ⦃o : Key K⦄ where
  -- After `send` of a value under a key, a round of `receive` of that key ends with the value; the
  -- key is free then, and what is pending under every other key is as before.
  pub receive-send :
      (key : K) (value : V) (q : WaitMap K V)
      → ((receive key (send key value q)).1 ≡ done (ok value))
        × ((j : K)
            → get j (receive key (send key value q)).0.inner
              ≡ (if o.eq_key key j then none else get j q.inner))
  unfolding receive send
  receive-send key value q =
      let sent = get-insert key key value q.inner in
      let same = eq_key_refl key in
      (
        ground (arith, sent, same),
        λ j. ground (
          arith,
          sent,
          same,
          get-remove key j (insert key value q.inner),
          get-insert key j value q.inner,
        ),
      )

  -- No key is there twice, as in every `BTreeMap`.
  abbrev pub DistinctKeys : Map K V → Type κ
  DistinctKeys [] = Unit
  DistinctKeys ((key, value) ∷ m) = (get key m ≡ none) × DistinctKeys m

  -- What repeated calls of `receive_any_nonblock` give, until one gives nothing.
  unfoldable pub drain : ℕ → WaitMap K V → WaitMap K V × Map K V
  unfolding receive_any_nonblock
  drain zero q = (q, [])
  drain (suc n) q =
      let (q', r) = receive_any_nonblock q in
      let (q'', entries) = drain n q' in
      elim r [ none ↦ (q', []) | some entry ↦ (q'', entry ∷ entries) ]

  remove_absent : (key : K) (m : Map K V) → get key m ≡ none → remove key m ≡ m
  unfolding remove get
  remove_absent key [] h = refl
  remove_absent key ((k, v) ∷ m) h = ground (arith, h, remove_absent key m)

  drain_lem :
      (m : Map K V) (n : ℕ)
      → DistinctKeys m
      → drain (length m + 1) (record { inner = m; notified = n })
        ≡ (record { inner = []; notified = n }, m)
  unfolding drain receive_any_nonblock first_key get remove
  drain_lem [] n d = refl
  drain_lem ((key, value) ∷ m) n d =
      ground (arith, eq_key_refl key, remove_absent key m d.0, drain_lem m n d.1)

  -- Calls of `receive_any_nonblock`, one more than there are entries, give the entries that one call
  -- of `receive_all` gives, each once and in the order of the keys, and leave the map empty as it
  -- does. No key may be there twice.
  pub drain-receive_all :
      (q : WaitMap K V) → DistinctKeys q.inner → drain (length q.inner + 1) q ≡ receive_all q
  unfolding receive_all
  drain-receive_all q d = drain_lem q.inner q.notified d
