-- ===== src/Users/Answers.antt =====
-- What `handle_packet` does with an answer, on its branches.
use redox_os_kernel.Prelude.{
  ℕ, ◌%◌, ◌≡◌, ◌≢◌, refl, false, none, some, ◌==◌, if◌then◌else◌, Result, ok, err, Errno, arith,
}
use redox_os_kernel.Btree.{get, remove, nat_key}
use redox_os_kernel.Btree.Laws.{get-remove}
use redox_os_kernel.Sync.{done, wait}
use redox_os_kernel.Sync.WaitMap
use redox_os_kernel.Sync.WaitMap.Drain.{receive-send}
use redox_os_kernel.Schemes.{SchemeList}
use redox_os_kernel.Users.{UserInner, Packet, Response, regular, Mapping, Api, receive, returned}
use redox_os_kernel.Users.Packets.{World, Paging, respond, handle_packet, answer_fmap, drop_file}

receive_waits : (id : ℕ) (u : UserInner) → get id u.done.inner ≡ none → (receive id u).1 ≡ wait
unfolding receive WaitMap.receive
receive_waits id u h = ground (arith, h)

module _ {F M X S : Type 0} (api : Api) (pg : Paging F M) (scheme_close : S → ℕ → X → X × Result ℕ)
    (schemes : SchemeList S) where
  -- An answer under a number that `fmap` does not know.
  handle_packet_plain :
      (packet : Packet) (w : World F M X)
      → packet.id ≢ 0
      → api.is_skmsg packet.a ≡ false
      → get packet.id w.inner.fmap ≡ none
      → handle_packet api pg scheme_close schemes packet w
        ≡ (respond packet.id (regular packet.a) w, ok tt)
  unfolding handle_packet
  handle_packet_plain packet w nonzero apart free =
      let other : (packet.id == 0) ≡ false = ground (arith, nonzero) in rw (other, apart, free) refl

  receive-respond :
      (id : ℕ) (response : Response) (w : World F M X)
      → let (u, t) = receive id (respond id response w).inner in
        (t ≡ done (ok response))
        × ((j : ℕ) → get j u.done.inner ≡ (if id == j then none else get j w.inner.done.inner))
  unfolding receive respond
  receive-respond id response w = receive-send id response w.inner.done

  -- The answer `r` to a call other than `fmap`, in a packet with its number, is what the call returns:
  -- its wait ends in the next round, the responses under every other number are as before, and nothing
  -- else changes. This holds if the coding of results gives back `r` and keeps it apart from the
  -- messages to the kernel, and the number is not 0.
  pub handle_packet-answers :
      (packet : Packet) (r : Result ℕ) (w : World F M X)
      → packet.id ≢ 0
      → packet.a ≡ api.mux r
      → api.demux (api.mux r) ≡ r
      → api.is_skmsg (api.mux r) ≡ false
      → get packet.id w.inner.fmap ≡ none
      → let (w', result) = handle_packet api pg scheme_close schemes packet w in
        let (u, t) = receive packet.id w'.inner in
        (result ≡ ok tt)
        × (w' ≡ record w { inner = record w.inner { done = w'.inner.done } })
        × ((response : Response) × (t ≡ done (ok response)) × (returned api response ≡ r))
        × ((j : ℕ)
            → get j u.done.inner ≡ (if packet.id == j then none else get j w.inner.done.inner))
  unfolding respond returned
  handle_packet-answers packet r w nonzero coded back apart free =
      let sent = receive-respond packet.id (regular packet.a) w in
      let plain = handle_packet_plain packet w nonzero (rw coded apart) free in
      rw plain (refl, refl, (regular packet.a, sent.0, rw coded back), sent.1)

  refused :
      (packet : Packet) (asked : Mapping) (address : ℕ) (w : World F M X)
      → packet.id ≢ 0
      → api.is_skmsg packet.a ≡ false
      → get packet.id w.inner.fmap ≡ some asked
      → api.demux packet.a ≡ ok address
      → (address % pg.page == 0) ≡ false
      → let u = w.inner in
        handle_packet api pg scheme_close schemes packet w ≡ (
          drop_file asked.desc (record w { inner = record u { fmap = remove packet.id u.fmap } }),
          err Errno.einval,
        )
  unfolding handle_packet answer_fmap
  refused packet asked address w nonzero apart known decoded unaligned =
      let other : (packet.id == 0) ≡ false = ground (arith, nonzero) in
      ground (arith, other, apart, known, decoded, unaligned)

  -- An answer to `fmap` that is not at a page boundary is refused with EINVAL, but the call is no longer
  -- known as one of `fmap` and gets no response, if there was none yet: its wait goes on. The same answer
  -- for a second time is accepted as it stands: the caller gets the address in the memory of the handler,
  -- where it has no mapping, as that of its mapping. The number of the packet is not 0, and the answer is
  -- no message to the kernel.
  pub handle_packet_unaligned :
      (packet : Packet) (asked : Mapping) (address : ℕ) (w : World F M X)
      → packet.id ≢ 0
      → api.is_skmsg packet.a ≡ false
      → get packet.id w.inner.fmap ≡ some asked
      → get packet.id w.inner.done.inner ≡ none
      → api.demux packet.a ≡ ok address
      → (address % pg.page == 0) ≡ false
      → let (w1, r1) = handle_packet api pg scheme_close schemes packet w in
        let (w2, r2) = handle_packet api pg scheme_close schemes packet w1 in
        (r1 ≡ err Errno.einval)
        × ((receive packet.id w1.inner).1 ≡ wait)
        × (w1.spaces ≡ w.spaces)
        × (r2 ≡ ok tt)
        × ((response : Response) × ((receive packet.id w2.inner).1 ≡ done (ok response))
            × (returned api response ≡ ok address))
        × (w2.spaces ≡ w.spaces)
  unfolding drop_file respond returned
  handle_packet_unaligned packet asked address w nonzero apart known pending decoded unaligned =
      let u = w.inner in
      let w1 =
        drop_file asked.desc (record w { inner = record u { fmap = remove packet.id u.fmap } }) in
      let first : handle_packet api pg scheme_close schemes packet w ≡ (w1, err Errno.einval) =
        refused packet asked address w nonzero apart known decoded unaligned in
      let gone : get packet.id w1.inner.fmap ≡ none =
        ground (arith, get-remove packet.id packet.id u.fmap) in
      let sent = receive-respond packet.id (regular packet.a) w1 in
      let second = handle_packet_plain packet w1 nonzero apart gone in
      rw (first, second)
        (
          refl,
          receive_waits packet.id w1.inner pending,
          refl,
          refl,
          (regular packet.a, sent.0, decoded),
          refl,
        )
