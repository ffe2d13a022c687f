-- ===== src/Users/Kept.antt =====
-- What `handle_packet` of src/scheme/user.rs leaves alone.
use redox_os_kernel.Prelude.{
  ℕ, ◌%◌, ◌≡◌, ◌⊎◌, refl, inl, inr, not, ◌||◌, ◌==◌, Result, ok, err, panic, Option-cases,
  Bool-cases, Result-cases,
}
use redox_os_kernel.Btree.{get, remove, nat_key}
use redox_os_kernel.Contexts.Files.{remove_file}
use redox_os_kernel.Fs.Descriptors.{FileDescriptor}
use redox_os_kernel.Memory.Space.{AddrSpace}
use redox_os_kernel.Schemes.{SchemeList}
use redox_os_kernel.Users.{UserInner, Packet, Mapping, Api}
use redox_os_kernel.Users.Packets.{
  World, Paging, respond, return_fd, drop_file, mapped, map_file, answer_fmap, handle_packet,
}

-- What a scheme keeps of its calls: the packets that wait to be read, the calls of `fmap`, and the next
-- number.
abbrev pub Kept : UserInner → UserInner → Type 0
Kept u v = (v.todo.inner ≡ u.todo.inner) × (v.fmap ≡ u.fmap) × (v.next_id ≡ u.next_id)

return_fd-Kept :
    {F M X : Type 0} (id number : ℕ) (w : World F M X)
    → Kept w.inner (return_fd id number w).0.inner
unfolding return_fd respond
return_fd-Kept id number w = elim (Option-cases w.current) [
  | inl gone ↦ rw (gone, return_fd) (refl, refl, refl)
  | inr (h, known) ↦ elim (Option-cases (remove_file h.files number).1) [
    | inl gone ↦ rw (known, gone, return_fd) (refl, refl, refl)
    | inr (file, found) ↦ rw (known, found, return_fd) (refl, refl, refl)
  ]
]

module _ {F M X : Type 0} (api : Api) (pg : Paging F M) where
  mapped-Kept :
      (packet : Packet) (address n : ℕ) (desc : FileDescriptor) (count : ℕ)
      (space : AddrSpace F FileDescriptor M) (r : Result ℕ) (w : World F M X)
      → Kept w.inner (mapped api pg packet address n desc count space r w).0.inner
  unfolding mapped respond drop_file
  mapped-Kept packet address n desc count space (ok start) w = (refl, refl, refl)
  mapped-Kept packet address n desc count space (err e) w = (refl, refl, refl)
  mapped-Kept packet address n desc count space panic w = (refl, refl, refl)

  map_file-Kept :
      (packet : Packet) (address : ℕ) (asked : Mapping) (w : World F M X)
      → Kept w.inner (map_file api pg packet address asked w).0.inner
  unfolding map_file respond drop_file
  map_file-Kept packet address asked w = elim (Option-cases (get asked.context w.contexts)) [
    | inl gone ↦ rw (gone, map_file) (refl, refl, refl)
    | inr (c, found) ↦ elim (Option-cases c.addr_space) [
      | inl gone ↦ rw (found, gone, map_file) (refl, refl, refl)
      | inr (n, there) ↦ elim (Option-cases (get n w.spaces)) [
        | inl gone ↦ rw (found, there, gone, map_file) (refl, refl, refl)
        | inr (space, at) ↦
            rw (found, there, at, map_file) (mapped-Kept packet address n asked.desc _ _ _ w)
      ]
    ]
  ]

  module _ {S : Type 0} (scheme_close : S → ℕ → X → X × Result ℕ) (schemes : SchemeList S) where
    answer_fmap-Kept :
        (packet : Packet) (asked : Mapping) (w : World F M X)
        → Kept w.inner (answer_fmap api pg scheme_close schemes packet asked w).0.inner
    unfolding answer_fmap respond drop_file
    answer_fmap-Kept packet asked w = elim (Result-cases (api.demux packet.a)) [
      | inl (address, e) ↦
          elim (Bool-cases (not (address % pg.page == 0) || not (asked.map.size % pg.page == 0))) [
            | inl bad ↦ rw (e, bad, answer_fmap) (refl, refl, refl)
            | inr good ↦ rw (e, good, answer_fmap) (map_file-Kept packet address asked w)
          ]
      | inr (inl (x, e)) ↦ rw (e, answer_fmap) (refl, refl, refl)
      | inr (inr e) ↦ rw (e, answer_fmap) (refl, refl, refl)
    ]

    -- A packet takes at most the call of `fmap` of its number.
    pub handle_packet-Kept :
        (packet : Packet) (w : World F M X)
        → let u = w.inner in
          let v = (handle_packet api pg scheme_close schemes packet w).0.inner in
          Kept u v ⊎ Kept (record u { fmap = remove packet.id u.fmap }) v
    unfolding handle_packet respond return_fd
    handle_packet-Kept packet w = elim (Bool-cases (packet.id == 0)) [
      | inl e ↦ inl (elim (Bool-cases (packet.a == api.sys_fevent)) [
        | inl f ↦ rw (e, f, handle_packet) (refl, refl, refl)
        | inr f ↦ rw (e, f, handle_packet) (refl, refl, refl)
      ])
      | inr e ↦ elim (Bool-cases (api.is_skmsg packet.a)) [
        | inl f ↦ inl (elim (Bool-cases (packet.b == api.skmsg_freturnfd)) [
          | inr g ↦ rw (e, f, g, handle_packet) (refl, refl, refl)
          | inl g ↦ rw (e, f, g, handle_packet) (return_fd-Kept packet.id packet.c w)
        ])
        | inr f ↦ elim (Option-cases (get packet.id w.inner.fmap)) [
          | inl g ↦ inl (rw (e, f, g, handle_packet) (refl, refl, refl))
          | inr (asked, g) ↦
              let u = w.inner in
              let w' = record w { inner = record u { fmap = remove packet.id u.fmap } } in
              inr (rw (e, f, g, handle_packet) (answer_fmap-Kept packet asked w'))
        ]
      ]
    ]
