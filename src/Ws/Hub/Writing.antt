-- ===== src/Ws/Hub/Writing.antt =====
-- The frames that the write loop sends, and the codec that a connection answers with.
use go_oam.Base.{
  ℕ, ◌<◌, ◌≡◌, Option, none, some, [], ◌∷◌, ◌++◌, arith, Key, key_eq_refl, lookup, insert,
  lookup-insert,
}
use go_oam.Ws.Hub.{Conn, Hub, send_resp}

unfoldable pub set_resp_codec : Hub → Key → Key → Hub
set_resp_codec h id codec = elim (lookup id h.store) [
  | none ↦ h
  | some c ↦ record h { store = insert id (record c { resp_codec = codec }) h.store }
]

-- A round of `writeLoop`: the message type of a codec and the bytes at the front of the buffer, where
-- it is not empty.
unfoldable pub write_next : (Key → ℕ) → Hub → Key → Option (ℕ × Key) × Hub
write_next message_type h id = elim (lookup id h.store) [
  | none ↦ (none, h)
  | some c ↦ elim c.queue [
    | [] ↦ (none, h)
    | bytes ∷ rest ↦ (
      some (message_type c.resp_codec, bytes),
      record h { store = insert id (record c { queue = rest }) h.store },
    )
  ]
]

module _ {R : Type 0} (marshal : Key → R → Option Key) (message_type : Key → ℕ) where
  -- A response that waits in the buffer while the codec changes is sent as a frame of the type of the
  -- new codec, with the bytes that the old one encoded.
  pub write_next-set_resp_codec :
      (h : Hub) (id codec bytes : Key) (resp : R) (c : Conn)
      → lookup id h.store ≡ some c
      → c.queue ≡ []
      → 0 < c.capacity
      → marshal c.resp_codec resp ≡ some bytes
      → (write_next message_type (set_resp_codec (send_resp marshal h id resp) id codec) id).0
        ≡ some (message_type codec, bytes)
  unfolding write_next set_resp_codec send_resp
  write_next-set_resp_codec h id codec bytes resp c there empty room encoded =
      let queued : Conn = record c { queue = c.queue ++ bytes ∷ [] } in
      let sent : send_resp marshal h id resp ≡ record h { store = insert id queued h.store } =
        ground (arith, there, empty, room, encoded) in
      let first : lookup id (send_resp marshal h id resp).store ≡ some queued =
        ground (arith, sent, lookup-insert id id queued h.store, key_eq_refl id) in
      let turned : Conn = record queued { resp_codec = codec } in
      let second : lookup id (set_resp_codec (send_resp marshal h id resp) id codec).store
          ≡ some turned =
        ground (
          arith,
          first,
          lookup-insert id id turned (send_resp marshal h id resp).store,
          key_eq_refl id,
        ) in
      ground (arith, second, empty)
