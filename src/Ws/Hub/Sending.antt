-- ===== src/Ws/Hub/Sending.antt =====
-- What a publication and a broadcast put into the buffers.
use go_oam.Base.{
  ◌≡◌, refl, inl, inr, Bool, ◌&&◌, Option, none, some, [], ◌∷◌, ◌++◌, arith, ltb, if◌then◌else◌,
  length, Bool-cases, Option-cases, Key, key_eq, key_eq→eq, lookup, keys, has, lookup-insert,
  Distinct, AllValues-lookup,
}
use mathlib.Core.Option
use go_oam.Ws.Topics.{Ids, subscribers}
use go_oam.Ws.Topics.Relation.{subscribed, IsTidy, IsTopic}
use go_oam.Ws.Hub.{Conn, Hub, send_resp, send_each, publish_filter, broadcast_filter}
use go_oam.Ws.Hub.Links.{IsLinked, is_open}

-- The subscribers of a topic as the ids of a map.
subscribers_of :
    (h : Hub) (topic j : Key)
    → IsTidy h.topics
    → (ids : Ids) × (subscribers h.topics topic ≡ keys ids)
      × (subscribed h.topics topic j ≡ has j ids)
      × Distinct ids
unfolding subscribers subscribed
subscribers_of h topic j v = elim (Option-cases (lookup topic h.topics)) [
  | inl nobody ↦ ([], rw (nobody, subscribers) refl, rw (nobody, subscribed) refl, tt)
  | inr (subs, there) ↦ (
    subs,
    rw (there, subscribers) refl,
    rw (there, subscribed) refl,
    (AllValues-lookup IsTopic topic h.topics subs v.each there).0,
  )
]

module _ {R : Type 0} (marshal : Key → R → Option Key) where
  -- A connection after a response is sent to it: the bytes are behind the buffer, where the encoder
  -- succeeds and the buffer has room.
  unfoldable pub sent_to : R → Conn → Conn
  sent_to resp c = elim (marshal c.resp_codec resp) [
    | none ↦ c
    | some bytes ↦
        if ltb (length c.queue) c.capacity then record c { queue = c.queue ++ bytes ∷ [] } else c
  ]

  send_resp_lem :
      (h : Hub) (id j : Key) (resp : R)
      → lookup j (send_resp marshal h id resp).store
        ≡ (if key_eq j id then Option.map (sent_to resp) (lookup j h.store) else lookup j h.store)
  unfolding send_resp sent_to
  send_resp_lem h id j resp = elim (Option-cases (lookup id h.store)) [
    | inl absent ↦ rw (absent, send_resp) (ground (arith, key_eq→eq j id))
    | inr (c, there) ↦ elim (Option-cases (marshal c.resp_codec resp)) [
      | inl fails ↦ rw (there, send_resp) (rw fails (ground (arith, key_eq→eq j id)))
      | inr (bytes, encoded) ↦
          rw (there, send_resp)
            (rw encoded (
              ground (
                arith,
                key_eq→eq j id,
                lookup-insert id j (record c { queue = c.queue ++ bytes ∷ [] }) h.store,
              )))
    ]
  ]

  -- The loop sends to each connection of a list without repetition that passes the filter, once.
  send_each_lem :
      (filter : Key → Bool) (h : Hub) (ids : Ids) (j : Key) (resp : R)
      → Distinct ids
      → lookup j (send_each marshal filter h (keys ids) resp).store ≡ (
          if has j ids && filter j
          then Option.map (sent_to resp) (lookup j h.store)
          else lookup j h.store)
  unfolding send_each
  send_each_lem filter h [] j resp d = ground arith
  send_each_lem filter h ((id, u) ∷ ids) j resp d = elim (Bool-cases (filter id)) [
    | inl passes ↦ ground (
      arith,
      send_each_lem filter (send_resp marshal h id resp) ids j resp,
      send_resp_lem h id j resp,
      key_eq→eq j id,
    )
    | inr stays ↦ ground (arith, send_each_lem filter h ids j resp, key_eq→eq j id)
  ]

  -- A publication sends the response once to each subscriber of the topic that passes the filter,
  -- and to nobody else.
  pub publish_filter_lem :
      (filter : Key → Bool) (h : Hub) (topic j : Key) (resp : R)
      → IsTidy h.topics
      → lookup j (publish_filter marshal filter h topic resp).store ≡ (
          if subscribed h.topics topic j && filter j
          then Option.map (sent_to resp) (lookup j h.store)
          else lookup j h.store)
  unfolding publish_filter
  publish_filter_lem filter h topic j resp v =
      let (ids, listed, among, distinct) = subscribers_of h topic j v in
      rw (listed, among) (send_each_lem filter h ids j resp distinct)

  -- A broadcast sends the response once to each open connection that passes the filter, and to
  -- nobody else.
  pub broadcast_filter_lem :
      (filter : Key → Bool) (h : Hub) (j : Key) (resp : R)
      → IsLinked h
      → lookup j (broadcast_filter marshal filter h resp).store ≡ (
          if is_open h j && filter j
          then Option.map (sent_to resp) (lookup j h.store)
          else lookup j h.store)
  unfolding broadcast_filter
  broadcast_filter_lem filter h j resp v =
      rw (← v.listed j) (send_each_lem filter h h.conns j resp v.distinct)
