-- ===== src/Ws/Hub/Links.antt =====
-- The stored connections, the connection manager and the topic manager agree.
use go_oam.Base.{
  ℕ, zero, suc, ◌≡◌, refl, inl, inr, Bool, true, false, not, Option, none, some, List, [], ◌∷◌,
  arith, if◌then◌else◌, length, ◌⊎◌, Bool-cases, Option-cases, Key, key_eq, key_eq→eq, key_eq_refl,
  ℤ, pos, lookup, insert, delete, keys, has, has-insert, has-delete, lookup-insert, lookup-delete,
  Distinct, Distinct-insert, Distinct-delete, length-insert, length-delete,
}
use go_oam.Ws.Topics.Relation.{
  subscribed, IsTidy, subscribed-subscribe, subscribed-unsubscribe, subscribed-unsubscribe_all,
  subscribe-IsTidy, unsubscribe-IsTidy, unsubscribe_all-IsTidy,
}
use go_oam.Ws.Hub.{
  Conn, Hub, new_hub, refusal, admit, join, subscribe_one, subscribe_conn, unsubscribe_one,
  unsubscribe_conn, close_conn, close_each, shutdown, is_set, add_one,
}

-- A connection is open, and it follows a topic.
unfoldable pub is_open : Hub → Key → Bool
is_open h j = elim (lookup j h.store) [ none ↦ false | some c ↦ not c.closed ]

unfoldable pub was_closed : Hub → Key → Bool
was_closed h j = elim (lookup j h.store) [ none ↦ false | some c ↦ c.closed ]

unfoldable pub follows : Hub → Key → Key → Bool
follows h j t = elim (lookup j h.store) [ none ↦ false | some c ↦ is_set t c.subs ]

-- The connections listed are the open ones, and their number is the total. A connection that is not
-- closed is subscribed to the topics that it follows, and an id that no connection has to none.
pub record IsLinked (h : Hub) : Type 0 where
  pub counted : h.total ≡ pos (length h.conns)
  pub distinct : Distinct h.conns
  pub tidy : IsTidy h.topics
  pub listed : (j : Key) → has j h.conns ≡ is_open h j
  pub agree : (j t : Key) → was_closed h j ≡ false → subscribed h.topics t j ≡ follows h j t

pub new_hub-IsLinked : (n : ℤ) (size : ℕ) (codec : Key) → IsLinked (new_hub n size codec)
unfolding new_hub is_open was_closed subscribed follows
new_hub-IsLinked n size codec = record {
  counted = refl;
  distinct = tt;
  tidy = record { distinct = tt; each = tt };
  listed = λ j. refl;
  agree = λ j t e. refl;
}

is_set-insert :
    (t u : Key) (subs : List (Key × Bool))
    → is_set u (insert t true subs) ≡ (if key_eq u t then true else is_set u subs)
is_set-insert t u subs = ground (arith, lookup-insert t u true subs)

is_set-delete :
    (t u : Key) (subs : List (Key × Bool))
    → is_set u (delete t subs) ≡ (if key_eq u t then false else is_set u subs)
is_set-delete t u subs = ground (arith, lookup-delete t u subs)

admit-IsLinked : (h : Hub) (origin : Option Bool) → IsLinked h → IsLinked (admit h origin)
unfolding admit is_open was_closed follows
admit-IsLinked h origin v = elim (Option-cases (refusal h origin)) [
  | inl passes ↦
      rw (passes, admit)
        (record {
          counted = v.counted;
          distinct = v.distinct;
          tidy = v.tidy;
          listed = v.listed;
          agree = v.agree;
        })
  | inr (status, refused) ↦ rw (refused, admit) v
]

subscribe_one-IsLinked : (h : Hub) (id t : Key) → IsLinked h → IsLinked (subscribe_one h id t)
unfolding subscribe_one is_open was_closed follows
subscribe_one-IsLinked h id t v = elim (Option-cases (lookup id h.store)) [
  | inl absent ↦ rw (absent, subscribe_one) v
  | inr (c, there) ↦ elim (Bool-cases (is_set t c.subs)) [
    | inl again ↦ rw (there, subscribe_one) (rw again v)
    | inr new ↦
        rw (there, subscribe_one)
          (rw new (record {
            counted = v.counted;
            distinct = v.distinct;
            tidy = subscribe-IsTidy h.topics t id v.tidy;
            listed = λ j. ground (
              arith,
              v.listed j,
              there,
              lookup-insert id j (record c { subs = insert t true c.subs }) h.store,
              key_eq→eq j id,
            );
            agree = λ j u e. ground (
              arith,
              v.agree j u,
              there,
              lookup-insert id j (record c { subs = insert t true c.subs }) h.store,
              key_eq→eq j id,
              subscribed-subscribe h.topics t id u j,
              is_set-insert t u c.subs,
            );
          }))
  ]
]

unsubscribe_one-IsLinked : (h : Hub) (id t : Key) → IsLinked h → IsLinked (unsubscribe_one h id t)
unfolding unsubscribe_one is_open was_closed follows
unsubscribe_one-IsLinked h id t v = elim (Option-cases (lookup id h.store)) [
  | inl absent ↦ rw (absent, unsubscribe_one) v
  | inr (c, there) ↦ elim (Bool-cases (is_set t c.subs)) [
    | inr never ↦ rw (there, unsubscribe_one) (rw never v)
    | inl known ↦
        rw (there, unsubscribe_one)
          (rw known (record {
            counted = v.counted;
            distinct = v.distinct;
            tidy = unsubscribe-IsTidy h.topics t id v.tidy;
            listed = λ j. ground (
              arith,
              v.listed j,
              there,
              lookup-insert id j (record c { subs = delete t c.subs }) h.store,
              key_eq→eq j id,
            );
            agree = λ j u e. ground (
              arith,
              v.agree j u,
              there,
              lookup-insert id j (record c { subs = delete t c.subs }) h.store,
              key_eq→eq j id,
              subscribed-unsubscribe h.topics t id u j,
              is_set-delete t u c.subs,
            );
          }))
  ]
]

subscribe_conn-IsLinked :
    (h : Hub) (id : Key) (topics : List Key) → IsLinked h → IsLinked (subscribe_conn h id topics)
unfolding subscribe_conn
subscribe_conn-IsLinked h id [] v = v
subscribe_conn-IsLinked h id (t ∷ topics) v =
    subscribe_conn-IsLinked (subscribe_one h id t) id topics (subscribe_one-IsLinked h id t v)

unsubscribe_conn-IsLinked :
    (h : Hub) (id : Key) (topics : List Key) → IsLinked h → IsLinked (unsubscribe_conn h id topics)
unfolding unsubscribe_conn
unsubscribe_conn-IsLinked h id [] v = v
unsubscribe_conn-IsLinked h id (t ∷ topics) v =
    unsubscribe_conn-IsLinked (unsubscribe_one h id t) id topics (unsubscribe_one-IsLinked h id t v)

pub close_conn-IsLinked : (h : Hub) (id : Key) → IsLinked h → IsLinked (close_conn h id)
unfolding close_conn is_open was_closed follows
close_conn-IsLinked h id v = elim (Option-cases (lookup id h.store)) [
  | inl absent ↦ rw (absent, close_conn) v
  | inr (c, there) ↦ elim (Bool-cases c.closed) [
    | inl closed ↦ rw (there, close_conn) (rw closed v)
    | inr opened ↦
        let there_now : has id h.conns ≡ true = ground (arith, v.listed id) in
        rw (there, close_conn)
          (rw opened (record {
            counted = ground (arith, v.counted, length-delete id h.conns v.distinct there_now);
            distinct = Distinct-delete id h.conns v.distinct;
            tidy = unsubscribe_all-IsTidy h.topics id v.tidy;
            listed = λ j. ground (
              arith,
              v.listed j,
              lookup-insert id j (record c { closed = true }) h.store,
              has-delete id j h.conns,
            );
            agree = λ j u e. ground (
              arith,
              v.agree j u,
              lookup-insert id j (record c { closed = true }) h.store,
              subscribed-unsubscribe_all h.topics id u j v.tidy.distinct,
            );
          }))
  ]
]

close_each-IsLinked : (h : Hub) (ids : List Key) → IsLinked h → IsLinked (close_each h ids)
unfolding close_each
close_each-IsLinked h [] v = v
close_each-IsLinked h (id ∷ ids) v =
    close_each-IsLinked (close_conn h id) ids (close_conn-IsLinked h id v)

-- A connection joins under an id that no connection had.
join-IsLinked : (h : Hub) (id : Key) → lookup id h.store ≡ none → IsLinked h → IsLinked (join h id)
unfolding join is_open was_closed follows
join-IsLinked h id new v = elim (zero-cases h.joining) [
  | inl nobody ↦ rw (nobody, join) v
  | inr (left, waits) ↦
      let c : Conn = record {
        subs = [];
        queue = [];
        capacity = h.send_buffer_size;
        resp_codec = h.codec;
        closed = false;
      } in
      let absent : has id h.conns ≡ false = ground (arith, v.listed id) in
      rw (waits, join)
        (record {
          counted = ground (arith, v.counted, length-insert id tt h.conns);
          distinct = Distinct-insert id tt h.conns v.distinct;
          tidy = v.tidy;
          listed = λ j.
              ground (arith, v.listed j, lookup-insert id j c h.store, has-insert id j tt h.conns);
          agree =
              λ j u e. ground (arith, v.agree j u, lookup-insert id j c h.store, key_eq→eq j id);
        })
]
  where
    zero-cases : (n : ℕ) → (n ≡ 0) ⊎ ((m : ℕ) × (n ≡ suc m))
    zero-cases zero = inl refl
    zero-cases (suc m) = inr (m, refl)

-- What may happen to a server.
pub data Event : Type 0 where
  admits : Option Bool → Event
  joins : Key → Event
  follows_topics : Key → List Key → Event
  leaves_topics : Key → List Key → Event
  closes : Key → Event
  shuts_down : Event

unfoldable pub step : Hub → Event → Hub
unfolding admit join subscribe_conn unsubscribe_conn close_conn shutdown
step h (admits origin) = admit h origin
step h (joins id) = join h id
step h (follows_topics id topics) = subscribe_conn h id topics
step h (leaves_topics id topics) = unsubscribe_conn h id topics
step h (closes id) = close_conn h id
step h shuts_down = shutdown h

abbrev pub AreNew : Hub → Event → Type 0
AreNew h (admits origin) = Unit {0}
AreNew h (joins id) = lookup id h.store ≡ none
AreNew h (follows_topics id topics) = Unit {0}
AreNew h (leaves_topics id topics) = Unit {0}
AreNew h (closes id) = Unit {0}
AreNew h shuts_down = Unit {0}

-- The servers that are reached when no connection joins under an id that one had before.
pub data Reach (h : Hub) : Hub → Type 0 where
  here : Reach h h
  after : {g k : Hub} (event : Event) → Reach h g → AreNew g event → k ≡ step g event → Reach h k

step-IsLinked : (h : Hub) (event : Event) → AreNew h event → IsLinked h → IsLinked (step h event)
unfolding step shutdown is_open was_closed follows
step-IsLinked h (admits origin) new v = admit-IsLinked h origin v
step-IsLinked h (joins id) new v = join-IsLinked h id new v
step-IsLinked h (follows_topics id topics) new v = subscribe_conn-IsLinked h id topics v
step-IsLinked h (leaves_topics id topics) new v = unsubscribe_conn-IsLinked h id topics v
step-IsLinked h (closes id) new v = close_conn-IsLinked h id v
step-IsLinked h shuts_down new v =
    close_each-IsLinked (record h { closed = true }) (keys h.conns)
      (record {
        counted = v.counted;
        distinct = v.distinct;
        tidy = v.tidy;
        listed = v.listed;
        agree = v.agree;
      })

-- However a server is used, as long as each connection joins under an id of its own: the
-- connections that are listed are the open ones, the total is their number, each connection that is
-- not closed is subscribed to the topics that it follows and to no other, and the topics are those
-- that somebody is subscribed to.
pub Reach-IsLinked :
    (n : ℤ) (size : ℕ) (codec : Key) {h : Hub} → Reach (new_hub n size codec) h → IsLinked h
Reach-IsLinked n size codec here = new_hub-IsLinked n size codec
Reach-IsLinked n size codec (after {g} event r new e) =
    rw e (step-IsLinked g event new (Reach-IsLinked n size codec r))

-- `Close` on a connection that is open takes it from the list and from every topic, lowers the total
-- by one, and changes no other connection's place or topics.
pub close_conn_lem :
    (h : Hub) (id j t : Key)
    → IsLinked h
    → is_open h id ≡ true
    → (has j (close_conn h id).conns ≡ (if key_eq j id then false else has j h.conns))
      × (subscribed (close_conn h id).topics t j
          ≡ (if key_eq j id then false else subscribed h.topics t j))
      × (add_one (close_conn h id).total ≡ h.total)
      × (close_conn (close_conn h id) id ≡ close_conn h id)
unfolding close_conn is_open
close_conn_lem h id j t v o = elim (Option-cases (lookup id h.store)) [
  | inl absent ↦ ground arith
  | inr (c, there) ↦
      let opened : c.closed ≡ false = ground arith in
      let listed : has id h.conns ≡ true = ground (arith, v.listed id) in
      let now : lookup id (insert id (record c { closed = true }) h.store)
          ≡ some (record c { closed = true }) =
        ground (arith, lookup-insert id id (record c { closed = true }) h.store, key_eq_refl id) in
      rw (there, close_conn)
        (rw opened (
          has-delete id j h.conns,
          subscribed-unsubscribe_all h.topics id t j v.tidy.distinct,
          ground (arith, v.counted, length-delete id h.conns v.distinct listed),
          rw (now, close_conn) (rw (there, close_conn) (rw opened refl)),
        ))
]

-- A connection that is closed can still subscribe: to a topic that it did not follow, and then it is
-- among its subscribers and not among the connections.
pub subscribe_conn-close_conn :
    (h : Hub) (id t : Key)
    → IsLinked h
    → is_open h id ≡ true
    → follows h id t ≡ false
    → (let g = subscribe_conn (close_conn h id) id (t ∷ []) in
        (subscribed g.topics t id ≡ true) × (has id g.conns ≡ false))
unfolding subscribe_conn subscribe_one close_conn is_open follows
subscribe_conn-close_conn h id t v o f = elim (Option-cases (lookup id h.store)) [
  | inl absent ↦ ground arith
  | inr (c, there) ↦
      let opened : c.closed ≡ false = ground arith in
      let other : is_set t c.subs ≡ false = ground arith in
      let now : lookup id (close_conn h id).store ≡ some (record c { closed = true }) =
        ground (arith, lookup-insert id id (record c { closed = true }) h.store, key_eq_refl id) in
      let gone = close_conn_lem h id id t v o in
      rw (now, subscribe_one)
        (rw other (
          ground (
            arith,
            subscribed-subscribe (close_conn h id).topics t id t id,
            key_eq_refl t,
            key_eq_refl id,
          ),
          ground (arith, gone.0, key_eq_refl id),
        ))
]
