-- ===== src/Ws/Hub.antt =====
-- ws/server/server.go and ws/server/conn.go: the connections of a server, their subscriptions and
-- what is sent to them. Connections are stored under their ids, which are taken to be new for
-- each; encoders are an argument.
pub mod Links
pub mod Sending
pub mod Admission
pub mod Writing
mod Tests
use go_oam.Base.{
  ℕ, zero, suc, ◌+◌, ◌≤◌, Bool, true, false, not, ◌&&◌, ◌||◌, Option, none, some, List, [], ◌∷◌,
  ◌++◌, ltb, leb, ◌==◌, if◌then◌else◌, length, Key, key_eq, ℤ, pos, negsuc, lookup, insert, delete,
  keys, has,
}
use go_oam.Ws.Topics.{
  Ids, Topics, new_topic_manager, subscribe, unsubscribe, unsubscribe_all, subscribers,
}

-- `queue` is what `sendCh` holds, `capacity` its size, `closed` that `closeOnce` has run.
pub record Conn : Type 0 where
  pub subs : List (Key × Bool)
  pub queue : List Key
  pub capacity : ℕ
  pub resp_codec : Key
  pub closed : Bool

-- `store` holds every connection that was made, `conns` and `total` are the connection manager,
-- and `joining` counts the requests that have passed the tests of `ServeHTTP` and are not yet added.
pub record Hub : Type 0 where
  pub store : List (Key × Conn)
  pub conns : Ids
  pub total : ℤ
  pub topics : Topics
  pub closed : Bool
  pub max_conns : ℤ
  pub send_buffer_size : ℕ
  pub codec : Key
  pub joining : ℕ

abbrev pub add_one : ℤ → ℤ
add_one (pos n) = pos (suc n)
add_one (negsuc zero) = pos 0
add_one (negsuc (suc n)) = negsuc n

abbrev pub sub_one : ℤ → ℤ
sub_one (pos zero) = negsuc 0
sub_one (pos (suc n)) = pos n
sub_one (negsuc n) = negsuc (suc n)

unfoldable pub new_hub : ℤ → ℕ → Key → Hub
new_hub max_conns send_buffer_size codec = record {
  store = [];
  conns = [];
  total = pos 0;
  topics = [];
  closed = false;
  max_conns = max_conns;
  send_buffer_size = send_buffer_size;
  codec = codec;
  joining = 0;
}

-- `maxConns > 0 && Count() >= maxConns`
abbrev pub at_limit : ℤ → ℤ → Bool
at_limit (negsuc n) total = false
at_limit (pos n) (negsuc k) = false
at_limit (pos n) (pos k) = not (n == 0) && leb n k

-- The tests of `ServeHTTP`: the status of a refusal, or `none`. `origin` is the answer of the
-- function that is asked about the origin, where there is one.
unfoldable pub refusal : Hub → Option Bool → Option ℕ
refusal h origin =
    if h.closed
    then some 503
    else (if at_limit h.max_conns h.total
        then some 503
        else elim origin [ none ↦ none | some allowed ↦ if allowed then none else some 403 ])

unfoldable pub admit : Hub → Option Bool → Hub
unfolding refusal
admit h origin = elim (refusal h origin) [
  | none ↦ record h { joining = suc h.joining }
  | some status ↦ h
]

-- The rest of `ServeHTTP` and `init`, for a request that was admitted and whose handshake succeeds.
unfoldable pub join : Hub → Key → Hub
join h id = elim h.joining [
  | zero ↦ h
  | suc left ↦
      let c : Conn = record {
        subs = [];
        queue = [];
        capacity = h.send_buffer_size;
        resp_codec = h.codec;
        closed = false;
      } in
      record h {
        store = insert id c h.store;
        conns = insert id tt h.conns;
        total = add_one h.total;
        joining = left;
      }
]

-- `c.subs[t]`
abbrev pub is_set : Key → List (Key × Bool) → Bool
is_set t subs = elim (lookup t subs) [ none ↦ false | some b ↦ b ]

unfoldable pub subscribe_one : Hub → Key → Key → Hub
unfolding subscribe
subscribe_one h id t = elim (lookup id h.store) [
  | none ↦ h
  | some c ↦ if is_set t c.subs then h else record h {
    store = insert id (record c { subs = insert t true c.subs }) h.store;
    topics = subscribe t id h.topics;
  }
]

unfoldable pub subscribe_conn : Hub → Key → List Key → Hub
unfolding subscribe_one
subscribe_conn h id [] = h
subscribe_conn h id (t ∷ topics) = subscribe_conn (subscribe_one h id t) id topics

unfoldable pub unsubscribe_one : Hub → Key → Key → Hub
unfolding unsubscribe
unsubscribe_one h id t = elim (lookup id h.store) [
  | none ↦ h
  | some c ↦
      if is_set t c.subs
      then record h {
        store = insert id (record c { subs = delete t c.subs }) h.store;
        topics = unsubscribe t id h.topics;
      }
      else h
]

unfoldable pub unsubscribe_conn : Hub → Key → List Key → Hub
unfolding unsubscribe_one
unsubscribe_conn h id [] = h
unsubscribe_conn h id (t ∷ topics) = unsubscribe_conn (unsubscribe_one h id t) id topics

unfoldable pub close_conn : Hub → Key → Hub
unfolding unsubscribe_all
close_conn h id = elim (lookup id h.store) [
  | none ↦ h
  | some c ↦ if c.closed then h else record h {
    store = insert id (record c { closed = true }) h.store;
    conns = delete id h.conns;
    total = sub_one h.total;
    topics = unsubscribe_all id h.topics;
  }
]

-- The loop of `Shutdown` over the connections that are there when it starts.
unfoldable pub close_each : Hub → List Key → Hub
unfolding close_conn
close_each h [] = h
close_each h (id ∷ ids) = close_each (close_conn h id) ids

unfoldable pub shutdown : Hub → Hub
unfolding close_each
shutdown h = close_each (record h { closed = true }) (keys h.conns)

module _ {R : Type 0} (marshal : Key → R → Option Key) where
  -- `SendResp`: the error is that of the encoder, or that the buffer is full.
  unfoldable pub send_resp : Hub → Key → R → Hub
  send_resp h id resp = elim (lookup id h.store) [
    | none ↦ h
    | some c ↦ elim (marshal c.resp_codec resp) [
      | none ↦ h
      | some bytes ↦
          if ltb (length c.queue) c.capacity
          then record h { store = insert id (record c { queue = c.queue ++ bytes ∷ [] }) h.store }
          else h
    ]
  ]

  unfoldable pub send_each : (Key → Bool) → Hub → List Key → R → Hub
  unfolding send_resp
  send_each filter h [] resp = h
  send_each filter h (id ∷ ids) resp =
      send_each filter (if filter id then send_resp h id resp else h) ids resp

  unfoldable pub publish_filter : (Key → Bool) → Hub → Key → R → Hub
  unfolding send_each
  publish_filter filter h topic resp = send_each filter h (subscribers h.topics topic) resp

  unfoldable pub broadcast_filter : (Key → Bool) → Hub → R → Hub
  unfolding send_each
  broadcast_filter filter h resp = send_each filter h (keys h.conns) resp
