-- ===== src/Ws/Client.antt =====
-- ws/client/client.go: the client, its connection, its callbacks and its reconnects. A call that the
-- network answers has the answer as an argument; connections have ids of their own, and each call runs
-- without another between its parts: a `Connect` that another call, a `Close` or a reconnect comes
-- into is not modelled.
pub mod Reconnect
pub mod Life
mod Tests
use go_oam.Base.{
  ℕ, suc, zero, ◌+◌, ◌-◌, ◌*◌, ◌/◌, ◌%◌, ◌^◌, Bool, true, false, not, Option, none, some, List, [],
  ◌∷◌, ◌++◌, ltb, leb, ◌==◌, if◌then◌else◌, length, Key, ℤ, pos, negsuc, lookup, insert, delete,
}

-- `State`
pub data State : Type 0 where
  state_init : State
  state_connecting : State
  state_connected : State
  state_disconnected : State
  state_reconnecting : State
  state_failed : State

pub data ClientError (E : Type 0) : Type 0 where
  client_closed : ClientError E
  connection_lost : ClientError E
  invalid_state : ClientError E
  network : E → ClientError E

-- A call of a callback.
pub data Call (E : Type 0) : Type 0 where
  on_state : State → Call E
  on_error : ClientError E → Call E
  on_receive : Key → Call E

-- `ctx_done` says that `Close` has cancelled the context. `loops` are the connections whose read loop
-- runs, with whether they are still open; `queue` is what `sendCh` holds.
pub record Client (E : Type 0) : Type 0 where
  pub auto_reconnect : Bool
  pub max_attempts : ℤ
  pub has_on_state : Bool
  pub has_on_error : Bool
  pub has_on_receive : Bool
  pub ctx_done : Bool
  pub conn : Option Key
  pub state : State
  pub loops : List (Key × Bool)
  pub queue : List Key
  pub calls : List (Call E)

-- The delay before an attempt in nanoseconds; `none` is a panic of `rand.Int63n`. The product wraps at
-- 64 bits and is read as a signed number.
unfoldable pub reconnect_delay : (ℕ → ℕ) → ℕ → Option ℕ
reconnect_delay random attempt =
    let product = 500000000 * 2 ^ attempt % 2 ^ 64 in
    let delay = if ltb 60000000000 product then 60000000000 else product in
    if leb (2 ^ 63) product
    then none
    else (if delay / 2 == 0 then none else some (delay / 2 + random (delay / 2)))

-- The read loop of a connection that is closed has still to end.
abbrev pub shut : Option Key → List (Key × Bool) → List (Key × Bool)
shut none loops = loops
shut (some id) loops = elim (lookup id loops) [
  | none ↦ loops
  | some open_now ↦ insert id false loops
]

-- What `Send` comes to.
pub data Sent (E : Type 0) : Type 0 where
  queued : Client E → Sent E
  refused : ClientError E → Sent E
  waits : Sent E

abbrev pub is_connected : State → Bool
is_connected state_init = false
is_connected state_connecting = false
is_connected state_connected = true
is_connected state_disconnected = false
is_connected state_reconnecting = false
is_connected state_failed = false

module _ {E : Type 0} where
  unfoldable pub new_client : Bool → ℤ → Client E
  new_client auto_reconnect max_attempts = record {
    auto_reconnect = auto_reconnect;
    max_attempts = max_attempts;
    has_on_state = false;
    has_on_error = false;
    has_on_receive = false;
    ctx_done = false;
    conn = none;
    state = state_init;
    loops = [];
    queue = [];
    calls = [];
  }

  unfoldable pub tell_state : Client E → State → Client E
  tell_state c s = if c.has_on_state then record c { calls = c.calls ++ on_state s ∷ [] } else c

  unfoldable pub tell_error : Client E → ClientError E → Client E
  tell_error c e = if c.has_on_error then record c { calls = c.calls ++ on_error e ∷ [] } else c

  unfoldable pub close_conn : Client E → Client E
  close_conn c = record c { conn = none; loops = shut c.conn c.loops }

  -- `dial` is the error of the dial, if it fails, and `id` the connection that it makes.
  unfoldable pub connect : Client E → Option E → Key → Option (ClientError E) × Client E
  unfolding close_conn tell_state
  connect c dial id = if c.ctx_done then (some client_closed, c) else elim dial [
    | some e ↦ (some (network e), record c { state = state_failed })
    | none ↦ (
      none,
      (let d = close_conn c in
          let joined =
            tell_state (record d { conn = some id; state = state_connected }) state_connected in
          record joined { loops = insert id true joined.loops }),
    )
  ]

  unfoldable pub close : Client E → Client E
  unfolding close_conn tell_state
  close c =
      if c.ctx_done
      then c
      else tell_state
          (record (close_conn (record c { ctx_done = true })) { state = state_disconnected })
          state_disconnected

  -- `Send` of a request that is encoded, or the error of the encoder. It waits while the channel is full.
  unfoldable pub send : Client E → Option Key → E → Sent E
  send c encoded e =
      if c.ctx_done
      then refused client_closed
      else (if is_connected c.state
          then elim encoded [
            | none ↦ refused (network e)
            | some bytes ↦
                if ltb (length c.queue) 512
                then queued (record c { queue = c.queue ++ bytes ∷ [] })
                else waits
          ]
          else refused invalid_state)

  -- What `onConnectionLost` does; `true` says that it starts `reconnect`.
  unfoldable pub on_connection_lost : Client E → Bool × Client E
  unfolding close_conn tell_error
  on_connection_lost c =
      let d = close_conn c in
      if d.ctx_done
      then (false, d)
      else (let told = tell_error d connection_lost in
          if c.auto_reconnect then (true, told) else (false, record told { state = state_failed }))

  -- The read loop of a connection ends, as its connection is closed or has an error.
  unfoldable pub read_ends : Client E → Key → Bool × Client E
  unfolding on_connection_lost
  read_ends c id = elim (lookup id c.loops) [
    | none ↦ (false, c)
    | some open_now ↦ on_connection_lost (record c { loops = delete id c.loops })
  ]

  -- A message that a read loop has read, by what its decoder makes of it.
  unfoldable pub receive : Client E → Option Key → E → Client E
  unfolding tell_error
  receive c decoded e = elim decoded [
    | none ↦ tell_error c (network e)
    | some resp ↦
        if c.has_on_receive then record c { calls = c.calls ++ on_receive resp ∷ [] } else c
  ]

  -- The loop of `reconnect` with the attempts that are left: `dials` are the results of the dials,
  -- `ids` the connections, and `stops` whether `Close` comes in a delay. `none` is a panic.
  module _ (random : ℕ → ℕ) (dials : ℕ → Option E) (ids : ℕ → Key) (stops : ℕ → Bool) where
    unfoldable pub attempts : Client E → ℕ → ℕ → Option (Client E)
    unfolding connect tell_state tell_error close
    attempts c zero attempt = some (tell_error (record c { state = state_failed }) connection_lost)
    attempts c (suc left) attempt =
        let again = tell_state (record c { state = state_reconnecting }) state_reconnecting in
        let r = connect again (dials attempt) (ids attempt) in
        elim c.ctx_done [
          | true ↦ some c
          | false ↦ elim (reconnect_delay random attempt) [
            | none ↦ none
            | some delay ↦ elim (stops attempt) [
              | true ↦ some (close c)
              | false ↦ elim r.0 [
                | none ↦ some r.1
                | some err ↦ attempts (record r.1 { state = state_failed }) left (suc attempt)
              ]
            ]
          ]
        ]

    unfoldable pub reconnect : Client E → Option (Client E)
    unfolding attempts
    reconnect c = elim c.max_attempts [ pos n ↦ attempts c n 0 | negsuc n ↦ attempts c 0 0 ]
