-- ===== src/Telnet/Server.antt =====
-- pkg/telnet/server.go: the server, its accept loop, its connections and its shutdown. What runs
-- between two points at which another goroutine can come in is one step; the set-up behind
-- `listenWG.Add` is one, since `Close` reads none of it but the canceller, under its lock. A connection is known by
-- an id of its own; what the network and the handler return is an argument.
pub mod Calls
pub mod Limit
pub mod Closing
pub mod Drain
mod Tests
use go_oam.Base.{
  ℕ, suc, Bool, true, false, not, ◌&&◌, ◌||◌, Option, none, some, List, [], ◌∷◌, ◌++◌, ltb, ◌==◌,
  if◌then◌else◌, length, Key, ℤ, pos, negsuc, lookup, insert, delete, is_positive,
}

-- `serverStateInit`, `serverStateServing`, `serverStateClosed`
pub data ServerState : Type 0 where
  state_init : ServerState
  state_serving : ServerState
  state_closed : ServerState

pub data ServerError (E : Type 0) : Type 0 where
  server_closed : ServerError E
  already_serving : ServerError E
  no_handler : ServerError E
  network : E → ServerError E
  in_accept : E → ServerError E
  max_conns_reached : ℤ → ServerError E
  in_handler : E → ServerError E

-- Where the goroutine of `Listen` is: not there, before `listenWG.Add`, before `net.Listen`, in the accept loop, in
-- the pause after an error, in the deferred wait for the handlers, and gone.
pub data Phase : Type 0 where
  idle : Phase
  entering : Phase
  binding : Phase
  accepting : Phase
  pausing : Phase
  stopping : Phase
  returned : Phase

-- Where the one `Close` is that wins the exchange of the state: not called, before `closeListener`,
-- before `serverCancel`, before `closeAllConns`, in the wait for `Listen`, and back.
pub data Closer : Type 0 where
  nobody : Closer
  at_listener : Closer
  at_cancel : Closer
  at_conns : Closer
  at_wait : Closer
  back : Closer

-- A connection whose `handleConn` runs; `registered` says that it is in `conns`.
pub record Conn : Type 0 where
  pub registered : Bool
  pub closed : Bool

-- `listener` says that the field is not nil, `socket` that the listener of `Listen` is open, `sem` is
-- what the channel holds. `handlers` are the goroutines that `wg` counts; `spawned` counts all there
-- ever were.
pub record Server (E : Type 0) : Type 0 where
  pub handler : Bool
  pub on_error : Bool
  pub max_conns : ℤ
  pub state : ServerState
  pub listen_wg : ℕ
  pub listener : Bool
  pub socket : Bool
  pub sem : ℕ
  pub cancelled : Bool
  pub handlers : List (Key × Conn)
  pub spawned : ℕ
  pub phase : Phase
  pub closer : Closer
  pub reports : List (ServerError E)

-- There is room in the channel.
abbrev pub has_room : ℤ → ℕ → Bool
has_room (pos n) sem = ltb sem n
has_room (negsuc n) sem = false

abbrev pub registered_in : List (Key × Conn) → ℕ
registered_in [] = 0
registered_in ((id, c) ∷ m) = let rest = registered_in m in if c.registered then suc rest else rest

abbrev pub close_registered : List (Key × Conn) → List (Key × Conn)
close_registered [] = []
close_registered ((id, c) ∷ m) =
    (id, if c.registered then record c { closed = true } else c) ∷ close_registered m

-- `net.ErrClosed`, the error of the context, and that of the network.
pub data ConnError (E : Type 0) : Type 0 where
  err_closed : ConnError E
  context_err : ConnError E
  raw_err : E → ConnError E

module _ {E : Type 0} where
  -- `Conn.Read` and `Conn.Write`, by what the connection below returns and whether the context has
  -- ended by then.
  unfoldable pub read_conn : Conn → ℕ × Option E → Bool → ℕ × Option (ConnError E)
  read_conn c raw ended = if c.closed then (0, some err_closed) else elim raw.1 [
    | none ↦ (raw.0, none)
    | some e ↦ (raw.0, some (if ended then context_err else raw_err e))
  ]

  unfoldable pub write_conn : Conn → ℕ × Option E → Bool → ℕ × Option (ConnError E)
  write_conn c raw ended = if c.closed then (0, some err_closed) else elim raw.1 [
    | none ↦ (raw.0, none)
    | some e ↦ (raw.0, some (if ended then context_err else raw_err e))
  ]

  unfoldable pub new_server : Bool → Bool → ℤ → Server E
  new_server handler on_error max_conns = record {
    handler = handler;
    on_error = on_error;
    max_conns = max_conns;
    state = state_init;
    listen_wg = 0;
    listener = false;
    socket = false;
    sem = 0;
    cancelled = false;
    handlers = [];
    spawned = 0;
    phase = idle;
    closer = nobody;
    reports = [];
  }

  unfoldable pub dispatch_error : Server E → ServerError E → Server E
  dispatch_error s err = if s.on_error then record s { reports = s.reports ++ err ∷ [] } else s

  -- `Listen` up to the exchange of the state, or its error.
  unfoldable pub listen : Server E → Option (ServerError E) × Server E
  listen s =
      if s.handler
      then elim s.state [
        | state_init ↦ (none, record s { state = state_serving; phase = entering })
        | state_serving ↦ (some already_serving, s)
        | state_closed ↦ (some server_closed, s)
      ]
      else (some no_handler, s)

  -- `listenWG.Add(1)` and the runtime fields.
  unfoldable pub listen_enters : Server E → Server E
  listen_enters s = elim s.phase [
    | entering ↦ record s { listen_wg = 1; phase = binding; cancelled = false; sem = 0 }
    | idle ↦ s
    | binding ↦ s
    | accepting ↦ s
    | pausing ↦ s
    | stopping ↦ s
    | returned ↦ s
  ]

  -- `net.Listen`, which may fail, and the store of the listener.
  unfoldable pub bind : Server E → Option E → Server E
  bind s result = elim s.phase [
    | binding ↦ elim result [
      | none ↦ record s { listener = true; socket = true; phase = accepting }
      | some e ↦ record s { state = state_closed; phase = returned }
    ]
    | idle ↦ s
    | entering ↦ s
    | accepting ↦ s
    | pausing ↦ s
    | stopping ↦ s
    | returned ↦ s
  ]

  unfoldable pub spawn : Server E → Key → Server E
  spawn s id = record s {
    handlers = insert id (record { registered = false; closed = false }) s.handlers;
    spawned = suc s.spawned;
  }

  unfoldable pub reject_conn : Server E → Server E
  unfolding dispatch_error
  reject_conn s = dispatch_error s (max_conns_reached s.max_conns)

  -- `Accept` returns a connection.
  unfoldable pub accept : Server E → Key → Server E
  unfolding spawn reject_conn
  accept s id = elim s.phase [
    | accepting ↦
        if s.socket
        then (if is_positive s.max_conns
            then (if has_room s.max_conns s.sem
                then spawn (record s { sem = suc s.sem }) id
                else reject_conn s)
            else spawn s id)
        else s
    | pausing ↦ s
    | idle ↦ s
    | entering ↦ s
    | binding ↦ s
    | stopping ↦ s
    | returned ↦ s
  ]

  unfoldable pub close_listener : Server E → Server E
  close_listener s = if s.listener then record s { listener = false; socket = false } else s

  -- The deferred calls of `Listen` before the wait.
  unfoldable pub leave : Server E → Server E
  unfolding close_listener
  leave s = record (close_listener s) { cancelled = true; phase = stopping }

  -- `Accept` fails: for a listener that is closed, or for a moment with an error.
  unfoldable pub accept_fails : Server E → E → Server E
  unfolding leave dispatch_error
  accept_fails s e = elim s.phase [
    | accepting ↦
        if s.socket then record (dispatch_error s (in_accept e)) { phase = pausing } else leave s
    | pausing ↦ s
    | idle ↦ s
    | entering ↦ s
    | binding ↦ s
    | stopping ↦ s
    | returned ↦ s
  ]

  -- The end of the pause; when the context is cancelled as well, either may come first.
  unfoldable pub resume : Server E → Bool → Server E
  unfolding leave
  resume s timer = elim s.phase [
    | pausing ↦ if s.cancelled && not timer then leave s else record s { phase = accepting }
    | idle ↦ s
    | entering ↦ s
    | binding ↦ s
    | accepting ↦ s
    | stopping ↦ s
    | returned ↦ s
  ]

  -- The end of the wait of `Listen`.
  unfoldable pub finish : Server E → Server E
  finish s = elim s.phase [
    | stopping ↦
        if length s.handlers == 0
        then record s { state = state_closed; listen_wg = 0; phase = returned }
        else s
    | idle ↦ s
    | entering ↦ s
    | binding ↦ s
    | accepting ↦ s
    | pausing ↦ s
    | returned ↦ s
  ]

  -- `handleConn` enters its connection, and runs the handler to its end; an error is that of the
  -- handler or of its panic.
  unfoldable pub register : Server E → Key → Server E
  register s id = elim (lookup id s.handlers) [
    | none ↦ s
    | some c ↦ record s { handlers = insert id (record c { registered = true }) s.handlers }
  ]

  unfoldable pub handler_ends : Server E → Key → Option E → Server E
  unfolding dispatch_error
  handler_ends s id result = elim (lookup id s.handlers) [
    | none ↦ s
    | some c ↦
        if c.registered
        then record (elim result [ none ↦ s | some e ↦ dispatch_error s (in_handler e) ]) {
          handlers = delete id s.handlers;
        }
        else s
  ]

  -- `ConnCount`
  -- `Conn.Close`, which a handler may call; a second call changes nothing.
  unfoldable pub close_conn : Server E → Key → Server E
  close_conn s id = elim (lookup id s.handlers) [
    | none ↦ s
    | some c ↦
        if c.closed
        then s
        else record s { handlers = insert id (record c { closed = true }) s.handlers }
  ]

  unfoldable pub conn_count : Server E → ℕ
  conn_count s = registered_in s.handlers

  -- `Close` up to its first call, and each of its calls.
  unfoldable pub close : Server E → Server E
  close s = elim s.state [
    | state_init ↦ record s { state = state_closed }
    | state_serving ↦ record s { state = state_closed; closer = at_listener }
    | state_closed ↦ s
  ]

  unfoldable pub close_all_conns : Server E → Server E
  close_all_conns s = record s { handlers = close_registered s.handlers }

  unfoldable pub close_goes_on : Server E → Server E
  unfolding close_listener close_all_conns
  close_goes_on s = elim s.closer [
    | nobody ↦ s
    | at_listener ↦ record (close_listener s) { closer = at_cancel }
    | at_cancel ↦ record s { cancelled = true; closer = at_conns }
    | at_conns ↦ record (close_all_conns s) { closer = at_wait }
    | at_wait ↦ if s.listen_wg == 0 then record s { closer = back } else s
    | back ↦ s
  ]
