-- ===== src/Socket/TcpServer.antt =====
-- pkg/socket/tcp_server.go: `ServerTCP` and its `Conn`. The states, the errors and the places of
-- `Listen` and `Close` are those of pkg/telnet/server.go, and a step is what it is there.
pub mod Calls
pub mod Closing
pub mod Context
mod Tests
use go_oam.Base.{
  ℕ, suc, Bool, true, false, not, ◌&&◌, ◌||◌, Option, none, some, List, [], ◌∷◌, ◌++◌, ltb, ◌==◌,
  if◌then◌else◌, length, Key, ℤ, pos, negsuc, lookup, insert, delete, is_positive,
}
use go_oam.Telnet.Server.{
  ServerState, state_init, state_serving, state_closed, ServerError, server_closed, already_serving,
  no_handler, network, in_accept, max_conns_reached, in_handler, Phase, idle, entering, binding,
  accepting, pausing, stopping, returned, Closer, nobody, at_listener, at_cancel, at_conns, at_wait,
  back, Conn, has_room, registered_in, close_registered, ConnError, err_closed, context_err,
  raw_err,
}

-- `has_ctx` says that `serverCtx` and `serverCancel` are set, `cancelled` that `serverCancel` was
-- called, `outer_done` that the context of the field `Context` has ended; the rest is as for telnet.
pub record Server (E : Type 0) : Type 0 where
  pub handler : Bool
  pub on_error : Bool
  pub max_conns : ℤ
  pub state : ServerState
  pub listen_wg : ℕ
  pub listener : Bool
  pub socket : Bool
  pub sem : ℕ
  pub has_ctx : Bool
  pub cancelled : Bool
  pub outer_done : Bool
  pub handlers : List (Key × Conn)
  pub spawned : ℕ
  pub phase : Phase
  pub closer : Closer
  pub reports : List (ServerError E)

module _ {E : Type 0} where
  -- `Conn.Read` and `Conn.Write`, by what the connection below returns and whether the context has
  -- ended by then.
  unfoldable pub read_conn : Conn → ℕ × Option E → Bool → ℕ × Option (ConnError E)
  read_conn c raw ended = if c.closed then (0, some err_closed) else elim raw.1 [
    | none ↦ (raw.0, none)
    | some e ↦ (raw.0, some (if ended then context_err else raw_err e))
  ]

  unfoldable pub write_conn : Conn → ℕ × Option E → Bool → ℕ × Option (ConnError E)
  write_conn c raw ended = if c.closed then (0, some err_closed) else elim raw.1 [
    | none ↦ (raw.0, none)
    | some e ↦ (raw.0, some (if ended then context_err else raw_err e))
  ]

  unfoldable pub new_server : Bool → Bool → ℤ → Server E
  new_server handler on_error max_conns = record {
    handler = handler;
    on_error = on_error;
    max_conns = max_conns;
    state = state_init;
    listen_wg = 0;
    listener = false;
    socket = false;
    sem = 0;
    has_ctx = false;
    cancelled = false;
    outer_done = false;
    handlers = [];
    spawned = 0;
    phase = idle;
    closer = nobody;
    reports = [];
  }

  unfoldable pub dispatch_error : Server E → ServerError E → Server E
  dispatch_error s err = if s.on_error then record s { reports = s.reports ++ err ∷ [] } else s

  -- `Listen` up to the exchange of the state, or its error.
  unfoldable pub listen : Server E → Option (ServerError E) × Server E
  listen s =
      if s.handler
      then elim s.state [
        | state_init ↦ (none, record s { state = state_serving; phase = entering })
        | state_serving ↦ (some already_serving, s)
        | state_closed ↦ (some server_closed, s)
      ]
      else (some no_handler, s)

  -- `listenWG.Add(1)`
  unfoldable pub listen_enters : Server E → Server E
  listen_enters s = elim s.phase [
    | entering ↦ record s { listen_wg = 1; phase = binding }
    | idle ↦ s
    | binding ↦ s
    | accepting ↦ s
    | pausing ↦ s
    | stopping ↦ s
    | returned ↦ s
  ]

  -- `net.Listen`, which may fail, and the runtime fields.
  unfoldable pub bind : Server E → Option E → Server E
  bind s result = elim s.phase [
    | binding ↦ elim result [
      | none ↦ record s {
        listener = true;
        socket = true;
        phase = accepting;
        has_ctx = true;
        cancelled = false;
        sem = 0;
      }
      | some e ↦ record s { state = state_closed; phase = returned }
    ]
    | idle ↦ s
    | entering ↦ s
    | accepting ↦ s
    | pausing ↦ s
    | stopping ↦ s
    | returned ↦ s
  ]

  unfoldable pub spawn : Server E → Key → Server E
  spawn s id = record s {
    handlers = insert id (record { registered = false; closed = false }) s.handlers;
    spawned = suc s.spawned;
  }

  unfoldable pub reject_conn : Server E → Server E
  unfolding dispatch_error
  reject_conn s = dispatch_error s (max_conns_reached s.max_conns)

  -- `Accept` returns a connection.
  unfoldable pub accept : Server E → Key → Server E
  unfolding spawn reject_conn
  accept s id = elim s.phase [
    | accepting ↦
        if s.socket
        then (if is_positive s.max_conns
            then (if has_room s.max_conns s.sem
                then spawn (record s { sem = suc s.sem }) id
                else reject_conn s)
            else spawn s id)
        else s
    | pausing ↦ s
    | idle ↦ s
    | entering ↦ s
    | binding ↦ s
    | stopping ↦ s
    | returned ↦ s
  ]

  unfoldable pub close_listener : Server E → Server E
  close_listener s = if s.listener then record s { listener = false; socket = false } else s

  -- `serverCtx.Done()`
  unfoldable pub ctx_ended : Server E → Bool
  ctx_ended s = s.has_ctx && (s.cancelled || s.outer_done)

  -- The context ends, and what `AfterFunc` does then.
  unfoldable pub outer_ends : Server E → Server E
  outer_ends s = record s { outer_done = true }

  unfoldable pub watch : Server E → Server E
  unfolding ctx_ended close_listener
  watch s = if ctx_ended s then close_listener s else s

  -- The deferred calls of `Listen` before the wait.
  unfoldable pub leave : Server E → Server E
  unfolding close_listener
  leave s = record (close_listener s) { cancelled = true; phase = stopping }

  -- `Accept` fails: for a listener that is closed, or for a moment with an error.
  unfoldable pub accept_fails : Server E → E → Server E
  unfolding leave dispatch_error
  accept_fails s e = elim s.phase [
    | accepting ↦
        if s.socket then record (dispatch_error s (in_accept e)) { phase = pausing } else leave s
    | pausing ↦ s
    | idle ↦ s
    | entering ↦ s
    | binding ↦ s
    | stopping ↦ s
    | returned ↦ s
  ]

  -- The end of the pause; when the context is cancelled as well, either may come first.
  unfoldable pub resume : Server E → Bool → Server E
  unfolding ctx_ended leave
  resume s timer = elim s.phase [
    | pausing ↦ if ctx_ended s && not timer then leave s else record s { phase = accepting }
    | idle ↦ s
    | entering ↦ s
    | binding ↦ s
    | accepting ↦ s
    | stopping ↦ s
    | returned ↦ s
  ]

  -- The end of the wait of `Listen`.
  unfoldable pub finish : Server E → Server E
  finish s = elim s.phase [
    | stopping ↦
        if length s.handlers == 0
        then record s { state = state_closed; listen_wg = 0; phase = returned }
        else s
    | idle ↦ s
    | entering ↦ s
    | binding ↦ s
    | accepting ↦ s
    | pausing ↦ s
    | returned ↦ s
  ]

  -- `handleConn` enters its connection, and runs the handler to its end; an error is that of the
  -- handler or of its panic.
  unfoldable pub register : Server E → Key → Server E
  register s id = elim (lookup id s.handlers) [
    | none ↦ s
    | some c ↦ record s { handlers = insert id (record c { registered = true }) s.handlers }
  ]

  unfoldable pub handler_ends : Server E → Key → Option E → Server E
  unfolding dispatch_error
  handler_ends s id result = elim (lookup id s.handlers) [
    | none ↦ s
    | some c ↦
        if c.registered
        then record (elim result [ none ↦ s | some e ↦ dispatch_error s (in_handler e) ]) {
          handlers = delete id s.handlers;
        }
        else s
  ]

  -- `Conn.Close`, which a handler may call; a second call changes nothing.
  unfoldable pub close_conn : Server E → Key → Server E
  close_conn s id = elim (lookup id s.handlers) [
    | none ↦ s
    | some c ↦
        if c.closed
        then s
        else record s { handlers = insert id (record c { closed = true }) s.handlers }
  ]

  -- `ConnCount`
  unfoldable pub conn_count : Server E → ℕ
  conn_count s = registered_in s.handlers

  -- `Close` up to its first call, and each of its calls.
  unfoldable pub close : Server E → Server E
  close s = elim s.state [
    | state_init ↦ record s { state = state_closed }
    | state_serving ↦ record s { state = state_closed; closer = at_listener }
    | state_closed ↦ s
  ]

  unfoldable pub close_all_conns : Server E → Server E
  close_all_conns s = record s { handlers = close_registered s.handlers }

  unfoldable pub close_goes_on : Server E → Server E
  unfolding close_listener close_all_conns
  close_goes_on s = elim s.closer [
    | nobody ↦ s
    | at_listener ↦ record (close_listener s) { closer = at_cancel }
    | at_cancel ↦ record s { cancelled = s.cancelled || s.has_ctx; closer = at_conns }
    | at_conns ↦ record (close_all_conns s) { closer = at_wait }
    | at_wait ↦ if s.listen_wg == 0 then record s { closer = back } else s
    | back ↦ s
  ]
