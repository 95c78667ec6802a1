-- ===== src/Socket/UdpServer.antt =====
-- pkg/socket/udp_server.go: `ServerUDP` and its `PacketConn`. What runs between two points at which
-- another goroutine can come in is one step. The goroutines of `handlePacket` are counted by how far
-- they are; what the network and the handlers return is an argument.
pub mod Calls
pub mod Limit
mod Tests
use go_oam.Base.{
  ℕ, suc, ◌+◌, ◌-◌, Bool, true, false, not, ◌&&◌, ◌||◌, Option, none, some, List, [], ◌∷◌, ◌++◌,
  ltb, ◌==◌, if◌then◌else◌, length, ℤ, pos, negsuc, is_positive,
}
use go_oam.Telnet.Server.{
  ServerState, state_init, state_serving, state_closed, Phase, idle, entering, binding, accepting,
  pausing, stopping, returned, Closer, nobody, at_listener, at_cancel, at_conns, at_wait, back,
  has_room, ConnError, err_closed, context_err, raw_err,
}

pub data ServerError (E : Type 0) : Type 0 where
  server_closed : ServerError E
  already_serving : ServerError E
  no_handler : ServerError E
  network : E → ServerError E
  in_read : E → ServerError E
  max_handlers_reached : ℤ → ServerError E
  in_handler : E → ServerError E

-- `conn` says that the field is not nil, `socket` that the socket of `Listen` is open. The handlers
-- that `wg` counts are before `activeHandler.Add(1)`, in the handler, between `activeHandler.Add(-1)`
-- and the receive from the semaphore, and after it. The place `at_conns` of `Close` is not used.
pub record Server (E : Type 0) : Type 0 where
  pub handler : Bool
  pub on_error : Bool
  pub max_conns : ℤ
  pub state : ServerState
  pub listen_wg : ℕ
  pub conn : Bool
  pub socket : Bool
  pub has_ctx : Bool
  pub cancelled : Bool
  pub outer_done : Bool
  pub sem : ℕ
  pub active_handler : ℕ
  pub entering : ℕ
  pub running : ℕ
  pub leaving : ℕ
  pub released : ℕ
  pub phase : Phase
  pub closer : Closer
  pub reports : List (ServerError E)

pub record PacketConn : Type 0 where
  pub closed : Bool
  pub cancelled : Bool

-- `PacketConn.Close`, and whether it has cancelled the context.
unfoldable pub close_packet : PacketConn → PacketConn
close_packet p = if p.closed then p else record p { closed = true; cancelled = true }

module _ {E : Type 0} where
  -- `PacketConn.WriteToUDP`, by what the socket returns and whether the context has ended by then.
  unfoldable pub write_to_udp : PacketConn → ℕ × Option E → Bool → ℕ × Option (ConnError E)
  write_to_udp p raw ended = if p.closed then (0, some err_closed) else elim raw.1 [
    | none ↦ (raw.0, none)
    | some e ↦ (raw.0, some (if p.cancelled || ended then context_err else raw_err e))
  ]

  unfoldable pub new_server : Bool → Bool → ℤ → Server E
  new_server handler on_error max_conns = record {
    handler = handler;
    on_error = on_error;
    max_conns = max_conns;
    state = state_init;
    listen_wg = 0;
    conn = false;
    socket = false;
    has_ctx = false;
    cancelled = false;
    outer_done = false;
    sem = 0;
    active_handler = 0;
    entering = 0;
    running = 0;
    leaving = 0;
    released = 0;
    phase = idle;
    closer = nobody;
    reports = [];
  }

  -- What `wg` stands at.
  unfoldable pub wg : Server E → ℕ
  wg s = s.entering + s.running + s.leaving + s.released

  -- `ConnCount`
  unfoldable pub conn_count : Server E → ℕ
  conn_count s = s.active_handler

  unfoldable pub dispatch_error : Server E → ServerError E → Server E
  dispatch_error s err = if s.on_error then record s { reports = s.reports ++ err ∷ [] } else s

  -- `Listen` up to the exchange of the state, or its error.
  unfoldable pub listen : Server E → Option (ServerError E) × Server E
  listen s =
      if s.handler
      then elim s.state [
        | state_init ↦ (none, record s { state = state_serving; phase = entering })
        | state_serving ↦ (some already_serving, s)
        | state_closed ↦ (some server_closed, s)
      ]
      else (some no_handler, s)

  -- `listenWG.Add(1)`
  unfoldable pub listen_enters : Server E → Server E
  listen_enters s = elim s.phase [
    | entering ↦ record s { listen_wg = 1; phase = binding }
    | idle ↦ s
    | binding ↦ s
    | accepting ↦ s
    | pausing ↦ s
    | stopping ↦ s
    | returned ↦ s
  ]

  -- `net.ResolveUDPAddr` and `net.ListenUDP`, one of which may fail, and the runtime fields.
  unfoldable pub bind : Server E → Option E → Server E
  bind s result = elim s.phase [
    | binding ↦ elim result [
      | none ↦ record s {
        conn = true;
        socket = true;
        phase = accepting;
        has_ctx = true;
        cancelled = false;
        sem = 0;
      }
      | some e ↦ record s { state = state_closed; phase = returned }
    ]
    | idle ↦ s
    | entering ↦ s
    | accepting ↦ s
    | pausing ↦ s
    | stopping ↦ s
    | returned ↦ s
  ]

  -- The wait for a handler, and its goroutine.
  unfoldable pub spawn : Server E → Server E
  spawn s = record s { entering = suc s.entering }

  -- `ReadFromUDP` returns that many bytes.
  unfoldable pub receive : Server E → ℕ → Server E
  unfolding spawn dispatch_error
  receive s n = elim s.phase [
    | accepting ↦
        if s.socket && not (n == 0)
        then (if is_positive s.max_conns
            then (if has_room s.max_conns s.sem
                then spawn (record s { sem = suc s.sem })
                else dispatch_error s (max_handlers_reached s.max_conns))
            else spawn s)
        else s
    | idle ↦ s
    | entering ↦ s
    | binding ↦ s
    | pausing ↦ s
    | stopping ↦ s
    | returned ↦ s
  ]

  unfoldable pub close_conn : Server E → Server E
  close_conn s = if s.conn then record s { conn = false; socket = false } else s

  -- `serverCtx.Done()`
  unfoldable pub ctx_ended : Server E → Bool
  ctx_ended s = s.has_ctx && (s.cancelled || s.outer_done)

  unfoldable pub outer_ends : Server E → Server E
  outer_ends s = record s { outer_done = true }

  -- The deferred calls of `Listen` before the wait.
  unfoldable pub leave : Server E → Server E
  unfolding close_conn
  leave s = record (close_conn s) { cancelled = true; phase = stopping }

  -- `ReadFromUDP` fails: for a socket that is closed, for the deadline that the end of the context
  -- sets, or for a moment with an error.
  unfoldable pub read_fails : Server E → E → Server E
  unfolding leave dispatch_error ctx_ended
  read_fails s e = elim s.phase [
    | accepting ↦
        if not s.socket || ctx_ended s
        then leave s
        else record (dispatch_error s (in_read e)) { phase = pausing }
    | idle ↦ s
    | entering ↦ s
    | binding ↦ s
    | pausing ↦ s
    | stopping ↦ s
    | returned ↦ s
  ]

  -- The end of the pause; when the context has ended as well, either may come first.
  unfoldable pub resume : Server E → Bool → Server E
  unfolding leave ctx_ended
  resume s timer = elim s.phase [
    | pausing ↦ if ctx_ended s && not timer then leave s else record s { phase = accepting }
    | idle ↦ s
    | entering ↦ s
    | binding ↦ s
    | accepting ↦ s
    | stopping ↦ s
    | returned ↦ s
  ]

  -- The end of the wait of `Listen`.
  unfoldable pub finish : Server E → Server E
  unfolding wg
  finish s = elim s.phase [
    | stopping ↦
        if wg s == 0 then record s { state = state_closed; listen_wg = 0; phase = returned } else s
    | idle ↦ s
    | entering ↦ s
    | binding ↦ s
    | accepting ↦ s
    | pausing ↦ s
    | returned ↦ s
  ]

  -- The steps of a `handlePacket`: it counts itself, the handler ends, with an error or a panic or
  -- not, and it gives its place back and is done.
  unfoldable pub enter : Server E → Server E
  enter s =
      if ltb 0 s.entering
      then record s {
        entering = s.entering - 1;
        running = suc s.running;
        active_handler = suc s.active_handler;
      }
      else s

  unfoldable pub handler_ends : Server E → Option E → Server E
  unfolding dispatch_error
  handler_ends s result =
      if ltb 0 s.running
      then record (elim result [ none ↦ s | some e ↦ dispatch_error s (in_handler e) ]) {
        running = s.running - 1;
        leaving = suc s.leaving;
        active_handler = s.active_handler - 1;
      }
      else s

  -- `sem` is nil without a limit; a receive from an empty channel waits.
  unfoldable pub release : Server E → Server E
  release s =
      if ltb 0 s.leaving && (ltb 0 s.sem || not (is_positive s.max_conns))
      then record s { leaving = s.leaving - 1; released = suc s.released; sem = s.sem - 1 }
      else s

  unfoldable pub handler_done : Server E → Server E
  handler_done s = if ltb 0 s.released then record s { released = s.released - 1 } else s

  -- `Close` up to its first call, and each of its calls.
  unfoldable pub close : Server E → Server E
  close s = elim s.state [
    | state_init ↦ record s { state = state_closed }
    | state_serving ↦ record s { state = state_closed; closer = at_listener }
    | state_closed ↦ s
  ]

  unfoldable pub close_goes_on : Server E → Server E
  unfolding close_conn
  close_goes_on s = elim s.closer [
    | nobody ↦ s
    | at_listener ↦ record (close_conn s) { closer = at_cancel }
    | at_cancel ↦ record s { cancelled = s.cancelled || s.has_ctx; closer = at_wait }
    | at_conns ↦ s
    | at_wait ↦ if s.listen_wg == 0 then record s { closer = back } else s
    | back ↦ s
  ]
