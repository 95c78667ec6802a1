-- ===== src/Socket/UdpClient.antt =====
-- pkg/socket/udp_client.go: `ClientUDP`, on the fields that it has in common with `ClientTCP`. A chunk
-- is a datagram here: what the dial and one read of the socket return, which is where the two clients
-- differ, are arguments.
pub mod Same
mod Tests
use go_oam.Base.{
  ℕ, Bool, true, false, not, ◌&&◌, ◌||◌, Option, none, some, List, [], ◌∷◌, ◌++◌, ltb,
  if◌then◌else◌, length, Key,
}
use go_oam.Socket.TcpClient.{
  ClientState, state_init, state_connected, state_closed, ClientError, client_closed, not_connected,
  eof, network, Client, Received, bytes, failed, waits, settled, at_conn, at_signal, at_report,
  by_loop,
}

module _ {E : Type 0} where
  unfoldable pub state_err : Client E → Option (ClientError E)
  state_err c = elim c.state [
    | state_connected ↦ none
    | state_closed ↦ some client_closed
    | state_init ↦ some not_connected
  ]

  unfoldable pub dispatch_error : Client E → E → Client E
  dispatch_error c err = if c.on_error then record c { reports = c.reports ++ err ∷ [] } else c

  unfoldable pub connect : Client E → Option E → Option (ClientError E) × Client E
  connect c dial = elim c.state [
    | state_connected ↦ (none, c)
    | state_closed ↦ (some client_closed, c)
    | state_init ↦ elim dial [
      | some e ↦ (some (network e), c)
      | none ↦ (
        none,
        record c {
          state = state_connected;
          conn = true;
          made = true;
          output = [];
          output_closed = false;
          signalled = false;
          looping = true;
        },
      )
    ]
  ]

  -- `shutdown` up to the exchange of the state, and what its winner does then.
  unfoldable pub shutdown : Client E → Bool → Bool → Option E → Client E
  shutdown c loop user_initiated read_err = elim c.state [
    | state_init ↦ c
    | state_closed ↦ c
    | state_connected ↦
        let err = if user_initiated then none else read_err in
        record c { state = state_closed; shutting = at_conn loop err }
  ]

  -- The deferred calls of the read loop.
  unfoldable pub leave : Client E → Client E
  leave c = record c { looping = false; output_closed = true }

  unfoldable pub shutdown_goes_on : Client E → Client E
  unfolding dispatch_error leave
  shutdown_goes_on c = elim c.shutting [
    | settled ↦ c
    | at_conn loop err ↦ record c { conn = false; shutting = at_signal loop err }
    | at_signal loop err ↦ record c { signalled = true; shutting = at_report loop err }
    | at_report loop err ↦
        let reported : Client E = elim err [ none ↦ c | some e ↦ dispatch_error c e ] in
        let c' = record reported { shutting = settled } in if loop then leave c' else c'
  ]

  -- `Close` up to its shutdown; it then waits for the read loop.
  unfoldable pub close : Client E → Client E
  unfolding shutdown
  close c = shutdown c false true none

  -- The `select` of the read loop, with `picks` for the case that it takes when both are ready; where
  -- none is ready nothing happens.
  unfoldable pub deliver : Client E → Key → Bool → Client E
  unfolding leave
  deliver c datagram picks =
      if c.looping && not (by_loop c.shutting)
      then (if ltb (length c.output) 64 && (not c.signalled || picks)
          then record c { output = c.output ++ datagram ∷ [] }
          else (if c.signalled then leave c else c))
      else c

  -- The read of the loop fails, or the loop panics: the loop leaves when its shutdown is done, at once
  -- where another has won.
  unfoldable pub read_fails : Client E → E → Client E
  unfolding shutdown leave
  read_fails c e =
      let c' = shutdown c true c.ctx_done (some e) in
      if c.looping && not (by_loop c.shutting)
      then (if by_loop c'.shutting then c' else leave c')
      else c

  unfoldable pub loop_panics : Client E → E → Client E
  unfolding shutdown leave
  loop_panics c e =
      let c' = shutdown c true false (some e) in
      if c.looping && not (by_loop c.shutting)
      then (if by_loop c'.shutting then c' else leave c')
      else c

  unfoldable pub write : Client E → ℕ × Option E → ℕ × Option (ClientError E)
  unfolding state_err
  write c result = elim (state_err c) [
    | some refused ↦ (0, some refused)
    | none ↦
        if c.conn
        then (result.0, elim result.1 [ none ↦ none | some e ↦ some (network e) ])
        else (0, some not_connected)
  ]

  -- In each case of its `select`s, `Read` takes a datagram where there is one.
  unfoldable pub read : Client E → Received E × Client E
  read c =
      let after_init =
        if c.made
        then elim c.output [
          | datagram ∷ later ↦ (bytes datagram, record c { output = later })
          | [] ↦ if c.output_closed || c.signalled then (failed eof, c) else (waits, c)
        ]
        else (failed not_connected, c) in
      elim c.state [
        | state_init ↦ (failed not_connected, c)
        | state_connected ↦ after_init
        | state_closed ↦ after_init
      ]
