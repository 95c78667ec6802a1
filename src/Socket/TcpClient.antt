-- ===== src/Socket/TcpClient.antt =====
-- pkg/socket/tcp_client.go: `ClientTCP`. What runs between two points at which another goroutine can
-- come in is one step, also within `shutdown`; what the network returns and which ready case a `select` takes are arguments.
pub mod Stream
pub mod Life
mod Tests
use go_oam.Base.{
  ℕ, Bool, true, false, not, ◌&&◌, ◌||◌, Option, none, some, List, [], ◌∷◌, ◌++◌, ltb,
  if◌then◌else◌, length, Key,
}

-- `clientStateInit`, `clientStateConnected`, `clientStateClosed`
pub data ClientState : Type 0 where
  state_init : ClientState
  state_connected : ClientState
  state_closed : ClientState

pub data ClientError (E : Type 0) : Type 0 where
  client_closed : ClientError E
  not_connected : ClientError E
  eof : ClientError E
  network : E → ClientError E

-- Where the `shutdown` is that has won the exchange of the state, whether it is called by the read loop,
-- and the error that it is to report: none is under way, before the connection is taken away, before
-- the signal, and before the report.
pub data Shutting (E : Type 0) : Type 0 where
  settled : Shutting E
  at_conn : Bool → Option E → Shutting E
  at_signal : Bool → Option E → Shutting E
  at_report : Bool → Option E → Shutting E

-- `made` says that the channels were made; `output` is what the channel of that name holds and
-- `output_closed` that the read loop has closed it. `signalled` says that `closed` is closed, `ctx_done`
-- that the outer context has ended.
pub record Client (E : Type 0) : Type 0 where
  pub state : ClientState
  pub conn : Bool
  pub made : Bool
  pub output : List Key
  pub output_closed : Bool
  pub signalled : Bool
  pub looping : Bool
  pub ctx_done : Bool
  pub on_error : Bool
  pub reports : List E
  pub shutting : Shutting E

-- What `Read` comes to: it returns, or it waits.
pub data Received (E : Type 0) : Type 0 where
  bytes : Key → Received E
  failed : ClientError E → Received E
  waits : Received E

abbrev pub by_loop : {E : Type 0} → Shutting E → Bool
by_loop settled = false
by_loop (at_conn loop err) = loop
by_loop (at_signal loop err) = loop
by_loop (at_report loop err) = loop

module _ {E : Type 0} where
  unfoldable pub new_client : Bool → Client E
  new_client on_error = record {
    state = state_init;
    conn = false;
    made = false;
    output = [];
    output_closed = false;
    signalled = false;
    looping = false;
    ctx_done = false;
    on_error = on_error;
    reports = [];
    shutting = settled;
  }

  unfoldable pub state_err : Client E → Option (ClientError E)
  state_err c = elim c.state [
    | state_connected ↦ none
    | state_closed ↦ some client_closed
    | state_init ↦ some not_connected
  ]

  unfoldable pub dispatch_error : Client E → E → Client E
  dispatch_error c err = if c.on_error then record c { reports = c.reports ++ err ∷ [] } else c

  unfoldable pub connect : Client E → Option E → Option (ClientError E) × Client E
  connect c dial = elim c.state [
    | state_connected ↦ (none, c)
    | state_closed ↦ (some client_closed, c)
    | state_init ↦ elim dial [
      | some e ↦ (some (network e), c)
      | none ↦ (
        none,
        record c {
          state = state_connected;
          conn = true;
          made = true;
          output = [];
          output_closed = false;
          signalled = false;
          looping = true;
        },
      )
    ]
  ]

  -- `shutdown` up to the exchange of the state, and what its winner does then.
  unfoldable pub shutdown : Client E → Bool → Bool → Option E → Client E
  shutdown c loop user_initiated read_err = elim c.state [
    | state_init ↦ c
    | state_closed ↦ c
    | state_connected ↦
        let err = if user_initiated then none else read_err in
        record c { state = state_closed; shutting = at_conn loop err }
  ]

  -- The deferred calls of the read loop.
  unfoldable pub leave : Client E → Client E
  leave c = record c { looping = false; output_closed = true }

  unfoldable pub shutdown_goes_on : Client E → Client E
  unfolding dispatch_error leave
  shutdown_goes_on c = elim c.shutting [
    | settled ↦ c
    | at_conn loop err ↦ record c { conn = false; shutting = at_signal loop err }
    | at_signal loop err ↦ record c { signalled = true; shutting = at_report loop err }
    | at_report loop err ↦
        let reported : Client E = elim err [ none ↦ c | some e ↦ dispatch_error c e ] in
        let c' = record reported { shutting = settled } in if loop then leave c' else c'
  ]

  -- `Close` up to its shutdown; it then waits for the read loop.
  unfoldable pub close : Client E → Client E
  unfolding shutdown
  close c = shutdown c false true none

  -- The `select` of the read loop, with `picks` for the case that it takes when both are ready; where
  -- none is ready nothing happens.
  unfoldable pub deliver : Client E → Key → Bool → Client E
  unfolding leave
  deliver c chunk picks =
      if c.looping && not (by_loop c.shutting)
      then (if ltb (length c.output) 64 && (not c.signalled || picks)
          then record c { output = c.output ++ chunk ∷ [] }
          else (if c.signalled then leave c else c))
      else c

  -- The read of the loop fails, or the loop panics: the loop leaves when its shutdown is done, at once
  -- where another has won.
  unfoldable pub read_fails : Client E → E → Client E
  unfolding shutdown leave
  read_fails c e =
      let c' = shutdown c true c.ctx_done (some e) in
      if c.looping && not (by_loop c.shutting)
      then (if by_loop c'.shutting then c' else leave c')
      else c

  unfoldable pub loop_panics : Client E → E → Client E
  unfolding shutdown leave
  loop_panics c e =
      let c' = shutdown c true false (some e) in
      if c.looping && not (by_loop c.shutting)
      then (if by_loop c'.shutting then c' else leave c')
      else c

  unfoldable pub write : Client E → ℕ × Option E → ℕ × Option (ClientError E)
  unfolding state_err
  write c result = elim (state_err c) [
    | some refused ↦ (0, some refused)
    | none ↦
        if c.conn
        then (result.0, elim result.1 [ none ↦ none | some e ↦ some (network e) ])
        else (0, some not_connected)
  ]

  -- In each case of its `select`s, `Read` takes a chunk where there is one.
  unfoldable pub read : Client E → Received E × Client E
  read c =
      let after_init =
        if c.made
        then elim c.output [
          | chunk ∷ later ↦ (bytes chunk, record c { output = later })
          | [] ↦ if c.output_closed || c.signalled then (failed eof, c) else (waits, c)
        ]
        else (failed not_connected, c) in
      elim c.state [
        | state_init ↦ (failed not_connected, c)
        | state_connected ↦ after_init
        | state_closed ↦ after_init
      ]
