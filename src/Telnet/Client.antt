-- ===== src/Telnet/Client.antt =====
-- pkg/telnet/client.go: `Client`, its life cycle and `Exec`. A method that holds the lock, or wins
-- the exchange of the state, is one step. What the network does (a dial, a read, a write) is an
-- argument; errors that come from it are of a type `E` of their own.
pub mod Exec
pub mod Life
pub mod Auth
mod Tests
use go_oam.Base.{
  ℕ, ◌^◌, Bool, true, false, ◌&&◌, not, Option, none, some, List, [], ◌∷◌, ◌++◌, ltb, leb, ◌==◌,
  if◌then◌else◌, length, take, ℤ, pos, negsuc,
}
use go_oam.Telnet.Iac.{IacProcessor, feed}

-- `clientStateInit`, `clientStateConnected`, `clientStateClosed`
pub data ClientState : Type 0 where
  state_init : ClientState
  state_connected : ClientState
  state_closed : ClientState

pub data ClientError (E : Type 0) : Type 0 where
  client_closed : ClientError E
  client_not_connected : ClientError E
  client_truncated : ClientError E
  eof : ClientError E
  network : E → ClientError E
  in_read : E → ClientError E
  in_write_cmd : ClientError E → ClientError E
  in_auth_user : ClientError E → ClientError E
  in_auth_password : ClientError E → ClientError E
  in_window_change : ClientError E → ClientError E

-- `conn` says that the connection is not nil, `signalled` that the channel `closed` is closed, and
-- `looping` that the read loop runs; it closes `output` when it ends. `reports` are the calls of the
-- callback, which is there when `on_error` is.
pub record Client (E : Type 0) : Type 0 where
  pub state : ClientState
  pub conn : Bool
  pub output : List (List ℕ)
  pub signalled : Bool
  pub looping : Bool
  pub on_error : Bool
  pub reports : List (ClientError E)

-- The limit of a response.
abbrev pub max_read_of : ℤ → ℕ
max_read_of (pos n) = if n == 0 then 2 ^ 20 else n
max_read_of (negsuc n) = 2 ^ 20

abbrev pub is_closed : ClientState → Bool
is_closed state_init = false
is_closed state_connected = false
is_closed state_closed = true

-- `IsConnected`
abbrev pub is_connected : ClientState → Bool
is_connected state_init = false
is_connected state_connected = true
is_connected state_closed = false

module _ {E : Type 0} where
  unfoldable pub new_client : Client E
  new_client = record {
    state = state_init;
    conn = false;
    output = [];
    signalled = false;
    looping = false;
    on_error = false;
    reports = [];
  }

  unfoldable pub state_err : Client E → Option (ClientError E)
  state_err c = elim c.state [
    | state_init ↦ some client_not_connected
    | state_connected ↦ none
    | state_closed ↦ some client_closed
  ]

  unfoldable pub dispatch_error : Client E → ClientError E → Client E
  dispatch_error c err = if c.on_error then record c { reports = c.reports ++ err ∷ [] } else c

  -- `dial` is the error of the dial, if it fails.
  unfoldable pub connect : Client E → Option E → Option (ClientError E) × Client E
  connect c dial = elim c.state [
    | state_connected ↦ (none, c)
    | state_closed ↦ (some client_closed, c)
    | state_init ↦ elim dial [
      | some e ↦ (some (network e), c)
      | none ↦ (
        none,
        record c {
          state = state_connected;
          conn = true;
          output = [];
          signalled = false;
          looping = true;
        },
      )
    ]
  ]

  unfoldable pub shutdown : Client E → Bool → Option E → Client E
  unfolding dispatch_error
  shutdown c user_initiated read_err = elim c.state [
    | state_init ↦ c
    | state_closed ↦ c
    | state_connected ↦
        let c' = record c { state = state_closed; conn = false; signalled = true } in
        elim read_err [
          | none ↦ c'
          | some e ↦ if user_initiated then c' else dispatch_error c' (in_read e)
        ]
  ]

  unfoldable pub close : Client E → Client E
  unfolding shutdown
  close c = shutdown c true none

  -- A round of the read loop that reads `n > 0` bytes and finds room in the channel.
  unfoldable pub deliver : Client E → List ℕ → Client E
  deliver c chunk =
      if c.looping && ltb (length c.output) 64
      then record c { output = c.output ++ chunk ∷ [] }
      else c

  -- The round that ends the loop with an error, and the one that ends it for the closed signal.
  unfoldable pub break_off : Client E → E → Client E
  unfolding shutdown
  break_off c e =
      if c.looping
      then (let c' = if is_closed c.state then c else shutdown c false (some e) in
          record c' { looping = false })
      else c

  unfoldable pub give_up : Client E → Client E
  give_up c = if c.signalled then record c { looping = false } else c

  -- The `select` of `Read`; `none` where it blocks.
  unfoldable pub select_read : Client E → Option ((List ℕ × Option (ClientError E)) × Client E)
  select_read c = elim c.output [
    | chunk ∷ later ↦ some ((chunk, none), record c { output = later })
    | [] ↦ if c.looping && not c.signalled then none else some (([], some eof), c)
  ]

  unfoldable pub read : Client E → Option ((List ℕ × Option (ClientError E)) × Client E)
  unfolding state_err select_read
  read c = elim (state_err c) [ some err ↦ some (([], some err), c) | none ↦ select_read c ]

  -- The loop of `Exec`. The reads return the chunks one by one, and then the error.
  unfoldable pub exec_loop :
      ℕ
      → Option (List ℕ → Bool)
      → IacProcessor
      → List ℕ
      → List (List ℕ)
      → ClientError E
      → List ℕ × Option (ClientError E)
  unfolding feed
  exec_loop max_read finished iac result [] err =
      if ltb 0 (length result) then (result, none) else ([], some err)
  exec_loop max_read finished iac result (chunk ∷ chunks) err =
      let (out, iac') = feed iac chunk in
      let result' = result ++ out in
      let later = exec_loop max_read finished iac' result' chunks err in
      if leb max_read (length result')
      then (take max_read result', some client_truncated)
      else elim finished [
        | none ↦ later
        | some stops ↦ if stops result' then (result', none) else later
      ]

  -- `sent` is the error of the write, if it fails.
  unfoldable pub exec :
      Client E
      → ℤ
      → Bool
      → List ℕ
      → Option (List ℕ → Bool)
      → Option (ClientError E)
      → List (List ℕ)
      → ClientError E
      → List ℕ × Option (ClientError E)
  unfolding state_err exec_loop
  exec c max_read keep_iac cmd_str finished sent chunks err = elim (state_err c) [
    | some refused ↦ ([], some refused)
    | none ↦
        let run =
          exec_loop (max_read_of max_read) finished (record { disabled = keep_iac; pending = [] })
            [] chunks err in
        if length cmd_str == 0
        then run
        else elim sent [ some failed ↦ ([], some (in_write_cmd failed)) | none ↦ run ]
  ]
