-- ===== src/Socket/TcpClient/Life.antt =====
-- The life of a client, whatever happens to it.
use go_oam.Base.{
  refl, some, none, ◌≤◌, ◌≡◌, Bool, true, false, not, ◌&&◌, ◌||◌, Option, [], ◌∷◌, arith, length,
  length-append, Key,
}
use go_oam.Socket.TcpClient.{
  ClientState, state_init, state_connected, state_closed, Client, new_client, dispatch_error,
  connect, shutdown, shutdown_goes_on, Shutting, settled, at_conn, at_signal, at_report, by_loop,
  close, leave, deliver, read_fails, loop_panics, read,
}

-- Calls of the user, rounds of the read loop, and the end of the outer context.
pub data Event (E : Type 0) : Type 0 where
  connects : Option E → Event E
  closes : Event E
  goes_on : Event E
  reads : Event E
  delivers : Key → Bool → Event E
  fails : E → Event E
  panics : E → Event E
  cancels : Event E

abbrev pub is_connected : ClientState → Bool
is_connected state_init = false
is_connected state_connected = true
is_connected state_closed = false

abbrev pub is_closed : ClientState → Bool
is_closed state_init = false
is_closed state_connected = false
is_closed state_closed = true

abbrev pub is_init : ClientState → Bool
is_init state_init = true
is_init state_connected = false
is_init state_closed = false

-- No shutdown is under way; it has not taken the connection away; it has not given the signal.
abbrev pub is_settled : {E : Type 0} → Shutting E → Bool
is_settled settled = true
is_settled (at_conn loop err) = false
is_settled (at_signal loop err) = false
is_settled (at_report loop err) = false

abbrev pub has_conn : {E : Type 0} → Shutting E → Bool
has_conn settled = false
has_conn (at_conn loop err) = true
has_conn (at_signal loop err) = false
has_conn (at_report loop err) = false

abbrev pub before_signal : {E : Type 0} → Shutting E → Bool
before_signal settled = false
before_signal (at_conn loop err) = true
before_signal (at_signal loop err) = true
before_signal (at_report loop err) = false

module _ {E : Type 0} where
  unfoldable pub step : Client E → Event E → Client E
  unfolding connect close shutdown_goes_on read deliver read_fails loop_panics
  step c (connects dial) = (connect c dial).1
  step c closes = close c
  step c goes_on = shutdown_goes_on c
  step c reads = (read c).1
  step c (delivers chunk picks) = deliver c chunk picks
  step c (fails e) = read_fails c e
  step c (panics e) = loop_panics c e
  step c cancels = record c { ctx_done = true }

-- The clients that are reached by any steps in any order.
pub data Reach {E : Type 0} (c : Client E) : Client E → Type 0 where
  here : Reach c c
  after : {g k : Client E} (event : Event E) → Reach c g → k ≡ step g event → Reach c k

abbrev pub IsSound : {E : Type 0} → Client E → Type 0
IsSound c =
    (c.conn ≡ is_connected c.state || has_conn c.shutting)
    × (c.made ≡ not (is_init c.state))
    × (c.signalled ≡ is_closed c.state && not (before_signal c.shutting))
    × (c.looping ≡ c.made && not c.output_closed)
    × (c.output_closed ≡ true → is_closed c.state ≡ true)
    × (is_init c.state ≡ true → length c.output ≡ 0)
    × (is_closed c.state ≡ false → length c.reports ≡ 0)
    × (is_settled c.shutting ≡ false → (is_closed c.state ≡ true) × (length c.reports ≡ 0))
    × (by_loop c.shutting ≡ true → c.looping ≡ true)
    × (length c.reports ≤ 1)
    × (length c.output ≤ 64)

module _ {E : Type 0} where
  goes_on-IsSound :
      (c : Client E) (there : Shutting E)
      → c.shutting ≡ there
      → IsSound c
      → IsSound (shutdown_goes_on c)
  unfolding shutdown_goes_on dispatch_error leave
  goes_on-IsSound c settled e v = ground (arith, v, e)
  goes_on-IsSound c (at_conn loop err) e v = ground (arith, v, e)
  goes_on-IsSound c (at_signal loop err) e v = ground (arith, v, e)
  goes_on-IsSound c (at_report loop none) e v = ground (arith, v, e)
  goes_on-IsSound c (at_report loop (some err)) e v =
      ground (arith, v, e, length-append c.reports (err ∷ []))

  pub step-IsSound : (c : Client E) (event : Event E) → IsSound c → IsSound (step c event)
  unfolding step connect shutdown shutdown_goes_on close dispatch_error leave deliver read_fails
      loop_panics read
  step-IsSound c (connects dial) v = ground (arith, v)
  step-IsSound c closes v = ground (arith, v)
  step-IsSound c goes_on v = goes_on-IsSound c c.shutting refl v
  step-IsSound c reads v = ground (arith, v)
  step-IsSound c (delivers chunk picks) v = ground (arith, v, length-append c.output (chunk ∷ []))
  step-IsSound c (fails e) v = ground (arith, v, length-append c.reports (e ∷ []))
  step-IsSound c (panics e) v = ground (arith, v, length-append c.reports (e ∷ []))
  step-IsSound c cancels v = ground (arith, v)

  -- However a client is used, in whatever order: it has a connection exactly while it is connected or
  -- a shutdown has not come to take it away; the signal is given exactly when the client is closed and
  -- its shutdown has come past that; the read loop runs from the connect until it has closed the output,
  -- which it does only when the client is closed; a shutdown is under way only on a closed client;
  -- nothing is reported before, no more than one error ever, and no more than 64 chunks wait.
  pub Reach-IsSound : (on_error : Bool) {c : Client E} → Reach (new_client on_error) c → IsSound c
  unfolding new_client
  Reach-IsSound on_error here = ground arith
  Reach-IsSound on_error (after {g} event r e) =
      rw e (step-IsSound g event (Reach-IsSound on_error r))
