-- ===== src/Telnet/Client/Life.antt =====
-- The life of a client: it is connected at most once and closed for good, and reports one error at
-- most.
use go_oam.Base.{
  ℕ, ◌≤◌, ◌≡◌, refl, ◌∙◌, Bool, true, ◌⊎◌, Option, none, some, List, [], ◌∷◌, arith, length,
}
use go_oam.Telnet.Client.{
  Client, state_connected, state_closed, client_closed, connect, shutdown, close, deliver,
  break_off, give_up, read, select_read, state_err, dispatch_error, is_closed, is_connected,
}

-- What may happen to a client: its methods, and the rounds of its read loop.
pub data Event (E : Type 0) : Type 0 where
  connects : Option E → Event E
  registers : Bool → Event E
  arrives : List ℕ → Event E
  breaks : E → Event E
  gives_up : Event E
  reads : Event E
  closes : Event E

module _ {E : Type 0} where
  unfoldable pub step : Client E → Event E → Client E
  unfolding connect deliver break_off give_up read close
  step c (connects dial) = (connect c dial).1
  step c (registers given) = record c { on_error = given }
  step c (arrives chunk) = deliver c chunk
  step c (breaks e) = break_off c e
  step c gives_up = give_up c
  step c reads = elim (read c) [ none ↦ c | some r ↦ r.1 ]
  step c closes = close c

  unfoldable pub run : Client E → List (Event E) → Client E
  unfolding step
  run c [] = c
  run c (event ∷ events) = run (step c event) events

  -- The connection is open when the client is connected, the signal is given when it is closed,
  -- nothing is reported before, and no more than one error ever.
  pub record IsSound (c : Client E) : Type 0 where
    pub open_conn : c.conn ≡ is_connected c.state
    pub signal : c.signalled ≡ is_closed c.state
    pub quiet : (is_closed c.state ≡ true) ⊎ (c.reports ≡ [])
    pub single : length c.reports ≤ 1

  stays_closed :
      (c : Client E) (event : Event E)
      → c.state ≡ state_closed
      → ((step c event).state ≡ state_closed) × ((step c event).reports ≡ c.reports)
  unfolding step connect deliver break_off give_up read close select_read state_err shutdown
  stays_closed c (connects dial) e = ground arith
  stays_closed c (registers given) e = ground arith
  stays_closed c (arrives chunk) e = ground arith
  stays_closed c (breaks err) e = ground arith
  stays_closed c gives_up e = ground arith
  stays_closed c reads e = ground arith
  stays_closed c closes e = ground arith

  runs_closed :
      (c : Client E) (events : List (Event E))
      → c.state ≡ state_closed
      → ((run c events).state ≡ state_closed) × ((run c events).reports ≡ c.reports)
  unfolding run
  runs_closed c [] e = (e, refl)
  runs_closed c (event ∷ events) e =
      let (closed, same) = stays_closed c event e in
      let (closed', same') = runs_closed (step c event) events closed in (closed', same' ∙ same)

  -- After `Close` on a connected client, whatever follows, the client stays closed, a `Connect` is
  -- refused, and no error is reported that was not reported before.
  pub run-close :
      (c : Client E) (events : List (Event E)) (dial : Option E)
      → c.state ≡ state_connected
      → ((run (close c) events).state ≡ state_closed)
        × ((connect (run (close c) events) dial).0 ≡ some client_closed)
        × ((run (close c) events).reports ≡ c.reports)
  unfolding close shutdown connect
  run-close c events dial e =
      let closed : (close c).state ≡ state_closed = ground arith in
      let (ends, same) = runs_closed (close c) events closed in
      (ends, ground arith, same ∙ ground arith)

  -- When the read loop of a connected client breaks off, the next `Read` is refused, whatever chunks
  -- wait in the channel.
  pub read-break_off :
      (c : Client E) (e : E)
      → c.state ≡ state_connected
      → c.looping ≡ true
      → read (break_off c e) ≡ some (([], some client_closed), break_off c e)
        × ((break_off c e).output ≡ c.output)
  unfolding read break_off shutdown dispatch_error state_err
  read-break_off c e s l = ground arith
