-- ===== src/Socket/UdpClient/Same.antt =====
-- The client over UDP does what the client over TCP does.
use go_oam.Base.{◌≡◌, refl, ap, ◌∙◌, Bool, true, Option, List, [], ◌∷◌, ◌++◌}
use go_oam.Socket.TcpClient.{
  ClientState, state_init, state_connected, state_closed, Client, ClientError, Received, new_client,
}
use go_oam.Socket.TcpClient.Life.{
  Event, connects, closes, goes_on, reads, delivers, fails, panics, cancels, step,
}
use go_oam.Socket.TcpClient.Stream.{
  Trace, start_of, with_bytes, with_sent, observe, observe_all, got-sent,
}
use go_oam.Socket.TcpClient
use go_oam.Socket.UdpClient.{
  dispatch_error, connect, shutdown, shutdown_goes_on, close, leave, deliver, read_fails,
  loop_panics, read,
}

-- What a call returns to its user; the other events return nothing.
pub data Answer (E : Type 0) : Type 0 where
  connected : Option (ClientError E) → Answer E
  received : Received E → Answer E
  no_answer : Answer E

module _ {E : Type 0} where
  -- What a user of a client over UDP sees, as for TCP.
  unfoldable pub observe_udp : Trace E → Event E → Trace E
  unfolding connect close shutdown_goes_on deliver read read_fails loop_panics
  observe_udp t (delivers datagram picks) =
      let c' = deliver t.client datagram picks in
      record { client = c'; got = t.got; sent = with_sent t.client c' datagram t.sent }
  observe_udp t reads =
      let r = read t.client in record { client = r.1; got = with_bytes r.0 t.got; sent = t.sent }
  observe_udp t (connects dial) = record t { client = (connect t.client dial).1 }
  observe_udp t closes = record t { client = close t.client }
  observe_udp t goes_on = record t { client = shutdown_goes_on t.client }
  observe_udp t (fails e) = record t { client = read_fails t.client e }
  observe_udp t (panics e) = record t { client = loop_panics t.client e }
  observe_udp t cancels = record t { client = record t.client { ctx_done = true } }

  unfoldable pub observe_all_udp : Trace E → List (Event E) → Trace E
  unfolding observe_udp
  observe_all_udp t [] = t
  observe_all_udp t (event ∷ events) = observe_all_udp (observe_udp t event) events

  observe_udp-observe : (t : Trace E) (event : Event E) → observe_udp t event ≡ observe t event
  unfolding observe_udp observe step connect close shutdown shutdown_goes_on deliver read read_fails
      loop_panics dispatch_error leave TcpClient.connect TcpClient.close TcpClient.shutdown
      TcpClient.shutdown_goes_on TcpClient.deliver TcpClient.read TcpClient.read_fails
      TcpClient.loop_panics TcpClient.dispatch_error TcpClient.leave
  observe_udp-observe t (delivers datagram picks) = refl
  observe_udp-observe t reads = refl
  observe_udp-observe t (connects dial) = refl
  observe_udp-observe t closes = refl
  observe_udp-observe t goes_on = refl
  observe_udp-observe t (fails e) = refl
  observe_udp-observe t (panics e) = refl
  observe_udp-observe t cancels = refl

  pub observe_all-udp :
      (t : Trace E) (events : List (Event E)) → observe_all_udp t events ≡ observe_all t events
  unfolding observe_all_udp observe_all
  observe_all-udp t [] = refl
  observe_all-udp t (event ∷ events) =
      ap (λ g. observe_all_udp g events) (observe_udp-observe t event)
      ∙ observe_all-udp (observe t event) events

  -- The answers of a client over TCP and over UDP to a list of events.
  unfoldable pub answers_tcp : Client E → List (Event E) → List (Answer E)
  unfolding step TcpClient.connect TcpClient.read
  answers_tcp c [] = []
  answers_tcp c (connects dial ∷ events) =
      connected (TcpClient.connect c dial).0 ∷ answers_tcp (step c (connects dial)) events
  answers_tcp c (reads ∷ events) = received (TcpClient.read c).0 ∷ answers_tcp (step c reads) events
  answers_tcp c (closes ∷ events) = no_answer ∷ answers_tcp (step c closes) events
  answers_tcp c (goes_on ∷ events) = no_answer ∷ answers_tcp (step c goes_on) events
  answers_tcp c (delivers chunk picks ∷ events) =
      no_answer ∷ answers_tcp (step c (delivers chunk picks)) events
  answers_tcp c (fails e ∷ events) = no_answer ∷ answers_tcp (step c (fails e)) events
  answers_tcp c (panics e ∷ events) = no_answer ∷ answers_tcp (step c (panics e)) events
  answers_tcp c (cancels ∷ events) = no_answer ∷ answers_tcp (step c cancels) events

  unfoldable pub answers_udp : Client E → List (Event E) → List (Answer E)
  unfolding connect close shutdown_goes_on deliver read read_fails loop_panics
  answers_udp c [] = []
  answers_udp c (connects dial ∷ events) =
      connected (connect c dial).0 ∷ answers_udp (connect c dial).1 events
  answers_udp c (reads ∷ events) = received (read c).0 ∷ answers_udp (read c).1 events
  answers_udp c (closes ∷ events) = no_answer ∷ answers_udp (close c) events
  answers_udp c (goes_on ∷ events) = no_answer ∷ answers_udp (shutdown_goes_on c) events
  answers_udp c (delivers datagram picks ∷ events) =
      no_answer ∷ answers_udp (deliver c datagram picks) events
  answers_udp c (fails e ∷ events) = no_answer ∷ answers_udp (read_fails c e) events
  answers_udp c (panics e ∷ events) = no_answer ∷ answers_udp (loop_panics c e) events
  answers_udp c (cancels ∷ events) = no_answer ∷ answers_udp (record c { ctx_done = true }) events

  answers-udp :
      (c : Client E) (events : List (Event E)) → answers_udp c events ≡ answers_tcp c events
  unfolding answers_udp answers_tcp step connect close shutdown shutdown_goes_on deliver read
      read_fails loop_panics dispatch_error leave TcpClient.connect TcpClient.close
      TcpClient.shutdown TcpClient.shutdown_goes_on TcpClient.deliver TcpClient.read
      TcpClient.read_fails TcpClient.loop_panics TcpClient.dispatch_error TcpClient.leave
  answers-udp c [] = refl
  answers-udp c (connects dial ∷ events) =
      ap (λ rest. connected (connect c dial).0 ∷ rest) (answers-udp (connect c dial).1 events)
  answers-udp c (reads ∷ events) =
      ap (λ rest. received (read c).0 ∷ rest) (answers-udp (read c).1 events)
  answers-udp c (closes ∷ events) = ap (λ rest. no_answer ∷ rest) (answers-udp (close c) events)
  answers-udp c (goes_on ∷ events) =
      ap (λ rest. no_answer ∷ rest) (answers-udp (shutdown_goes_on c) events)
  answers-udp c (delivers datagram picks ∷ events) =
      ap (λ rest. no_answer ∷ rest) (answers-udp (deliver c datagram picks) events)
  answers-udp c (fails e ∷ events) =
      ap (λ rest. no_answer ∷ rest) (answers-udp (read_fails c e) events)
  answers-udp c (panics e ∷ events) =
      ap (λ rest. no_answer ∷ rest) (answers-udp (loop_panics c e) events)
  answers-udp c (cancels ∷ events) =
      ap (λ rest. no_answer ∷ rest) (answers-udp (record c { ctx_done = true }) events)

  -- Whatever happens to a new client over UDP: the datagrams that its reads have returned, each whole,
  -- and behind them those that wait, are those that the read loop has sent, in this order; and what
  -- `Connect` and `Read` return each time, results and errors, is what a client over TCP returns to
  -- the same calls at the same events.
  pub got-datagrams :
      (on_error : Bool) (events : List (Event E))
      → (let t = observe_all_udp (start_of on_error) events in
          (t.got ++ t.client.output ≡ t.sent)
          × (answers_udp (new_client on_error) events ≡ answers_tcp (new_client on_error) events))
  got-datagrams on_error events = (
    rw (observe_all-udp (start_of on_error) events) (got-sent on_error events),
    answers-udp (new_client on_error) events,
  )
