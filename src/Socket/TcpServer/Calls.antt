-- ===== src/Socket/TcpServer/Calls.antt =====
-- The steps of a TCP server and the states that they reach.
use go_oam.Base.{List, [], ◌∷◌, ◌≡◌}
use go_oam.Socket.TcpServer.{
  Server, listen, listen_enters, bind, accept, accept_fails, resume, finish, register, handler_ends,
  close_conn, close, close_goes_on, outer_ends, watch,
}
use go_oam.Telnet.Server.Calls
use go_oam.Telnet.Server.Calls.{
  listens, adds, binds, accepts, fails, resumes, finishes, registers, ends, closes_conn, closes,
  goes_on,
}

-- The steps of the telnet server, and those of the context.
pub data Event (E : Type 0) : Type 0 where
  serves : Calls.Event E → Event E
  ends_outer : Event E
  watches : Event E

module _ {E : Type 0} where
  unfoldable pub step : Server E → Event E → Server E
  unfolding listen listen_enters bind accept accept_fails resume finish register handler_ends
      close_conn close close_goes_on outer_ends watch
  step s (serves listens) = (listen s).1
  step s (serves adds) = listen_enters s
  step s (serves (binds result)) = bind s result
  step s (serves (accepts id)) = accept s id
  step s (serves (fails e)) = accept_fails s e
  step s (serves (resumes timer)) = resume s timer
  step s (serves finishes) = finish s
  step s (serves (registers id)) = register s id
  step s (serves (ends id result)) = handler_ends s id result
  step s (serves (closes_conn id)) = close_conn s id
  step s (serves closes) = close s
  step s (serves goes_on) = close_goes_on s
  step s ends_outer = outer_ends s
  step s watches = watch s

  unfoldable pub run : Server E → List (Event E) → Server E
  unfolding step
  run s [] = s
  run s (event ∷ events) = run (step s event) events

-- The TCP servers that are reached from one by any steps in any order.
pub data Reach {E : Type 0} (s : Server E) : Server E → Type 0 where
  here : Reach s s
  after : {g k : Server E} (event : Event E) → Reach s g → k ≡ step g event → Reach s k
