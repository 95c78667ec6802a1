-- ===== src/Socket/UdpServer/Calls.antt =====
-- The steps of a UDP server and the states that they reach.
use go_oam.Base.{ℕ, Bool, Option, List, [], ◌∷◌, ◌≡◌}
use go_oam.Socket.UdpServer.{
  Server, listen, listen_enters, bind, receive, read_fails, resume, finish, enter, handler_ends,
  release, handler_done, close, close_goes_on, outer_ends,
}

-- `listens` and `closes` are calls of the user, `ends_outer` is the end of the outer context; the
-- others are what goroutines do.
pub data Event (E : Type 0) : Type 0 where
  listens : Event E
  adds : Event E
  binds : Option E → Event E
  receives : ℕ → Event E
  fails : E → Event E
  resumes : Bool → Event E
  finishes : Event E
  enters : Event E
  ends : Option E → Event E
  releases : Event E
  is_done : Event E
  closes : Event E
  goes_on : Event E
  ends_outer : Event E

module _ {E : Type 0} where
  unfoldable pub step : Server E → Event E → Server E
  unfolding listen listen_enters bind receive read_fails resume finish enter handler_ends release
      handler_done close close_goes_on outer_ends
  step s listens = (listen s).1
  step s adds = listen_enters s
  step s (binds result) = bind s result
  step s (receives n) = receive s n
  step s (fails e) = read_fails s e
  step s (resumes timer) = resume s timer
  step s finishes = finish s
  step s enters = enter s
  step s (ends result) = handler_ends s result
  step s releases = release s
  step s is_done = handler_done s
  step s closes = close s
  step s goes_on = close_goes_on s
  step s ends_outer = outer_ends s

  unfoldable pub run : Server E → List (Event E) → Server E
  unfolding step
  run s [] = s
  run s (event ∷ events) = run (step s event) events

-- The UDP servers that are reached from one by any steps in any order.
pub data Reach {E : Type 0} (s : Server E) : Server E → Type 0 where
  here : Reach s s
  after : {g k : Server E} (event : Event E) → Reach s g → k ≡ step g event → Reach s k
