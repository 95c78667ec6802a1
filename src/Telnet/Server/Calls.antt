-- ===== src/Telnet/Server/Calls.antt =====
-- The steps of a server and the states that they reach.
use go_oam.Base.{Bool, true, false, Option, List, [], ◌∷◌, ◌≡◌, Key}
use go_oam.Telnet.Server.{
  ServerState, state_init, state_serving, state_closed, Phase, idle, entering, binding, accepting,
  pausing, stopping, returned, Closer, nobody, at_listener, at_cancel, at_conns, at_wait, back,
  Server, listen, listen_enters, bind, accept, accept_fails, resume, finish, register, handler_ends,
  close_conn, close, close_goes_on,
}

-- `listens` and `closes` are calls of the user; the others are what goroutines do.
pub data Event (E : Type 0) : Type 0 where
  listens : Event E
  adds : Event E
  binds : Option E → Event E
  accepts : Key → Event E
  fails : E → Event E
  resumes : Bool → Event E
  finishes : Event E
  registers : Key → Event E
  ends : Key → Option E → Event E
  closes_conn : Key → Event E
  closes : Event E
  goes_on : Event E

module _ {E : Type 0} where
  unfoldable pub step : Server E → Event E → Server E
  unfolding listen listen_enters bind accept accept_fails resume finish register handler_ends
      close_conn close close_goes_on
  step s listens = (listen s).1
  step s adds = listen_enters s
  step s (binds result) = bind s result
  step s (accepts id) = accept s id
  step s (fails e) = accept_fails s e
  step s (resumes timer) = resume s timer
  step s finishes = finish s
  step s (registers id) = register s id
  step s (ends id result) = handler_ends s id result
  step s (closes_conn id) = close_conn s id
  step s closes = close s
  step s goes_on = close_goes_on s

  unfoldable pub run : Server E → List (Event E) → Server E
  unfolding step
  run s [] = s
  run s (event ∷ events) = run (step s event) events

-- The servers that are reached from one by any steps in any order.
pub data Reach {E : Type 0} (s : Server E) : Server E → Type 0 where
  here : Reach s s
  after : {g k : Server E} (event : Event E) → Reach s g → k ≡ step g event → Reach s k

-- Tests of a state and of the two places.
abbrev pub is_init : ServerState → Bool
is_init state_init = true
is_init state_serving = false
is_init state_closed = false

abbrev pub is_serving : ServerState → Bool
is_serving state_init = false
is_serving state_serving = true
is_serving state_closed = false

abbrev pub is_closed : ServerState → Bool
is_closed state_init = false
is_closed state_serving = false
is_closed state_closed = true

abbrev pub is_idle : Phase → Bool
is_idle idle = true
is_idle entering = false
is_idle binding = false
is_idle accepting = false
is_idle pausing = false
is_idle stopping = false
is_idle returned = false

-- `Listen` has not come to `listenWG.Add`.
abbrev pub is_early : Phase → Bool
is_early idle = true
is_early entering = true
is_early binding = false
is_early accepting = false
is_early pausing = false
is_early stopping = false
is_early returned = false

abbrev pub is_returned : Phase → Bool
is_returned idle = false
is_returned entering = false
is_returned binding = false
is_returned accepting = false
is_returned pausing = false
is_returned stopping = false
is_returned returned = true

-- `Listen` is in its loop.
abbrev pub has_loop : Phase → Bool
has_loop idle = false
has_loop entering = false
has_loop binding = false
has_loop accepting = true
has_loop pausing = true
has_loop stopping = false
has_loop returned = false

abbrev pub is_stopping : Phase → Bool
is_stopping idle = false
is_stopping entering = false
is_stopping binding = false
is_stopping accepting = false
is_stopping pausing = false
is_stopping stopping = true
is_stopping returned = false

abbrev pub is_nobody : Closer → Bool
is_nobody nobody = true
is_nobody at_listener = false
is_nobody at_cancel = false
is_nobody at_conns = false
is_nobody at_wait = false
is_nobody back = false

abbrev pub is_back : Closer → Bool
is_back nobody = false
is_back at_listener = false
is_back at_cancel = false
is_back at_conns = false
is_back at_wait = false
is_back back = true
