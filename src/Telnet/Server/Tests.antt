-- ===== src/Telnet/Server/Tests.antt =====
-- A server for one connection that starts, accepts and is closed.
use go_oam.Base.{
  ℕ, ◌≡◌, refl, true, false, none, some, Option, List, [], ◌∷◌, ◌++◌, length, Key, pos,
}
use go_oam.Telnet.Server.{
  in_handler, state_serving, accepting, returned, nobody, back, Server, new_server, listen,
  listen_enters, bind, accept, spawn, register, handler_ends, accept_fails, leave, close_listener,
  finish, close, close_all_conns, close_goes_on, reject_conn, dispatch_error,
}
use go_oam.Telnet.Server.Calls.{
  Event, listens, adds, binds, accepts, fails, finishes, registers, ends, closes, goes_on, step,
  run, Reach, here, after, is_returned, is_closed, is_back,
}
use go_oam.Telnet.Server.Closing.{Traffic, comes, enters, closes_again, Reach-back}
use go_oam.Telnet.Server.Drain.{ends_each, run-goes_on}

abbrev fresh : Server ℕ
fresh = new_server true true (pos 1)

abbrev a : Key
a = 97 ∷ []

abbrev b : Key
b = 98 ∷ []

-- The first connection comes and goes, and the second is rejected.
abbrev life : List (Event ℕ)
life = listens ∷ adds ∷ binds none ∷ accepts a ∷ registers a ∷ ends a none ∷ accepts b ∷ []

runs_reach :
    {s : Server ℕ} (events : List (Event ℕ)) (g : Server ℕ) → Reach s g → Reach s (run g events)
unfolding run
runs_reach [] g r = r
runs_reach (event ∷ events) g r = runs_reach events (step g event) (after event r refl)

rejected : ((run fresh life).spawned ≡ 1) × (length (run fresh life).handlers ≡ 0)
unfolding run step new_server listen listen_enters bind accept spawn register handler_ends
    reject_conn dispatch_error
rejected = (refl, refl)

abbrev whole : List (Event ℕ)
whole = life ++ closes ∷ goes_on ∷ goes_on ∷ goes_on ∷ fails 5 ∷ finishes ∷ goes_on ∷ []

came_back : is_back (run fresh whole).closer ≡ true
unfolding run step new_server listen listen_enters bind accept spawn register handler_ends
    reject_conn dispatch_error accept_fails leave close_listener finish close close_all_conns
    close_goes_on
came_back = refl

abbrev counted_in : Server ℕ
counted_in = run fresh (listens ∷ adds ∷ [])

abbrev later : List (Event ℕ)
later =
    binds none
    ∷ accepts a
    ∷ registers a
    ∷ closes
    ∷ goes_on
    ∷ goes_on
    ∷ goes_on
    ∷ fails 5
    ∷ ends a none
    ∷ finishes
    ∷ goes_on
    ∷ []

Reach-back_example :
    (is_returned (run counted_in later).phase ≡ true)
    × (length (run counted_in later).handlers ≡ 0)
    × ((run counted_in later).socket ≡ false)
    × (is_closed (run counted_in later).state ≡ true)
unfolding run step new_server listen listen_enters bind accept spawn register handler_ends
    reject_conn dispatch_error accept_fails leave close_listener finish close close_all_conns
    close_goes_on
Reach-back_example =
    Reach-back true true (pos 1) (runs_reach (listens ∷ adds ∷ []) fresh here) refl refl
      (runs_reach later counted_in here) refl

-- A `Close` between the exchange of the state and `listenWG.Add` comes back, and `Listen` goes on.
abbrev too_early : Server ℕ
too_early =
    run fresh (listens ∷ closes ∷ goes_on ∷ goes_on ∷ goes_on ∷ goes_on ∷ adds ∷ binds none ∷ [])

back_too_early :
    (too_early.closer ≡ back) × (too_early.phase ≡ accepting) × (too_early.socket ≡ true)
unfolding run step new_server listen listen_enters bind close close_listener close_all_conns
    close_goes_on
back_too_early = (refl, refl, refl)

abbrev early : Server ℕ
early = run fresh (listens ∷ adds ∷ closes ∷ goes_on ∷ goes_on ∷ goes_on ∷ binds none ∷ [])

abbrev visits : List (Traffic ℕ)
visits = comes a ∷ enters a ∷ closes_again ∷ []

abbrev serving : Server ℕ
serving = record {
  handler = true;
  on_error = true;
  max_conns = pos 1;
  state = state_serving;
  listen_wg = 1;
  listener = true;
  socket = true;
  sem = 1;
  cancelled = false;
  handlers = (a, record { registered = true; closed = false }) ∷ [];
  spawned = 1;
  phase = accepting;
  closer = nobody;
  reports = [];
}

-- The handler returns an error.
abbrev result : Key → Option ℕ
result id = some 8

abbrev drained : Server ℕ
drained =
    run (run serving (closes ∷ goes_on ∷ goes_on ∷ goes_on ∷ fails 5 ∷ []))
      (ends_each result (a ∷ []) ++ finishes ∷ goes_on ∷ [])

run-goes_on_example :
    (drained.phase ≡ returned)
    × (drained.closer ≡ back)
    × (drained.handlers ≡ [])
    × (drained.reports ≡ in_handler 8 ∷ [])
run-goes_on_example = run-goes_on serving 5 result refl refl refl (refl, tt) refl
