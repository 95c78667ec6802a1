-- ===== src/Socket/TcpServer/Tests.antt =====
-- A TCP server that serves one connection until its context ends.
use go_oam.Base.{
  ℕ, ◌≡◌, refl, true, false, none, some, Option, List, [], ◌∷◌, ◌++◌, length, Key, pos,
}
use go_oam.Telnet.Server.{in_handler, state_serving, state_closed, accepting, returned, nobody}
use go_oam.Telnet.Server.Calls.{
  listens, adds, binds, accepts, registers, ends, fails, finishes, is_returned, is_closed,
}
use go_oam.Socket.TcpServer.{
  Server, new_server, listen, listen_enters, bind, accept, spawn, register, handler_ends,
  accept_fails, leave, close_listener, finish, dispatch_error, ctx_ended, outer_ends, watch,
}
use go_oam.Socket.TcpServer.Calls.{
  Event, serves, ends_outer, watches, step, run, Reach, here, after,
}
use go_oam.Socket.TcpServer.Closing.{Reach-returned}
use go_oam.Socket.TcpServer.Context.{ends_each, run-ends_outer}

abbrev fresh : Server ℕ
fresh = new_server true true (pos 1)

abbrev a : Key
a = 97 ∷ []

-- The outer context ends while a connection is served.
abbrev life : List (Event ℕ)
life =
    serves listens
    ∷ serves adds
    ∷ serves (binds none)
    ∷ serves (accepts a)
    ∷ serves (registers a)
    ∷ ends_outer
    ∷ watches
    ∷ serves (fails 5)
    ∷ serves (ends a none)
    ∷ serves finishes
    ∷ []

-- What follows the `listenWG.Add`.
abbrev later : List (Event ℕ)
later =
    serves (binds none)
    ∷ serves (accepts a)
    ∷ serves (registers a)
    ∷ ends_outer
    ∷ watches
    ∷ serves (fails 5)
    ∷ serves (ends a none)
    ∷ serves finishes
    ∷ []

runs_reach :
    {s : Server ℕ} (events : List (Event ℕ)) (g : Server ℕ) → Reach s g → Reach s (run g events)
unfolding run
runs_reach [] g r = r
runs_reach (event ∷ events) g r = runs_reach events (step g event) (after event r refl)

has_returned : is_returned (run fresh life).phase ≡ true
unfolding run step new_server listen listen_enters bind accept spawn register handler_ends
    dispatch_error accept_fails leave close_listener finish ctx_ended outer_ends watch
has_returned = refl

Reach-returned_example :
    (is_returned (run fresh life).phase ≡ true)
    × (length (run fresh life).handlers ≡ 0)
    × ((run fresh life).socket ≡ false)
    × (is_closed (run fresh life).state ≡ true)
unfolding run step new_server listen listen_enters bind accept spawn register handler_ends
    dispatch_error accept_fails leave close_listener finish ctx_ended outer_ends watch
Reach-returned_example =
    Reach-returned true true (pos 1) (runs_reach (serves listens ∷ serves adds ∷ []) fresh here)
      refl refl (runs_reach later (run fresh (serves listens ∷ serves adds ∷ [])) here) refl

abbrev serving : Server ℕ
serving = record {
  handler = true;
  on_error = true;
  max_conns = pos 1;
  state = state_serving;
  listen_wg = 1;
  listener = true;
  socket = true;
  sem = 1;
  has_ctx = true;
  cancelled = false;
  outer_done = false;
  handlers = (a, record { registered = true; closed = false }) ∷ [];
  spawned = 1;
  phase = accepting;
  closer = nobody;
  reports = [];
}

-- The handler returns an error.
abbrev result : Key → Option ℕ
result id = some 8

abbrev ended : Server ℕ
ended =
    run (run serving (ends_outer ∷ watches ∷ serves (fails 5) ∷ []))
      (ends_each result (a ∷ []) ++ serves finishes ∷ [])

run-ends_outer_example :
    (ended.phase ≡ returned)
    × (ended.state ≡ state_closed)
    × (ended.handlers ≡ [])
    × (ended.reports ≡ in_handler 8 ∷ [])
    × (ended.closer ≡ nobody)
run-ends_outer_example = run-ends_outer serving 5 result refl refl refl refl (refl, tt) refl
