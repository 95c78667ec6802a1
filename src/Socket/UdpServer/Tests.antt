-- ===== src/Socket/UdpServer/Tests.antt =====
-- A UDP server with room for one handler.
use go_oam.Base.{ℕ, ◌+◌, ◌≤◌, ◌≡◌, refl, true, false, not, ◌==◌, ◌||◌, none, List, [], ◌∷◌, pos}
use go_oam.Telnet.Server.{has_room}
use go_oam.Telnet.Server.Calls.{is_closed}
use go_oam.Socket.UdpServer.{
  Server, new_server, wg, conn_count, listen, listen_enters, bind, spawn, receive, dispatch_error,
  enter, handler_ends, release, handler_done, close, close_conn, close_goes_on, read_fails, leave,
  finish, ctx_ended, max_handlers_reached,
}
use go_oam.Socket.UdpServer.Calls.{
  Event, listens, adds, binds, receives, fails, finishes, enters, ends, releases, is_done, closes,
  goes_on, step, run, Reach, here, after,
}
use go_oam.Socket.UdpServer.Limit.{Reach-udp_returned, Reach-conn_count}

abbrev fresh : Server ℕ
fresh = new_server true true (pos 1)

-- The second datagram is dropped while the handler of the first runs, and the third is not.
abbrev busy : List (Event ℕ)
busy =
    listens
    ∷ adds
    ∷ binds none
    ∷ receives 9
    ∷ enters
    ∷ receives 8
    ∷ ends none
    ∷ releases
    ∷ receives 7
    ∷ enters
    ∷ []

abbrev whole : List (Event ℕ)
whole =
    listens
    ∷ adds
    ∷ binds none
    ∷ receives 9
    ∷ closes
    ∷ goes_on
    ∷ goes_on
    ∷ fails 5
    ∷ enters
    ∷ ends none
    ∷ releases
    ∷ is_done
    ∷ finishes
    ∷ goes_on
    ∷ []

-- What follows the `listenWG.Add`.
abbrev later : List (Event ℕ)
later =
    binds none
    ∷ receives 9
    ∷ closes
    ∷ goes_on
    ∷ goes_on
    ∷ fails 5
    ∷ enters
    ∷ ends none
    ∷ releases
    ∷ is_done
    ∷ finishes
    ∷ goes_on
    ∷ []

runs_reach :
    {s : Server ℕ} (events : List (Event ℕ)) (g : Server ℕ) → Reach s g → Reach s (run g events)
unfolding run
runs_reach [] g r = r
runs_reach (event ∷ events) g r = runs_reach events (step g event) (after event r refl)

dropped_one : (run fresh busy).reports ≡ max_handlers_reached (pos 1) ∷ []
unfolding run step new_server listen listen_enters bind spawn receive dispatch_error enter
    handler_ends release
dropped_one = refl

Reach-conn_count_example :
    (conn_count (run fresh busy) ≤ 1)
    × ((run fresh busy).sem
        ≡ (run fresh busy).entering + (run fresh busy).running + (run fresh busy).leaving)
    × (wg (run fresh busy) ≡ (run fresh busy).sem + (run fresh busy).released)
    × (not (wg (run fresh busy) == 0) || has_room (run fresh busy).max_conns (run fresh busy).sem
        ≡ true)
Reach-conn_count_example = Reach-conn_count 0 true true (runs_reach busy fresh here)

Reach-udp_returned_example :
    (wg (run fresh whole) ≡ 0)
    × (conn_count (run fresh whole) ≡ 0)
    × ((run fresh whole).socket ≡ false)
    × (is_closed (run fresh whole).state ≡ true)
unfolding run step new_server listen listen_enters bind spawn receive dispatch_error enter
    handler_ends release handler_done close close_conn close_goes_on read_fails leave finish
    ctx_ended wg
Reach-udp_returned_example =
    Reach-udp_returned true true (pos 1) (runs_reach (listens ∷ adds ∷ []) fresh here) refl refl
      (runs_reach later (run fresh (listens ∷ adds ∷ [])) here) refl
