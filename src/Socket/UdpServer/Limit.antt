-- ===== src/Socket/UdpServer/Limit.antt =====
-- The handlers of a UDP server: their limit, and that `Close` waits for them.
use go_oam.Base.{ℕ, suc, ◌+◌, ◌≤◌, ◌≡◌, Bool, true, false, not, ◌==◌, ◌||◌, arith, ℤ, pos}
use go_oam.Telnet.Server.{has_room}
use go_oam.Telnet.Server.Calls.{
  is_init, is_serving, is_closed, is_idle, is_early, is_returned, has_loop, is_stopping, is_nobody,
  is_back,
}
use go_oam.Socket.UdpServer.{
  Server, new_server, wg, conn_count, dispatch_error, listen, listen_enters, bind, spawn, receive,
  close_conn, ctx_ended, outer_ends, leave, read_fails, resume, finish, enter, handler_ends,
  release, handler_done, close, close_goes_on,
}
use go_oam.Socket.UdpServer.Calls.{
  Event, listens, adds, binds, receives, fails, resumes, finishes, enters, ends, releases, is_done,
  closes, goes_on, ends_outer, step, Reach, here, after,
}

-- How the state, the places, the socket and the handlers fit together.
abbrev IsOrderly : {E : Type 0} → Server E → Type 0
IsOrderly s =
    (s.socket ≡ s.conn)
    × (has_loop s.phase ≡ false → s.socket ≡ false)
    × (has_loop s.phase || is_stopping s.phase ≡ false → wg s ≡ 0)
    × (is_returned s.phase ≡ true → is_closed s.state ≡ true)
    × (is_serving s.state ≡ true → is_idle s.phase ≡ false)
    × (is_init s.state ≡ true → is_idle s.phase ≡ true)
    × (s.listen_wg ≡ 0 → is_early s.phase || is_returned s.phase ≡ true)
    × (is_nobody s.closer ≡ false → (is_idle s.phase ≡ false) × (is_closed s.state ≡ true))
    × (s.active_handler ≡ s.running)

-- `Listen` has come to `listenWG.Add`, and `Close` does not come back before it returns.
abbrev IsPast : {E : Type 0} → Server E → Type 0
IsPast s = (is_early s.phase ≡ false) × (is_back s.closer ≡ true → s.listen_wg ≡ 0)

-- The semaphore holds a place for each handler that has not given its own back.
abbrev pub IsLimited : {E : Type 0} → ℕ → Server E → Type 0
IsLimited n s =
    (s.max_conns ≡ pos (suc n)) × (s.sem ≡ s.entering + s.running + s.leaving) × (s.sem ≤ suc n)

module _ {E : Type 0} where
  step-IsOrderly : (s : Server E) (event : Event E) → IsOrderly s → IsOrderly (step s event)
  unfolding step listen listen_enters bind spawn receive dispatch_error close_conn ctx_ended leave
      read_fails resume finish wg enter handler_ends release handler_done close close_goes_on
      outer_ends
  step-IsOrderly s listens v = ground (arith, v)
  step-IsOrderly s adds v = ground (arith, v)
  step-IsOrderly s (binds result) v = ground (arith, v)
  step-IsOrderly s (receives n) v = ground (arith, v)
  step-IsOrderly s (fails e) v = ground (arith, v)
  step-IsOrderly s (resumes timer) v = ground (arith, v)
  step-IsOrderly s finishes v = ground (arith, v)
  step-IsOrderly s enters v = ground (arith, v)
  step-IsOrderly s (ends result) v = ground (arith, v)
  step-IsOrderly s releases v = ground (arith, v)
  step-IsOrderly s is_done v = ground (arith, v)
  step-IsOrderly s closes v = ground (arith, v)
  step-IsOrderly s goes_on v = ground (arith, v)
  step-IsOrderly s ends_outer v = ground (arith, v)

  Reach-IsOrderly :
      (handler on_error : Bool) (max_conns : ℤ) {s : Server E}
      → Reach (new_server handler on_error max_conns) s
      → IsOrderly s
  unfolding new_server wg
  Reach-IsOrderly handler on_error max_conns here = ground arith
  Reach-IsOrderly handler on_error max_conns (after {g} event r e) =
      rw e (step-IsOrderly g event (Reach-IsOrderly handler on_error max_conns r))

  step-IsPast : (s : Server E) (event : Event E) → IsOrderly s → IsPast s → IsPast (step s event)
  unfolding step listen listen_enters bind spawn receive dispatch_error close_conn ctx_ended leave
      read_fails resume finish wg enter handler_ends release handler_done close close_goes_on
      outer_ends
  step-IsPast s listens o v = ground (arith, o, v)
  step-IsPast s adds o v = ground (arith, o, v)
  step-IsPast s (binds result) o v = ground (arith, o, v)
  step-IsPast s (receives n) o v = ground (arith, o, v)
  step-IsPast s (fails e) o v = ground (arith, o, v)
  step-IsPast s (resumes timer) o v = ground (arith, o, v)
  step-IsPast s finishes o v = ground (arith, o, v)
  step-IsPast s enters o v = ground (arith, o, v)
  step-IsPast s (ends result) o v = ground (arith, o, v)
  step-IsPast s releases o v = ground (arith, o, v)
  step-IsPast s is_done o v = ground (arith, o, v)
  step-IsPast s closes o v = ground (arith, o, v)
  step-IsPast s goes_on o v = ground (arith, o, v)
  step-IsPast s ends_outer o v = ground (arith, o, v)

  Reach-IsPast :
      (handler on_error : Bool) (max_conns : ℤ) {g s : Server E}
      → Reach (new_server handler on_error max_conns) g
      → IsPast g
      → Reach g s
      → IsOrderly s × IsPast s
  Reach-IsPast handler on_error max_conns r v here =
      (Reach-IsOrderly handler on_error max_conns r, v)
  Reach-IsPast handler on_error max_conns r v (after {g = k} event q e) =
      let (o, p) = Reach-IsPast handler on_error max_conns r v q in
      rw e (step-IsOrderly k event o, step-IsPast k event o p)

  -- `Listen` of a UDP server has come to its `listenWG.Add`, and no `Close` has won the exchange of the
  -- state before: when a `Close` comes back from its wait, and when `Listen` has returned for whatever
  -- reason, no handler is left, `ConnCount` is 0, the socket is closed and the server is closed for
  -- good, in whatever order things happen from there.
  pub Reach-udp_returned :
      (handler on_error : Bool) (max_conns : ℤ) {g s : Server E}
      → Reach (new_server handler on_error max_conns) g
      → is_early g.phase ≡ false
      → is_nobody g.closer ≡ true
      → Reach g s
      → is_back s.closer || is_returned s.phase ≡ true
      → (wg s ≡ 0) × (conn_count s ≡ 0) × (s.socket ≡ false) × (is_closed s.state ≡ true)
  unfolding wg conn_count
  Reach-udp_returned handler on_error max_conns {g} r early nobody q b =
      let past : IsPast g = ground (arith, early, nobody) in
      let (o, p) = Reach-IsPast handler on_error max_conns r past q in ground (arith, o, p, b)

  step-IsLimited :
      (n : ℕ) (s : Server E) (event : Event E)
      → IsOrderly s
      → IsLimited n s
      → IsLimited n (step s event)
  unfolding step listen listen_enters bind spawn receive dispatch_error close_conn ctx_ended leave
      read_fails resume finish wg enter handler_ends release handler_done close close_goes_on
      outer_ends
  step-IsLimited n s listens o v = ground (arith, o, v)
  step-IsLimited n s adds o v = ground (arith, o, v)
  step-IsLimited n s (binds result) o v = ground (arith, o, v)
  step-IsLimited n s (receives size) o v = ground (arith, o, v)
  step-IsLimited n s (fails e) o v = ground (arith, o, v)
  step-IsLimited n s (resumes timer) o v = ground (arith, o, v)
  step-IsLimited n s finishes o v = ground (arith, o, v)
  step-IsLimited n s enters o v = ground (arith, o, v)
  step-IsLimited n s (ends result) o v = ground (arith, o, v)
  step-IsLimited n s releases o v = ground (arith, o, v)
  step-IsLimited n s is_done o v = ground (arith, o, v)
  step-IsLimited n s closes o v = ground (arith, o, v)
  step-IsLimited n s goes_on o v = ground (arith, o, v)
  step-IsLimited n s ends_outer o v = ground (arith, o, v)

  Reach-IsLimited :
      (n : ℕ) (handler on_error : Bool) {s : Server E}
      → Reach (new_server handler on_error (pos (suc n))) s
      → IsLimited n s
  unfolding new_server
  Reach-IsLimited n handler on_error here = ground arith
  Reach-IsLimited n handler on_error (after {g} event r e) = rw e (
      step-IsLimited n g event (Reach-IsOrderly handler on_error (pos (suc n)) r)
        (Reach-IsLimited n handler on_error r))

  -- A UDP server with a limit: `ConnCount` is never more than the limit, and each place in the
  -- semaphore is that of a handler which has not given it back, so when no handler is left before
  -- that point the semaphore is empty and the next datagram finds room.
  pub Reach-conn_count :
      (n : ℕ) (handler on_error : Bool) {s : Server E}
      → Reach (new_server handler on_error (pos (suc n))) s
      → (conn_count s ≤ suc n)
        × (s.sem ≡ s.entering + s.running + s.leaving)
        × (wg s ≡ s.sem + s.released)
        × (not (wg s == 0) || has_room s.max_conns s.sem ≡ true)
  unfolding conn_count wg
  Reach-conn_count n handler on_error r = ground (
    arith,
    Reach-IsOrderly handler on_error (pos (suc n)) r,
    Reach-IsLimited n handler on_error r,
  )
