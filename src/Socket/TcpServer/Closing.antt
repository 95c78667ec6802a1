-- ===== src/Socket/TcpServer/Closing.antt =====
-- What `Close` of a TCP server waits for, and what the end of the context does.
use go_oam.Base.{suc, ◌≡◌, Bool, true, false, ◌||◌, arith, length, ℤ, pos, ℕ, ◌≤◌}
use go_oam.Telnet.Server.Calls.{
  listens, adds, binds, accepts, fails, resumes, finishes, registers, ends, closes_conn, closes,
  goes_on, is_init, is_serving, is_closed, is_idle, is_early, is_returned, has_loop, is_stopping,
  is_nobody, is_back,
}
use go_oam.Telnet.Server.Closing.{lookup-empty, length-close_registered}
use go_oam.Socket.TcpServer.{
  Server, new_server, dispatch_error, listen, listen_enters, bind, spawn, reject_conn, accept,
  close_listener, leave, accept_fails, resume, finish, register, handler_ends, close_conn, close,
  close_all_conns, close_goes_on, ctx_ended, outer_ends, watch,
}
use go_oam.Socket.TcpServer.Calls.{Event, serves, ends_outer, watches, step, Reach, here, after}

-- How the state, the places, the listener, the context and the semaphore fit together.
abbrev IsOrderly : {E : Type 0} → Server E → Type 0
IsOrderly s =
    (s.socket ≡ s.listener)
    × (has_loop s.phase ≡ false → s.socket ≡ false)
    × (has_loop s.phase || is_stopping s.phase ≡ false → length s.handlers ≡ 0)
    × (is_returned s.phase ≡ true → is_closed s.state ≡ true)
    × (is_serving s.state ≡ true → is_idle s.phase ≡ false)
    × (is_init s.state ≡ true → is_idle s.phase ≡ true)
    × (s.listen_wg ≡ 0 → is_early s.phase || is_returned s.phase ≡ true)
    × (is_nobody s.closer ≡ false → (is_idle s.phase ≡ false) × (is_closed s.state ≡ true))
    × (has_loop s.phase || is_stopping s.phase ≡ true → s.has_ctx ≡ true)
    × (has_loop s.phase || is_stopping s.phase || is_returned s.phase ≡ false → s.spawned ≡ 0)

-- `Listen` has come to `listenWG.Add`, and `Close` does not come back before it returns.
abbrev IsPast : {E : Type 0} → Server E → Type 0
IsPast s = (is_early s.phase ≡ false) × (is_back s.closer ≡ true → s.listen_wg ≡ 0)

-- With a limit, the semaphore holds a place for each connection that there ever was.
abbrev IsCounted : {E : Type 0} → ℕ → Server E → Type 0
IsCounted n s = (s.max_conns ≡ pos (suc n)) × (s.sem ≤ suc n) × (s.sem ≡ s.spawned)

module _ {E : Type 0} where
  step-IsOrderly : (s : Server E) (event : Event E) → IsOrderly s → IsOrderly (step s event)
  unfolding step listen listen_enters bind spawn reject_conn dispatch_error accept close_listener
      leave accept_fails resume finish register handler_ends close_conn close close_all_conns
      close_goes_on ctx_ended outer_ends watch
  step-IsOrderly s (serves listens) v = ground (arith, v)
  step-IsOrderly s (serves adds) v = ground (arith, v)
  step-IsOrderly s (serves (binds result)) v = ground (arith, v)
  step-IsOrderly s (serves (accepts id)) v = ground (arith, v)
  step-IsOrderly s (serves (fails e)) v = ground (arith, v)
  step-IsOrderly s (serves (resumes timer)) v = ground (arith, v)
  step-IsOrderly s (serves finishes) v = ground (arith, v)
  step-IsOrderly s (serves (registers id)) v = ground (arith, v, lookup-empty id s.handlers)
  step-IsOrderly s (serves (ends id result)) v = ground (arith, v, lookup-empty id s.handlers)
  step-IsOrderly s (serves (closes_conn id)) v = ground (arith, v, lookup-empty id s.handlers)
  step-IsOrderly s (serves closes) v = ground (arith, v)
  step-IsOrderly s (serves goes_on) v = ground (arith, v, length-close_registered s.handlers)
  step-IsOrderly s ends_outer v = ground (arith, v)
  step-IsOrderly s watches v = ground (arith, v)

  Reach-IsOrderly :
      (handler on_error : Bool) (max_conns : ℤ) {s : Server E}
      → Reach (new_server handler on_error max_conns) s
      → IsOrderly s
  unfolding new_server
  Reach-IsOrderly handler on_error max_conns here = ground arith
  Reach-IsOrderly handler on_error max_conns (after {g} event r e) =
      rw e (step-IsOrderly g event (Reach-IsOrderly handler on_error max_conns r))

  step-IsPast : (s : Server E) (event : Event E) → IsOrderly s → IsPast s → IsPast (step s event)
  unfolding step listen listen_enters bind spawn reject_conn dispatch_error accept close_listener
      leave accept_fails resume finish register handler_ends close_conn close close_all_conns
      close_goes_on ctx_ended outer_ends watch
  step-IsPast s (serves listens) o v = ground (arith, o, v)
  step-IsPast s (serves adds) o v = ground (arith, o, v)
  step-IsPast s (serves (binds result)) o v = ground (arith, o, v)
  step-IsPast s (serves (accepts id)) o v = ground (arith, o, v)
  step-IsPast s (serves (fails e)) o v = ground (arith, o, v)
  step-IsPast s (serves (resumes timer)) o v = ground (arith, o, v)
  step-IsPast s (serves finishes) o v = ground (arith, o, v)
  step-IsPast s (serves (registers id)) o v = ground (arith, o, v)
  step-IsPast s (serves (ends id result)) o v = ground (arith, o, v)
  step-IsPast s (serves (closes_conn id)) o v = ground (arith, o, v)
  step-IsPast s (serves closes) o v = ground (arith, o, v)
  step-IsPast s (serves goes_on) o v = ground (arith, o, v)
  step-IsPast s ends_outer o v = ground (arith, o, v)
  step-IsPast s watches o v = ground (arith, o, v)

  Reach-IsPast :
      (handler on_error : Bool) (max_conns : ℤ) {g s : Server E}
      → Reach (new_server handler on_error max_conns) g
      → IsPast g
      → Reach g s
      → IsOrderly s × IsPast s
  Reach-IsPast handler on_error max_conns r v here =
      (Reach-IsOrderly handler on_error max_conns r, v)
  Reach-IsPast handler on_error max_conns r v (after {g = k} event q e) =
      let (o, p) = Reach-IsPast handler on_error max_conns r v q in
      rw e (step-IsOrderly k event o, step-IsPast k event o p)

  -- `Listen` of a TCP server has come to its `listenWG.Add`, and no `Close` has won the exchange of the
  -- state before: when a `Close` comes back from its wait, and when `Listen` has returned for whatever
  -- reason, then `Listen` has returned, no handler runs, the listener is closed and the server is
  -- closed for good, in whatever order things happen from there.
  pub Reach-returned :
      (handler on_error : Bool) (max_conns : ℤ) {g s : Server E}
      → Reach (new_server handler on_error max_conns) g
      → is_early g.phase ≡ false
      → is_nobody g.closer ≡ true
      → Reach g s
      → is_back s.closer || is_returned s.phase ≡ true
      → (is_returned s.phase ≡ true)
        × (length s.handlers ≡ 0)
        × (s.socket ≡ false)
        × (is_closed s.state ≡ true)
  Reach-returned handler on_error max_conns {g} r early nobody q b =
      let past : IsPast g = ground (arith, early, nobody) in
      let (o, p) = Reach-IsPast handler on_error max_conns r past q in ground (arith, o, p, b)

  step-IsCounted :
      (n : ℕ) (s : Server E) (event : Event E)
      → IsOrderly s
      → IsCounted n s
      → IsCounted n (step s event)
  unfolding step listen listen_enters bind spawn reject_conn dispatch_error accept close_listener
      leave accept_fails resume finish register handler_ends close_conn close close_all_conns
      close_goes_on ctx_ended outer_ends watch
  step-IsCounted n s (serves listens) o v = ground (arith, o, v)
  step-IsCounted n s (serves adds) o v = ground (arith, o, v)
  step-IsCounted n s (serves (binds result)) o v = ground (arith, o, v)
  step-IsCounted n s (serves (accepts id)) o v = ground (arith, o, v)
  step-IsCounted n s (serves (fails e)) o v = ground (arith, o, v)
  step-IsCounted n s (serves (resumes timer)) o v = ground (arith, o, v)
  step-IsCounted n s (serves finishes) o v = ground (arith, o, v)
  step-IsCounted n s (serves (registers id)) o v = ground (arith, o, v)
  step-IsCounted n s (serves (ends id result)) o v = ground (arith, o, v)
  step-IsCounted n s (serves (closes_conn id)) o v = ground (arith, o, v)
  step-IsCounted n s (serves closes) o v = ground (arith, o, v)
  step-IsCounted n s (serves goes_on) o v = ground (arith, o, v)
  step-IsCounted n s ends_outer o v = ground (arith, o, v)
  step-IsCounted n s watches o v = ground (arith, o, v)

  Reach-IsCounted :
      (n : ℕ) (handler on_error : Bool) {s : Server E}
      → Reach (new_server handler on_error (pos (suc n))) s
      → IsCounted n s
  unfolding new_server
  Reach-IsCounted n handler on_error here = ground arith
  Reach-IsCounted n handler on_error (after {g} event r e) = rw e (
      step-IsCounted n g event (Reach-IsOrderly handler on_error (pos (suc n)) r)
        (Reach-IsCounted n handler on_error r))

  -- A TCP server with a limit handles no more connections in its whole life than the limit says: no
  -- place in the semaphore is given back when a connection ends.
  pub Reach-tcp_spawned :
      (n : ℕ) (handler on_error : Bool) {s : Server E}
      → Reach (new_server handler on_error (pos (suc n))) s
      → s.spawned ≤ suc n
  Reach-tcp_spawned n handler on_error r = ground (arith, Reach-IsCounted n handler on_error r)
