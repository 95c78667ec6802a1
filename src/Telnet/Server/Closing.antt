-- ===== src/Telnet/Server/Closing.antt =====
-- What `Close` waits for, and when it waits for ever.
use go_oam.Base.{
  suc, ◌≡◌, refl, ap, Bool, true, false, ◌||◌, Option, none, List, [], ◌∷◌, map, arith, length, Key,
  ℤ, lookup,
}
use go_oam.Telnet.Server.{
  state_closed, accepting, at_wait, Conn, Server, new_server, dispatch_error, listen, listen_enters,
  bind, spawn, reject_conn, accept, close_listener, leave, accept_fails, resume, finish, register,
  handler_ends, close_conn, close, close_registered, close_all_conns, close_goes_on,
}
use go_oam.Telnet.Server.Calls.{
  Event, listens, adds, binds, accepts, fails, resumes, finishes, registers, ends, closes_conn,
  closes, goes_on, step, run, Reach, here, after, is_init, is_serving, is_closed, is_idle, is_early,
  is_returned, has_loop, is_stopping, is_nobody, is_back,
}

-- How the state, the place of `Listen`, the listener and the place of `Close` fit together.
abbrev IsOrderly : {E : Type 0} → Server E → Type 0
IsOrderly s =
    (s.socket ≡ s.listener)
    × (has_loop s.phase ≡ false → s.socket ≡ false)
    × (has_loop s.phase || is_stopping s.phase ≡ false → length s.handlers ≡ 0)
    × (is_returned s.phase ≡ true → is_closed s.state ≡ true)
    × (is_serving s.state ≡ true → is_idle s.phase ≡ false)
    × (is_init s.state ≡ true → is_idle s.phase ≡ true)
    × (s.listen_wg ≡ 0 → is_early s.phase || is_returned s.phase ≡ true)
    × (is_nobody s.closer ≡ false → (is_idle s.phase ≡ false) × (is_closed s.state ≡ true))

-- `Listen` has come to `listenWG.Add`, and `Close` does not come back before it returns.
abbrev IsPast : {E : Type 0} → Server E → Type 0
IsPast s = (is_early s.phase ≡ false) × (is_back s.closer ≡ true → s.listen_wg ≡ 0)

pub lookup-empty : (id : Key) (m : List (Key × Conn)) → length m ≡ 0 → lookup id m ≡ none
lookup-empty id [] e = refl
lookup-empty id (p ∷ m) e = absurd (omega (arith, e))

pub length-close_registered : (m : List (Key × Conn)) → length (close_registered m) ≡ length m
length-close_registered [] = refl
length-close_registered ((id, c) ∷ m) = ap suc (length-close_registered m)

-- What happens to a server from the network and from its users once `Close` waits.
pub data Traffic (E : Type 0) : Type 0 where
  comes : Key → Traffic E
  enters : Key → Traffic E
  leaves : Key → Option E → Traffic E
  hangs_up : Key → Traffic E
  waits : Traffic E
  closes_again : Traffic E
  listens_again : Traffic E

module _ {E : Type 0} where
  step-IsOrderly : (s : Server E) (event : Event E) → IsOrderly s → IsOrderly (step s event)
  unfolding step listen listen_enters bind spawn reject_conn dispatch_error accept close_listener
      leave accept_fails resume finish register handler_ends close_conn close close_all_conns
      close_goes_on
  step-IsOrderly s listens v = ground (arith, v)
  step-IsOrderly s adds v = ground (arith, v)
  step-IsOrderly s (binds result) v = ground (arith, v)
  step-IsOrderly s (accepts id) v = ground (arith, v)
  step-IsOrderly s (fails e) v = ground (arith, v)
  step-IsOrderly s (resumes timer) v = ground (arith, v)
  step-IsOrderly s finishes v = ground (arith, v)
  step-IsOrderly s (registers id) v = ground (arith, v, lookup-empty id s.handlers)
  step-IsOrderly s (ends id result) v = ground (arith, v, lookup-empty id s.handlers)
  step-IsOrderly s (closes_conn id) v = ground (arith, v, lookup-empty id s.handlers)
  step-IsOrderly s closes v = ground (arith, v)
  step-IsOrderly s goes_on v = ground (arith, v, length-close_registered s.handlers)

  Reach-IsOrderly :
      (handler on_error : Bool) (max_conns : ℤ) {s : Server E}
      → Reach (new_server handler on_error max_conns) s
      → IsOrderly s
  unfolding new_server
  Reach-IsOrderly handler on_error max_conns here = ground arith
  Reach-IsOrderly handler on_error max_conns (after {g} event r e) =
      rw e (step-IsOrderly g event (Reach-IsOrderly handler on_error max_conns r))

  step-IsPast : (s : Server E) (event : Event E) → IsOrderly s → IsPast s → IsPast (step s event)
  unfolding step listen listen_enters bind spawn reject_conn dispatch_error accept close_listener
      leave accept_fails resume finish register handler_ends close_conn close close_all_conns
      close_goes_on
  step-IsPast s listens o v = ground (arith, o, v)
  step-IsPast s adds o v = ground (arith, o, v)
  step-IsPast s (binds result) o v = ground (arith, o, v)
  step-IsPast s (accepts id) o v = ground (arith, o, v)
  step-IsPast s (fails e) o v = ground (arith, o, v)
  step-IsPast s (resumes timer) o v = ground (arith, o, v)
  step-IsPast s finishes o v = ground (arith, o, v)
  step-IsPast s (registers id) o v = ground (arith, o, v)
  step-IsPast s (ends id result) o v = ground (arith, o, v)
  step-IsPast s (closes_conn id) o v = ground (arith, o, v)
  step-IsPast s closes o v = ground (arith, o, v)
  step-IsPast s goes_on o v = ground (arith, o, v)

  Reach-IsPast :
      (handler on_error : Bool) (max_conns : ℤ) {g s : Server E}
      → Reach (new_server handler on_error max_conns) g
      → IsPast g
      → Reach g s
      → IsOrderly s × IsPast s
  Reach-IsPast handler on_error max_conns r v here =
      (Reach-IsOrderly handler on_error max_conns r, v)
  Reach-IsPast handler on_error max_conns r v (after {g = k} event q e) =
      let (o, p) = Reach-IsPast handler on_error max_conns r v q in
      rw e (step-IsOrderly k event o, step-IsPast k event o p)

  -- `Listen` has come to its `listenWG.Add`, and no `Close` has won the exchange of the state before:
  -- when a `Close` comes back from its wait, in whatever order things happen from there, `Listen` has
  -- returned, no handler runs, the listener is closed and the server is closed for good.
  pub Reach-back :
      (handler on_error : Bool) (max_conns : ℤ) {g s : Server E}
      → Reach (new_server handler on_error max_conns) g
      → is_early g.phase ≡ false
      → is_nobody g.closer ≡ true
      → Reach g s
      → is_back s.closer ≡ true
      → (is_returned s.phase ≡ true)
        × (length s.handlers ≡ 0)
        × (s.socket ≡ false)
        × (is_closed s.state ≡ true)
  Reach-back handler on_error max_conns {g} r early nobody q b =
      let past : IsPast g = ground (arith, early, nobody) in
      let (o, p) = Reach-IsPast handler on_error max_conns r past q in ground (arith, o, p, b)

  abbrev pub event_of : Traffic E → Event E
  event_of (comes id) = accepts id
  event_of (enters id) = registers id
  event_of (leaves id result) = ends id result
  event_of (hangs_up id) = closes_conn id
  event_of waits = goes_on
  event_of closes_again = closes
  event_of listens_again = listens

  -- `Listen` accepts, the server is closed, and `Close` waits for `Listen`.
  abbrev IsStuck : Server E → Type 0
  IsStuck s =
      (s.phase ≡ accepting)
      × (s.socket ≡ true)
      × (s.state ≡ state_closed)
      × (s.closer ≡ at_wait)
      × (s.listen_wg ≡ 1)

  step-IsStuck : (s : Server E) (t : Traffic E) → IsStuck s → IsStuck (step s (event_of t))
  unfolding step listen spawn reject_conn dispatch_error accept register handler_ends close_conn
      close close_goes_on
  step-IsStuck s (comes id) v = ground (arith, v)
  step-IsStuck s (enters id) v = ground (arith, v)
  step-IsStuck s (leaves id result) v = ground (arith, v)
  step-IsStuck s (hangs_up id) v = ground (arith, v)
  step-IsStuck s waits v = ground (arith, v)
  step-IsStuck s closes_again v = ground (arith, v)
  step-IsStuck s listens_again v = ground (arith, v)

  run-IsStuck :
      (s : Server E) (ts : List (Traffic E)) → IsStuck s → IsStuck (run s (map event_of ts))
  unfolding run
  run-IsStuck s [] v = v
  run-IsStuck s (t ∷ ts) v = run-IsStuck (step s (event_of t)) ts (step-IsStuck s t v)

  -- A `Close` that comes after `Listen` has taken the server and before it has its listener closes
  -- nothing: `Listen` then accepts connections on a server that is closed, and as long as the listener
  -- itself has no error `Close` waits, whatever connections do and however often either is called.
  pub run-close_early :
      (on_error : Bool) (max_conns : ℤ) (ts : List (Traffic E))
      → (let s =
            run
              (new_server true on_error max_conns)
              (listens ∷ adds ∷ closes ∷ goes_on ∷ goes_on ∷ goes_on ∷ binds none ∷ []) in
          let later = run s (map event_of ts) in
          (later.phase ≡ accepting)
          × (later.socket ≡ true)
          × (later.state ≡ state_closed)
          × (later.closer ≡ at_wait))
  unfolding run step new_server listen close close_goes_on close_listener close_all_conns bind
  run-close_early on_error max_conns ts =
      let v =
        run-IsStuck
          (run (new_server true on_error max_conns)
            (listens ∷ adds ∷ closes ∷ goes_on ∷ goes_on ∷ goes_on ∷ binds none ∷ []))
          ts (refl, refl, refl, refl, refl) in
      (v.0, v.1, v.2, v.3)
