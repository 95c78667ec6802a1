-- ===== src/Telnet/Server/Limit.antt =====
-- The semaphore of `MaxConns`.
use go_oam.Base.{ℕ, suc, ◌≤◌, ◌≡◌, Bool, true, arith, pos}
use go_oam.Telnet.Server.{
  Server, new_server, dispatch_error, listen, listen_enters, bind, spawn, reject_conn, accept,
  close_listener, leave, accept_fails, resume, finish, register, handler_ends, close_conn, close,
  close_all_conns, close_goes_on,
}
use go_oam.Telnet.Server.Calls.{
  Event, listens, adds, binds, accepts, fails, resumes, finishes, registers, ends, closes_conn,
  closes, goes_on, step, Reach, here, after, is_init, is_idle, is_early,
}

-- The semaphore holds a place for each connection that there ever was.
abbrev IsCounted : {E : Type 0} → ℕ → Server E → Type 0
IsCounted n s =
    (s.max_conns ≡ pos (suc n))
    × (s.sem ≡ s.spawned)
    × (s.sem ≤ suc n)
    × (is_early s.phase ≡ true → s.spawned ≡ 0)
    × (is_init s.state ≡ true → is_idle s.phase ≡ true)

module _ {E : Type 0} (n : ℕ) where
  step-IsCounted : (s : Server E) (event : Event E) → IsCounted n s → IsCounted n (step s event)
  unfolding step listen listen_enters bind spawn reject_conn dispatch_error accept close_listener
      leave accept_fails resume finish register handler_ends close_conn close close_all_conns
      close_goes_on
  step-IsCounted s listens v = ground (arith, v)
  step-IsCounted s adds v = ground (arith, v)
  step-IsCounted s (binds result) v = ground (arith, v)
  step-IsCounted s (accepts id) v = ground (arith, v)
  step-IsCounted s (fails e) v = ground (arith, v)
  step-IsCounted s (resumes timer) v = ground (arith, v)
  step-IsCounted s finishes v = ground (arith, v)
  step-IsCounted s (registers id) v = ground (arith, v)
  step-IsCounted s (ends id result) v = ground (arith, v)
  step-IsCounted s (closes_conn id) v = ground (arith, v)
  step-IsCounted s closes v = ground (arith, v)
  step-IsCounted s goes_on v = ground (arith, v)

  Reach-IsCounted :
      (handler on_error : Bool) {s : Server E}
      → Reach (new_server handler on_error (pos (suc n))) s
      → IsCounted n s
  unfolding new_server
  Reach-IsCounted handler on_error here = ground arith
  Reach-IsCounted handler on_error (after {g} event r e) =
      rw e (step-IsCounted g event (Reach-IsCounted handler on_error r))

  -- A server with a limit handles no more connections in its whole life than the limit says: a place
  -- in the semaphore is never given back, also not when the connection ends.
  pub Reach-spawned :
      (handler on_error : Bool) {s : Server E}
      → Reach (new_server handler on_error (pos (suc n))) s
      → s.spawned ≤ suc n
  Reach-spawned handler on_error r = ground (arith, Reach-IsCounted handler on_error r)
