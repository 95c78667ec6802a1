-- ===== src/Socket/TcpServer/Context.antt =====
-- The end of the outer context stops a TCP server.
use mathlib.Core.List.{append_assoc, append-nil}
use go_oam.Base.{
  Bool, lookup, Option, Option-cases, inl, inr, if◌then◌else◌, some, ◌≡◌, refl, ap, ◌∙◌, true,
  false, none, List, [], ◌∷◌, ◌++◌, map, arith, Key, key_eq_refl, keys, Distinct,
}
use go_oam.Telnet.Server.{
  ServerError, in_handler, state_serving, state_closed, accepting, stopping, returned, Conn,
}
use go_oam.Telnet.Server.Calls.{fails, ends, finishes}
use go_oam.Telnet.Server.Drain.{delete-absent, all_registered}
use go_oam.Socket.TcpServer.{
  dispatch_error, Server, close_listener, leave, accept_fails, finish, handler_ends, ctx_ended,
  outer_ends, watch,
}
use go_oam.Socket.TcpServer.Calls.{Event, serves, ends_outer, watches, step, run}

module _ {E : Type 0} where
  run-append :
      (s : Server E) (events later : List (Event E))
      → run s (events ++ later) ≡ run (run s events) later
  unfolding run
  run-append s [] later = refl
  run-append s (event ∷ events) later = run-append (step s event) events later

  -- Each handler returns, with its own result.
  abbrev pub ends_each : (Key → Option E) → List Key → List (Event E)
  ends_each result ids = map (λ id. serves (ends id (result id))) ids

  -- The reports of the handlers that return an error.
  abbrev pub reported : Bool → (Key → Option E) → List Key → List (ServerError E)
  reported on_error result [] = []
  reported on_error result (id ∷ ids) =
      let rest = reported on_error result ids in
      elim (result id) [ none ↦ rest | some e ↦ if on_error then in_handler e ∷ rest else rest ]

  handler_ended :
      (s : Server E) (result : Key → Option E) (id : Key) (c : Conn) (m : List (Key × Conn))
      → s.handlers ≡ (id, c) ∷ m
      → lookup id m ≡ none
      → c.registered ≡ true
      → step s (serves (ends id (result id)))
        ≡ record s { handlers = m; reports = s.reports ++ reported s.on_error result (id ∷ []) }
  unfolding step handler_ends dispatch_error
  handler_ended s result id c m e d r = elim (Option-cases (result id)) [
    | inl fine ↦
        ground (arith, fine, e, d, r, delete-absent id m, key_eq_refl id, append-nil s.reports)
    | inr (err, failed) ↦
        ground (arith, failed, e, d, r, delete-absent id m, key_eq_refl id, append-nil s.reports)
  ]

  reported-each :
      (on_error : Bool) (result : Key → Option E) (id : Key) (ids : List Key)
      → reported on_error result (id ∷ []) ++ reported on_error result ids
        ≡ reported on_error result (id ∷ ids)
  reported-each on_error result id ids = elim (Option-cases (result id)) [
    | inl fine ↦ ground (arith, fine)
    | inr (err, failed) ↦ ground (arith, failed)
  ]

  run-ends_each :
      (s : Server E) (result : Key → Option E) (m : List (Key × Conn))
      → s.handlers ≡ m
      → Distinct m
      → all_registered m ≡ true
      → run s (ends_each result (keys m))
        ≡ record s { handlers = []; reports = s.reports ++ reported s.on_error result (keys m) }
  unfolding run
  run-ends_each s result [] e d a = ground (arith, append-nil s.reports)
  run-ends_each s result ((id, c) ∷ m) e d a =
      let one = reported s.on_error result (id ∷ []) in
      let later = reported s.on_error result (keys m) in
      let g : Server E = record s { handlers = m; reports = s.reports ++ one } in
      let registered : c.registered ≡ true = ground (arith, a) in
      ap (λ k. run k (ends_each result (keys m))) (handler_ended s result id c m e d.0 registered)
      ∙ run-ends_each g result m refl d.1 (ground (arith, a))
      ∙ ap (λ rs. record s { handlers = []; reports = rs })
          (append_assoc s.reports one later
            ∙ ap (λ rs. s.reports ++ rs) (reported-each s.on_error result id (keys m)))

  -- A TCP server that accepts connections, whose handlers have entered theirs: when the outer context
  -- has ended, its watcher has closed the listener, `Accept` has failed for that, and each handler has
  -- returned, in the order of the table and each with a result of its own, `Listen` returns and the
  -- server is closed, though nobody has called `Close`; what is reported in between are the errors of
  -- the handlers, where there is a callback.
  pub run-ends_outer :
      (s : Server E) (e : E) (result : Key → Option E)
      → s.phase ≡ accepting
      → s.state ≡ state_serving
      → s.listener ≡ true
      → s.has_ctx ≡ true
      → Distinct s.handlers
      → all_registered s.handlers ≡ true
      → (let g =
            run
              (run s (ends_outer ∷ watches ∷ serves (fails e) ∷ []))
              (ends_each result (keys s.handlers) ++ serves finishes ∷ []) in
          (g.phase ≡ returned)
          × (g.state ≡ state_closed)
          × (g.handlers ≡ [])
          × (g.reports ≡ s.reports ++ reported s.on_error result (keys s.handlers))
          × (g.closer ≡ s.closer))
  unfolding run step outer_ends watch ctx_ended close_listener accept_fails leave finish
  run-ends_outer s e result p st l h d a =
      let waiting : Server E = record s {
        listener = false;
        socket = false;
        outer_done = true;
        cancelled = true;
        phase = stopping;
      } in
      let left : run s (ends_outer ∷ watches ∷ serves (fails e) ∷ []) ≡ waiting = ground arith in
      let reports = s.reports ++ reported s.on_error result (keys s.handlers) in
      let gone : Server E = record waiting { handlers = []; reports = reports } in
      let drained : run waiting (ends_each result (keys s.handlers)) ≡ gone =
        run-ends_each waiting result s.handlers refl d a in
      let all : run (run s (ends_outer ∷ watches ∷ serves (fails e) ∷ []))
            (ends_each result (keys s.handlers) ++ serves finishes ∷ [])
          ≡ run (gone) (serves finishes ∷ []) =
        ap (λ g. run g (ends_each result (keys s.handlers) ++ serves finishes ∷ [])) left
        ∙ run-append waiting (ends_each result (keys s.handlers)) (serves finishes ∷ [])
        ∙ ap (λ g. run g (serves finishes ∷ [])) drained in
      (
        ap (λ g. g.phase) all,
        ap (λ g. g.state) all,
        ap (λ g. g.handlers) all,
        ap (λ g. g.reports) all,
        ap (λ g. g.closer) all,
      )
