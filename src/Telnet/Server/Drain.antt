-- ===== src/Telnet/Server/Drain.antt =====
-- `Close` comes back once the handlers have returned.
use mathlib.Core.List.{append_assoc, append-nil}
use go_oam.Base.{
  Option, Option-cases, inl, inr, if◌then◌else◌, some, ◌≡◌, refl, sym, ap, ◌∙◌, Bool, true, false,
  ◌&&◌, none, List, [], ◌∷◌, ◌++◌, map, arith, Key, key_eq_refl, lookup, delete, keys, Distinct,
}
use go_oam.Telnet.Server.{
  ServerError, in_handler, dispatch_error, state_serving, state_closed, accepting, stopping,
  returned, at_wait, back, Conn, Server, close_listener, leave, accept_fails, finish, handler_ends,
  close, close_registered, close_all_conns, close_goes_on,
}
use go_oam.Telnet.Server.Calls.{Event, fails, finishes, ends, closes, goes_on, step, run}

pub delete-absent : (id : Key) (m : List (Key × Conn)) → lookup id m ≡ none → delete id m ≡ m
delete-absent id [] a = refl
delete-absent id ((j, c) ∷ m) a = ground (arith, delete-absent id m)

-- Every handler has entered its connection.
abbrev pub all_registered : List (Key × Conn) → Bool
all_registered [] = true
all_registered ((id, c) ∷ m) = c.registered && all_registered m

keys-close_registered : (m : List (Key × Conn)) → keys (close_registered m) ≡ keys m
keys-close_registered [] = refl
keys-close_registered ((id, c) ∷ m) = ap (λ ks. id ∷ ks) (keys-close_registered m)

lookup-close_registered :
    (id : Key) (m : List (Key × Conn)) → lookup id m ≡ none → lookup id (close_registered m) ≡ none
lookup-close_registered id [] a = refl
lookup-close_registered id ((j, c) ∷ m) a = ground (arith, lookup-close_registered id m)

close_registered-Distinct : (m : List (Key × Conn)) → Distinct m → Distinct (close_registered m)
close_registered-Distinct [] d = tt
close_registered-Distinct ((id, c) ∷ m) d =
    (lookup-close_registered id m d.0, close_registered-Distinct m d.1)

pub all_registered-close_registered :
    (m : List (Key × Conn)) → all_registered m ≡ true → all_registered (close_registered m) ≡ true
all_registered-close_registered [] a = refl
all_registered-close_registered ((id, c) ∷ m) a = ground (arith, all_registered-close_registered m)

module _ {E : Type 0} where
  run-append :
      (s : Server E) (events later : List (Event E))
      → run s (events ++ later) ≡ run (run s events) later
  unfolding run
  run-append s [] later = refl
  run-append s (event ∷ events) later = run-append (step s event) events later

  -- Each handler returns, with its own result.
  abbrev pub ends_each : (Key → Option E) → List Key → List (Event E)
  ends_each result ids = map (λ id. ends id (result id)) ids

  -- The reports of the handlers that return an error.
  abbrev pub reported : Bool → (Key → Option E) → List Key → List (ServerError E)
  reported on_error result [] = []
  reported on_error result (id ∷ ids) =
      let rest = reported on_error result ids in
      elim (result id) [ none ↦ rest | some e ↦ if on_error then in_handler e ∷ rest else rest ]

  handler_ended :
      (s : Server E) (result : Key → Option E) (id : Key) (c : Conn) (m : List (Key × Conn))
      → s.handlers ≡ (id, c) ∷ m
      → lookup id m ≡ none
      → c.registered ≡ true
      → step s (ends id (result id))
        ≡ record s { handlers = m; reports = s.reports ++ reported s.on_error result (id ∷ []) }
  unfolding step handler_ends dispatch_error
  handler_ended s result id c m e d r = elim (Option-cases (result id)) [
    | inl fine ↦
        ground (arith, fine, e, d, r, delete-absent id m, key_eq_refl id, append-nil s.reports)
    | inr (err, failed) ↦
        ground (arith, failed, e, d, r, delete-absent id m, key_eq_refl id, append-nil s.reports)
  ]

  reported-each :
      (on_error : Bool) (result : Key → Option E) (id : Key) (ids : List Key)
      → reported on_error result (id ∷ []) ++ reported on_error result ids
        ≡ reported on_error result (id ∷ ids)
  reported-each on_error result id ids = elim (Option-cases (result id)) [
    | inl fine ↦ ground (arith, fine)
    | inr (err, failed) ↦ ground (arith, failed)
  ]

  run-ends_each :
      (s : Server E) (result : Key → Option E) (m : List (Key × Conn))
      → s.handlers ≡ m
      → Distinct m
      → all_registered m ≡ true
      → run s (ends_each result (keys m))
        ≡ record s { handlers = []; reports = s.reports ++ reported s.on_error result (keys m) }
  unfolding run
  run-ends_each s result [] e d a = ground (arith, append-nil s.reports)
  run-ends_each s result ((id, c) ∷ m) e d a =
      let one = reported s.on_error result (id ∷ []) in
      let later = reported s.on_error result (keys m) in
      let g : Server E = record s { handlers = m; reports = s.reports ++ one } in
      let registered : c.registered ≡ true = ground (arith, a) in
      ap (λ k. run k (ends_each result (keys m))) (handler_ended s result id c m e d.0 registered)
      ∙ run-ends_each g result m refl d.1 (ground (arith, a))
      ∙ ap (λ rs. record s { handlers = []; reports = rs })
          (append_assoc s.reports one later
            ∙ ap (λ rs. s.reports ++ rs) (reported-each s.on_error result id (keys m)))

  -- A server that accepts connections, whose handlers have entered theirs: after `Close` has made its
  -- calls, the listener has failed and each handler has returned, in the order of the table and each with
  -- a result of its own, `Listen` returns and `Close` comes back, with no handler left; what is reported
  -- in between are the errors of the handlers, where there is a callback.
  pub run-goes_on :
      (s : Server E) (e : E) (result : Key → Option E)
      → s.phase ≡ accepting
      → s.state ≡ state_serving
      → s.listener ≡ true
      → Distinct s.handlers
      → all_registered s.handlers ≡ true
      → (let g =
            run
              (run s (closes ∷ goes_on ∷ goes_on ∷ goes_on ∷ fails e ∷ []))
              (ends_each result (keys s.handlers) ++ finishes ∷ goes_on ∷ []) in
          (g.phase ≡ returned)
          × (g.closer ≡ back)
          × (g.handlers ≡ [])
          × (g.reports ≡ s.reports ++ reported s.on_error result (keys s.handlers)))
  unfolding run step close close_goes_on close_listener close_all_conns accept_fails leave finish
  run-goes_on s e result p st l d a =
      let closed = close_registered s.handlers in
      let waiting : Server E = record s {
        state = state_closed;
        closer = at_wait;
        listener = false;
        socket = false;
        cancelled = true;
        phase = stopping;
        handlers = closed;
      } in
      let called : run s (closes ∷ goes_on ∷ goes_on ∷ goes_on ∷ fails e ∷ []) ≡ waiting =
        ground arith in
      let reports = s.reports ++ reported s.on_error result (keys s.handlers) in
      let left : Server E = record waiting { handlers = []; reports = reports } in
      let drained : run waiting (ends_each result (keys closed)) ≡ left =
        run-ends_each waiting result closed refl (close_registered-Distinct s.handlers d)
          (all_registered-close_registered s.handlers a)
        ∙ ap
            (λ ids. record waiting {
              handlers = [];
              reports = s.reports ++ reported s.on_error result ids;
            })
            (keys-close_registered s.handlers) in
      let all : run (run s (closes ∷ goes_on ∷ goes_on ∷ goes_on ∷ fails e ∷ []))
            (ends_each result (keys s.handlers) ++ finishes ∷ goes_on ∷ [])
          ≡ run (left) (finishes ∷ goes_on ∷ []) =
        ap (λ g. run g (ends_each result (keys s.handlers) ++ finishes ∷ goes_on ∷ [])) called
        ∙ run-append waiting (ends_each result (keys s.handlers)) (finishes ∷ goes_on ∷ [])
        ∙ ap (λ ids. run (run waiting (ends_each result ids)) (finishes ∷ goes_on ∷ []))
            (sym (keys-close_registered s.handlers))
        ∙ ap (λ g. run g (finishes ∷ goes_on ∷ [])) drained in
      (
        ap (λ g. g.phase) all,
        ap (λ g. g.closer) all,
        ap (λ g. g.handlers) all,
        ap (λ g. g.reports) all,
      )
