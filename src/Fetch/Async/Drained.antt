-- ===== src/Fetch/Async/Drained.antt =====
-- What has happened to the jobs when `AsyncClose` comes back.
use mathlib.Core.List.{append_assoc, append-nil}
use go_oam.Base.{
  ℕ, ◌+◌, ◌≤◌, ◌≡◌, refl, sym, ap, ◌∙◌, inl, inr, Bool, true, false, not, ◌⊎◌, Option, List, [],
  ◌∷◌, ◌++◌, arith, if◌then◌else◌, length, length-append, ℤ,
}
use go_oam.Fetch.Async.{
  Pool, Closer, nobody, waiting, back, new_pool, start_workers, async_init, async_push,
  worker_takes, worker_posts, worker_leaves, async_close, close_receives,
}

pub data Event (J E : Type 0) : Type 0 where
  inits : ℤ → ℤ → Event J E
  pushes : J → Option E → Event J E
  takes : Event J E
  posts : Event J E
  leaves : Event J E
  closes : Event J E
  receives : Event J E

module _ {J E : Type 0} where
  unfoldable pub step : Pool J → Event J E → Pool J
  unfolding async_init async_push worker_takes worker_posts worker_leaves async_close close_receives
  step p (inits worker_count queue_size) = async_init p worker_count queue_size
  step p (pushes job result) = (async_push p job result).1
  step p takes = worker_takes p
  step p posts = worker_posts p
  step p leaves = worker_leaves p
  step p closes = async_close p
  step p receives = close_receives p

  unfoldable pub run : Pool J → List (Event J E) → Pool J
  unfolding step
  run p [] = p
  run p (event ∷ events) = run (step p event) events

-- How many workers an `AsyncClose` has yet to hear of.
abbrev pub unheard : ℕ → Closer → ℕ
unheard all nobody = all
unheard all (waiting n) = n
unheard all back = 0

abbrev pub is_nobody : Closer → Bool
is_nobody nobody = true
is_nobody (waiting n) = false
is_nobody back = false

abbrev pub is_back : Closer → Bool
is_back nobody = false
is_back (waiting n) = false
is_back back = true

abbrev pub IsCounted : {J : Type 0} → Pool J → Type 0
IsCounted p =
    (1 ≤ p.worker_ct)
    × (p.idle + p.posting + p.exited ≡ (if p.started then p.worker_ct else 0))
    × (p.exited + unheard p.worker_ct p.closer ≡ p.signals + p.worker_ct)
    × (p.closed ≡ false → length p.queue ≤ p.queue_sz)
    × (p.exited ≡ 0 ⊎ length p.queue ≡ 0)
    × (p.closed ≡ false → p.exited ≡ 0)
    × (p.closed ≡ not (is_nobody p.closer))
    × (p.close_used ≡ false → p.closed ≡ false)
    × (p.started ≡ false → (p.closed ≡ false) × (length p.queue ≡ 0))

module _ {J : Type 0} where
  queue_cases : (q : List J) → (q ≡ []) ⊎ ((job : J) × (later : List J) × (q ≡ job ∷ later))
  queue_cases [] = inl refl
  queue_cases (job ∷ later) = inr (job, later, refl)

  empty_queue : (q : List J) → length q ≡ 0 → q ≡ []
  empty_queue [] e = refl
  empty_queue (job ∷ later) e = absurd (omega (arith, e))

module _ {J E : Type 0} where
  step-IsCounted : (p : Pool J) (event : Event J E) → IsCounted p → IsCounted (step p event)
  unfolding step async_init start_workers async_push worker_takes worker_posts worker_leaves
      async_close close_receives
  step-IsCounted p (inits worker_count queue_size) v = ground (arith, v)
  step-IsCounted p (pushes job result) v = ground (arith, v, length-append p.queue (job ∷ []))
  step-IsCounted p takes v = ground (arith, v)
  step-IsCounted p posts v = ground (arith, v)
  step-IsCounted p leaves v = ground (arith, v)
  step-IsCounted p closes v = ground (arith, v)
  step-IsCounted p receives v = ground (arith, v)

  step-accepted :
      (p : Pool J) (event : Event J E)
      → p.accepted ≡ p.taken ++ p.queue
      → (step p event).accepted ≡ (step p event).taken ++ (step p event).queue
  unfolding step async_init start_workers async_push worker_takes worker_posts worker_leaves
      async_close close_receives
  step-accepted p (inits worker_count queue_size) f = ground (arith, f)
  step-accepted p (pushes job result) f = ground (arith, f, append_assoc p.taken p.queue (job ∷ []))
  step-accepted p takes f = elim (queue_cases p.queue) [
    | inl empty ↦ ground (arith, f, empty)
    | inr (job, later, there) ↦ ground (arith, f, there, append_assoc p.taken (job ∷ []) later)
  ]
  step-accepted p posts f = ground (arith, f)
  step-accepted p leaves f = ground (arith, f)
  step-accepted p closes f = ground (arith, f)
  step-accepted p receives f = ground (arith, f)

  run-IsCounted :
      (p : Pool J) (events : List (Event J E))
      → IsCounted p
      → p.accepted ≡ p.taken ++ p.queue
      → IsCounted (run p events)
        × ((run p events).accepted ≡ (run p events).taken ++ (run p events).queue)
  unfolding run
  run-IsCounted p [] v f = (v, f)
  run-IsCounted p (event ∷ events) v f =
      run-IsCounted (step p event) events (step-IsCounted p event v) (step-accepted p event f)

  runs-IsCounted :
      (events : List (Event J E))
      → IsCounted (run new_pool events)
        × ((run new_pool events).accepted
            ≡ (run new_pool events).taken ++ (run new_pool events).queue)
  unfolding new_pool
  runs-IsCounted events = run-IsCounted new_pool events (ground arith) refl

  -- However the package is used: when the `AsyncClose` that closes the queue has come back, every job
  -- that was put into the queue has been taken by a worker, in the order in which they were put there,
  -- the queue is empty, and no worker has a request out or runs.
  pub run-is_back :
      (events : List (Event J E))
      → is_back (run new_pool events).closer ≡ true
      → ((run new_pool events).taken ≡ (run new_pool events).accepted)
        × (length (run new_pool events).queue ≡ 0)
        × ((run new_pool events).posting ≡ 0)
        × ((run new_pool events).idle ≡ 0)
  run-is_back events b =
      let p = run new_pool events in
      let (v, f) = runs-IsCounted events in
      let counts : (length p.queue ≡ 0) × (p.posting ≡ 0) × (p.idle ≡ 0) = ground (arith, v, b) in
      let all : p.accepted ≡ p.taken =
        f ∙ ap (λ q. p.taken ++ q) (empty_queue p.queue counts.0) ∙ append-nil p.taken in
      (sym all, counts.0, counts.1, counts.2)
