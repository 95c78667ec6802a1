-- ===== src/Push/Pool/Jobs.antt =====
-- No job is lost: each that was queued is in the queue or has been counted.
use go_oam.Base.{
  ℕ, zero, suc, ◌+◌, ◌-◌, ◌≤◌, ◌≡◌, ◌≢◌, refl, sym, ◌∙◌, ◌⊎◌, inl, inr, true, false, Option, none,
  some, List, [], ◌∷◌, ◌++◌, arith, ltb, if◌then◌else◌, length, replicate, Key, ℤ, pos, negsuc,
  Bool-cases, Option-cases,
}
use go_oam.Push.Client.{Network, PushError, do_push_with_retry}
use go_oam.Push.Pool.{Pool, Job, async_push_timeout, serve, work, set_workers, close, timeout_or}

-- The jobs in a queue that are not nil.
unfoldable pub jobs_in : List (Option Job) → ℕ
jobs_in [] = 0
jobs_in (none ∷ queue) = jobs_in queue
jobs_in (some job ∷ queue) = suc (jobs_in queue)

-- The jobs that a pool has taken over.
abbrev pub accepted : Pool → ℕ
accepted c = jobs_in c.queue + c.processed + c.failed

jobs_in-append : (a b : List (Option Job)) → jobs_in (a ++ b) ≡ jobs_in a + jobs_in b
unfolding jobs_in
jobs_in-append [] b = omega arith
jobs_in-append (none ∷ a) b = jobs_in-append a b
jobs_in-append (some job ∷ a) b = omega (arith, jobs_in-append a b)

jobs_in-nils : (n : ℕ) → jobs_in (replicate n none) ≡ 0
unfolding jobs_in
jobs_in-nils zero = refl
jobs_in-nils (suc n) = jobs_in-nils n

serve_lem :
    (c c' : Pool) (net : Network)
    → serve c net ≡ some c'
    → (c'.queue ≡ c.queue)
      × (c'.active ≡ c.active)
      × (c'.processed + c'.failed ≡ suc (c.processed + c.failed))
unfolding serve
serve_lem c c' net e = elim (Option-cases (do_push_with_retry net (pos 0))) [
  | inl fault ↦ ground arith
  | inr (r, done_with) ↦ elim (Option-cases r.0) [
    | inl ok ↦ ground arith
    | inr (err, bad) ↦ ground arith
  ]
]

-- A queue is empty, or begins with a nil job or with another.
queue-cases :
    (q : List (Option Job))
    → (q ≡ [])
      ⊎ (((later : List (Option Job)) × (q ≡ none ∷ later))
          ⊎ ((job : Job) × (later : List (Option Job)) × (q ≡ some job ∷ later)))
queue-cases [] = inl refl
queue-cases (none ∷ later) = inr (inl (later, refl))
queue-cases (some job ∷ later) = inr (inr (job, later, refl))

accepted-work : (c c' : Pool) (net : Network) → work c net ≡ some c' → accepted c' ≡ accepted c
unfolding work jobs_in
accepted-work c c' net e = elim (queue-cases c.queue) [
  | inl empty ↦ ground arith
  | inr (inl (later, leaves)) ↦ ground arith
  | inr (inr (job, later, begins)) ↦ ground (arith, serve_lem (record c { queue = later }) c' net)
]

accepted-push :
    (c c' : Pool) (net : Network) (url payload : Key) (timeout : ℤ) (result : Option PushError)
    → async_push_timeout c net url payload timeout ≡ some (result, c')
    → accepted c' ≡ (if ltb (length c.queue) c.queue_size then suc (accepted c) else accepted c)
unfolding async_push_timeout jobs_in
accepted-push c c' net url payload timeout result e =
    let job : Job = record {
      url = url;
      payload = payload;
      timeout = timeout_or timeout c.timeout;
    } in
    elim (Option-cases (do_push_with_retry net (pos 0))) [
      | inl fault ↦ ground (arith, jobs_in-append c.queue (some job ∷ []))
      | inr (r, pushed) ↦ ground (arith, jobs_in-append c.queue (some job ∷ []))
    ]

accepted-set_workers : (c c' : Pool) (n : ℤ) → set_workers c n ≡ some c' → accepted c' ≡ accepted c
unfolding set_workers
accepted-set_workers c c' (negsuc n) e = ground arith
accepted-set_workers c c' (pos n) e =
    ground
      (arith, jobs_in-append c.queue (replicate (c.workers - n) none), jobs_in-nils (c.workers - n))

-- A round of a worker and a change of their number keep the number of jobs that the pool has taken
-- over; an asynchronous push that does not fault adds one where the queue has room, and none where
-- it has not.
pub accepted-step :
    (c worked pushed resized : Pool) (net : Network) (url payload : Key) (timeout n : ℤ)
    (result : Option PushError)
    → work c net ≡ some worked
    → async_push_timeout c net url payload timeout ≡ some (result, pushed)
    → set_workers c n ≡ some resized
    → (accepted worked ≡ accepted c)
      × (accepted resized ≡ accepted c)
      × (accepted pushed
          ≡ (if ltb (length c.queue) c.queue_size then suc (accepted c) else accepted c))
accepted-step c worked pushed resized net url payload timeout n result w p r = (
  accepted-work c worked net w,
  accepted-set_workers c resized n r,
  accepted-push c pushed net url payload timeout result p,
)

-- Rounds of the workers, with what each meets.
unfoldable pub work_all : Pool → List Network → Option Pool
work_all c [] = some c
work_all c (net ∷ nets) = elim (work c net) [ none ↦ none | some c' ↦ work_all c' nets ]

jobs_in-le : (q : List (Option Job)) → jobs_in q ≤ length q
unfolding jobs_in
jobs_in-le [] = omega arith
jobs_in-le (none ∷ q) = omega (arith, jobs_in-le q)
jobs_in-le (some job ∷ q) = omega (arith, jobs_in-le q)

-- A round of a worker that finds a job.
worked_off :
    (c c' : Pool) (net : Network) (job : Job) (later : List (Option Job))
    → c.queue ≡ some job ∷ later
    → c.active ≢ 0
    → work c net ≡ some c'
    → (c'.queue ≡ later)
      × (c'.active ≡ c.active)
      × (c'.processed + c'.failed ≡ suc (c.processed + c.failed))
unfolding work
worked_off c c' net job later q a e = serve_lem (record c { queue = later }) c' net (ground arith)

drained_lem :
    (c drained : Pool) (nets : List Network) (q : List (Option Job))
    → c.queue ≡ q
    → c.active ≢ 0
    → jobs_in q ≡ length q
    → length nets ≡ length q
    → work_all c nets ≡ some drained
    → (drained.queue ≡ [])
      × (drained.processed + drained.failed ≡ c.processed + c.failed + length q)
unfolding work_all jobs_in
drained_lem c drained [] [] e a j n w = ground arith
drained_lem c drained (net ∷ nets) [] e a j n w = absurd (omega arith)
drained_lem c drained [] (o ∷ q) e a j n w = absurd (omega arith)
drained_lem c drained (net ∷ nets) (none ∷ q) e a j n w = absurd (omega (arith, jobs_in-le q))
drained_lem c drained (net ∷ nets) (some job ∷ q) e a j n w = elim (Option-cases (work c net)) [
  | inl fault ↦ ground arith
  | inr (c', worked) ↦
      let (left, there, counted) = worked_off c c' net job q e a worked in
      let rest : work_all c' nets ≡ some drained = ground arith in
      let (empty, all) =
        drained_lem c' drained nets q left (λ z. a (sym there ∙ z)) (omega arith) (omega arith)
          rest in
      (empty, omega (arith, all, counted))
]

-- After `Close`, as many rounds as the queue holds serve every job, when a worker is there, no nil
-- job is in the queue, and no push faults.
pub close-drains :
    (c drained : Pool) (nets : List Network)
    → c.active ≢ 0
    → jobs_in c.queue ≡ length c.queue
    → length nets ≡ length c.queue
    → work_all (close c) nets ≡ some drained
    → (drained.queue ≡ [])
      × (drained.processed + drained.failed ≡ c.processed + c.failed + length c.queue)
unfolding close
close-drains c drained nets a j n w = elim (Bool-cases c.running) [
  | inl runs ↦
      drained_lem (record c { running = false; closed = true }) drained nets c.queue refl a j n
        (ground arith)
  | inr stopped ↦ drained_lem c drained nets c.queue refl a j n (ground arith)
]
