-- ===== src/Push/Pool/Batch.antt =====
-- push/client/client.go: `PushTimeout`, `AsyncPush`, `BatchPush` and `HealthCheck`. The goroutines of a
-- batch are taken in the order in which they reach the queue; a network is given for each payload.
use go_oam.Base.{
  ℕ, suc, ◌+◌, ◌≤◌, ◌≡◌, inl, inr, Bool, true, false, Option, none, some, List, [], ◌∷◌, ◌++◌, map,
  arith, ◌==◌, if◌then◌else◌, length, length-append, Option-cases, Key, ℤ,
}
use mathlib.Core.List.{append-nil, append_assoc}
use go_oam.Push.Client.{Network, PushError, do_push_with_retry}
use go_oam.Push.Pool.{Job, Pool, async_push_timeout, timeout_or}

unfoldable pub push_timeout : Pool → Network → ℤ → Option (Option PushError × ℕ)
push_timeout c net timeout = do_push_with_retry net c.retry

unfoldable pub async_push : Pool → Network → Key → Key → Option (Option PushError × Pool)
unfolding async_push_timeout
async_push c net url payload = async_push_timeout c net url payload c.timeout

-- `errCount`, `successCount` and `firstErr`.
pub record Tally : Type 0 where
  pub failures : ℕ
  pub successes : ℕ
  pub first : Option PushError

abbrev pub tallied : Option PushError → Tally → Tally
tallied none t = record t { successes = suc t.successes }
tallied (some err) t = record {
  failures = suc t.failures;
  successes = t.successes;
  first = elim t.first [ none ↦ some err | some e ↦ some e ];
}

unfoldable pub batch_each : Pool → (Key → Network) → Key → List Key → Tally → Option (Tally × Pool)
unfolding async_push
batch_each c net url [] t = some (t, c)
batch_each c net url (payload ∷ payloads) t = elim (async_push c (net payload) url payload) [
  | none ↦ none
  | some r ↦ batch_each r.1 net url payloads (tallied r.0 t)
]

-- The tally is the error of a batch.
unfoldable pub batch_push : Pool → (Key → Network) → Key → List Key → Option (Option Tally × Pool)
unfolding batch_each
batch_push c net url payloads =
    elim (batch_each c net url payloads (record { failures = 0; successes = 0; first = none })) [
      | none ↦ none
      | some r ↦ some (if r.0.failures == 0 then none else some r.0, r.1)
    ]

-- The check of the queue takes a job from the front and sends it again. `none` is the error of a
-- client that does not run; on a closed channel the send panics, which is the outer `none`.
unfoldable pub health_check : Pool → Option (Bool × Pool)
health_check c =
    if c.running
    then elim c.queue [
      | [] ↦ if c.closed then none else some (true, c)
      | job ∷ later ↦ if c.closed then none else some (true, record c { queue = later ++ job ∷ [] })
    ]
    else some (false, c)

abbrev pub jobs_of : Key → ℤ → List Key → List (Option Job)
jobs_of url timeout payloads =
    map (λ payload. some (record { url = url; payload = payload; timeout = timeout })) payloads

module _ (net : Key → Network) (url : Key) where
  batched :
      (c : Pool) (payloads : List Key) (t : Tally)
      → c.closed ≡ false
      → length c.queue + length payloads ≤ c.queue_size
      → batch_each c net url payloads t
        ≡ some (
          record t { successes = t.successes + length payloads },
          record c { queue = c.queue ++ jobs_of url (timeout_or c.timeout c.timeout) payloads },
        )
  unfolding batch_each async_push async_push_timeout
  batched c [] t o room = ground (arith, append-nil c.queue)
  batched c (payload ∷ payloads) t o room =
      let job : Job = record {
        url = url;
        payload = payload;
        timeout = timeout_or c.timeout c.timeout;
      } in
      let c₁ = record c { queue = c.queue ++ some job ∷ [] } in
      let later =
        batched c₁ payloads (tallied none t) o
          (omega (arith, length-append c.queue (some job ∷ []))) in
      ground (
        arith,
        later,
        append_assoc c.queue (some job ∷ [])
            (jobs_of url (timeout_or c.timeout c.timeout) payloads),
      )

  -- A batch that the queue of a client has room for returns no error, whatever the network: its jobs
  -- stand behind those that wait, and nothing more has happened.
  pub batch_push-queued :
      (c : Pool) (payloads : List Key)
      → c.closed ≡ false
      → length c.queue + length payloads ≤ c.queue_size
      → batch_push c net url payloads
        ≡ some (
          none,
          record c { queue = c.queue ++ jobs_of url (timeout_or c.timeout c.timeout) payloads },
        )
  unfolding batch_push
  batch_push-queued c payloads o room =
      ground
        (arith, batched c payloads (record { failures = 0; successes = 0; first = none }) o room)

  counted :
      (c c' : Pool) (payloads : List Key) (t t' : Tally)
      → batch_each c net url payloads t ≡ some (t', c')
      → (t'.failures + t'.successes ≡ t.failures + t.successes + length payloads)
  unfolding batch_each
  counted c c' [] t t' e = ground arith
  counted c c' (payload ∷ payloads) t t' e =
      elim (Option-cases (async_push c (net payload) url payload)) [
        | inl fault ↦ ground arith
        | inr ((none, c₁), queued) ↦ ground (arith, counted c₁ c' payloads (tallied none t) t')
        | inr ((some err, c₁), failed) ↦
            ground (arith, counted c₁ c' payloads (tallied (some err) t) t')
      ]

  -- The error of a batch counts each payload once, and at least one of them as a failure.
  pub batch_push_lem :
      (c c' : Pool) (payloads : List Key) (t : Tally)
      → batch_push c net url payloads ≡ some (some t, c')
      → (t.failures + t.successes ≡ length payloads) × (1 ≤ t.failures)
  unfolding batch_push
  batch_push_lem c c' payloads t e =
      elim (Option-cases
        (batch_each c net url payloads (record { failures = 0; successes = 0; first = none }))) [
          | inl fault ↦ ground arith
          | inr ((t', c₁), done_with) ↦ ground (
            arith,
            counted c c₁ payloads (record { failures = 0; successes = 0; first = none }) t'
                done_with,
          )
        ]

-- On a client that runs, a check of a queue that is not empty moves the first job behind the others.
pub health_check_lem :
    (c : Pool) (job : Option Job) (later : List (Option Job))
    → c.running ≡ true
    → c.closed ≡ false
    → c.queue ≡ job ∷ later
    → health_check c ≡ some (true, record c { queue = later ++ job ∷ [] })
unfolding health_check
health_check_lem c job later r o q = ground arith
