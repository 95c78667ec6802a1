-- ===== src/Push/Pool.antt =====
-- push/client/client.go: the queue of the asynchronous pushes and the workers that serve it. The
-- channel is a list; a worker's round, from the receive to the count of its result, is one step.
pub mod Jobs
pub mod Batch
mod Tests
use go_oam.Base.{
  ℕ, suc, ◌+◌, ◌-◌, Bool, true, false, not, ◌||◌, Option, none, some, List, [], ◌∷◌, ◌++◌, ltb,
  ◌==◌, if◌then◌else◌, length, replicate, Key, ℤ, pos, negsuc,
}
use go_oam.Push.Client.{Network, PushError, do_push_with_retry}

pub record Job : Type 0 where
  pub url : Key
  pub payload : Key
  pub timeout : ℤ

-- `queue` is what the channel holds, a nil job as `none`; `closed` says that the channel is closed.
-- `workers` is the number asked for, `active` that of the goroutines.
pub record Pool : Type 0 where
  pub base_url : Key
  pub timeout : ℤ
  pub retry : ℤ
  pub queue_size : ℕ
  pub workers : ℕ
  pub queue : List (Option Job)
  pub closed : Bool
  pub running : Bool
  pub active : ℕ
  pub processed : ℕ
  pub failed : ℕ

unfoldable pub with_base_url : Key → Pool → Pool
with_base_url url c = record c { base_url = url }

unfoldable pub with_timeout : ℤ → Pool → Pool
with_timeout d c = record c { timeout = d }

unfoldable pub with_retry : ℤ → Pool → Pool
with_retry n c = record c { retry = n }

unfoldable pub with_workers : ℤ → Pool → Pool
with_workers (negsuc n) c = c
with_workers (pos n) c = if n == 0 then c else record c { workers = n }

unfoldable pub with_queue_size : ℤ → Pool → Pool
with_queue_size (negsuc n) c = c
with_queue_size (pos n) c = if n == 0 then c else record c { queue_size = n }

unfoldable pub with_async_queue : ℤ → ℤ → Pool → Pool
unfolding with_workers with_queue_size
with_async_queue workers queue_size c = with_queue_size queue_size (with_workers workers c)

abbrev pub apply_all : List (Pool → Pool) → Pool → Pool
apply_all [] c = c
apply_all (opt ∷ opts) c = apply_all opts (opt c)

-- `cpus` is `runtime.NumCPU()`. Each worker starts at once.
unfoldable pub new_pool : ℕ → List (Pool → Pool) → Pool
new_pool cpus opts =
    let c = apply_all opts (record {
      base_url = [];
      timeout = pos 60000000000;
      retry = pos 0;
      queue_size = 4096;
      workers = cpus;
      queue = [];
      closed = false;
      running = false;
      active = 0;
      processed = 0;
      failed = 0;
    }) in
    record c { running = true; active = c.workers }

abbrev pub timeout_or : ℤ → ℤ → ℤ
timeout_or (negsuc n) d = d
timeout_or (pos n) d = if n == 0 then d else pos n

-- What an asynchronous push comes to: the job is queued, or it is pushed at once and the result
-- returned. `none` is a panic: of a send on a closed channel, or of the push.
unfoldable pub async_push_timeout :
    Pool → Network → Key → Key → ℤ → Option (Option PushError × Pool)
async_push_timeout c net url payload timeout =
    let job : Job = record {
      url = url;
      payload = payload;
      timeout = timeout_or timeout c.timeout;
    } in
    if c.closed
    then none
    else (if ltb (length c.queue) c.queue_size
        then some (none, record c { queue = c.queue ++ some job ∷ [] })
        else elim (do_push_with_retry net (pos 0)) [ none ↦ none | some r ↦ some (r.0, c) ])

-- A round of a worker that has received a job.
unfoldable pub serve : Pool → Network → Option Pool
serve c net = elim (do_push_with_retry net (pos 0)) [
  | none ↦ none
  | some r ↦ some (elim r.0 [
    | none ↦ record c { processed = suc c.processed }
    | some err ↦ record c { failed = suc c.failed }
  ])
]

-- A receive of a worker; it leaves on a nil job, and on an empty channel that is closed. On an empty
-- channel that is open, and without a worker, nothing happens.
unfoldable pub work : Pool → Network → Option Pool
unfolding serve
work c net = if c.active == 0 then some c else elim c.queue [
  | [] ↦ some (if c.closed then record c { active = c.active - 1 } else c)
  | none ∷ later ↦ some (record c { queue = later; active = c.active - 1 })
  | some job ∷ later ↦ serve (record c { queue = later }) net
]

-- `Close` up to the wait for the workers.
unfoldable pub close : Pool → Pool
close c = if c.running then record c { running = false; closed = true } else c

-- The nil jobs are sent at once when there is room for them; `none` is a panic on a closed channel.
unfoldable pub set_workers : Pool → ℤ → Option Pool
set_workers c (negsuc n) = some c
set_workers c (pos n) =
    if (n == 0) || (n == c.workers)
    then some c
    else (if ltb c.workers n
        then some (record c { workers = n; active = c.active + (n - c.workers) })
        else (if c.closed
            then none
            else some
                (record c { workers = n; queue = c.queue ++ replicate (c.workers - n) none })))

pub record PoolStats : Type 0 where
  pub active_workers : ℕ
  pub queue_length : ℕ
  pub total_processed : ℕ
  pub failed_count : ℕ

unfoldable pub stats : Pool → PoolStats
stats c = record {
  active_workers = c.active;
  queue_length = length c.queue;
  total_processed = c.processed;
  failed_count = c.failed;
}
