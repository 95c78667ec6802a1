-- ===== src/Fetch/Async.antt =====
-- pkg/fetch/async.go: the queue of requests, its workers and its close. What runs between two points
-- at which another goroutine can come in is one step. What a request comes to is an argument.
pub mod Drained
mod Tests
use go_oam.Base.{
  ℕ, zero, suc, ◌+◌, ◌-◌, Bool, true, false, not, ◌&&◌, Option, none, some, List, [], ◌∷◌, ◌++◌,
  ltb, ◌==◌, if◌then◌else◌, length, ℤ, pos, negsuc,
}

-- Where the `AsyncClose` is that closes the queue: not called, waiting for that many workers, and back.
pub data Closer : Type 0 where
  nobody : Closer
  waiting : ℕ → Closer
  back : Closer

-- What a call comes to: an error or none, or a panic.
pub data Pushed {κ} (E : Type κ) : Type κ where
  sent : Pushed E
  push_fallback : E → Pushed E
  panics : Pushed E

-- `started` says that `initOnce` has run, so that `pushQueue` is there; `close_used` that `closeOnce`
-- has, `closed` that the queue is closed. Workers wait, have a request out, or have left, and `signals`
-- is what `doneCh` holds. `accepted` are the jobs that were ever put into the queue, `taken` those that
-- a worker has taken, each in order, and `direct` those that were sent by the caller.
pub record Pool (J : Type 0) : Type 0 where
  pub started : Bool
  pub close_used : Bool
  pub closed : Bool
  pub worker_ct : ℕ
  pub queue_sz : ℕ
  pub queue : List J
  pub idle : ℕ
  pub posting : ℕ
  pub exited : ℕ
  pub signals : ℕ
  pub closer : Closer
  pub accepted : List J
  pub taken : List J
  pub direct : List J

abbrev pub positive_or : ℤ → ℕ → ℕ
positive_or (pos zero) default = default
positive_or (pos (suc n)) default = suc n
positive_or (negsuc n) default = default

module _ {J : Type 0} where
  -- The package before any call.
  unfoldable pub new_pool : Pool J
  new_pool = record {
    started = false;
    close_used = false;
    closed = false;
    worker_ct = 2;
    queue_sz = 500;
    queue = [];
    idle = 0;
    posting = 0;
    exited = 0;
    signals = 0;
    closer = nobody;
    accepted = [];
    taken = [];
    direct = [];
  }

  -- `startWorkers`
  unfoldable pub start_workers : Pool J → Pool J
  start_workers p = record p { idle = p.worker_ct }

  unfoldable pub async_init : Pool J → ℤ → ℤ → Pool J
  unfolding start_workers
  async_init p worker_count queue_size =
      if p.started
      then p
      else start_workers (record p {
        started = true;
        worker_ct = positive_or worker_count p.worker_ct;
        queue_sz = positive_or queue_size p.queue_sz;
      })

  -- `AsyncPush`: the queue is made on first use, a send on a closed channel panics, and a job that finds
  -- no room is sent by the caller, whose request comes to `result`.
  unfoldable pub async_push {κ} : {E : Type κ} → Pool J → J → Option E → Pushed E × Pool J
  unfolding async_init
  async_push p job result =
      let p' = async_init p (pos 0) (pos 0) in
      if p'.closed
      then (panics, p')
      else (if ltb (length p'.queue) p'.queue_sz
          then (
            sent,
            record p' { queue = p'.queue ++ job ∷ []; accepted = p'.accepted ++ job ∷ [] },
          )
          else (
            elim result [ none ↦ sent | some e ↦ push_fallback e ],
            record p' { direct = p'.direct ++ job ∷ [] },
          ))

  -- The rounds of a worker: it takes a job, its request ends, and it leaves a closed queue that is
  -- empty.
  unfoldable pub worker_takes : Pool J → Pool J
  worker_takes p = elim p.queue [
    | [] ↦ p
    | job ∷ later ↦
        if ltb 0 p.idle
        then record p {
          queue = later;
          taken = p.taken ++ job ∷ [];
          idle = p.idle - 1;
          posting = suc p.posting;
        }
        else p
  ]

  unfoldable pub worker_posts : Pool J → Pool J
  worker_posts p =
      if ltb 0 p.posting then record p { posting = p.posting - 1; idle = suc p.idle } else p

  unfoldable pub worker_leaves : Pool J → Pool J
  worker_leaves p =
      if ltb 0 p.idle && p.closed && (length p.queue == 0)
      then record p { idle = p.idle - 1; exited = suc p.exited; signals = suc p.signals }
      else p

  -- `AsyncClose` up to its loop, and a round of the loop.
  unfoldable pub async_close : Pool J → Pool J
  async_close p =
      if p.close_used
      then p
      else (if p.started
          then record p { close_used = true; closed = true; closer = waiting p.worker_ct }
          else record p { close_used = true })

  unfoldable pub close_receives : Pool J → Pool J
  close_receives p = elim p.closer [
    | nobody ↦ p
    | back ↦ p
    | waiting n ↦ elim n [
      | zero ↦ record p { closer = back }
      | suc rest ↦
          if ltb 0 p.signals then record p { signals = p.signals - 1; closer = waiting rest } else p
    ]
  ]
