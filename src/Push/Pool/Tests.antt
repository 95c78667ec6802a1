-- ===== src/Push/Pool/Tests.antt =====
-- A pool of one worker that takes a job, serves it and is closed.
use go_oam.Base.{ℕ, ◌+◌, ◌≡◌, refl, true, false, Option, none, some, List, [], ◌∷◌, arith, pos}
use go_oam.Push.Client.{Network, do_push_with_retry}
use go_oam.Push.Pool.{Pool, Job, new_pool, with_workers, with_queue_size, work, close}
use go_oam.Push.Pool.Jobs.{work_all, close-drains, jobs_in}

abbrev answering : Network
answering = record { random = λ n. 0; expired = λ k. none; do_push = λ k. none }

abbrev job : Job
job = record { url = []; payload = 7 ∷ []; timeout = pos 5 }

abbrev with_queue : List (Option Job) → ℕ → ℕ → Pool
with_queue queue workers processed = record {
  base_url = [];
  timeout = pos 60000000000;
  retry = pos 0;
  queue_size = 2;
  workers = workers;
  queue = queue;
  closed = false;
  running = true;
  active = 2;
  processed = processed;
  failed = 0;
}

made : new_pool 8 (with_workers (pos 2) ∷ with_queue_size (pos 2) ∷ []) ≡ with_queue [] 2 0
unfolding new_pool with_workers with_queue_size
made = refl

close-drains_example :
    ((record (with_queue [] 2 1) { closed = true; running = false }).queue ≡ [])
    × (1 + 0 ≡ 0 + 0 + 1)
unfolding do_push_with_retry work work_all close jobs_in
close-drains_example =
    close-drains (with_queue (some job ∷ []) 2 0)
      (record (with_queue [] 2 1) { closed = true; running = false }) (answering ∷ [])
      (ground arith) refl refl refl
