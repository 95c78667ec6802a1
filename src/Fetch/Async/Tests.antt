-- ===== src/Fetch/Async/Tests.antt =====
-- A pool of one worker and room for one job.
use go_oam.Base.{ℕ, ◌≡◌, refl, none, some, List, [], ◌∷◌, length, pos}
use go_oam.Fetch.Async.{
  new_pool, async_init, start_workers, async_push, worker_takes, worker_posts, worker_leaves,
  async_close, close_receives,
}
use go_oam.Fetch.Async.Drained.{
  Event, inits, pushes, takes, posts, leaves, closes, receives, step, run, run-is_back,
}

-- The second job is sent by its caller, and the third waits until the first is done.
abbrev busy : List (Event ℕ ℕ)
busy =
    inits (pos 1) (pos 1)
    ∷ pushes 7 none
    ∷ pushes 8 (some 5)
    ∷ takes
    ∷ pushes 9 none
    ∷ closes
    ∷ posts
    ∷ takes
    ∷ posts
    ∷ leaves
    ∷ receives
    ∷ receives
    ∷ []

sent_directly : (run new_pool busy).direct ≡ 8 ∷ []
unfolding run step new_pool async_init start_workers async_push worker_takes worker_posts
    worker_leaves async_close close_receives
sent_directly = refl

run-is_back_example :
    ((run new_pool busy).taken ≡ (run new_pool busy).accepted)
    × (length (run new_pool busy).queue ≡ 0)
    × ((run new_pool busy).posting ≡ 0)
    × ((run new_pool busy).idle ≡ 0)
unfolding run step new_pool async_init start_workers async_push worker_takes worker_posts
    worker_leaves async_close close_receives
run-is_back_example = run-is_back busy refl
