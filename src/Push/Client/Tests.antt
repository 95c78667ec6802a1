-- ===== src/Push/Client/Tests.antt =====
-- A server that is overloaded twice, and one that refuses.
use go_oam.Base.{
  ℕ, zero, suc, ◌≤◌, ◌≡◌, refl, false, none, some, [], arith, ltb, if◌then◌else◌, pos,
}
use go_oam.Push.Client.{Failure, Network, is_retryable, wait, calculate_backoff, do_push_with_retry}
use go_oam.Push.Client.Retry.{IsRetried, push-succeeds}

abbrev http_error : ℕ → Failure
http_error code = record {
  canceled = false;
  deadline_exceeded = false;
  status = some code;
  timed_out = false;
  message = [];
}

-- 503 on the first two requests.
abbrev overloaded : Network
overloaded = record {
  random = λ n. 0;
  expired = λ k. none;
  do_push = λ k. if ltb k 2 then some (http_error 503) else none;
}

abbrev refusing : Network
refusing = record overloaded { do_push = λ k. some (http_error 404) }

overloaded-IsRetried : IsRetried overloaded 2
unfolding is_retryable wait calculate_backoff
overloaded-IsRetried = record { fails = λ k l. (http_error 503, ground arith, refl); waits = waits }
  where
    waits : (k : ℕ) → k ≤ 2 → wait overloaded k ≡ some none
    waits zero l = refl
    waits (suc zero) l = refl
    waits (suc (suc zero)) l = refl
    waits (suc (suc (suc k))) l = absurd (omega arith)

push-succeeds_example : do_push_with_retry overloaded (pos 5) ≡ some (none, 3)
push-succeeds_example = push-succeeds overloaded (pos 5) 2 (omega arith) overloaded-IsRetried refl

refusing-IsRetried : IsRetried refusing 0
unfolding wait
refusing-IsRetried = record { fails = λ k l. absurd (omega arith); waits = waits }
  where
    waits : (k : ℕ) → k ≤ 0 → wait refusing k ≡ some none
    waits zero l = refl
    waits (suc k) l = absurd (omega arith)
