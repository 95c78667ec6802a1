-- ===== src/Push/Client.antt =====
-- push/client/client.go: a push with its retries. What the network does is an argument: the error of
-- each attempt, and whether the context ends before the delay of an attempt is over.
pub mod Backoff
pub mod Retry
mod Tests
use go_oam.Base.{
  ℕ, zero, suc, ◌+◌, ◌-◌, ◌*◌, ◌/◌, ◌%◌, ◌^◌, Bool, true, false, ◌&&◌, ◌||◌, not, Option, none,
  some, List, [], ◌∷◌, ltb, leb, ◌==◌, if◌then◌else◌, ◌>>=◌, Key, key_eq, ℤ, pos, negsuc, take,
  length,
}

-- In nanoseconds.
abbrev pub default_init_delay : ℕ
default_init_delay = 100000000

abbrev pub default_max_delay : ℕ
default_max_delay = 30000000000

-- What the code asks of an error: `errors.Is` for the two errors of a context, `errors.As` for a
-- status and for a time-out, and its message in lower case.
pub record Failure : Type 0 where
  pub canceled : Bool
  pub deadline_exceeded : Bool
  pub status : Option ℕ
  pub timed_out : Bool
  pub message : Key

abbrev pub has_prefix : Key → Key → Bool
has_prefix prefix s = key_eq (take (length prefix) s) prefix

-- `strings.Contains(s, part)`
unfoldable pub contains : Key → Key → Bool
contains [] part = has_prefix part []
contains (b ∷ s) part = has_prefix part (b ∷ s) || contains s part

-- `connection refused`, `connection reset`, `temporary failure`, `timeout`, `i/o timeout`
abbrev pub retryable_messages : List Key
retryable_messages =
    (99 ∷ 111 ∷ 110 ∷ 110 ∷ 101 ∷ 99 ∷ 116 ∷ 105 ∷ 111 ∷ 110 ∷ 32 ∷ 114 ∷ 101 ∷ 102 ∷ 117 ∷ 115
      ∷ 101 ∷ 100 ∷ [])
    ∷ (99 ∷ 111 ∷ 110 ∷ 110 ∷ 101 ∷ 99 ∷ 116 ∷ 105 ∷ 111 ∷ 110 ∷ 32 ∷ 114 ∷ 101 ∷ 115 ∷ 101 ∷ 116
        ∷ [])
    ∷ (116 ∷ 101 ∷ 109 ∷ 112 ∷ 111 ∷ 114 ∷ 97 ∷ 114 ∷ 121 ∷ 32 ∷ 102 ∷ 97 ∷ 105 ∷ 108 ∷ 117 ∷ 114
        ∷ 101 ∷ [])
    ∷ (116 ∷ 105 ∷ 109 ∷ 101 ∷ 111 ∷ 117 ∷ 116 ∷ [])
    ∷ (105 ∷ 47 ∷ 111 ∷ 32 ∷ 116 ∷ 105 ∷ 109 ∷ 101 ∷ 111 ∷ 117 ∷ 116 ∷ [])
    ∷ []

abbrev pub any_of : (Key → Bool) → List Key → Bool
any_of f [] = false
any_of f (k ∷ keys) = f k || any_of f keys

unfoldable pub is_retryable : Failure → Bool
is_retryable err = if err.canceled || err.deadline_exceeded then false else elim err.status [
  | some code ↦ (code == 429) || leb 500 code
  | none ↦ if err.timed_out then true else any_of (contains err.message) retryable_messages
]

-- `random n` is `rand.Int64N(n)`, which panics unless `n` is positive. The product wraps at 64 bits
-- and is read as a signed number.
unfoldable pub calculate_backoff : (ℕ → ℕ) → ℕ → Option ℕ
calculate_backoff random attempt =
    let product = default_init_delay * 2 ^ (attempt - 1) % 2 ^ 64 in
    let delay = if ltb default_max_delay product then default_max_delay else product in
    if leb (2 ^ 63) product
    then none
    else (if delay / 2 == 0 then none else some (delay + random (delay / 2) / 2))

pub data PushError : Type 0 where
  context_err : Failure → PushError
  push_failed : ℕ → Failure → PushError

-- What a push meets: the jitter, the error of the context if it ends in the delay before an attempt,
-- and the error of an attempt if it fails.
pub record Network : Type 0 where
  pub random : ℕ → ℕ
  pub expired : ℕ → Option Failure
  pub do_push : ℕ → Option Failure

-- The delay before an attempt; `none` is a panic, an error inside that of the context.
unfoldable pub wait : Network → ℕ → Option (Option Failure)
unfolding calculate_backoff
wait net attempt =
    if attempt == 0
    then some none
    else (do delay ← calculate_backoff net.random attempt; some (net.expired attempt))

-- The loop with `left` rounds to go, and the number of requests that it makes.
unfoldable pub attempts : Network → ℕ → ℕ → ℕ → Failure → ℕ → Option (Option PushError × ℕ)
unfolding wait is_retryable
attempts net retry zero attempt last_err calls = some (some (push_failed retry last_err), calls)
attempts net retry (suc left) attempt last_err calls = elim (wait net attempt) [
  | none ↦ none
  | some (some err) ↦ some (some (context_err err), calls)
  | some none ↦ elim (net.do_push attempt) [
    | none ↦ some (none, suc calls)
    | some err ↦
        let later = attempts net retry left (suc attempt) err (suc calls) in
        if is_retryable err then later else some (some (push_failed retry err), suc calls)
  ]
]

abbrev pub no_failure : Failure
no_failure = record {
  canceled = false;
  deadline_exceeded = false;
  status = none;
  timed_out = false;
  message = [];
}

-- A negative `retry` counts as 0.
abbrev pub retries_of : ℤ → ℕ
retries_of (pos n) = n
retries_of (negsuc n) = 0

unfoldable pub do_push_with_retry : Network → ℤ → Option (Option PushError × ℕ)
unfolding attempts
do_push_with_retry net retry =
    attempts net (retries_of retry) (suc (retries_of retry)) 0 no_failure 0
