-- ===== src/Push/Client/Retry.antt =====
-- How many requests a push makes, and which of them decides.
use go_oam.Base.{
  ℕ, zero, suc, ◌+◌, ◌-◌, ◌≤◌, ◌<◌, ◌≡◌, ◌⊎◌, refl, ◌∙◌, inl, inr, true, false, Option, none, some,
  arith, if◌then◌else◌, Option-cases, ℤ,
}
use go_oam.Push.Client.{
  Failure, PushError, push_failed, Network, is_retryable, wait, attempts, no_failure, retries_of,
  do_push_with_retry,
}

attempts-bounds :
    (net : Network) (retry left attempt : ℕ) (last_err : Failure) (calls : ℕ)
    (r : Option PushError × ℕ)
    → attempts net retry left attempt last_err calls ≡ some r
    → (calls ≤ r.1) × (r.1 ≤ calls + left)
unfolding attempts
attempts-bounds net retry zero attempt last_err calls r e = ground arith
attempts-bounds net retry (suc left) attempt last_err calls r e =
    elim (Option-cases (wait net attempt)) [
      | inl fault ↦ ground arith
      | inr (w, waited) ↦ elim (Option-cases (net.do_push attempt)) [
        | inl ok ↦ ground arith
        | inr (err, failed) ↦
            ground (arith, attempts-bounds net retry left (suc attempt) err (suc calls) r)
      ]
    ]

-- A push that does not fault makes one request at least, and no more than one and the retries; a
-- negative number of retries counts as none.
pub do_push_with_retry_bounds :
    (net : Network) (retry : ℤ) (r : Option PushError × ℕ)
    → do_push_with_retry net retry ≡ some r
    → (1 ≤ r.1) × (r.1 ≤ suc (retries_of retry))
unfolding do_push_with_retry attempts wait
do_push_with_retry_bounds net retry r e =
    let again =
      λ (err : Failure). attempts-bounds net (retries_of retry) (retries_of retry) 1 err 1 r in
    elim (Option-cases (net.do_push 0)) [
      | inl ok ↦ ground arith
      | inr (err, failed) ↦ ground (arith, again err)
    ]

-- The rounds before the one that decides: each request fails in a way that allows a retry, and no
-- context ends and no delay faults up to the round `last`.
pub record IsRetried (net : Network) (last : ℕ) : Type 0 where
  pub fails :
      (k : ℕ) → k < last → (err : Failure) × (net.do_push k ≡ some err) × (is_retryable err ≡ true)
  pub waits : (k : ℕ) → k ≤ last → wait net k ≡ some none

-- A round whose delay passes, by what its request returns.
round-succeeds :
    (net : Network) (retry left attempt : ℕ) (last_err : Failure) (calls : ℕ)
    → wait net attempt ≡ some none
    → net.do_push attempt ≡ none
    → attempts net retry (suc left) attempt last_err calls ≡ some (none, suc calls)
unfolding attempts wait
round-succeeds net retry left attempt last_err calls w ok = ground arith

round-fails :
    (net : Network) (retry left attempt : ℕ) (last_err err : Failure) (calls : ℕ)
    → wait net attempt ≡ some none
    → net.do_push attempt ≡ some err
    → attempts net retry (suc left) attempt last_err calls ≡ (
        if is_retryable err
        then attempts net retry left (suc attempt) err (suc calls)
        else some (some (push_failed retry err), suc calls))
unfolding attempts wait
round-fails net retry left attempt last_err err calls w failed = ground arith

-- The round `last` decides, whatever failed before.
decided_at :
    (net : Network) (retry last left more total attempt : ℕ) (res : Option PushError)
    → IsRetried net last
    → last ≡ attempt + more
    → total ≡ more + suc left
    → ((err : Failure) (calls : ℕ)
        → attempts net retry (suc left) last err calls ≡ some (res, suc calls))
    → (err : Failure) (calls made : ℕ) → made ≡ suc calls + more
    → attempts net retry total attempt err calls ≡ some (res, made)
unfolding attempts
decided_at net retry last left zero total attempt res v at size d err calls made n =
    let here : attempt ≡ last = omega arith in
    let there : total ≡ suc left = omega arith in
    let count : made ≡ suc calls = omega arith in rw (here, there, count) (d err calls)
decided_at net retry last left (suc more) zero attempt res v at size d err calls made n =
    absurd (omega arith)
decided_at net retry last left (suc more) (suc total) attempt res v at size d err calls made n =
    let (err', failed, again) = v.fails attempt (omega arith) in
    let waited = v.waits attempt (omega arith) in
    round-fails net retry total attempt err err' calls waited failed
    ∙ rw again (
        decided_at net retry last left more total (suc attempt) res v (omega arith) (omega arith) d
          err' (suc calls) made (omega arith))

-- A push returns no error when a request succeeds, no later than the last retry, behind requests
-- that all fail in a way that allows a retry, and it makes no request after it.
pub push-succeeds :
    (net : Network) (retry : ℤ) (last : ℕ)
    → last ≤ retries_of retry
    → IsRetried net last
    → net.do_push last ≡ none
    → do_push_with_retry net retry ≡ some (none, suc last)
unfolding do_push_with_retry attempts
push-succeeds net retry last l v ok =
    decided_at net (retries_of retry) last (retries_of retry - last) last (suc (retries_of retry)) 0
      none v (omega arith) (omega arith)
      (λ err calls. round-succeeds net _ _ last err calls (v.waits last (omega arith)) ok)
      no_failure 0 (suc last) (omega arith)

-- A push returns the error of a request, and makes no request after it, when that error allows no
-- retry or no retry is left, behind requests that all fail in a way that allows one.
pub push-fails :
    (net : Network) (retry : ℤ) (last : ℕ) (err : Failure)
    → last ≤ retries_of retry
    → IsRetried net last
    → net.do_push last ≡ some err
    → (is_retryable err ≡ false) ⊎ (last ≡ retries_of retry)
    → do_push_with_retry net retry ≡ some (some (push_failed (retries_of retry) err), suc last)
unfolding do_push_with_retry attempts
push-fails net retry last err l v failed ends =
    decided_at net (retries_of retry) last (retries_of retry - last) last (suc (retries_of retry)) 0
      (some (push_failed (retries_of retry) err)) v (omega arith) (omega arith)
      (λ err' calls.
        round-fails net _ _ last err' err calls (v.waits last (omega arith)) failed
        ∙ gives_up ends (suc calls))
      no_failure 0 (suc last) (omega arith)
  where
    none_left : last ≡ retries_of retry → retries_of retry - last ≡ 0
    none_left e = omega arith

    gives_up :
        (is_retryable err ≡ false) ⊎ (last ≡ retries_of retry)
        → (made : ℕ)
        → (if is_retryable err
            then attempts net (retries_of retry) (retries_of retry - last) (suc last) err made
            else some (some (push_failed (retries_of retry) err), made))
          ≡ some (some (push_failed (retries_of retry) err), made)
    gives_up (inl final) made = rw final refl
    gives_up (inr e) made = ground (arith, none_left e)
