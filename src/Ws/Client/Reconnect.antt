-- ===== src/Ws/Client/Reconnect.antt =====
-- How a client reconnects.
use native.Mathlib.Decide.{ℕ_discrete}
use go_oam.Base.{
  ℕ, zero, suc, ◌+◌, ◌*◌, ◌/◌, ◌%◌, ◌^◌, ◌≤◌, ◌<◌, ◌≡◌, refl, sym, ap, ◌∙◌, Bool, true, false,
  Option, none, some, arith, leb, ltb, ◌==◌, if◌then◌else◌, min, Key, pos, is_some, inl, inr,
  Option-cases,
}
use go_oam.Push.Client.Backoff.{pow_le, one_le_pow}
use go_oam.Ws.Client.{
  state_connected, state_reconnecting, state_failed, Client, connection_lost, reconnect_delay,
  connect, close_conn, tell_state, tell_error, attempts, reconnect,
}

-- Before one of the first 35 attempts the client waits at least half of the delay and less than all
-- of it, where the delay is half a second doubled for each attempt before, or a minute if this is
-- less.
pub reconnect_delay_lem :
    (random : ℕ → ℕ) (attempt : ℕ)
    → ((n : ℕ) → 0 < n → random n < n)
    → attempt ≤ 34
    → (d : ℕ) × (reconnect_delay random attempt ≡ some d)
      × (min 60000000000 (500000000 * 2 ^ attempt) / 2 ≤ d)
      × (d < min 60000000000 (500000000 * 2 ^ attempt))
unfolding reconnect_delay
reconnect_delay_lem random attempt r h =
    let product = 500000000 * 2 ^ attempt in
    let least = one_le_pow attempt in
    let most = pow_le attempt 34 h in
    let same : product % 2 ^ 64 ≡ product = omega (arith, most) in
    let delay = min 60000000000 product in
    let capped : (if ltb 60000000000 product then 60000000000 else product) ≡ delay =
      ground arith in
    let halved : delay / 2 == 0 ≡ false = ground (arith, least) in
    let jitter = r (delay / 2) (omega (arith, least)) in
    let room : leb (2 ^ 63) product ≡ false = ground (arith, most) in
    (
      delay / 2 + random (delay / 2),
      rw (same, room, capped, halved) refl,
      omega arith,
      omega (arith, jitter),
    )

overflow : (random : ℕ → ℕ) → reconnect_delay random 35 ≡ none
unfolding reconnect_delay
overflow random = refl

module _ {E : Type 0} (random : ℕ → ℕ) (dials : ℕ → Option E) (ids : ℕ → Key)
    (stops : ℕ → Bool) where
  round-fails :
      (c : Client E) (left attempt d : ℕ) (e : E)
      → c.ctx_done ≡ false
      → reconnect_delay random attempt ≡ some d
      → stops attempt ≡ false
      → dials attempt ≡ some e
      → (c' : Client E) × (c'.ctx_done ≡ false)
        × (attempts random dials ids stops c (suc left) attempt
            ≡ attempts random dials ids stops c' left (suc attempt))
  unfolding attempts connect tell_state
  round-fails c left attempt d e open_now w s f =
      let again = tell_state (record c { state = state_reconnecting }) state_reconnecting in
      (
        record (connect again (dials attempt) (ids attempt)).1 { state = state_failed },
        ground arith,
        ground arith,
      )

  round-succeeds :
      (c : Client E) (left attempt d : ℕ)
      → c.ctx_done ≡ false
      → reconnect_delay random attempt ≡ some d
      → stops attempt ≡ false
      → dials attempt ≡ none
      → (c' : Client E) × (attempts random dials ids stops c (suc left) attempt ≡ some c')
        × (c'.state ≡ state_connected)
        × (c'.conn ≡ some (ids attempt))
  unfolding attempts connect tell_state close_conn
  round-succeeds c left attempt d open_now w s f =
      let again = tell_state (record c { state = state_reconnecting }) state_reconnecting in
      ((connect again (dials attempt) (ids attempt)).1, ground arith, ground arith, ground arith)

  -- No attempt is broken off, and `random` is as documented.
  pub record IsLeftAlone : Type 0 where
    pub draws : (n : ℕ) → 0 < n → random n < n
    pub goes_on : (k : ℕ) → stops k ≡ false

  connects_at :
      (c : Client E) (left attempt more : ℕ)
      → IsLeftAlone
      → c.ctx_done ≡ false
      → attempt + more ≤ 34
      → more < left
      → ((j : ℕ) → j < attempt + more → is_some (dials j) ≡ true)
      → dials (attempt + more) ≡ none
      → (c' : Client E) × (attempts random dials ids stops c left attempt ≡ some c')
        × (c'.state ≡ state_connected)
        × (c'.conn ≡ some (ids (attempt + more)))
  connects_at c zero attempt more v o h l fails ok = absurd (omega (arith, l))
  connects_at c (suc left) attempt zero v o h l fails ok =
      let (d, waited, low, high) = reconnect_delay_lem random attempt v.draws (omega (arith, h)) in
      let same : attempt + 0 ≡ attempt = omega arith in
      rw same
        (round-succeeds c left attempt d o waited (v.goes_on attempt) (ap dials (sym same) ∙ ok))
  connects_at c (suc left) attempt (suc more) v o h l fails ok =
      let (d, waited, low, high) = reconnect_delay_lem random attempt v.draws (omega (arith, h)) in
      let shift : attempt + suc more ≡ suc attempt + more = omega arith in
      elim (Option-cases (dials attempt)) [
        | inl got ↦ absurd (ground (arith, fails attempt (omega arith)))
        | inr (e, failed) ↦
            let (c₁, o₁, next) =
              round-fails c left attempt d e o waited (v.goes_on attempt) failed in
            let (c', done_there, connected, held) =
              connects_at c₁ left (suc attempt) more v o₁ (omega (arith, h)) (omega (arith, l))
                (λ j below. fails j (omega (arith, below))) (ap dials (sym shift) ∙ ok) in
            (c', next ∙ done_there, connected, held ∙ ap (λ k. some (ids k)) (sym shift))
      ]

  started :
      (c : Client E) (n : ℕ)
      → c.max_attempts ≡ pos n
      → reconnect random dials ids stops c ≡ attempts random dials ids stops c n 0
  unfolding reconnect
  started c n m = ground arith

  -- A client whose context is open reconnects with the first dial that succeeds, where it may try as
  -- often and this is one of the first 35: it is connected by the connection of that dial.
  pub reconnect-succeeds :
      (c : Client E) (n k : ℕ)
      → IsLeftAlone
      → c.ctx_done ≡ false
      → c.max_attempts ≡ pos n
      → k < n
      → k ≤ 34
      → ((j : ℕ) → j < k → is_some (dials j) ≡ true)
      → dials k ≡ none
      → (c' : Client E) × (reconnect random dials ids stops c ≡ some c')
        × (c'.state ≡ state_connected)
        × (c'.conn ≡ some (ids k))
  reconnect-succeeds c n k v o m l h fails ok =
      let same : 0 + k ≡ k = omega arith in
      let (c', ended, connected, held) =
        connects_at c n 0 k v o (omega (arith, h)) l (λ j below. fails j (omega (arith, below)))
          (ap dials same ∙ ok) in
      (c', started c n m ∙ ended, connected, held ∙ ap (λ j. some (ids j)) same)

  gives_up :
      (c : Client E) (left attempt : ℕ)
      → IsLeftAlone
      → c.ctx_done ≡ false
      → attempt + left ≤ 35
      → ((j : ℕ) → is_some (dials j) ≡ true)
      → (c' : Client E) × (attempts random dials ids stops c left attempt
          ≡ some (tell_error (record c' { state = state_failed }) connection_lost))
  unfolding attempts
  gives_up c zero attempt v o h fails = (c, refl)
  gives_up c (suc left) attempt v o h fails =
      let (d, waited, low, high) = reconnect_delay_lem random attempt v.draws (omega (arith, h)) in
      elim (Option-cases (dials attempt)) [
        | inl got ↦ absurd (ground (arith, fails attempt))
        | inr (e, failed) ↦
            let (c₁, o₁, next) =
              round-fails c left attempt d e o waited (v.goes_on attempt) failed in
            let (c', ended) = gives_up c₁ left (suc attempt) v o₁ (omega (arith, h)) fails in
            (c', next ∙ ended)
      ]

  panics :
      (c : Client E) (left attempt : ℕ)
      → IsLeftAlone
      → c.ctx_done ≡ false
      → attempt ≤ 35
      → 36 ≤ attempt + left
      → ((j : ℕ) → is_some (dials j) ≡ true)
      → attempts random dials ids stops c left attempt ≡ none
  unfolding attempts
  panics c zero attempt v o h l fails = absurd (omega (arith, h, l))
  panics c (suc left) attempt v o h l fails = elim (ℕ_discrete attempt 35) [
    | yes last ↦
        let broken : reconnect_delay random attempt ≡ none =
          ap (reconnect_delay random) last ∙ overflow random in
        ground arith
    | no before ↦
        let (d, waited, low, high) =
          reconnect_delay_lem random attempt v.draws (omega (arith, h, before)) in
        elim (Option-cases (dials attempt)) [
          | inl got ↦ absurd (ground (arith, fails attempt))
          | inr (e, failed) ↦
              let (c₁, o₁, next) =
                round-fails c left attempt d e o waited (v.goes_on attempt) failed in
              next
              ∙ panics c₁ left (suc attempt) v o₁ (omega (arith, h, before)) (omega (arith, l))
                  fails
        ]
  ]

  -- With 36 attempts or more of which none succeeds, the delay before the last of the first 36 wraps
  -- to a negative number, and the goroutine panics.
  pub reconnect-panics :
      (c : Client E) (n : ℕ)
      → IsLeftAlone
      → c.ctx_done ≡ false
      → c.max_attempts ≡ pos n
      → 36 ≤ n
      → ((j : ℕ) → is_some (dials j) ≡ true)
      → reconnect random dials ids stops c ≡ none
  reconnect-panics c n v o m l fails =
      started c n m ∙ panics c n 0 v o (omega arith) (omega (arith, l)) fails
