-- ===== src/Push/Client/Backoff.antt =====
-- The delay before a retry.
use native.Mathlib.Decide.{ℕ_discrete}
use go_oam.Base.{
  ℕ, zero, suc, ◌+◌, ◌-◌, ◌*◌, ◌/◌, ◌%◌, ◌^◌, ◌≤◌, ◌<◌, ◌≡◌, refl, false, none, some, arith, leb,
  ltb, ◌==◌, if◌then◌else◌, min,
}
use go_oam.Push.Client.{calculate_backoff, default_init_delay, default_max_delay}

pub one_le_pow : (k : ℕ) → 1 ≤ 2 ^ k
one_le_pow zero = omega arith
one_le_pow (suc k) = omega (arith, one_le_pow k)

pub pow_le : (k m : ℕ) → k ≤ m → 2 ^ k ≤ 2 ^ m
pow_le zero m h = one_le_pow m
pow_le (suc k) zero h = absurd (omega arith)
pow_le (suc k) (suc m) h = omega (arith, pow_le k m (omega arith))

-- The delay of a product that does not wrap.
within_lem :
    (random : ℕ → ℕ) (product : ℕ)
    → ((n : ℕ) → 0 < n → random n < n)
    → 2 ≤ product
    → product < 2 ^ 63
    → (let wrapped = product % 2 ^ 64 in
        let delay = if ltb default_max_delay wrapped then default_max_delay else wrapped in
        (d : ℕ) × ((if leb (2 ^ 63) wrapped
            then none
            else (if delay / 2 == 0 then none else some (delay + random (delay / 2) / 2)))
          ≡ some d)
        × (min default_max_delay product ≤ d)
        × (4 * d < 5 * min default_max_delay product))
within_lem random product r l h =
    let same : product % 2 ^ 64 ≡ product = omega arith in
    let delay = min default_max_delay product in
    let capped : (if ltb default_max_delay product then default_max_delay else product) ≡ delay =
      ground arith in
    let halved : delay / 2 == 0 ≡ false = ground arith in
    let jitter = r (delay / 2) (omega arith) in
    let room : leb (2 ^ 63) product ≡ false = ground arith in
    (
      delay + random (delay / 2) / 2,
      rw (same, room, capped, halved) refl,
      omega arith,
      omega (arith, jitter),
    )

-- Before attempt 1 to 37 the delay does not fault: the initial delay doubled for each attempt
-- before, or the greatest delay if this is less, and less than a quarter of it on top.
pub calculate_backoff_lem :
    (random : ℕ → ℕ) (attempt : ℕ)
    → ((n : ℕ) → 0 < n → random n < n)
    → 1 ≤ attempt
    → attempt ≤ 37
    → (d : ℕ) × (calculate_backoff random attempt ≡ some d)
      × (min default_max_delay (default_init_delay * 2 ^ (attempt - 1)) ≤ d)
      × (4 * d < 5 * min default_max_delay (default_init_delay * 2 ^ (attempt - 1)))
unfolding calculate_backoff
calculate_backoff_lem random attempt r l h =
    within_lem random (default_init_delay * 2 ^ (attempt - 1)) r
      (omega (arith, one_le_pow (attempt - 1)))
      (omega (arith, pow_le (attempt - 1) 36 (omega arith)))

pow-mod : (n : ℕ) → 56 ≤ n → 2 ^ n % 2 ^ 56 ≡ 0
pow-mod zero h = absurd (omega arith)
pow-mod (suc n) h = elim (ℕ_discrete n 55) [
  | yes at ↦ rw at refl
  | no past ↦ omega (arith, pow-mod n (omega arith))
]

-- From attempt 57 on the delay wraps to nothing, and the jitter is drawn from an empty range: the
-- computation of the delay panics.
pub calculate_backoff-wraps :
    (random : ℕ → ℕ) (attempt : ℕ) → 57 ≤ attempt → calculate_backoff random attempt ≡ none
unfolding calculate_backoff
calculate_backoff-wraps random attempt h =
    let wrapped : default_init_delay * 2 ^ (attempt - 1) % 2 ^ 64 ≡ 0 =
      omega (arith, pow-mod (attempt - 1) (omega arith)) in
    rw wrapped refl
