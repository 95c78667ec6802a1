-- ===== src/Base/Index.antt =====
-- Indices that go round at `n`.
use Prim.Native.Nat.{ℕ, ◌+◌, ◌-◌, ◌%◌, ◌≤◌, ◌<◌}
use mathlib.Core.Path.{◌≡◌, ap, ◌∙◌}
use mathlib.Core.Logic.{◌⊎◌, inl, inr}
use native.Mathlib.Decide.{dec_lt}
use native.Mathlib.Nat.{
  mod-eq_of_lt, mod-eq-sub-mod, mod-add-mod, mod-mod, add-mod_right, add-mod_left,
}
use native.Mathlib.Omega.{arith}

-- Below two rounds the remainder is the number, or the number less one round.
pub mod_cases : (a n : ℕ) → a < n + n → ((a < n) × (a % n ≡ a)) ⊎ ((n ≤ a) × (a % n ≡ a - n))
mod_cases a n h = elim (dec_lt a n) [
  | yes p ↦ inl (p, mod-eq_of_lt p)
  | no p ↦ inr (
    omega arith,
    omega (
      arith,
      mod-eq-sub-mod {n = a} {m = n} (omega arith),
      mod-eq_of_lt {n = a - n} {m = n} (omega arith),
    ),
  )
]

-- One step on from a remainder is the remainder one step on.
pub mod_step :
    (size head tail count : ℕ)
    → tail ≡ (head + count) % size
    → (tail + 1) % size ≡ (head + (count + 1)) % size
mod_step size head tail count e = rw (e, mod-add-mod) (ap (λ k. k % size) (omega arith))

-- So it is where both ends of a full round move.
pub mod_step_round :
    (size head tail : ℕ)
    → tail ≡ (head + size) % size
    → (tail + 1) % size ≡ ((head + 1) % size + size) % size
mod_step_round size head tail e =
    rw (e, add-mod_right head size, mod-add-mod, add-mod_right ((head + 1) % size) size, mod-mod)

-- A whole round more is the same place.
pub mod_add_round : (a size i : ℕ) → (a + size + i) % size ≡ (a + i) % size
mod_add_round a size i = ap (λ k. k % size) rearrange ∙ add-mod_left size (a + i)
  where
    rearrange : a + size + i ≡ size + (a + i)
    rearrange = omega arith
