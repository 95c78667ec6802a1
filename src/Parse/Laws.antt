-- ===== src/Parse/Laws.antt =====
-- What a mask hides, and which bits an address mask has.
use go_oam.Base.{
  ℕ, zero, suc, ◌+◌, ◌-◌, ◌^◌, ◌≤◌, ◌≡◌, refl, sym, inl, inr, Bool, true, ◌&&◌, List, ◌++◌, arith,
  ◌==◌, length, subst, length-append, length-take, length-drop, length-replicate, take, drop,
  replicate, Bool-cases,
}
use go_oam.Parse.{masked, safe_content, mask_of}

length-masked :
    (a b : ℕ) (runes : List ℕ) → a + b ≤ length runes → length (masked a b runes) ≡ length runes
length-masked a b runes h =
    let stars : List ℕ = replicate (length runes - (a + b)) 42 in
    let last = drop (length runes - b) runes in
    omega (
      arith,
      h,
      length-append (take a runes ++ stars) last,
      length-append (take a runes) stars,
      length-take a runes,
      length-drop (length runes - b) runes,
      length-replicate {A = ℕ} (length runes - (a + b)) 42,
    )

-- A text keeps its length in runes when its content is hidden.
length-safe_content : (runes : List ℕ) → length (safe_content runes) ≡ length runes
unfolding safe_content
length-safe_content runes = ground (
  arith,
  length-replicate {A = ℕ} (length runes) 42,
  length-masked 1 0 runes,
  length-masked 1 1 runes,
  length-masked 2 2 runes,
  length-masked 3 3 runes,
)

-- The mask of each length from 0 on, as a loop that tests them.
fits : ℕ → Bool
fits zero = mask_of 0 + 2 ^ 32 == 2 ^ 32
fits (suc k) = let rest = fits k in (mask_of (suc k) + 2 ^ (32 - suc k) == 2 ^ 32) && rest

all_fit : fits 32 ≡ true
unfolding fits mask_of
all_fit = refl

fits-le : (n k : ℕ) → k ≤ n → fits n ≡ true → mask_of k + 2 ^ (32 - k) ≡ 2 ^ 32
unfolding fits
fits-le zero k h e =
    let first : k ≡ 0 = omega (arith, h) in
    subst (λ j. mask_of j + 2 ^ (32 - j) ≡ 2 ^ 32) (sym first) (ground (arith, e))
fits-le (suc n) k h e = elim (Bool-cases (k == suc n)) [
  | inl last ↦
      let found : k ≡ suc n = ground arith in
      subst (λ j. mask_of j + 2 ^ (32 - j) ≡ 2 ^ 32) (sym found) (ground (arith, e))
  | inr before ↦ fits-le n k (ground arith) (ground arith)
]

-- For a prefix of at most 32 bits the mask is all ones but for as many of its lowest bits as the
-- prefix leaves: with them it makes 2 ^ 32.
pub mask_of_lem : (k : ℕ) → k ≤ 32 → mask_of k + 2 ^ (32 - k) ≡ 2 ^ 32
mask_of_lem k h = fits-le 32 k h all_fit
