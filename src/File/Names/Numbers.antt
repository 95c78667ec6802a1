-- ===== src/File/Names/Numbers.antt =====
-- Random numbers of a given length.
use go_oam.Base.{ℕ, zero, suc, ◌-◌, ◌*◌, ◌^◌, ◌<◌, ◌≤◌, ◌≡◌, refl, some, arith, pos, min}
use go_oam.File.Names.{least, number}

-- The power of ten.
abbrev pub ten_to : ℕ → ℕ
ten_to zero = 1
ten_to (suc n) = ten_to n * 10

ten_to_mono : (n m : ℕ) → n ≤ m → ten_to n ≤ ten_to m
ten_to_mono zero zero h = omega arith
ten_to_mono zero (suc m) h = omega (arith, ten_to_mono zero m (omega arith))
ten_to_mono (suc n) zero h = absurd (omega (arith, h))
ten_to_mono (suc n) (suc m) h = omega (arith, ten_to_mono n m (omega (arith, h)))

ten_to_bound : (n : ℕ) → n ≤ 18 → ten_to n ≤ 10 ^ 18
ten_to_bound n h = ten_to_mono n 18 h

least_lem : (n : ℕ) → n ≤ 17 → least n ≡ ten_to n
unfolding least
least_lem zero h = refl
least_lem (suc n) h =
    let below = ten_to_bound (suc n) (omega (arith, h)) in
    let before = least_lem n (omega (arith, h)) in omega (arith, before, below)

-- `Number(size)` for a size from 1 to 18 and a result of `rand.Int` below what it was asked for: the
-- number has exactly as many digits as asked.
pub number_lem :
    (size draw : ℕ)
    → size < 18
    → draw < ten_to size * 9
    → (ten_to size ≤ number (pos (suc size)) (some draw))
      × (number (pos (suc size)) (some draw) < ten_to (suc size))
unfolding number
number_lem size draw h d =
    let lo = least_lem size (omega (arith, h)) in
    let below = ten_to_bound (suc size) (omega (arith, h)) in
    let few : min (suc size) 18 - 1 ≡ size = ground (arith, h) in
    rw few (ground (arith, lo, below, d))
