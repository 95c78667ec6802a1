-- ===== src/Crypto/Padding.antt =====
-- Padding and its removal undo each other.
use go_oam.Base.{
  ℕ, zero, suc, ◌+◌, ◌-◌, ◌%◌, ◌≤◌, ◌<◌, ◌≡◌, refl, ap, ◌∙◌, inr, true, false, ◌||◌, List, [], ◌∷◌,
  ◌++◌, arith, ltb, ◌==◌, length, get_or, take, drop, replicate, length-append, length-replicate,
  length-drop, length-take,
}
use go_oam.Crypto.{block_size, pkcs7_pad, pkcs7_unpad, all_bytes}

pub take-append : (xs ys : List ℕ) → take (length xs) (xs ++ ys) ≡ xs
take-append [] ys = refl
take-append (x ∷ xs) ys = ap (λ r. x ∷ r) (take-append xs ys)

pub drop-append : (xs ys : List ℕ) → drop (length xs) (xs ++ ys) ≡ ys
drop-append [] ys = refl
drop-append (x ∷ xs) ys = drop-append xs ys

take-append-drop : (n : ℕ) (xs : List ℕ) → take n xs ++ drop n xs ≡ xs
take-append-drop zero xs = refl
take-append-drop (suc n) [] = refl
take-append-drop (suc n) (x ∷ xs) = ap (λ r. x ∷ r) (take-append-drop n xs)

get_or-replicate : (n i b d : ℕ) → i < n → get_or (replicate n b) i d ≡ b
get_or-replicate zero i b d h = absurd (omega arith)
get_or-replicate (suc n) zero b d h = refl
get_or-replicate (suc n) (suc i) b d h = get_or-replicate n i b d (omega arith)

get_or-behind :
    (xs ys : List ℕ) (i k d : ℕ) → i ≡ length xs + k → get_or (xs ++ ys) i d ≡ get_or ys k d
get_or-behind [] ys i k d h = ap (λ j. get_or ys j d) (omega arith)
get_or-behind (x ∷ xs) ys zero k d h = absurd (omega arith)
get_or-behind (x ∷ xs) ys (suc i) k d h = get_or-behind xs ys i k d (omega arith)

all_bytes-replicate : (n b : ℕ) → all_bytes b (replicate n b) ≡ true
unfolding all_bytes
all_bytes-replicate zero b = refl
all_bytes-replicate (suc n) b = ground (arith, all_bytes-replicate n b)

all_bytes_lem : (b : ℕ) (xs : List ℕ) → all_bytes b xs ≡ true → xs ≡ replicate (length xs) b
unfolding all_bytes
all_bytes_lem b [] h = refl
all_bytes_lem b (x ∷ xs) h = ground (arith, all_bytes_lem b xs)

-- Up to a block of padding is taken off.
taken_off :
    (bytes : List ℕ) (n : ℕ)
    → 1 ≤ n
    → n ≤ block_size
    → pkcs7_unpad (bytes ++ replicate n (n % 256)) ≡ inr bytes
unfolding pkcs7_unpad
taken_off bytes n l h =
    let byte : n % 256 ≡ n = omega arith in
    let size : length (bytes ++ replicate n n) ≡ length bytes + n =
      omega (arith, length-append bytes (replicate n n), length-replicate n n) in
    let last : get_or (bytes ++ replicate n n) (length bytes + n - 1) 0 ≡ n =
      get_or-behind bytes (replicate n n) (length bytes + n - 1) (n - 1) 0 (omega arith)
      ∙ get_or-replicate n (n - 1) n 0 (omega arith) in
    let front : length bytes + n - n ≡ length bytes = omega arith in
    let some_there : length bytes + n == 0 ≡ false = ground arith in
    let valid : (n == 0) || ltb block_size n || ltb (length bytes + n) n ≡ false = ground arith in
    rw
      (
        byte,
        size,
        some_there,
        last,
        valid,
        front,
        byte,
        drop-append bytes (replicate n n),
        all_bytes-replicate n n,
        take-append bytes (replicate n n),
      )
      refl

-- What is padded to whole blocks comes back.
pub pkcs7_unpad-pkcs7_pad : (bytes : List ℕ) → pkcs7_unpad (pkcs7_pad bytes block_size) ≡ inr bytes
unfolding pkcs7_pad
pkcs7_unpad-pkcs7_pad bytes =
    taken_off bytes (block_size - length bytes % block_size) (omega arith) (omega arith)

-- What the removal of the padding accepts, of whole blocks, is padding: the result, padded again,
-- is what was given.
pub pkcs7_pad-pkcs7_unpad :
    (bytes plain : List ℕ)
    → length bytes % block_size ≡ 0
    → pkcs7_unpad bytes ≡ inr plain
    → pkcs7_pad plain block_size ≡ bytes
unfolding pkcs7_unpad pkcs7_pad
pkcs7_pad-pkcs7_unpad bytes plain whole e =
    let n = get_or bytes (length bytes - 1) 0 in
    let valid : (1 ≤ n) × (n ≤ block_size) × (n ≤ length bytes) = ground arith in
    let padded : all_bytes (n % 256) (drop (length bytes - n) bytes) ≡ true = ground arith in
    let kept : take (length bytes - n) bytes ≡ plain = ground arith in
    let rest : drop (length bytes - n) bytes ≡ replicate n (n % 256) =
      all_bytes_lem (n % 256) (drop (length bytes - n) bytes) padded
      ∙ ap (λ k. replicate k (n % 256)) (omega (arith, length-drop (length bytes - n) bytes)) in
    let amount : block_size - length plain % block_size ≡ n =
      rw (← kept) (omega (arith, length-take (length bytes - n) bytes)) in
    rw (amount, ← rest, ← kept) (take-append-drop (length bytes - n) bytes)

-- A padded text has whole blocks, and one at least.
pub length-pkcs7_pad :
    (bytes : List ℕ)
    → (length (pkcs7_pad bytes block_size) % block_size ≡ 0)
      × (1 ≤ length (pkcs7_pad bytes block_size))
unfolding pkcs7_pad
length-pkcs7_pad bytes =
    let n = block_size - length bytes % block_size in
    let size : length (bytes ++ replicate n (n % 256)) ≡ length bytes + n =
      omega (arith, length-append bytes (replicate n (n % 256)), length-replicate n (n % 256)) in
    rw size (omega arith, omega arith)
