-- ===== src/File/Digits.antt =====
-- The decimal numbers of `strconv.ParseUint` and `strconv.FormatUint`, as the names of chunks use
-- them.
use go_oam.Base.{
  ℕ, zero, suc, ◌+◌, ◌-◌, ◌*◌, ◌/◌, ◌%◌, ◌^◌, ◌<◌, ◌≡◌, refl, sym, ap, ◌∙◌, true, ◌&&◌, Option,
  none, some, [], ◌∷◌, arith, ltb, leb, ◌==◌, if◌then◌else◌, Bool-cases, inl, inr, Key, key_eq,
  key_eq→eq, key_eq_refl,
}

-- The digits of `n` before `acc`, at most as many as the first argument.
abbrev pub format_before : ℕ → ℕ → Key → Key
format_before zero n acc = acc
format_before (suc digits) n acc =
    let rest = format_before digits (n / 10) ((48 + n % 10) ∷ acc) in
    if ltb n 10 then (48 + n) ∷ acc else rest

-- 20 digits are enough for 64 bits.
unfoldable pub format_uint : ℕ → Key
format_uint n = format_before 20 n []

abbrev pub parse_from : Key → ℕ → Option ℕ
parse_from [] n = some n
parse_from (b ∷ bs) n =
    let m = n * 10 + (b - 48) in
    let rest = parse_from bs m in
    if leb 48 b && leb b 57 then (if ltb m (2 ^ 64) then rest else none) else none

-- `none` is a syntax error or a number that needs more than 64 bits.
unfoldable pub parse_uint : Key → Option ℕ
parse_uint [] = none
parse_uint (b ∷ bs) = parse_from (b ∷ bs) 0

last_digit :
    (n : ℕ) (acc : Key) → n < 2 ^ 64 → parse_from ((48 + n % 10) ∷ acc) (n / 10) ≡ parse_from acc n
last_digit n acc w =
    let whole : n / 10 * 10 + (48 + n % 10 - 48) ≡ n = omega arith in
    let low : leb 48 (48 + n % 10) ≡ true = ground arith in
    let high : leb (48 + n % 10) 57 ≡ true = ground arith in
    let fits : ltb n (2 ^ 64) ≡ true = ground arith in rw (whole, low, high, fits) refl

parse_from-format_before :
    (digits n : ℕ) (acc : Key)
    → n < 10 ^ suc digits
    → n < 2 ^ 64
    → parse_from (format_before (suc digits) n acc) 0 ≡ parse_from acc n
parse_from-format_before zero n acc h w = ground arith
parse_from-format_before (suc digits) n acc h w = elim (Bool-cases (ltb n 10)) [
  | inl one ↦ ground arith
  | inr more ↦
      let rest =
        parse_from-format_before digits (n / 10) ((48 + n % 10) ∷ acc) (omega (arith, h))
          (omega (arith, w)) in
      rw more (rest ∙ last_digit n acc w)
]

format_before-cons :
    (digits n : ℕ) (acc : Key) → (b : ℕ) × (bs : Key) × (format_before (suc digits) n acc ≡ b ∷ bs)
format_before-cons zero n acc = elim (Bool-cases (ltb n 10)) [
  | inl one ↦ (48 + n, acc, rw one refl)
  | inr more ↦ (48 + n % 10, acc, rw more refl)
]
format_before-cons (suc digits) n acc = elim (Bool-cases (ltb n 10)) [
  | inl one ↦ (48 + n, acc, rw one refl)
  | inr more ↦
      let (b, bs, e) = format_before-cons digits (n / 10) ((48 + n % 10) ∷ acc) in
      (b, bs, rw more e)
]

-- A number of 64 bits that is printed is read back.
pub parse_uint-format_uint : (n : ℕ) → n < 2 ^ 64 → parse_uint (format_uint n) ≡ some n
unfolding parse_uint format_uint
parse_uint-format_uint n w =
    let (b, bs, e) = format_before-cons 19 n [] in
    rw e (sym (ap (λ k. parse_from k 0) e) ∙ parse_from-format_before 19 n [] (omega (arith, w)) w)

-- The names of two numbers agree when the numbers do.
pub format_uint-eq :
    (i j : ℕ) → i < 2 ^ 64 → j < 2 ^ 64 → key_eq (format_uint i) (format_uint j) ≡ (i == j)
format_uint-eq i j h k = elim (Bool-cases (i == j)) [
  | inl same ↦ let e : i ≡ j = ground arith in rw e (key_eq_refl (format_uint j) ∙ ground arith)
  | inr differ ↦ elim (Bool-cases (key_eq (format_uint i) (format_uint j))) [
    | inr apart ↦ apart ∙ sym differ
    | inl joined ↦
        let one : some i ≡ some j =
          sym (parse_uint-format_uint i h)
          ∙ ap parse_uint (key_eq→eq (format_uint i) (format_uint j) joined)
          ∙ parse_uint-format_uint j k in
        absurd (ground arith)
  ]
]
