-- ===== src/File/Names/Safe.antt =====
-- A stored file and the chunks of an upload lie directly in the directory.
use go_oam.Base.{
  ℕ, zero, suc, ◌-◌, ◌<◌, ◌≡◌, refl, ◌∙◌, inl, inr, Bool, true, false, not, ◌&&◌, ◌||◌, Option,
  none, some, List, [], ◌∷◌, ◌++◌, map, arith, length, take, Bool-cases, Key, key_eq,
}
use go_oam.File.Names.{
  is_illegal, replace_runs, has_illegal, has_slash, ext, trim_left, kept, trim_right, is_underscore,
  is_space_or_dot, sanitize_extension, base_of, code_alpha, char_at, random_string, code,
  stored_name, valid_upload_id, to_slash,
}

-- A name that `filepath.Join` puts directly into a directory.
abbrev pub is_element : Key → Bool
is_element name =
    not (has_slash name)
    && not (key_eq name [])
    && not (key_eq name (46 ∷ []))
    && not (key_eq name (46 ∷ 46 ∷ []))

has_illegal-append : (a b : Key) → has_illegal (a ++ b) ≡ has_illegal a || has_illegal b
has_illegal-append [] b = refl
has_illegal-append (x ∷ a) b = ground (arith, has_illegal-append a b)

has_slash-has_illegal : (name : Key) → has_illegal name ≡ false → has_slash name ≡ false
unfolding is_illegal
has_slash-has_illegal [] h = refl
has_slash-has_illegal (b ∷ bs) h = ground (arith, h, has_slash-has_illegal bs)

underscore_legal : is_illegal 95 ≡ false
unfolding is_illegal
underscore_legal = refl

has_illegal-replace_runs :
    (goes_on : Bool) (text : Key) → has_illegal (replace_runs goes_on text) ≡ false
unfolding replace_runs
has_illegal-replace_runs goes_on [] = refl
has_illegal-replace_runs goes_on (b ∷ bs) =
    let inside = has_illegal-replace_runs true bs in
    let outside = has_illegal-replace_runs false bs in
    let legal : is_illegal 95 ≡ false = underscore_legal in
    elim (Bool-cases (is_illegal b)) [
      | inl i ↦ elim (Bool-cases goes_on) [
        | inl g ↦ rw (i, g) inside
        | inr g ↦ ground (arith, i, g, legal, inside)
      ]
      | inr i ↦ ground (arith, i, outside)
    ]

has_illegal-trim_left :
    (cut : ℕ → Bool) (text : Key)
    → has_illegal text ≡ false
    → has_illegal (trim_left cut text) ≡ false
has_illegal-trim_left cut [] h = refl
has_illegal-trim_left cut (b ∷ bs) h = ground (arith, h, has_illegal-trim_left cut bs)

has_illegal-kept :
    (cut : Bool) (b : ℕ) (rest : Key)
    → is_illegal b ≡ false
    → has_illegal rest ≡ false
    → has_illegal (kept cut b rest) ≡ false
has_illegal-kept cut b [] i h = ground (arith, i)
has_illegal-kept cut b (c ∷ cs) i h = ground (arith, i, h)

has_illegal-trim_right :
    (cut : ℕ → Bool) (text : Key)
    → has_illegal text ≡ false
    → has_illegal (trim_right cut text) ≡ false
has_illegal-trim_right cut [] h = refl
has_illegal-trim_right cut (b ∷ bs) h =
    let i : is_illegal b ≡ false = ground (arith, h) in
    let hs : has_illegal bs ≡ false = ground (arith, h) in
    has_illegal-kept (cut b) b (trim_right cut bs) i (has_illegal-trim_right cut bs hs)

has_illegal-char_at :
    (alphabet : Key) (n : ℕ)
    → has_illegal alphabet ≡ false
    → n < length alphabet
    → is_illegal (char_at alphabet n) ≡ false
unfolding char_at
has_illegal-char_at [] n h lt = absurd (omega (arith, lt))
has_illegal-char_at (b ∷ bs) zero h lt = ground (arith, h)
has_illegal-char_at (b ∷ bs) (suc n) h lt =
    has_illegal-char_at bs n (ground (arith, h)) (omega (arith, lt))

-- What `rand.Int` returns is below the length of the alphabet of codes.
abbrev pub InRange : List (Option ℕ) → Type 0
InRange [] = Unit
InRange (none ∷ draws) = InRange draws
InRange (some n ∷ draws) = (n < 36) × InRange draws

zero_legal : is_illegal 48 ≡ false
unfolding is_illegal
zero_legal = refl

alphabet_legal : has_illegal code_alpha ≡ false
unfolding is_illegal
alphabet_legal = refl

has_illegal-code : (draws : List (Option ℕ)) → InRange draws → has_illegal (code draws) ≡ false
unfolding code random_string
has_illegal-code [] r = refl
has_illegal-code (none ∷ draws) r = ground (arith, zero_legal, has_illegal-code draws r)
has_illegal-code (some n ∷ draws) r =
    ground (arith, has_illegal-char_at code_alpha n alphabet_legal r.0, has_illegal-code draws r.1)

has_illegal-sanitize_extension : (e : Key) → has_illegal (sanitize_extension e) ≡ false
unfolding sanitize_extension
has_illegal-sanitize_extension e =
    let cut =
      has_illegal-trim_right is_space_or_dot (replace_runs false e)
        (has_illegal-replace_runs false e) in
    ground (arith, cut)

file_legal : has_illegal (102 ∷ 105 ∷ 108 ∷ 101 ∷ []) ≡ false
unfolding is_illegal
file_legal = refl

has_illegal-base_of : (name : Key) → has_illegal (base_of name) ≡ false
unfolding base_of
has_illegal-base_of name =
    let normalized = map to_slash name in
    let base = take (length normalized - length (ext normalized)) normalized in
    let left = trim_left is_underscore (replace_runs false base) in
    let legal : has_illegal (trim_right is_underscore left) ≡ false =
      has_illegal-trim_right is_underscore left (
        has_illegal-trim_left is_underscore (replace_runs false base)
          (has_illegal-replace_runs false base)) in
    ground (arith, legal, file_legal)

-- An underscore behind something makes a name longer than "..".
is_element-append :
    (a b : Key) → has_illegal (a ++ 95 ∷ b) ≡ false → is_element (a ++ 95 ∷ b) ≡ true
is_element-append [] b h = ground (arith, has_slash-has_illegal (95 ∷ b) h)
is_element-append (x ∷ []) b h = ground (arith, has_slash-has_illegal (x ∷ 95 ∷ b) h)
is_element-append (x ∷ y ∷ []) b h = ground (arith, has_slash-has_illegal (x ∷ y ∷ 95 ∷ b) h)
is_element-append (x ∷ y ∷ z ∷ a) b h =
    ground (arith, has_slash-has_illegal (x ∷ y ∷ z ∷ a ++ 95 ∷ b) h)

joined :
    (a b c : Key)
    → has_illegal a ≡ false
    → has_illegal b ≡ false
    → has_illegal c ≡ false
    → has_illegal a || has_illegal (95 ∷ (b ++ c)) ≡ false
joined a b c ha hb hc = ground (arith, ha, hb, hc, has_illegal-append b c, underscore_legal)

-- For every name and whatever is drawn: the name under which a file is stored has no separator and no
-- other illegal byte, and is neither empty nor "." nor "..", so the file lies directly in the
-- directory.
pub is_element-stored_name :
    (name : Key) (draws : List (Option ℕ))
    → InRange draws
    → (has_illegal (stored_name name draws) ≡ false) × (is_element (stored_name name draws) ≡ true)
unfolding stored_name
is_element-stored_name name draws r =
    let random = code draws ++ sanitize_extension (ext (map to_slash name)) in
    let legal : has_illegal (base_of name ++ 95 ∷ random) ≡ false =
      has_illegal-append (base_of name) (95 ∷ random)
      ∙ joined (base_of name) (code draws) (sanitize_extension (ext (map to_slash name)))
          (has_illegal-base_of name) (has_illegal-code draws r)
          (has_illegal-sanitize_extension (ext (map to_slash name))) in
    (legal, is_element-append (base_of name) random legal)

-- The id of an upload that is valid names a directory directly in the one of the uploads.
pub valid_upload_id-is_element :
    (runes_of : Key → Option (List ℕ)) (is_space : ℕ → Bool) (id : Key)
    → valid_upload_id runes_of is_space id ≡ true
    → (has_illegal id ≡ false) × (is_element id ≡ true)
unfolding valid_upload_id
valid_upload_id-is_element runes_of is_space id v = ground (arith, v, has_slash-has_illegal id)
