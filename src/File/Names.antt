-- ===== src/File/Names.antt =====
-- pkg/file/upload.go: the names of stored files and of uploads, and the random part of a name, which is
-- pkg/generate/generate.go. A name is the list of its bytes; the separator is that of Linux. The
-- functions of the standard library that depend on Unicode are arguments.
pub mod Safe
pub mod Numbers
mod Tests
use go_oam.Base.{
  ℕ, zero, suc, ◌+◌, ◌-◌, ◌*◌, ◌%◌, ◌^◌, Bool, true, false, not, ◌&&◌, ◌||◌, Option, none, some,
  List, [], ◌∷◌, ◌++◌, map, ltb, leb, ◌==◌, if◌then◌else◌, length, take, Key, key_eq, ℤ, pos,
  negsuc, min,
}

-- `reIllegal` matches a run of these.
unfoldable pub is_illegal : ℕ → Bool
is_illegal b =
    b == 92
    || b == 47
    || b == 58
    || b == 42
    || b == 63
    || b == 34
    || b == 60
    || b == 62
    || b == 124
    || b == 32
    || b == 9
    || b == 10
    || b == 12
    || b == 13

-- `reIllegal.ReplaceAllString(text, "_")`, with whether a run goes on.
unfoldable pub replace_runs : Bool → Key → Key
unfolding is_illegal
replace_runs goes_on [] = []
replace_runs goes_on (b ∷ bs) =
    let inside = replace_runs true bs in
    let outside = replace_runs false bs in
    if is_illegal b then (if goes_on then inside else 95 ∷ inside) else b ∷ outside

-- `reIllegal.MatchString`
abbrev pub has_illegal : Key → Bool
has_illegal [] = false
has_illegal (b ∷ bs) = is_illegal b || has_illegal bs

abbrev pub has_slash : Key → Bool
has_slash [] = false
has_slash (b ∷ bs) = b == 47 || has_slash bs

-- `path.Ext`, and `filepath.Ext` on Linux, where there is one.
unfoldable pub find_ext : Key → Option Key
find_ext [] = none
find_ext (b ∷ bs) = elim (find_ext bs) [
  | some e ↦ some e
  | none ↦ if b == 46 && not (has_slash bs) then some (b ∷ bs) else none
]

unfoldable pub ext : Key → Key
unfolding find_ext
ext name = elim (find_ext name) [ none ↦ [] | some e ↦ e ]

-- `strings.TrimLeft` and `strings.TrimRight` by a set of bytes.
abbrev pub trim_left : (ℕ → Bool) → Key → Key
trim_left cut [] = []
trim_left cut (b ∷ bs) = let rest = trim_left cut bs in if cut b then rest else b ∷ bs

abbrev pub kept : Bool → ℕ → Key → Key
kept cut b [] = if cut then [] else b ∷ []
kept cut b (c ∷ cs) = b ∷ c ∷ cs

abbrev pub trim_right : (ℕ → Bool) → Key → Key
trim_right cut [] = []
trim_right cut (b ∷ bs) = kept (cut b) b (trim_right cut bs)

abbrev pub is_underscore : ℕ → Bool
is_underscore b = b == 95

abbrev pub is_space_or_dot : ℕ → Bool
is_space_or_dot b = b == 32 || b == 46

unfoldable pub sanitize_extension : Key → Key
unfolding replace_runs
sanitize_extension e =
    let e' = trim_right is_space_or_dot (replace_runs false e) in
    if key_eq e' (46 ∷ []) then [] else e'

abbrev pub to_slash : ℕ → ℕ
to_slash b = if b == 92 then 47 else b

-- The part before the extension.
unfoldable pub base_of : Key → Key
unfolding replace_runs ext
base_of name =
    let normalized = map to_slash name in
    let base = take (length normalized - length (ext normalized)) normalized in
    let base' = trim_right is_underscore (trim_left is_underscore (replace_runs false base)) in
    if key_eq base' [] then 102 ∷ 105 ∷ 108 ∷ 101 ∷ [] else base'

-- The bytes from one to another.
abbrev range : ℕ → ℕ → Key
range b zero = []
range b (suc n) = b ∷ range (suc b) n

abbrev pub digits : Key
digits = range 48 10

abbrev pub lower_alpha : Key
lower_alpha = range 97 26

abbrev pub code_alpha : Key
code_alpha = digits ++ lower_alpha

-- A byte of an alphabet; `rand.Int` stays below its length.
unfoldable pub char_at : Key → ℕ → ℕ
char_at [] n = 0
char_at (b ∷ bs) zero = b
char_at (b ∷ bs) (suc n) = char_at bs n

-- `randomString`, by what each `rand.Int` returns, where `none` is its error.
unfoldable pub random_string : Key → List (Option ℕ) → Key
unfolding char_at
random_string alphabet [] = []
random_string alphabet (draw ∷ draws) =
    char_at alphabet (elim draw [ none ↦ 0 | some n ↦ n ]) ∷ random_string alphabet draws

unfoldable pub code : List (Option ℕ) → Key
unfolding random_string
code draws = random_string code_alpha draws

-- The last element of what `genPath` returns.
unfoldable pub stored_name : Key → List (Option ℕ) → Key
unfolding base_of sanitize_extension ext code
stored_name name draws =
    let random = code draws ++ sanitize_extension (ext (map to_slash name)) in
    base_of name ++ 95 ∷ random

-- `filepath.Join` is an argument.
unfoldable pub gen_path : (Key → Key → Key) → Key → Key → List (Option ℕ) → Key
unfolding stored_name
gen_path join dir name draws = join dir (stored_name name draws)

abbrev pub no_space : (ℕ → Bool) → List ℕ → Bool
no_space is_space [] = true
no_space is_space (r ∷ runes) =
    let rest = no_space is_space runes in if ltb r 32 || r == 127 || is_space r then false else rest

-- `validUploadID`, by the runes of an id, if it is valid UTF-8, and `unicode.IsSpace`.
unfoldable pub valid_upload_id : (Key → Option (List ℕ)) → (ℕ → Bool) → Key → Bool
valid_upload_id runes_of is_space id =
    if key_eq id [] || key_eq id (46 ∷ []) || key_eq id (46 ∷ 46 ∷ []) || has_illegal id
    then false
    else elim (runes_of id) [ none ↦ false | some runes ↦ no_space is_space runes ]

-- The loop of `generate.Number` for the least number of that many digits and one.
unfoldable pub least : ℕ → ℕ
least zero = 1
least (suc n) = least n * 10 % 2 ^ 64

-- `generate.Number`, by what `rand.Int` returns.
unfoldable pub number : ℤ → Option ℕ → ℕ
unfolding least
number (negsuc n) draw = 0
number (pos size) draw =
    if size == 0
    then 0
    else (let lo = least (min size 18 - 1) in elim draw [ none ↦ lo | some n ↦ (lo + n) % 2 ^ 64 ])
