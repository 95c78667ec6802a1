-- ===== src/File/Names/Tests.antt =====
-- Names of files.
use go_oam.Base.{ℕ, ◌≡◌, refl, Bool, false, Option, none, some, List, [], ◌∷◌, Key}
use go_oam.File.Names.{
  is_illegal, stored_name, base_of, replace_runs, ext, find_ext, sanitize_extension, code,
  random_string, char_at,
}

-- `../a b.txt`
abbrev dotted_name : Key
dotted_name = 46 ∷ 46 ∷ 47 ∷ 97 ∷ 32 ∷ 98 ∷ 46 ∷ 116 ∷ 120 ∷ 116 ∷ []

abbrev draws : List (Option ℕ)
draws = some 1 ∷ none ∷ some 35 ∷ []

-- `.._a_b_10z.txt`
name_of_dotted :
    stored_name dotted_name draws
    ≡ 46 ∷ 46 ∷ 95 ∷ 97 ∷ 95 ∷ 98 ∷ 95 ∷ 49 ∷ 48 ∷ 122 ∷ 46 ∷ 116 ∷ 120 ∷ 116 ∷ []
unfolding stored_name base_of replace_runs ext find_ext sanitize_extension code random_string
    char_at is_illegal
name_of_dotted = refl

abbrev all_runes : Key → Option (List ℕ)
all_runes id = some id

abbrev is_blank : ℕ → Bool
is_blank r = false
