-- ===== src/File/Save/Tests.antt =====
-- A file of two bytes that is saved.
use go_oam.Base.{
  leb, ◌<◌, ◌-◌, ◌^◌, ℕ, ◌≡◌, refl, Bool, true, false, ◌==◌, none, some, Option, List, [], ◌∷◌,
  ◌++◌, arith, Key, key_eq, lookup, pos, inr,
}
use go_oam.File.Names.{
  is_illegal, stored_name, gen_path, base_of, replace_runs, ext, find_ext, sanitize_extension, code,
  random_string, char_at, valid_upload_id,
}
use go_oam.File.Names.Safe.{is_element}
use go_oam.File.Upload
use go_oam.File.Upload.{
  FileUpload, Disk, Faults, accepted, is_set, max_size_bytes, stream, read_limited, merge_files,
}
use go_oam.File.Save.{FileConfig, Library, check_name_and_ext, save}
use go_oam.File.Save.Stores.{save-stores}

abbrev joined : Key → Key → Key
joined dir name = dir ++ 47 ∷ name

abbrev runes_of : Key → Option (List ℕ)
runes_of id = some id

abbrev is_blank : ℕ → Bool
is_blank r = r == 32

abbrev linux : Library
linux = record { join = joined; equal_fold = key_eq; runes_of = runes_of; is_space = is_blank }

-- Only `.t` is allowed.
abbrev config : FileConfig
config = record {
  dir = 100 ∷ [];
  max_size = pos 1;
  allow_exts = (46 ∷ 116 ∷ []) ∷ [];
  max_name_len = pos 9;
}

abbrev copies : Key → Bool
copies name = false

abbrev sound : Faults
sound = record { writes = false; copies = copies; removes = false }

abbrev empty : Disk
empty = record { files = []; chunks = [] }

-- `a.t`
abbrev name : Key
name = 97 ∷ 46 ∷ 116 ∷ []

abbrev upload : FileUpload
upload = record { reader = none; bytes = some (7 ∷ 8 ∷ []) }

abbrev draws : List (Option ℕ)
draws = some 1 ∷ []

-- `d/a_1.t`
abbrev path : Key
path = 100 ∷ 47 ∷ 97 ∷ 95 ∷ 49 ∷ 46 ∷ 116 ∷ []

saved : (save linux config sound empty upload name draws).0 ≡ inr path
unfolding save check_name_and_ext gen_path stored_name base_of replace_runs ext find_ext
    sanitize_extension code random_string char_at is_illegal accepted max_size_bytes
    Upload.max_name_len
saved = refl

limit_below : max_size_bytes (pos 1) < 2 ^ 63 - 1
unfolding max_size_bytes
limit_below = ground arith

save-stores_example :
    (check_name_and_ext linux config name ≡ none)
    × (path ≡ joined (100 ∷ []) (stored_name name draws))
    × (is_element (stored_name name draws) ≡ true)
    × (lookup path (save linux config sound empty upload name draws).1.files ≡ some (7 ∷ 8 ∷ []))
    × (leb 2 (max_size_bytes (pos 1)) ≡ true)
    × (true ≡ true)
    × (lookup name (save linux config sound empty upload name draws).1.files ≡ none)
    × ((save linux config sound empty upload name draws).1.chunks ≡ [])
save-stores_example =
    save-stores linux config sound empty upload name draws path name (ground arith, tt) limit_below
      saved refl

allowed : check_name_and_ext linux config name ≡ none
unfolding check_name_and_ext Upload.max_name_len ext find_ext
allowed = refl

valid : valid_upload_id runes_of is_blank (117 ∷ []) ≡ true
unfolding valid_upload_id is_illegal
valid = refl
