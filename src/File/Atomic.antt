-- ===== src/File/Atomic.antt =====
-- pkg/file/internal.go: `writeFileAtomic`, by what each of its calls on the disk returns. `tmp` is the
-- name of the temporary file.
mod Tests
use go_oam.Base.{
  refl, sym, ap, ◌∙◌, inl, inr, Bool, true, false, not, ◌||◌, ◌==◌, Option, none, some, List, [],
  ◌∷◌, if◌then◌else◌, Bool-cases, Option-cases, Key, key_eq→eq, insert, delete,
}

abbrev pub Files : Type 0
Files = List (Key × Key)

-- Which calls fail.
pub record Calls : Type 0 where
  pub create : Bool
  pub write : Bool
  pub close : Bool
  pub chmod : Bool
  pub rename : Bool
  pub remove : Bool

pub data WriteError : Type 0 where
  invalid_path : WriteError
  create_failed : WriteError
  write_failed : WriteError
  replace_failed : WriteError

-- `filepath.Split` finds a name behind the last separator.
abbrev pub has_base : Key → Bool
has_base [] = false
has_base (b ∷ []) = not (b == 47)
has_base (b ∷ c ∷ cs) = has_base (c ∷ cs)

-- What is in the temporary file before an error of the write is `part`. Where its removal fails, which
-- is ignored, it stays.
unfoldable pub write_file_atomic : Calls → Files → Key → Key → Key → Key → Option WriteError × Files
write_file_atomic calls files dst tmp bytes part =
    let made = insert tmp (if calls.write then part else bytes) files in
    let cleaned = if calls.remove then made else delete tmp made in
    if not (has_base dst)
    then (some invalid_path, files)
    else (if calls.create
        then (some create_failed, files)
        else (if calls.write || calls.close || calls.chmod
            then (some write_failed, cleaned)
            else (if calls.rename
                then (some replace_failed, cleaned)
                else (none, insert dst bytes (delete tmp made)))))

abbrev pub is_error : Option WriteError → Bool
is_error none = false
is_error (some err) = true

abbrev pub is_absent : Option Key → Bool
is_absent none = true
is_absent (some content) = false
