-- ===== src/File/Atomic/Tests.antt =====
-- A rename that fails.
use go_oam.Base.{◌≡◌, refl, true, false, some, [], ◌∷◌, lookup}
use go_oam.File.Atomic.{Calls, Files, write_file_atomic}

abbrev old : Files
old = (1 ∷ [], 5 ∷ []) ∷ []

-- Neither the rename nor the removal succeeds.
abbrev no_rename : Calls
no_rename = record {
  create = false;
  write = false;
  close = false;
  chmod = false;
  rename = true;
  remove = true;
}

left_over :
    lookup (2 ∷ []) (write_file_atomic no_rename old (1 ∷ []) (2 ∷ []) (6 ∷ []) []).1
    ≡ some (6 ∷ [])
unfolding write_file_atomic
left_over = refl
