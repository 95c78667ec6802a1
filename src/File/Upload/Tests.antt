-- ===== src/File/Upload/Tests.antt =====
-- Three chunks that come out of order, one of them twice.
use go_oam.Base.{
  ℕ, ◌≤◌, ◌≡◌, refl, true, false, none, some, List, [], ◌∷◌, arith, length, leb, if◌then◌else◌, Key,
  pos, lookup,
}
use go_oam.File.Upload.{
  Disk, Faults, duplicate_index, accepted, max_size_bytes, merge_files, read_chunk_files, scan,
}
use go_oam.File.Upload.Chunks.{save_each, latest, assembled, merge_files-save_each}
use go_oam.File.Upload.Limit.{accepted_lem}
use go_oam.File.Digits.{parse_uint}

abbrev empty : Disk
empty = record { files = []; chunks = [] }

abbrev sound : Faults
sound = record { writes = false; copies = λ name. false; removes = false }

abbrev up : Key
up = 117 ∷ []

abbrev dst : Key
dst = 100 ∷ []

abbrev saves : List (ℕ × Key)
saves = (10, 9 ∷ []) ∷ (2, 7 ∷ []) ∷ (0, 1 ∷ []) ∷ (2, 8 ∷ []) ∷ []

within : (n : ℕ) → length (n ∷ []) ≤ max_size_bytes (pos 1)
unfolding max_size_bytes
within n = ground arith

merge_files-save_each_example :
    ((merge_files sound (save_each (pos 1) sound empty up saves) up dst).0 ≡ none)
    × (lookup dst (merge_files sound (save_each (pos 1) sound empty up saves) up dst).1.files
        ≡ some (1 ∷ 8 ∷ 9 ∷ []))
    × (lookup up (merge_files sound (save_each (pos 1) sound empty up saves) up dst).1.chunks
        ≡ none)
unfolding assembled latest
merge_files-save_each_example =
    merge_files-save_each (pos 1) sound refl empty up dst (9 ∷ []) 10 11
      ((2, 7 ∷ []) ∷ (0, 1 ∷ []) ∷ (2, 8 ∷ []) ∷ []) (ground arith)
      (
        ground arith,
        within 9,
        (ground arith, within 7, (ground arith, within 1, (ground arith, within 8, tt))),
      )
      refl (λ name. refl) refl

accepted_lem_example :
    (accepted (pos 1) (record { reader = some up; bytes = none })
      ≡ accepted (pos 1) (record { reader = none; bytes = some up }))
    × (accepted (pos 1) (record { reader = some up; bytes = none })
        ≡ (if leb (length up) (max_size_bytes (pos 1)) then some up else none))
accepted_lem_example = accepted_lem 1 up (ground arith)

-- Two names of the index 1.
abbrev doubled : Disk
doubled = record {
  files = [];
  chunks =
      (
        up,
        (49 ∷ [], record { is_regular = true; content = [] })
            ∷ (48 ∷ 49 ∷ [], record { is_regular = true; content = [] })
            ∷ [],
      )
      ∷ [];
}

refused : (merge_files sound doubled up dst).0 ≡ some (duplicate_index 1)
unfolding merge_files read_chunk_files scan parse_uint
refused = refl
