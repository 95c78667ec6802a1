-- ===== src/File/Save.antt =====
-- pkg/file/upload.go: `Save`, `ChunkList` and `ChunkMerge` with their checks of names, over the disk of
-- File/Upload. `filepath.Join`, the test of two extensions under Unicode folding, and the decoder of
-- UTF-8 are arguments.
pub mod Stores
mod Tests
use go_oam.Base.{
  ℕ, ◌⊎◌, inl, inr, Bool, true, false, not, ◌&&◌, ◌||◌, Option, none, some, List, [], ◌∷◌, map, ltb,
  ◌==◌, if◌then◌else◌, length, Key, key_eq, ℤ, lookup, insert,
}
use go_oam.File.Names.{ext, gen_path, valid_upload_id}
use go_oam.File.Upload
use go_oam.File.Upload.{
  UploadError, name_is_empty, name_too_long, unsupported_ext, no_data, too_large, invalid_id,
  disk_fault, FileUpload, Disk, Faults, accepted, is_set, read_chunk_files, merge_files, ChunkFile,
}

pub record FileConfig : Type 0 where
  pub dir : Key
  pub max_size : ℤ
  pub allow_exts : List Key
  pub max_name_len : ℤ

-- What the standard library does: `filepath.Join`, `strings.EqualFold` of an extension and the lower
-- case of another, the runes of valid UTF-8, and `unicode.IsSpace`.
pub record Library : Type 0 where
  pub join : Key → Key → Key
  pub equal_fold : Key → Key → Bool
  pub runes_of : Key → Option (List ℕ)
  pub is_space : ℕ → Bool

-- `slices.ContainsFunc`
abbrev pub contains_func : (Key → Bool) → List Key → Bool
contains_func test [] = false
contains_func test (e ∷ es) = test e || contains_func test es

unfoldable pub check_name_and_ext : Library → FileConfig → Key → Option UploadError
check_name_and_ext lib cfg name =
    if ltb (go_oam.File.Upload.max_name_len cfg.max_name_len) (length name)
    then some name_too_long
    else (if ltb 0 (length cfg.allow_exts)
          && not (contains_func (λ allowed. lib.equal_fold allowed (ext name)) cfg.allow_exts)
        then some unsupported_ext
        else none)

unfoldable pub upload_id_path : Library → FileConfig → Key → Option Key
upload_id_path lib cfg id =
    if valid_upload_id lib.runes_of lib.is_space id then some (lib.join cfg.dir id) else none

-- `Save` of a file of that name; the draws are those of the random part of the path.
unfoldable pub save :
    Library
    → FileConfig
    → Faults
    → Disk
    → FileUpload
    → Key
    → List (Option ℕ)
    → (UploadError ⊎ Key) × Disk
unfolding check_name_and_ext
save lib cfg faults d u name draws =
    if key_eq name []
    then (inl name_is_empty, d)
    else (if not (is_set u.reader) && not (is_set u.bytes)
        then (inl no_data, d)
        else elim (check_name_and_ext lib cfg name) [
          | some e ↦ (inl e, d)
          | none ↦
              let dst = gen_path lib.join cfg.dir name draws in
              elim (accepted cfg.max_size u) [
                | none ↦ (inl too_large, d)
                | some bytes ↦
                    if faults.writes
                    then (inl disk_fault, d)
                    else (inr dst, record d { files = insert dst bytes d.files })
              ]
        ])

-- `ChunkList`; a directory that is not there cannot be listed.
unfoldable pub chunk_list : Library → FileConfig → Disk → Key → UploadError ⊎ List Key
unfolding upload_id_path read_chunk_files
chunk_list lib cfg d id = elim (upload_id_path lib cfg id) [
  | none ↦ inl invalid_id
  | some path ↦ elim (read_chunk_files (lookup path d.chunks)) [
    | inl err ↦ inl err
    | inr files ↦ inr (map (λ f. f.name) files)
  ]
]

unfoldable pub chunk_merge :
    Library → FileConfig → Faults → Disk → Key → Key → List (Option ℕ) → (UploadError ⊎ Key) × Disk
unfolding check_name_and_ext upload_id_path merge_files
chunk_merge lib cfg faults d id name draws =
    if key_eq name [] then (inl name_is_empty, d) else elim (check_name_and_ext lib cfg name) [
      | some e ↦ (inl e, d)
      | none ↦ elim (upload_id_path lib cfg id) [
        | none ↦ (inl invalid_id, d)
        | some path ↦
            let dst = gen_path lib.join cfg.dir name draws in
            let (failed, d') = merge_files faults d path dst in
            elim failed [ some e ↦ (inl e, d') | none ↦ (inr dst, d') ]
      ]
    ]
