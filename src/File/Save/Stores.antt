-- ===== src/File/Save/Stores.antt =====
-- What `Save` stores, and what it leaves.
use go_oam.Base.{
  leb, length, ◌<◌, ◌-◌, ◌^◌, ℕ, inl, inr, ◌≡◌, refl, true, false, Option, none, some, List, [],
  arith, Key, key_eq, lookup, insert, lookup-insert, key_eq_refl, Option-cases, ◌∙◌,
}
use go_oam.File.Names.{gen_path, stored_name, valid_upload_id}
use go_oam.File.Names.Safe.{is_element, InRange, is_element-stored_name, valid_upload_id-is_element}
use go_oam.File.Upload.{
  UploadError, FileUpload, Disk, Faults, accepted, is_set, max_size_bytes, merge_files,
}
use go_oam.File.Upload.Limit.{held, accepted-held}
use go_oam.File.Save.{FileConfig, Library, check_name_and_ext, save, chunk_merge, upload_id_path}

abbrev pub size_of : Option Key → ℕ
size_of none = 0
size_of (some bytes) = length bytes

lookup_inserted : (k : Key) (m : List (Key × Key)) (v : Key) → lookup k (insert k v m) ≡ some v
lookup_inserted k m v = lookup-insert k k v m ∙ rw (key_eq_refl k) refl

lookup-others :
    (k other : Key) (m : List (Key × Key)) (v : Key)
    → key_eq other k ≡ false
    → lookup other (insert k v m) ≡ lookup other m
lookup-others k other m v ne = lookup-insert k other v m ∙ rw ne refl

-- A `Save` that returns a path, where what is drawn is in range and the limit in bytes is below the
-- greatest int64: the name has passed the checks, the path lies directly in the directory, and the file
-- there holds what the upload held, which is within the limit; every other file, and every chunk, is as
-- before.
pub save-stores :
    (lib : Library) (cfg : FileConfig) (faults : Faults) (d : Disk) (u : FileUpload) (name : Key)
    (draws : List (Option ℕ)) (path other : Key)
    → InRange draws
    → max_size_bytes cfg.max_size < 2 ^ 63 - 1
    → (save lib cfg faults d u name draws).0 ≡ inr path
    → key_eq other path ≡ false
    → (check_name_and_ext lib cfg name ≡ none)
      × (path ≡ lib.join cfg.dir (stored_name name draws))
      × (is_element (stored_name name draws) ≡ true)
      × (lookup path (save lib cfg faults d u name draws).1.files ≡ held u)
      × (leb (size_of (held u)) (max_size_bytes cfg.max_size) ≡ true)
      × (is_set (held u) ≡ true)
      × (lookup other (save lib cfg faults d u name draws).1.files ≡ lookup other d.files)
      × ((save lib cfg faults d u name draws).1.chunks ≡ d.chunks)
unfolding save gen_path
save-stores lib cfg faults d u name draws path other r big e ne =
    let dst = lib.join cfg.dir (stored_name name draws) in
    let safe = is_element-stored_name name draws r in
    elim (Option-cases (accepted cfg.max_size u)) [
      | inl large ↦ ground (arith, e, large)
      | inr (bytes, fits) ↦
          let (same, within) = accepted-held cfg.max_size u bytes big fits in
          let reads = lookup_inserted dst d.files bytes in
          let keeps : key_eq other dst ≡ false
              → lookup other (insert dst bytes d.files) ≡ lookup other d.files =
            lookup-others dst other d.files bytes in
          ground (arith, e, ne, fits, same, within, safe, reads, keeps)
    ]

-- What `ChunkMerge` returns where the checks pass and the id is valid: the result of the merge of the
-- chunks of the directory of that id, to a path that lies directly in the directory.
pub chunk_merge_lem :
    (lib : Library) (cfg : FileConfig) (faults : Faults) (d : Disk) (id name : Key)
    (draws : List (Option ℕ))
    → InRange draws
    → key_eq name [] ≡ false
    → check_name_and_ext lib cfg name ≡ none
    → valid_upload_id lib.runes_of lib.is_space id ≡ true
    → ((chunk_merge lib cfg faults d id name draws).1
        ≡ (merge_files faults d
            (lib.join cfg.dir id)
            (lib.join cfg.dir (stored_name name draws))).1)
      × (is_element id ≡ true)
      × (is_element (stored_name name draws) ≡ true)
unfolding chunk_merge upload_id_path gen_path
chunk_merge_lem lib cfg faults d id name draws r n c v =
    let merged =
      merge_files faults d (lib.join cfg.dir id) (lib.join cfg.dir (stored_name name draws)) in
    let whole : (chunk_merge lib cfg faults d id name draws).1 ≡ merged.1 =
      rw (n, c, v)
        (elim (Option-cases merged.0) [
          | inl fine ↦ rw fine refl
          | inr (e, failed) ↦ rw failed refl
        ]) in
    (
      whole,
      (valid_upload_id-is_element lib.runes_of lib.is_space id v).1,
      (is_element-stored_name name draws r).1,
    )

-- A `Save` that returns an error has changed nothing.
pub save-fails :
    (lib : Library) (cfg : FileConfig) (faults : Faults) (d : Disk) (u : FileUpload) (name : Key)
    (draws : List (Option ℕ)) (e : UploadError)
    → (save lib cfg faults d u name draws).0 ≡ inl e
    → (save lib cfg faults d u name draws).1 ≡ d
unfolding save
save-fails lib cfg faults d u name draws e h = ground (arith, h)
