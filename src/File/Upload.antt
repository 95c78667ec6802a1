-- ===== src/File/Upload.antt =====
-- pkg/file/upload.go: files and chunks that are saved, and chunks that are merged. A file is the list
-- of its bytes, a directory of chunks lists its entries by name. An operation holds the lock of its
-- directory, and is one step. The paths and the faults of the disk are arguments. A
-- write of a whole file is one step that succeeds or changes nothing, as File/Atomic shows but for a
-- temporary file that may stay behind; directories that are made on the way are left out.
pub mod Merge
pub mod Chunks
pub mod Limit
mod Tests
use go_oam.Base.{
  ℕ, zero, suc, ◌+◌, ◌-◌, ◌*◌, ◌/◌, ◌%◌, ◌^◌, min, ◌⊎◌, inl, inr, Bool, true, false, not, ◌&&◌,
  ◌||◌, Option, none, some, List, [], ◌∷◌, ◌++◌, ltb, leb, ◌==◌, if◌then◌else◌, length, take, Key,
  ℤ, pos, negsuc, lookup, insert, delete,
}
use go_oam.File.Digits.{format_uint, parse_uint}

pub data UploadError : Type 0 where
  name_is_empty : UploadError
  name_too_long : UploadError
  unsupported_ext : UploadError
  no_data : UploadError
  too_large : UploadError
  invalid_index : UploadError
  invalid_id : UploadError
  duplicate_index : ℕ → UploadError
  no_chunks : UploadError
  no_directory : UploadError
  disk_fault : UploadError

-- `Data` and what `Reader` reads, where they are set.
pub record FileUpload : Type 0 where
  pub reader : Option Key
  pub bytes : Option Key

pub record Entry : Type 0 where
  pub is_regular : Bool
  pub content : Key

-- The files, and the directories of chunks by the id of the upload.
pub record Disk : Type 0 where
  pub files : List (Key × Key)
  pub chunks : List (Key × List (Key × Entry))

-- What may fail: the write of a file up to its rename, the copy of a chunk, and the removal of a
-- directory.
pub record Faults : Type 0 where
  pub writes : Bool
  pub copies : Key → Bool
  pub removes : Bool

-- `maxNameLen`
unfoldable pub max_name_len : ℤ → ℕ
max_name_len (pos n) = if n == 0 then 100 else n
max_name_len (negsuc n) = 100

-- `maxSizeBytes`, of a number of megabytes.
unfoldable pub max_size_bytes : ℤ → ℕ
max_size_bytes (negsuc n) = 1024 * 1024
max_size_bytes (pos n) =
    let size = if n == 0 then 1 else n in
    if ltb ((2 ^ 63 - 1) / (1024 * 1024)) size then 2 ^ 63 - 1 else size * 1024 * 1024

-- What `io.Copy` takes from `io.LimitReader(src, limit+1)`: the sum wraps at 64 bits, and nothing is
-- read below 1.
unfoldable pub read_limited : Key → ℕ → Key
read_limited src limit = let n = (limit + 1) % 2 ^ 64 in if leb (2 ^ 63) n then [] else take n src

-- The bytes that `streamToPath` writes.
unfoldable pub stream : Key → ℕ → Option Key
unfolding read_limited
stream src limit =
    let read = read_limited src limit in if ltb limit (length read) then none else some read

-- The bytes of a file or a chunk, by the reader if there is one.
unfoldable pub accepted : ℤ → FileUpload → Option Key
unfolding stream max_size_bytes
accepted max_size u = elim u.reader [
  | some src ↦ stream src (max_size_bytes max_size)
  | none ↦ elim u.bytes [
    | none ↦ none
    | some bytes ↦ if ltb (max_size_bytes max_size) (length bytes) then none else some bytes
  ]
]

abbrev pub is_set : Option Key → Bool
is_set none = false
is_set (some bytes) = true

-- `ChunkSave`, for an id that names `path` where it is valid.
unfoldable pub chunk_save :
    ℤ → Faults → Disk → FileUpload → Option Key → Key → Option UploadError × Disk
unfolding accepted
chunk_save max_size faults d u path index = elim (parse_uint index) [
  | none ↦ (some invalid_index, d)
  | some i ↦ elim path [
    | none ↦ (some invalid_id, d)
    | some id ↦
        if not (is_set u.reader) && not (is_set u.bytes)
        then (some no_data, d)
        else elim (accepted max_size u) [
          | none ↦ (some too_large, d)
          | some bytes ↦ if faults.writes then (some disk_fault, d) else (
            none,
            (let there : List (Key × Entry) = elim (lookup id d.chunks) [
              | none ↦ []
              | some dir ↦ dir
            ] in
                record d {
                  chunks =
                      insert id
                        (insert (format_uint i) (record { is_regular = true; content = bytes })
                          there)
                        d.chunks;
                }),
          )
        ]
  ]
]

pub record ChunkFile : Type 0 where
  pub name : Key
  pub index : ℕ

abbrev pub seen_in : ℕ → List ℕ → Bool
seen_in i [] = false
seen_in i (j ∷ js) = (i == j) || seen_in i js

-- The loop of `readChunkFiles`.
unfoldable pub scan : List (Key × Entry) → List ℕ → UploadError ⊎ List ChunkFile
scan [] seen = inr []
scan ((name, e) ∷ dir) seen =
    if e.is_regular
    then elim (parse_uint name) [
      | none ↦ inl invalid_index
      | some index ↦
          if seen_in index seen
          then inl (duplicate_index index)
          else elim (scan dir (index ∷ seen)) [
            | inl err ↦ inl err
            | inr rest ↦ inr (record { name = name; index = index } ∷ rest)
          ]
    ]
    else scan dir seen

-- `sort.Slice` by the index.
abbrev pub put : ChunkFile → List ChunkFile → List ChunkFile
put f [] = f ∷ []
put f (g ∷ gs) = let rest = put f gs in if leb f.index g.index then f ∷ g ∷ gs else g ∷ rest

abbrev pub sort : List ChunkFile → List ChunkFile
sort [] = []
sort (f ∷ fs) = put f (sort fs)

unfoldable pub read_chunk_files : Option (List (Key × Entry)) → UploadError ⊎ List ChunkFile
unfolding scan
read_chunk_files none = inl no_directory
read_chunk_files (some dir) = elim (scan dir []) [
  | inl err ↦ inl err
  | inr files ↦ inr (sort files)
]

-- The loop of `mergeFiles` over the chunks; `none` is a fault.
unfoldable pub copy_all : Faults → List (Key × Entry) → List ChunkFile → Option Key
copy_all faults dir [] = some []
copy_all faults dir (f ∷ fs) = if faults.copies f.name then none else elim (lookup f.name dir) [
  | none ↦ none
  | some e ↦ elim (copy_all faults dir fs) [ none ↦ none | some rest ↦ some (e.content ++ rest) ]
]

-- `mergeFiles` of the chunks of `id` to the file `dst`.
unfoldable pub merge_files : Faults → Disk → Key → Key → Option UploadError × Disk
unfolding read_chunk_files copy_all
merge_files faults d id dst = elim (lookup id d.chunks) [
  | none ↦ (some no_directory, d)
  | some dir ↦ elim (read_chunk_files (some dir)) [
    | inl err ↦ (some err, d)
    | inr files ↦
        if length files == 0 then (some no_chunks, d) else elim (copy_all faults dir (sort files)) [
          | none ↦ (some disk_fault, d)
          | some bytes ↦
              if faults.writes
              then (some disk_fault, d)
              else (let written = record d { files = insert dst bytes d.files } in
                  if faults.removes
                  then (some disk_fault, written)
                  else (none, record written { chunks = delete id d.chunks }))
        ]
  ]
]
