-- ===== src/File/Upload/Chunks.antt =====
-- What was saved in chunks, in any order, is what a merge writes.
use go_oam.Base.{
  ℕ, zero, suc, ◌+◌, ◌^◌, ◌≤◌, ◌<◌, ◌≡◌, inl, inr, refl, ap, ◌∙◌, true, false, Option, none, some,
  List, [], ◌∷◌, ◌++◌, arith, ltb, ◌==◌, if◌then◌else◌, length, Bool-cases, Option-cases, Key,
  key_eq, key_eq_refl, key_eq_sym, ℤ, lookup, insert, lookup-insert, lookup-delete,
}
use go_oam.File.Digits.{format_uint, parse_uint-format_uint, format_uint-eq}
use go_oam.File.Upload.{Entry, Disk, Faults, max_size_bytes, accepted, chunk_save, merge_files}
use go_oam.File.Upload.Merge.{AreChunks, in_order, merge_files_lem}

abbrev chunk : Key → Entry
chunk bytes = record { is_regular = true; content = bytes }

-- Chunks are saved one after another, each with its index.
unfoldable pub save_each : ℤ → Faults → Disk → Key → List (ℕ × Key) → Disk
unfolding chunk_save
save_each max_size faults d id [] = d
save_each max_size faults d id ((i, bytes) ∷ saves) =
    save_each max_size faults
      (chunk_save max_size faults d (record { reader = none; bytes = some bytes }) (some id)
        (format_uint i)).1
      id saves

-- The bytes that were saved last under an index, over an earlier value.
unfoldable pub latest : List (ℕ × Key) → ℕ → Option Key → Option Key
latest [] j before = before
latest ((i, bytes) ∷ saves) j before = latest saves j (if j == i then some bytes else before)

-- They one after another, for as many indices as there may be.
unfoldable pub assembled : List (ℕ × Key) → ℕ → ℕ → Key
unfolding latest
assembled saves from zero = []
assembled saves from (suc n) =
    let rest = assembled saves (suc from) n in
    elim (latest saves from none) [ none ↦ rest | some bytes ↦ bytes ++ rest ]

-- The indices are below `n`, and the chunks within the limit.
abbrev pub AreSaved : ℤ → ℕ → List (ℕ × Key) → Type 0
AreSaved max_size n [] = Unit
AreSaved max_size n ((i, bytes) ∷ saves) =
    (i < n) × (length bytes ≤ max_size_bytes max_size) × AreSaved max_size n saves

insert-AreChunks :
    (i : ℕ) (bytes : Key) (dir : List (Key × Entry))
    → i < 2 ^ 64
    → AreChunks dir
    → AreChunks (insert (format_uint i) (chunk bytes) dir)
insert-AreChunks i bytes [] h v = ((i, h, refl), refl, refl, tt)
insert-AreChunks i bytes ((name, e) ∷ dir) h v = elim (Bool-cases (key_eq (format_uint i) name)) [
  | inl same ↦ rw same (v.0, refl, v.2, v.3)
  | inr other ↦
      let apart : lookup name (insert (format_uint i) (chunk bytes) dir) ≡ none = ground (
        arith,
        v.2,
        lookup-insert (format_uint i) name (chunk bytes) dir,
        key_eq_sym (format_uint i) name,
      ) in
      rw other (v.0, v.1, apart, insert-AreChunks i bytes dir h v.3)
]

unfoldable pub content_at : List (Key × Entry) → ℕ → Option Key
content_at dir j = elim (lookup (format_uint j) dir) [ none ↦ none | some e ↦ some e.content ]

-- The directory after the chunks are saved into it.
abbrev saved_in : List (Key × Entry) → List (ℕ × Key) → List (Key × Entry)
saved_in dir [] = dir
saved_in dir ((i, bytes) ∷ saves) = saved_in (insert (format_uint i) (chunk bytes) dir) saves

saved_in-AreChunks :
    (max_size : ℤ) (n : ℕ) (saves : List (ℕ × Key)) (dir : List (Key × Entry))
    → n ≤ 2 ^ 64
    → AreSaved max_size n saves
    → AreChunks dir
    → AreChunks (saved_in dir saves)
saved_in-AreChunks max_size n [] dir h v c = c
saved_in-AreChunks max_size n ((i, bytes) ∷ saves) dir h v c =
    saved_in-AreChunks max_size n saves (insert (format_uint i) (chunk bytes) dir) h v.2
      (insert-AreChunks i bytes dir (omega (arith, h, v.0)) c)

content_at-empty : (j : ℕ) → content_at [] j ≡ none
unfolding content_at
content_at-empty j = refl

absent_at :
    (j : ℕ) (dir : List (Key × Entry)) → content_at dir j ≡ none → lookup (format_uint j) dir ≡ none
unfolding content_at
absent_at j dir e = elim (Option-cases (lookup (format_uint j) dir)) [
  | inl absent ↦ absent
  | inr (f, there) ↦ ground arith
]

length-put_in : (k : Key) (e : Entry) (dir : List (Key × Entry)) → 1 ≤ length (insert k e dir)
length-put_in k e [] = omega arith
length-put_in k e (p ∷ dir) = ground arith

length-saved_in :
    (saves : List (ℕ × Key)) (dir : List (Key × Entry))
    → 1 ≤ length dir
    → 1 ≤ length (saved_in dir saves)
length-saved_in [] dir h = h
length-saved_in ((i, bytes) ∷ saves) dir h =
    length-saved_in saves (insert (format_uint i) (chunk bytes) dir)
      (length-put_in (format_uint i) (chunk bytes) dir)

content_at-insert :
    (i j : ℕ) (bytes : Key) (dir : List (Key × Entry))
    → i < 2 ^ 64
    → j < 2 ^ 64
    → content_at (insert (format_uint i) (chunk bytes) dir) j
      ≡ (if j == i then some bytes else content_at dir j)
unfolding content_at
content_at-insert i j bytes dir h k =
    ground (
      arith,
      lookup-insert (format_uint i) (format_uint j) (chunk bytes) dir,
      format_uint-eq j i k h,
    )

content_at-saved_in :
    (max_size : ℤ) (n j : ℕ) (saves : List (ℕ × Key)) (dir : List (Key × Entry))
    → n ≤ 2 ^ 64
    → j < 2 ^ 64
    → AreSaved max_size n saves
    → content_at (saved_in dir saves) j ≡ latest saves j (content_at dir j)
unfolding latest
content_at-saved_in max_size n j [] dir h k v = refl
content_at-saved_in max_size n j ((i, bytes) ∷ saves) dir h k v =
    content_at-saved_in max_size n j saves (insert (format_uint i) (chunk bytes) dir) h k v.2
    ∙ ap (latest saves j) (content_at-insert i j bytes dir (omega (arith, h, v.0)) k)

latest-above :
    (max_size : ℤ) (n j : ℕ) (saves : List (ℕ × Key))
    → AreSaved max_size n saves
    → n ≤ j
    → latest saves j none ≡ none
unfolding latest
latest-above max_size n j [] v h = refl
latest-above max_size n j ((i, bytes) ∷ saves) v h =
    let differ : j == i ≡ false = ground (arith, v.0) in
    rw differ (latest-above max_size n j saves v.2 h)

in_order-assembled :
    (dir : List (Key × Entry)) (saves : List (ℕ × Key)) (from n : ℕ)
    → from + n ≤ 2 ^ 64
    → ((j : ℕ) → j < 2 ^ 64 → content_at dir j ≡ latest saves j none)
    → in_order dir from n ≡ assembled saves from n
unfolding in_order assembled content_at
in_order-assembled dir saves from zero h c = refl
in_order-assembled dir saves from (suc n) h c =
    let rest = in_order-assembled dir saves (suc from) n (omega (arith, h)) c in
    ground (arith, rest, c from, h)

module _ (max_size : ℤ) (faults : Faults) (w : faults.writes ≡ false) where
  save_one :
      (d : Disk) (id bytes : Key) (i : ℕ) (dir : List (Key × Entry))
      → i < 2 ^ 64
      → length bytes ≤ max_size_bytes max_size
      → elim (lookup id d.chunks) [ none ↦ [] | some there ↦ there ] ≡ dir
      → (chunk_save max_size faults d
          (record { reader = none; bytes = some bytes })
          (some id)
          (format_uint i)).1
        ≡ record d { chunks = insert id (insert (format_uint i) (chunk bytes) dir) d.chunks }
  unfolding chunk_save accepted
  save_one d id bytes i dir h l e =
      let read = parse_uint-format_uint i h in
      let fits : ltb (max_size_bytes max_size) (length bytes) ≡ false = ground arith in
      rw (read, chunk_save) (rw (fits, w, e) refl)

  saved_lem :
      (d : Disk) (id : Key) (n : ℕ) (saves : List (ℕ × Key)) (dir : List (Key × Entry))
      → n ≤ 2 ^ 64
      → AreSaved max_size n saves
      → lookup id d.chunks ≡ some dir
      → lookup id (save_each max_size faults d id saves).chunks ≡ some (saved_in dir saves)
  unfolding save_each
  saved_lem d id n [] dir h v e = e
  saved_lem d id n ((i, bytes) ∷ saves) dir h v e =
      let first = save_one d id bytes i dir (omega (arith, h, v.0)) v.1 (ground (arith, e)) in
      let next = insert (format_uint i) (chunk bytes) dir in
      ap (λ g. lookup id (save_each max_size faults g id saves).chunks) first
      ∙ saved_lem (record d { chunks = insert id next d.chunks }) id n saves next h v.2
          (ground (arith, lookup-insert id id next d.chunks, key_eq_refl id))

  -- Chunks that are saved in any order, some perhaps more than once, for an upload that had none, and
  -- merged without a fault of the disk: the file is what was saved last for index 0, then for index 1,
  -- and so on below `n`, and the chunks are gone.
  pub merge_files-save_each :
      (d : Disk) (id dst bytes : Key) (i n : ℕ) (saves : List (ℕ × Key))
      → n ≤ 2 ^ 64
      → AreSaved max_size n ((i, bytes) ∷ saves)
      → lookup id d.chunks ≡ none
      → ((name : Key) → faults.copies name ≡ false)
      → faults.removes ≡ false
      → (let r = merge_files faults (save_each max_size faults d id ((i, bytes) ∷ saves)) id dst in
          (r.0 ≡ none)
          × (lookup dst r.1.files ≡ some (assembled ((i, bytes) ∷ saves) 0 n))
          × (lookup id r.1.chunks ≡ none))
  unfolding save_each
  merge_files-save_each d id dst bytes i n saves h v fresh safe r =
      let small : i < 2 ^ 64 = omega (arith, h, v.0) in
      let dir = saved_in [] ((i, bytes) ∷ saves) in
      let saved = save_each max_size faults d id ((i, bytes) ∷ saves) in
      let one = insert (format_uint i) (chunk bytes) [] in
      let there : lookup id saved.chunks ≡ some dir =
        ap (λ g. lookup id (save_each max_size faults g id saves).chunks)
          (save_one d id bytes i [] small v.1 (ground (arith, fresh)))
        ∙ saved_lem (record d { chunks = insert id one d.chunks }) id n saves one h v.2
            (ground (arith, lookup-insert id id one d.chunks, key_eq_refl id)) in
      let contents : (j : ℕ) → j < 2 ^ 64 → content_at dir j ≡ latest ((i, bytes) ∷ saves) j none =
        λ j k.
          content_at-saved_in max_size n j ((i, bytes) ∷ saves) [] h k v
          ∙ ap (latest ((i, bytes) ∷ saves) j) (content_at-empty j) in
      let merged =
        merge_files_lem faults dir safe saved id dst n h there
          (saved_in-AreChunks max_size n ((i, bytes) ∷ saves) [] h v tt)
          (λ z. absurd (omega (arith, length-saved_in saves one (omega arith), z)))
          (λ j le k.
            absent_at j dir (contents j k ∙ latest-above max_size n j ((i, bytes) ∷ saves) v le))
          w r in
      let written = in_order-assembled dir ((i, bytes) ∷ saves) 0 n (omega (arith, h)) contents in
      (
        ap (λ q. q.0) merged,
        ap (λ q. lookup dst q.1.files) merged
            ∙ ground (
              arith,
              lookup-insert dst dst (in_order dir 0 n) saved.files,
              key_eq_refl dst,
              written,
            ),
        ap (λ q. lookup id q.1.chunks) merged
            ∙ ground (arith, lookup-delete id id saved.chunks, key_eq_refl id),
      )
