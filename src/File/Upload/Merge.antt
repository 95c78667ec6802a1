-- ===== src/File/Upload/Merge.antt =====
-- A merge writes the chunks in the order of their indices.
use go_oam.Base.{
  ℕ, zero, suc, ◌+◌, ◌^◌, ◌≤◌, ◌<◌, ◌≡◌, ◌≢◌, inl, inr, refl, sym, ap, ◌∙◌, Bool, true, false, ◌||◌,
  none, some, is_some, List, [], ◌∷◌, ◌++◌, arith, ltb, leb, ◌==◌, length, subst, Bool-cases,
  Option-cases, Key, key_eq_refl, lookup, insert, delete,
}
use go_oam.File.Digits.{format_uint, parse_uint, parse_uint-format_uint, format_uint-eq}
use go_oam.File.Upload.{
  Entry, Disk, Faults, ChunkFile, seen_in, scan, put, sort, read_chunk_files, copy_all, merge_files,
}

-- The entries are chunks, each under the name of its own index.
abbrev pub AreChunks : List (Key × Entry) → Type 0
AreChunks [] = Unit
AreChunks ((name, e) ∷ dir) =
    ((i : ℕ) × (i < 2 ^ 64) × (name ≡ format_uint i))
    × (e.is_regular ≡ true)
    × (lookup name dir ≡ none)
    × AreChunks dir

-- The contents of the chunks from one index on, as many as there may be.
unfoldable pub in_order : List (Key × Entry) → ℕ → ℕ → Key
in_order dir from zero = []
in_order dir from (suc n) =
    let rest = in_order dir (suc from) n in
    elim (lookup (format_uint from) dir) [ none ↦ rest | some e ↦ e.content ++ rest ]

abbrev has_index : ℕ → List ChunkFile → Bool
has_index i [] = false
has_index i (f ∷ fs) = (i == f.index) || has_index i fs

-- The files stand for the entries.
record IsListing (dir : List (Key × Entry)) (files : List ChunkFile) : Type 0 where
  covers : (i : ℕ) → i < 2 ^ 64 → has_index i files ≡ is_some (lookup (format_uint i) dir)

abbrev AreNamed : List ChunkFile → Type 0
AreNamed [] = Unit
AreNamed (f ∷ fs) = (f.index < 2 ^ 64) × (f.name ≡ format_uint f.index) × AreNamed fs

abbrev AreApart : List ChunkFile → Type 0
AreApart [] = Unit
AreApart (f ∷ fs) = (has_index f.index fs ≡ false) × AreApart fs

scan_lem :
    (dir : List (Key × Entry)) (seen : List ℕ)
    → AreChunks dir
    → ((j : ℕ) → j < 2 ^ 64 → seen_in j seen ≡ true → lookup (format_uint j) dir ≡ none)
    → (files : List ChunkFile) × (scan dir seen ≡ inr files)
      × IsListing dir files
      × AreNamed files
      × AreApart files
      × (length files ≡ length dir)
unfolding scan
scan_lem [] seen v fresh = ([], refl, record { covers = λ i h. refl }, tt, tt, refl)
scan_lem ((name, e) ∷ dir) seen ((i, small, n), regular, alone, v) fresh =
    let absent : lookup (format_uint i) dir ≡ none = ap (λ k. lookup k dir) (sym n) ∙ alone in
    let unseen : seen_in i seen ≡ false = elim (Bool-cases (seen_in i seen)) [
      | inl s ↦ ground (arith, fresh i small s, key_eq_refl (format_uint i))
      | inr s ↦ s
    ] in
    let (files, listed, covered, named, apart, size) = scan_lem dir (i ∷ seen) v (λ j h s.
      elim (Bool-cases (j == i)) [
        | inl same ↦ ground (arith, absent)
        | inr differ ↦ ground (arith, fresh j h, format_uint-eq j i h small)
      ]) in
    let read : parse_uint name ≡ some i = ap parse_uint n ∙ parse_uint-format_uint i small in
    (
      record { name = name; index = i } ∷ files,
      rw (read, unseen, listed) (ground arith),
      record { covers = λ j h. ground (arith, covered.covers j h, format_uint-eq j i h small) },
      (small, n, named),
      (covered.covers i small ∙ ground arith, apart),
      ap suc size,
    )

abbrev AreAbove : ℕ → List ChunkFile → Type 0
AreAbove n [] = Unit
AreAbove n (f ∷ fs) = (n < f.index) × AreAbove n fs

abbrev AreSorted : List ChunkFile → Type 0
AreSorted [] = Unit
AreSorted (f ∷ fs) = AreAbove f.index fs × AreSorted fs

abbrev AreWithin : ℕ → ℕ → List ChunkFile → Type 0
AreWithin low high [] = Unit
AreWithin low high (f ∷ fs) = (low ≤ f.index) × (f.index < high) × AreWithin low high fs

has_index-put :
    (i : ℕ) (f : ChunkFile) (fs : List ChunkFile)
    → has_index i (put f fs) ≡ (i == f.index) || has_index i fs
has_index-put i f [] = refl
has_index-put i f (g ∷ gs) = ground (arith, has_index-put i f gs)

has_index-sort : (i : ℕ) (fs : List ChunkFile) → has_index i (sort fs) ≡ has_index i fs
has_index-sort i [] = refl
has_index-sort i (f ∷ fs) = ground (arith, has_index-put i f (sort fs), has_index-sort i fs)

length-put : (f : ChunkFile) (fs : List ChunkFile) → length (put f fs) ≡ suc (length fs)
length-put f [] = refl
length-put f (g ∷ gs) = ground (arith, length-put f gs)

length-sort : (fs : List ChunkFile) → length (sort fs) ≡ length fs
length-sort [] = refl
length-sort (f ∷ fs) = length-put f (sort fs) ∙ ap suc (length-sort fs)

put-AreNamed :
    (f : ChunkFile) (fs : List ChunkFile)
    → f.index < 2 ^ 64
    → f.name ≡ format_uint f.index
    → AreNamed fs
    → AreNamed (put f fs)
put-AreNamed f [] h n v = (h, n, tt)
put-AreNamed f (g ∷ gs) h n v = elim (Bool-cases (leb f.index g.index)) [
  | inl le ↦ rw le (h, n, v)
  | inr gt ↦ rw gt (v.0, v.1, put-AreNamed f gs h n v.2)
]

sort-AreNamed : (fs : List ChunkFile) → AreNamed fs → AreNamed (sort fs)
sort-AreNamed [] v = tt
sort-AreNamed (f ∷ fs) v = put-AreNamed f (sort fs) v.0 v.1 (sort-AreNamed fs v.2)

above_trans : (m n : ℕ) (fs : List ChunkFile) → m < n → AreAbove n fs → AreAbove m fs
above_trans m n [] h v = tt
above_trans m n (f ∷ fs) h v = (omega (arith, v.0), above_trans m n fs h v.1)

put-AreAbove :
    (n : ℕ) (f : ChunkFile) (fs : List ChunkFile)
    → n < f.index
    → AreAbove n fs
    → AreAbove n (put f fs)
put-AreAbove n f [] h v = (h, tt)
put-AreAbove n f (g ∷ gs) h v = elim (Bool-cases (leb f.index g.index)) [
  | inl le ↦ rw le (h, v)
  | inr gt ↦ rw gt (v.0, put-AreAbove n f gs h v.1)
]

put-AreSorted :
    (f : ChunkFile) (fs : List ChunkFile)
    → has_index f.index fs ≡ false
    → AreSorted fs
    → AreSorted (put f fs)
put-AreSorted f [] a v = (tt, tt)
put-AreSorted f (g ∷ gs) a v = elim (Bool-cases (leb f.index g.index)) [
  | inl le ↦
      let below : f.index < g.index = ground arith in
      rw le ((below, above_trans f.index g.index gs below v.0), v)
  | inr gt ↦
      rw gt (put-AreAbove g.index f gs (ground arith) v.0, put-AreSorted f gs (ground arith) v.1)
]

sort-AreSorted : (fs : List ChunkFile) → AreApart fs → AreSorted (sort fs)
sort-AreSorted [] v = tt
sort-AreSorted (f ∷ fs) v =
    put-AreSorted f (sort fs) (has_index-sort f.index fs ∙ v.0) (sort-AreSorted fs v.1)

put-above : (f : ChunkFile) (fs : List ChunkFile) → AreAbove f.index fs → put f fs ≡ f ∷ fs
put-above f [] v = refl
put-above f (g ∷ gs) v = ground (arith, v.0)

sort-sorted : (fs : List ChunkFile) → AreSorted fs → sort fs ≡ fs
sort-sorted [] v = refl
sort-sorted (f ∷ fs) v = ap (put f) (sort-sorted fs v.1) ∙ put-above f fs v.0

absent_above : (n : ℕ) (fs : List ChunkFile) → AreAbove n fs → has_index n fs ≡ false
absent_above n [] v = refl
absent_above n (f ∷ fs) v = ground (arith, v.0, absent_above n fs v.1)

from_above :
    (low n high : ℕ) (fs : List ChunkFile)
    → AreAbove n fs
    → AreWithin low high fs
    → AreWithin (suc n) high fs
from_above low n high [] v w = tt
from_above low n high (f ∷ fs) v w = (v.0, w.1, from_above low n high fs v.1 w.2)

within_of :
    (n : ℕ) (fs : List ChunkFile)
    → AreNamed fs
    → ((i : ℕ) → n ≤ i → i < 2 ^ 64 → has_index i fs ≡ false)
    → AreWithin 0 n fs
within_of n [] v h = tt
within_of n (f ∷ fs) v h = elim (Bool-cases (ltb f.index n)) [
  | inl below ↦
      (omega arith, ground arith, within_of n fs v.2 (λ i le small. ground (arith, h i le small)))
  | inr above ↦ absurd (ground (arith, h f.index (ground arith) v.0))
]

module _ (faults : Faults) (dir : List (Key × Entry))
    (safe : (name : Key) → faults.copies name ≡ false) where
  copy_all_lem :
      (files : List ChunkFile) (from n : ℕ)
      → from + n ≤ 2 ^ 64
      → AreSorted files
      → AreNamed files
      → AreWithin from (from + n) files
      → ((i : ℕ) → from ≤ i → i < 2 ^ 64 → has_index i files ≡ is_some (lookup (format_uint i) dir))
      → copy_all faults dir files ≡ some (in_order dir from n)
  unfolding copy_all in_order
  copy_all_lem [] from zero l s v w c = refl
  copy_all_lem (f ∷ fs) from zero l s v w c = absurd (omega (arith, w.0, w.1))
  copy_all_lem [] from (suc n) l s v w c =
      let rest =
        copy_all_lem [] (suc from) n (omega (arith, l)) tt tt tt
          (λ i h small. c i (omega (arith, h)) small) in
      ground (arith, c from, l, rest)
  copy_all_lem (f ∷ fs) from (suc n) l s v w c =
      let shift : from + suc n ≡ suc from + n = omega arith in
      elim (Bool-cases (f.index == from)) [
        | inl first ↦
            let at : f.index ≡ from = ground arith in
            let tail : AreWithin (suc from) (suc from + n) fs =
              subst (λ t. AreWithin (suc from) t fs) shift
                (subst (λ k. AreWithin (suc k) (from + suc n) fs) at
                  (from_above from f.index (from + suc n) fs s.0 w.2)) in
            let later =
              copy_all_lem fs (suc from) n (omega (arith, l)) s.1 v.2 tail
                (λ i h small. ground (arith, c i, h, small, at)) in
            elim (Option-cases (lookup (format_uint from) dir)) [
              | inl absent ↦ absurd (ground (arith, c from, l))
              | inr (e, there) ↦
                  let found : lookup f.name dir ≡ some e =
                    ap (λ k. lookup k dir) (v.1 ∙ ap format_uint at) ∙ there in
                  ground (arith, safe f.name, later, there, found)
            ]
        | inr beyond ↦
            let past : from < f.index = ground (arith, w.0) in
            let above = above_trans from f.index fs past s.0 in
            let tail : AreWithin (suc from) (suc from + n) (f ∷ fs) =
              subst (λ t. AreWithin (suc from) t (f ∷ fs)) shift
                (past, w.1, from_above from from (from + suc n) fs above w.2) in
            let rest =
              copy_all_lem (f ∷ fs) (suc from) n (omega (arith, l)) s v tail
                (λ i h small. c i (omega (arith, h)) small) in
            let skip : in_order dir from (suc n) ≡ in_order dir (suc from) n =
              ground (arith, c from, l, absent_above from fs above) in
            rest ∙ ap some (sym skip)
      ]

  -- A merge without a fault of the disk, of a directory that holds chunks with indices below `n`: the
  -- file is the chunk of index 0, then that of index 1, and so on, in whatever order the directory
  -- lists them; the directory is gone.
  pub merge_files_lem :
      (d : Disk) (id dst : Key) (n : ℕ)
      → n ≤ 2 ^ 64
      → lookup id d.chunks ≡ some dir
      → AreChunks dir
      → length dir ≢ 0
      → ((i : ℕ) → n ≤ i → i < 2 ^ 64 → lookup (format_uint i) dir ≡ none)
      → faults.writes ≡ false
      → faults.removes ≡ false
      → merge_files faults d id dst ≡ (
        none,
        record d { files = insert dst (in_order dir 0 n) d.files; chunks = delete id d.chunks },
      )
  unfolding merge_files read_chunk_files
  merge_files_lem d id dst n l there v some_left below w r =
      let (files, listed, covered, named, apart, size) =
        scan_lem dir [] v (λ j h s. absurd (ground (arith, s))) in
      let sorted = sort-AreSorted files apart in
      let within = within_of n (sort files) (sort-AreNamed files named) (λ i h small.
        ground (arith, has_index-sort i files, covered.covers i small, below i h small)) in
      let whole : AreWithin 0 (0 + n) (sort files) =
        subst (λ t. AreWithin 0 t (sort files)) (omega arith) within in
      let copied : copy_all faults dir (sort files) ≡ some (in_order dir 0 n) =
        copy_all_lem (sort files) 0 n (omega (arith, l)) sorted (sort-AreNamed files named) whole
          (λ i h small. has_index-sort i files ∙ covered.covers i small) in
      let twice : sort (sort files) ≡ sort files = sort-sorted (sort files) sorted in
      let filled : length (sort files) ≡ length dir = length-sort files ∙ size in
      ground (arith, there, listed, twice, copied, filled, w, r, some_left)
