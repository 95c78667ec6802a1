-- ===== src/File/Copy/Trees.antt =====
-- When a directory is copied as a whole, and when the copy waits for ever.
use go_oam.Base.{
  ℕ, ◌≡◌, refl, Bool, true, false, not, ◌&&◌, List, [], ◌∷◌, ◌++◌, arith, Key, insert,
}
use go_oam.File.Copy.{
  Entries, no_more, file, special, folder, Paths, Disk, done, waits, lock_of, holds,
  copy_file_locked, copy_entries, copy_dir,
}

-- The files of a tree under a directory, with their paths.
abbrev pub listing : Paths → Key → Entries → List (Key × Key)
listing paths dst no_more = []
listing paths dst (file name content rest) = (paths.join dst name, content) ∷ listing paths dst rest
listing paths dst (special name rest) = listing paths dst rest
listing paths dst (folder name sub rest) =
    listing paths (paths.join dst name) sub ++ listing paths dst rest

abbrev pub insert_all : List (Key × Key) → List (Key × Key) → List (Key × Key)
insert_all [] files = files
insert_all ((path, content) ∷ more) files = insert_all more (insert path content files)

abbrev pub no_special : Entries → Bool
no_special no_more = true
no_special (file name content rest) = no_special rest
no_special (special name rest) = false
no_special (folder name sub rest) = no_special sub && no_special rest

-- No directory has the lock of one that it lies in.
abbrev pub no_clash : Paths → List ℕ → Key → Entries → Bool
no_clash paths held dst no_more = true
no_clash paths held dst (file name content rest) = no_clash paths held dst rest
no_clash paths held dst (special name rest) = no_clash paths held dst rest
no_clash paths held dst (folder name sub rest) =
    not (holds (lock_of paths (paths.join dst name)) held)
    && no_clash paths (lock_of paths (paths.join dst name) ∷ held) (paths.join dst name) sub
    && no_clash paths held dst rest

-- A disk without faults, on which no destination is its source.
abbrev pub never : Key → Bool
never path = false

abbrev pub sound : Disk
sound = record { opens = never; makes = never; writes = never; same_file = never }

insert_all-append :
    (a b files : List (Key × Key)) → insert_all (a ++ b) files ≡ insert_all b (insert_all a files)
insert_all-append [] b files = refl
insert_all-append ((path, content) ∷ a) b files = insert_all-append a b (insert path content files)

copy_entries_lem :
    (paths : Paths) (held : List ℕ) (src dst : Key) (entries : Entries) (files : List (Key × Key))
    → no_special entries ≡ true
    → no_clash paths held dst entries ≡ true
    → copy_entries paths sound held src dst entries files
      ≡ done (insert_all (listing paths dst entries) files)
unfolding copy_entries copy_file_locked lock_of
copy_entries_lem paths held src dst no_more files n c = refl
copy_entries_lem paths held src dst (file name content rest) files n c =
    copy_entries_lem paths held src dst rest (insert (paths.join dst name) content files) n c
copy_entries_lem paths held src dst (special name rest) files n c = absurd (ground (arith, n))
copy_entries_lem paths held src dst (folder name sub rest) files n c =
    let dst' = paths.join dst name in
    let lock = lock_of paths dst' in
    let free : holds lock held ≡ false = ground (arith, c) in
    let below =
      copy_entries_lem paths (lock ∷ held) (paths.join src name) dst' sub files (ground (arith, n))
        (ground (arith, c)) in
    let after =
      copy_entries_lem paths held src dst rest (insert_all (listing paths dst' sub) files)
        (ground (arith, n)) (ground (arith, c)) in
    let whole = insert_all-append (listing paths dst' sub) (listing paths dst rest) files in
    ground (arith, free, below, after, whole)

-- A directory of files and directories is copied on a disk without faults, where no directory below
-- the new one has the lock of a directory that it lies in: the call comes back, and the files that are
-- there then are those from before with each file of the tree put under its own path.
pub copy_dir_lem :
    (paths : Paths) (src dst : Key) (entries : Entries) (files : List (Key × Key))
    → no_special entries ≡ true
    → no_clash paths (lock_of paths dst ∷ []) dst entries ≡ true
    → copy_dir paths sound src dst entries files
      ≡ done (insert_all (listing paths dst entries) files)
unfolding copy_dir
copy_dir_lem paths src dst entries files n c =
    copy_entries_lem paths (lock_of paths dst ∷ []) src dst entries files n c

-- A directory whose first directory has, in the copy, the lock of the new directory itself: on a disk
-- without faults the call waits for a lock that it holds, for ever.
pub copy_dir-waits :
    (paths : Paths) (src dst name : Key) (sub rest : Entries) (files : List (Key × Key))
    → lock_of paths (paths.join dst name) ≡ lock_of paths dst
    → copy_dir paths sound src dst (folder name sub rest) files ≡ waits
unfolding copy_dir copy_entries lock_of
copy_dir-waits paths src dst name sub rest files e = ground (arith, e)
