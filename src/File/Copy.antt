-- ===== src/File/Copy.antt =====
-- pkg/file/copy.go, and `withPathLock` of pkg/file/internal.go. `filepath.Join` and the canonical form
-- of a path are arguments, and so is what fails on the disk, by path.
pub mod Trees
mod Tests
use go_oam.Base.{
  ℕ, ◌%◌, Bool, true, false, ◌||◌, List, [], ◌∷◌, ◌==◌, if◌then◌else◌, Key, fnv32, insert,
}

-- What a directory holds, in the order of `os.ReadDir`: files with their content, entries that are
-- neither files nor directories, and directories.
pub data Entries : Type 0 where
  no_more : Entries
  file : Key → Key → Entries → Entries
  special : Key → Entries → Entries
  folder : Key → Entries → Entries → Entries

-- Paths as the standard library handles them: `join` of two, and the absolute clean lower-case form.
pub record Paths : Type 0 where
  pub join : Key → Key → Key
  pub canonical : Key → Key

-- What fails, by path: to open or to list a source, to make a directory, and to write a file.
-- `same_file` says that the destination is there and is its source.
pub record Disk : Type 0 where
  pub opens : Key → Bool
  pub makes : Key → Bool
  pub writes : Key → Bool
  pub same_file : Key → Bool

pub data CopyError : Type 0 where
  cannot_open : CopyError
  not_regular : CopyError
  cannot_make : CopyError
  cannot_write : CopyError

-- A call comes back with the files that are there then, or it waits for a lock that it holds.
pub data Outcome : Type 0 where
  done : List (Key × Key) → Outcome
  failed : CopyError → List (Key × Key) → Outcome
  waits : Outcome

-- The number of the lock of a path.
unfoldable pub lock_of : Paths → Key → ℕ
lock_of paths path = fnv32 (paths.canonical path) % 64

abbrev pub holds : ℕ → List ℕ → Bool
holds i [] = false
holds i (j ∷ js) = i == j || holds i js

-- `copyFileLocked` of a file and of another entry that is not a directory.
unfoldable pub copy_file_locked : Disk → Key → Key → Key → List (Key × Key) → Outcome
copy_file_locked disk src dst content files =
    if disk.opens src
    then failed cannot_open files
    else (if disk.same_file dst
        then done files
        else (if disk.makes dst
            then failed cannot_make files
            else (if disk.writes dst
                then failed cannot_write files
                else done (insert dst content files))))

unfoldable pub copy_special : Disk → Key → List (Key × Key) → Outcome
copy_special disk src files =
    if disk.opens src then failed cannot_open files else failed not_regular files

-- `CopyFile`, which holds no other lock.
unfoldable pub copy_file : Disk → Key → Key → Key → List (Key × Key) → Outcome
unfolding copy_file_locked
copy_file disk src dst content files = copy_file_locked disk src dst content files

-- The loop of `copyDirLocked` over the entries, with the locks that are held. For a directory it is
-- `CopyDir`, which takes the lock of the new directory and lists and makes it first.
unfoldable pub copy_entries :
    Paths → Disk → List ℕ → Key → Key → Entries → List (Key × Key) → Outcome
unfolding copy_file_locked copy_special lock_of
copy_entries paths disk held src dst no_more files = done files
copy_entries paths disk held src dst (file name content rest) files =
    elim (copy_file_locked disk (paths.join src name) (paths.join dst name) content files) [
      | done files' ↦ copy_entries paths disk held src dst rest files'
      | failed e files' ↦ failed e files'
      | waits ↦ waits
    ]
copy_entries paths disk held src dst (special name rest) files =
    copy_special disk (paths.join src name) files
copy_entries paths disk held src dst (folder name sub rest) files =
    let src' = paths.join src name in
    let dst' = paths.join dst name in
    let lock = lock_of paths dst' in
    let copied = copy_entries paths disk (lock ∷ held) src' dst' sub files in
    let outcome =
      if holds lock held
      then waits
      else (if disk.opens src'
          then failed cannot_open files
          else (if disk.makes dst' then failed cannot_make files else copied)) in
    elim outcome [
      | done files' ↦ copy_entries paths disk held src dst rest files'
      | failed e files' ↦ failed e files'
      | waits ↦ waits
    ]

-- `CopyDir`, called with no lock held.
unfoldable pub copy_dir : Paths → Disk → Key → Key → Entries → List (Key × Key) → Outcome
unfolding copy_entries lock_of
copy_dir paths disk src dst entries files =
    if disk.opens src
    then failed cannot_open files
    else (if disk.makes dst
        then failed cannot_make files
        else copy_entries paths disk (lock_of paths dst ∷ []) src dst entries files)
