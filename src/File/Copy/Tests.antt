-- ===== src/File/Copy/Tests.antt =====
-- A tree that is copied to `/b`, and one whose copy to `/e` has a directory `/e/q`.
use go_oam.Base.{◌≡◌, refl, [], ◌∷◌, ◌++◌, Key, fnv32, fnv_from, fnv_step}
use go_oam.File.Copy.{Entries, no_more, file, folder, Paths, lock_of, copy_dir, done, waits}
use go_oam.File.Copy.Trees.{sound, listing, insert_all, copy_dir_lem, copy_dir-waits}

abbrev joined : Key → Key → Key
joined dir name = dir ++ 47 ∷ name

abbrev same : Key → Key
same path = path

abbrev plain : Paths
plain = record { join = joined; canonical = same }

-- One file, and a directory `x` with another.
abbrev tree : Entries
tree = file (97 ∷ []) (1 ∷ []) (folder (120 ∷ []) (file (99 ∷ []) (2 ∷ []) no_more) no_more)

copy_dir_lem_example :
    copy_dir plain sound (47 ∷ 115 ∷ []) (47 ∷ 98 ∷ []) tree []
    ≡ done (insert_all (listing plain (47 ∷ 98 ∷ []) tree) [])
unfolding lock_of fnv32 fnv_from fnv_step
copy_dir_lem_example = copy_dir_lem plain (47 ∷ 115 ∷ []) (47 ∷ 98 ∷ []) tree [] refl refl

two_files :
    insert_all (listing plain (47 ∷ 98 ∷ []) tree) []
    ≡ (47 ∷ 98 ∷ 47 ∷ 97 ∷ [], 1 ∷ []) ∷ (47 ∷ 98 ∷ 47 ∷ 120 ∷ 47 ∷ 99 ∷ [], 2 ∷ []) ∷ []
two_files = refl

copy_dir-waits_example :
    copy_dir plain sound (47 ∷ 115 ∷ []) (47 ∷ 101 ∷ []) (folder (113 ∷ []) no_more no_more) []
    ≡ waits
unfolding lock_of fnv32 fnv_from fnv_step
copy_dir-waits_example =
    copy_dir-waits plain (47 ∷ 115 ∷ []) (47 ∷ 101 ∷ []) (113 ∷ []) no_more no_more [] refl
