-- ===== src/File/Range/Tests.antt =====
-- A file of five bytes.
use go_oam.Base.{ℕ, ◌+◌, ◌≤◌, ◌<◌, ◌≡◌, refl, [], ◌∷◌, arith, length, Key, pos}
use go_oam.File.Range.{first_of, read_stream, read_stream_lem}

abbrev five : Key
five = 5 ∷ 6 ∷ 7 ∷ 8 ∷ 9 ∷ []

in_middle : (read_stream five (pos 1) (pos 2)).content ≡ 6 ∷ 7 ∷ []
unfolding read_stream
in_middle = refl

start_within : first_of (pos 1) < length five
unfolding first_of
start_within = ground arith

read_stream_lem_example :
    (last : ℕ) × ((read_stream five (pos 1) (pos 9)).end_at ≡ pos last)
    × ((read_stream five (pos 1) (pos 9)).start ≤ last)
    × (last < 5)
    × (length (read_stream five (pos 1) (pos 9)).content + (read_stream five (pos 1) (pos 9)).start
        ≡ last + 1)
read_stream_lem_example = read_stream_lem five (pos 1) (pos 9) start_within
