-- ===== src/File/Text/Tests.antt =====
-- A file of two rows.
use go_oam.Base.{ℕ, ◌≡◌, refl, false, none, some, List, [], ◌∷◌, arith, Key}
use go_oam.File.Text.{
  txt_line_write, txt_line_read_all, txt_line_read, each_line, scan_lines, split, split_from,
}
use go_oam.File.Text.Rows.{txt_line_read_all-txt_line_write}

abbrev rows : List (List Key)
rows = ((97 ∷ []) ∷ [] ∷ []) ∷ ((98 ∷ 99 ∷ []) ∷ []) ∷ []

abbrev whole : Key → List Key
whole text = text ∷ []

txt_line_read_all-txt_line_write_example :
    txt_line_read_all {E = ℕ} whole
      (txt_line_write {E = ℕ} false none (44 ∷ 32 ∷ []) rows).1
      (44 ∷ 32 ∷ [])
    ≡ (rows, none)
txt_line_read_all-txt_line_write_example =
    txt_line_read_all-txt_line_write whole none 44 (32 ∷ []) rows (
      (λ e. absurd (omega (arith, e)), refl, refl, refl, ground arith),
      ((λ e. absurd (omega (arith, e)), refl, refl, refl, ground arith), tt),
    )

-- A field that has the separator is read as two.
split_field :
    (txt_line_read_all {E = ℕ} whole (some (97 ∷ 44 ∷ 98 ∷ 10 ∷ [])) (44 ∷ [])).0
    ≡ ((97 ∷ []) ∷ (98 ∷ []) ∷ []) ∷ []
unfolding txt_line_read_all txt_line_read each_line scan_lines split split_from
split_field = refl
