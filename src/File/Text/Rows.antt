-- ===== src/File/Text/Rows.antt =====
-- Rows that are written are read back.
use mathlib.Core.List.{append_assoc, append-nil}
use go_oam.Base.{
  ℕ, ◌-◌, ◌^◌, ◌<◌, ◌≡◌, ◌≢◌, refl, sym, ap, subst, ◌∙◌, Bool, true, false, not, ◌&&◌, ◌||◌, Option,
  none, List, [], ◌∷◌, ◌++◌, map, arith, ltb, ◌==◌, length, Key,
}
use go_oam.File.Text.{
  join, starts_with, split_from, split, drop_cr, scan_lines, each_line, txt_line_read, collect,
  txt_line_read_all, lines_of, txt_line_write, txt_write,
}

abbrev pub has_byte : ℕ → Key → Bool
has_byte c [] = false
has_byte c (b ∷ bs) = b == c || has_byte c bs

abbrev pub ends_cr : Key → Bool
ends_cr [] = false
ends_cr (b ∷ []) = b == 13
ends_cr (b ∷ c ∷ cs) = ends_cr (c ∷ cs)

-- A row whose fields do not have the first byte of the separator, and which fits on one line.
abbrev pub no_field_has : ℕ → List Key → Bool
no_field_has c [] = true
no_field_has c (f ∷ fs) = not (has_byte c f) && no_field_has c fs

abbrev pub Fits : ℕ → Key → List Key → Type 0
Fits c cs row =
    (length row ≢ 0)
    × (no_field_has c row ≡ true)
    × (has_byte 10 (join (c ∷ cs) row) ≡ false)
    × (ends_cr (join (c ∷ cs) row) ≡ false)
    × (length (join (c ∷ cs) row) < 2 ^ 20)

abbrev pub AllFit : ℕ → Key → List (List Key) → Type 0
AllFit c cs [] = Unit
AllFit c cs (row ∷ rows) = Fits c cs row × AllFit c cs rows

drop_cr_lem : (line : Key) → ends_cr line ≡ false → drop_cr line ≡ line
drop_cr_lem [] e = refl
drop_cr_lem (b ∷ []) e = ground (arith, e)
drop_cr_lem (b ∷ c ∷ cs) e = ap (λ l. b ∷ l) (drop_cr_lem (c ∷ cs) e)

split_from-skip :
    (sep field cs text : Key)
    → split_from sep (length cs) field (cs ++ text) ≡ split_from sep 0 field text
unfolding split_from
split_from-skip sep field [] text = refl
split_from-skip sep field (c ∷ cs) text = split_from-skip sep field cs text

starts_with-append : (p text : Key) → starts_with p (p ++ text) ≡ true
starts_with-append [] text = refl
starts_with-append (b ∷ p) text = ground (arith, starts_with-append p text)

split_from-separator :
    (c : ℕ) (cs field text : Key)
    → split_from (c ∷ cs) 0 field (c ∷ cs ++ text) ≡ field ∷ split_from (c ∷ cs) 0 [] text
unfolding split_from
split_from-separator c cs field text =
    let starts : starts_with (c ∷ cs) (c ∷ cs ++ text) ≡ true = starts_with-append (c ∷ cs) text in
    let size : length (c ∷ cs) - 1 ≡ length cs = omega arith in
    rw (starts, size) (ap (λ r. field ∷ r) (split_from-skip (c ∷ cs) [] cs text))

split_from-field :
    (c : ℕ) (cs field f text : Key)
    → has_byte c f ≡ false
    → split_from (c ∷ cs) 0 field (f ++ text) ≡ split_from (c ∷ cs) 0 (field ++ f) text
unfolding split_from
split_from-field c cs field [] text h =
    ap (λ g. split_from (c ∷ cs) 0 g text) (sym (append-nil field))
split_from-field c cs field (b ∷ f) text h =
    let differs : (c == b) ≡ false = ground (arith, h) in
    let rest : has_byte c f ≡ false = ground (arith, h) in
    rw differs (
      split_from-field c cs (field ++ b ∷ []) f text rest
      ∙ ap (λ g. split_from (c ∷ cs) 0 g text) (append_assoc field (b ∷ []) f))

last_field : (c : ℕ) (cs f : Key) → split_from (c ∷ cs) 0 f [] ≡ f ∷ []
unfolding split_from
last_field c cs f = refl

split_from-join :
    (c : ℕ) (cs f : Key) (fs : List Key)
    → no_field_has c (f ∷ fs) ≡ true
    → split_from (c ∷ cs) 0 [] (join (c ∷ cs) (f ∷ fs)) ≡ f ∷ fs
split_from-join c cs f [] h =
    ap (λ t. split_from (c ∷ cs) 0 [] t) (sym (append-nil f))
    ∙ split_from-field c cs [] f [] (ground (arith, h))
    ∙ last_field c cs f
split_from-join c cs f (g ∷ fs) h =
    let free : has_byte c f ≡ false = ground (arith, h) in
    let later : no_field_has c (g ∷ fs) ≡ true = ground (arith, h) in
    split_from-field c cs [] f (c ∷ cs ++ join (c ∷ cs) (g ∷ fs)) free
    ∙ split_from-separator c cs f (join (c ∷ cs) (g ∷ fs))
    ∙ ap (λ r. f ∷ r) (split_from-join c cs g fs later)

scan_lines-line :
    (before line text : Key)
    → has_byte 10 line ≡ false
    → length (before ++ line) < 2 ^ 20
    → scan_lines before (line ++ 10 ∷ text)
      ≡ (drop_cr (before ++ line) ∷ (scan_lines [] text).0, (scan_lines [] text).1)
unfolding scan_lines
scan_lines-line before [] text h s =
    let whole : before ++ [] ≡ before = append-nil before in
    let short : ltb (length before) (2 ^ 20) ≡ true = ground (arith, ap (λ l. length l) whole, s) in
    rw (whole, short) refl
scan_lines-line before (b ∷ line) text h s =
    let other : (b == 10) ≡ false = ground (arith, h) in
    let rest : has_byte 10 line ≡ false = ground (arith, h) in
    let joined = append_assoc before (b ∷ []) line in
    let size : length ((before ++ b ∷ []) ++ line) < 2 ^ 20 =
      subst (λ l. length l < 2 ^ 20) (sym joined) s in
    rw other (
      scan_lines-line (before ++ b ∷ []) line text rest size
      ∙ ap (λ l. (drop_cr l ∷ (scan_lines [] text).0, (scan_lines [] text).1)) joined)

scan_lines-lines_of :
    (c : ℕ) (cs : Key) (rows : List (List Key))
    → AllFit c cs rows
    → scan_lines [] (lines_of (c ∷ cs) rows) ≡ (map (join (c ∷ cs)) rows, false)
unfolding scan_lines
scan_lines-lines_of c cs [] v = refl
scan_lines-lines_of c cs (row ∷ rows) ((some_field, free, whole, cr, size), v) =
    let line = join (c ∷ cs) row in
    scan_lines-line [] line (lines_of (c ∷ cs) rows) whole size
    ∙ ap (λ r. (drop_cr line ∷ r.0, r.1)) (scan_lines-lines_of c cs rows v)
    ∙ ap (λ l. (l ∷ map (join (c ∷ cs)) rows, false)) (drop_cr_lem line cr)

module _ {E : Type 0} where
  each_line-join :
      (explode : Key → List Key) (c : ℕ) (cs : Key) (before rows : List (List Key))
      → AllFit c cs rows
      → each_line {E = E} explode (c ∷ cs) collect before (map (join (c ∷ cs)) rows)
        ≡ (before ++ rows, none)
  unfolding each_line split
  each_line-join explode c cs before [] v = ap (λ b. (b, none)) (sym (append-nil before))
  each_line-join explode c cs before ([] ∷ rows) ((some_field, free, whole, cr, size), v) =
      absurd (some_field refl)
  each_line-join explode c cs before ((f ∷ fs) ∷ rows) ((some_field, free, whole, cr, size), v) =
      ap
        (λ row.
          (each_line {E = E} explode (c ∷ cs) collect (before ++ row ∷ [])
            (map (join (c ∷ cs)) rows)))
        (split_from-join c cs f fs free)
      ∙ each_line-join explode c cs (before ++ (f ∷ fs) ∷ []) rows v
      ∙ ap (λ b. (b, none)) (append_assoc before ((f ∷ fs) ∷ []) rows)

  -- Rows that are written without a fault are read back as they were, where each row has a field, no
  -- field has the first byte of the separator, and the row as it is printed is shorter than 2 ^ 20
  -- bytes, has no line break and does not end with a carriage return.
  pub txt_line_read_all-txt_line_write :
      (explode : Key → List Key) (file : Option Key) (c : ℕ) (cs : Key) (rows : List (List Key))
      → AllFit c cs rows
      → txt_line_read_all {E = E} explode
          (txt_line_write {E = E} false file (c ∷ cs) rows).1
          (c ∷ cs)
        ≡ (rows, none)
  unfolding txt_line_read_all txt_line_read txt_line_write txt_write
  txt_line_read_all-txt_line_write explode file c cs rows v =
      rw (scan_lines-lines_of c cs rows v, each_line-join explode c cs [] rows v) refl
