-- ===== src/File/Text.antt =====
-- pkg/file/txt.go: text files, and files of rows. A text is the list of its bytes. The file is an
-- argument, `none` where it cannot be opened, and so is whether the atomic write fails.
pub mod Rows
mod Tests
use go_oam.Base.{
  ℕ, zero, suc, ◌+◌, ◌-◌, ◌^◌, Bool, true, false, not, ◌&&◌, ◌||◌, Option, none, some, List, [],
  ◌∷◌, ◌++◌, map, ltb, ◌==◌, if◌then◌else◌, length, Key,
}

pub data TextError (E : Type 0) : Type 0 where
  cannot_open : TextError E
  cannot_write : TextError E
  line_too_long : TextError E
  by_callback : E → TextError E

-- `strings.Join`
abbrev pub join : Key → List Key → Key
join sep [] = []
join sep (f ∷ []) = f
join sep (f ∷ g ∷ fs) = f ++ (sep ++ join sep (g ∷ fs))

abbrev pub starts_with : Key → Key → Bool
starts_with [] text = true
starts_with (p ∷ ps) [] = false
starts_with (p ∷ ps) (b ∷ bs) = p == b && starts_with ps bs

-- `strings.Split` by a separator of one byte and others, from a place before which `field` is read;
-- `skip` bytes are of the separator.
unfoldable pub split_from : Key → ℕ → Key → Key → List Key
split_from sep skip field [] = field ∷ []
split_from sep zero field (b ∷ bs) =
    let further = split_from sep 0 (field ++ b ∷ []) bs in
    let next = split_from sep (length sep - 1) [] bs in
    if starts_with sep (b ∷ bs) then field ∷ next else further
split_from sep (suc skip) field (b ∷ bs) = split_from sep skip field bs

-- `strings.Split`, which cuts a text into its runes where the separator is empty.
unfoldable pub split : (Key → List Key) → Key → Key → List Key
unfolding split_from
split explode [] text = explode text
split explode (c ∷ cs) text = split_from (c ∷ cs) 0 [] text

-- `bufio.ScanLines` takes a carriage return from the end of a line.

abbrev pub drop_cr : Key → Key
drop_cr [] = []
drop_cr (b ∷ []) = if b == 13 then [] else b ∷ []
drop_cr (b ∷ c ∷ cs) = b ∷ drop_cr (c ∷ cs)

-- The lines that `bufio.Scanner` returns from a place before which `line` is read, and whether it
-- stopped at a line that its buffer does not hold.
unfoldable pub scan_lines : Key → Key → List Key × Bool
scan_lines line [] =
    if ltb (length line) (2 ^ 20)
    then (if length line == 0 then ([], false) else (drop_cr line ∷ [], false))
    else ([], true)
scan_lines line (b ∷ bs) =
    let further = scan_lines (line ++ b ∷ []) bs in
    let next = scan_lines [] bs in
    if b == 10
    then (if ltb (length line) (2 ^ 20) then (drop_cr line ∷ next.0, next.1) else ([], true))
    else further

abbrev pub or_else : {E : Type 0} → Option (TextError E) → Bool → Option (TextError E)
or_else (some e) too_long = some e
or_else none too_long = if too_long then some line_too_long else none

module _ {S E : Type 0} where
  -- The loop of `txtLineReadLocked`; the callback changes a state.
  unfoldable pub each_line :
      (Key → List Key)
      → Key
      → (S → List Key → S × Option E)
      → S
      → List Key
      → S × Option (TextError E)
  unfolding split
  each_line explode sep fn s [] = (s, none)
  each_line explode sep fn s (line ∷ lines) =
      let (s', failed) = fn s (split explode sep line) in
      let rest = each_line explode sep fn s' lines in
      elim failed [ none ↦ rest | some e ↦ (s', some (by_callback e)) ]

  unfoldable pub txt_line_read :
      (Key → List Key)
      → Option Key
      → Key
      → (S → List Key → S × Option E)
      → S
      → S × Option (TextError E)
  unfolding scan_lines each_line
  txt_line_read explode file sep fn s = elim file [
    | none ↦ (s, some cannot_open)
    | some text ↦
        let scanned = scan_lines [] text in
        let read = each_line explode sep fn s scanned.0 in (read.0, or_else read.1 scanned.1)
  ]

-- The rows as they are printed.
abbrev pub lines_of : Key → List (List Key) → Key
lines_of sep [] = []
lines_of sep (row ∷ rows) = join sep row ++ 10 ∷ lines_of sep rows

module _ {E : Type 0} where
  -- The callback of `TXTLineReadAll`.
  abbrev pub collect : List (List Key) → List Key → List (List Key) × Option E
  collect rows row = (rows ++ row ∷ [], none)

  unfoldable pub txt_line_read_all :
      (Key → List Key) → Option Key → Key → List (List Key) × Option (TextError E)
  unfolding txt_line_read
  txt_line_read_all explode file sep = txt_line_read explode file sep collect []

  -- What `txtWriteLocked` makes of a file: with an error it is as before.
  unfoldable pub txt_write : Bool → Option Key → Key → Option (TextError E) × Option Key
  txt_write fails file text = if fails then (some cannot_write, file) else (none, some text)

  unfoldable pub txt_line_write :
      Bool → Option Key → Key → List (List Key) → Option (TextError E) × Option Key
  unfolding txt_write
  txt_line_write fails file sep rows = txt_write fails file (lines_of sep rows)
