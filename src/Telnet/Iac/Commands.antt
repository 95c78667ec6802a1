-- ===== src/Telnet/Iac/Commands.antt =====
-- Streams that end outside a command: escaped bytes, and the message of `nawsMessage`.
use go_oam.Base.{
  ℕ, ◌/◌, ◌%◌, ◌≡◌, ◌≢◌, refl, sym, ap, ◌∙◌, inl, inr, true, false, List, [], ◌∷◌, ◌++◌, arith,
  ◌==◌, ==_false, length, Bool-cases,
}
use go_oam.Telnet.Iac.{iac, feed, stash, contains_iac, new_processor, naws_message}
use go_oam.Telnet.Iac.Stream.{plain_lem}
use go_oam.Telnet.Iac.Machine.{text, after, text_of, after-append, text_of-append, filter-IsLeft}

-- Every byte 255 is written twice.
unfoldable pub escape : List ℕ → List ℕ
escape [] = []
escape (b ∷ rest) = elim (b == iac) [ true ↦ iac ∷ iac ∷ escape rest | false ↦ b ∷ escape rest ]

escape_lem :
    (bytes : List ℕ) → (text_of text (escape bytes) ≡ bytes) × (after text (escape bytes) ≡ text)
unfolding escape text_of after
escape_lem [] = (refl, refl)
escape_lem (b ∷ rest) =
    let (same, ends) = escape_lem rest in
    elim (Bool-cases (b == iac)) [
      | inl is ↦ let e : b ≡ iac = ground arith in rw e (ap (λ r. iac ∷ r) same, ends)
      | inr other ↦ rw (other, escape) (rw other (ap (λ r. b ∷ r) same, ends))
    ]

-- A chunk of any length that ends outside a command is filtered at once.
feed_complete :
    (chunk : List ℕ)
    → after text chunk ≡ text
    → feed new_processor chunk ≡ (text_of text chunk, new_processor)
unfolding feed stash
feed_complete chunk e = elim (Bool-cases (contains_iac chunk)) [
  | inl commands ↦
      let l = filter-IsLeft (length chunk) chunk [] (omega arith) in
      elim l.nothing_in_text [
        | inl empty ↦ rw (commands, empty, l.gone) refl
        | inr amid ↦ absurd (amid (l.same_state ∙ e))
      ]
  | inr plain ↦ rw plain (ap (λ out. (out, new_processor)) (sym (plain_lem chunk plain).0))
]

-- A text that is escaped, every byte 255 written twice, comes out of the filter as it was, in one
-- chunk of any length.
pub feed-escape : (bytes : List ℕ) → feed new_processor (escape bytes) ≡ (bytes, new_processor)
feed-escape bytes =
    let (same, ends) = escape_lem bytes in
    feed_complete (escape bytes) ends ∙ ap (λ out. (out, new_processor)) same

-- The machine reads a window size, whose bytes are not 255, to its end without text.
naws_message_lem :
    (h w : ℕ)
    → w / 256 % 256 ≢ iac
    → w % 256 ≢ iac
    → h / 256 % 256 ≢ iac
    → h % 256 ≢ iac
    → (text_of text (naws_message h w) ≡ []) × (after text (naws_message h w) ≡ text)
unfolding naws_message text_of after
naws_message_lem h w n1 n2 n3 n4 =
    rw (==_false _ _ n1, ==_false _ _ n2, ==_false _ _ n3, ==_false _ _ n4) (refl, refl)

-- The filter takes a message of `nawsMessage` out of a text that is escaped, when no byte of the
-- height and the width is 255.
pub feed-naws_message :
    (h w : ℕ) (before behind : List ℕ)
    → w / 256 % 256 ≢ iac
    → w % 256 ≢ iac
    → h / 256 % 256 ≢ iac
    → h % 256 ≢ iac
    → feed new_processor (escape before ++ (naws_message h w ++ escape behind))
      ≡ (before ++ behind, new_processor)
feed-naws_message h w before behind n1 n2 n3 n4 =
    let (same, ends) = escape_lem before in
    let (same', ends') = escape_lem behind in
    let (none_out, back) = naws_message_lem h w n1 n2 n3 n4 in
    let reads : after text (escape before ++ (naws_message h w ++ escape behind)) ≡ text =
      rw (after-append, ends, after-append, back) ends' in
    let emits : text_of text (escape before ++ (naws_message h w ++ escape behind))
        ≡ before ++ behind =
      rw (text_of-append, ends, same, text_of-append, none_out, back, same') refl in
    feed_complete _ reads ∙ ap (λ out. (out, new_processor)) emits
