-- ===== src/Telnet/Iac/Tests.antt =====
-- A stream with commands in it, cut in two ways.
use go_oam.Base.{◌≡◌, refl, List, [], ◌∷◌, arith, ℕ}
use go_oam.Telnet.Iac.{
  feed, filter, command, find_subneg_end, stash, contains_iac, feed_all, new_processor,
}
use go_oam.Telnet.Iac.Machine.{text, text_of}
use go_oam.Telnet.Iac.Stream.{Fits, concat, feed_all-eq-text_of}

-- `hi` with IAC WILL NAWS inside, cut in the command.
abbrev cut : List (List ℕ)
cut = (104 ∷ 255 ∷ []) ∷ (251 ∷ []) ∷ (31 ∷ 105 ∷ []) ∷ []

abbrev whole : List (List ℕ)
whole = (104 ∷ 255 ∷ 251 ∷ 31 ∷ 105 ∷ []) ∷ []

passed : (feed_all new_processor cut).0 ≡ 104 ∷ 105 ∷ []
unfolding feed_all
passed = refl

cut-Fits : Fits new_processor cut
unfolding feed filter command find_subneg_end stash contains_iac
cut-Fits = (omega arith, (omega arith, (omega arith, tt)))

whole-Fits : Fits new_processor whole
unfolding filter command find_subneg_end feed stash contains_iac
whole-Fits = (omega arith, tt)

feed_all-eq-text_of_example : (feed_all new_processor cut).0 ≡ text_of text (concat cut)
feed_all-eq-text_of_example = feed_all-eq-text_of cut cut-Fits
