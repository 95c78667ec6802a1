-- ===== src/Parse/Tests.antt =====
-- A prefix of 20 bits.
use go_oam.Base.{◌+◌, ◌^◌, ◌≡◌, refl, [], ◌∷◌, arith, pos}
use go_oam.Parse.{mask_of, dotted, safe_content, convert_ip_mask}
use go_oam.Parse.Laws.{mask_of_lem}

twenty : convert_ip_mask (pos 20) ≡ dotted 255 255 240 0
unfolding convert_ip_mask mask_of
twenty = refl

hidden : safe_content (1 ∷ 2 ∷ 3 ∷ 4 ∷ 5 ∷ 6 ∷ []) ≡ 1 ∷ 42 ∷ 42 ∷ 42 ∷ 42 ∷ 6 ∷ []
unfolding safe_content
hidden = refl

mask_of_lem_example : mask_of 20 + 2 ^ 12 ≡ 2 ^ 32
mask_of_lem_example = mask_of_lem 20 (ground arith)
