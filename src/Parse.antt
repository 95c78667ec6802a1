-- ===== src/Parse.antt =====
-- pkg/parse/parse.go: `SafeContent` on the runes of a text, `ConvertIPMask`, and `IsText` on what the
-- UTF-8 decoder returns, which is `none` for bytes that are not valid.
pub mod Laws
mod Tests
use go_oam.Base.{
  ℕ, zero, suc, ◌+◌, ◌-◌, ◌*◌, ◌/◌, ◌%◌, ◌^◌, Bool, true, false, not, ◌&&◌, ◌||◌, Option, none,
  some, List, [], ◌∷◌, ◌++◌, ltb, leb, ◌==◌, if◌then◌else◌, length, take, drop, replicate, Key, ℤ,
  pos, negsuc,
}
use go_oam.File.Digits.{format_uint}

-- The first `a` and the last `b` runes, with `*` for the others.
abbrev pub masked : ℕ → ℕ → List ℕ → List ℕ
masked a b runes =
    take a runes ++ replicate (length runes - (a + b)) 42 ++ drop (length runes - b) runes

unfoldable pub safe_content : List ℕ → List ℕ
safe_content runes =
    let n = length runes in
    if ltb n 3
    then replicate n 42
    else (if ltb n 6
        then masked 1 0 runes
        else (if ltb n 10
            then masked 1 1 runes
            else (if ltb n 15 then masked 2 2 runes else masked 3 3 runes)))

-- The 32 bits of a mask; the shift of the ones wraps at 32 bits.
unfoldable pub mask_of : ℕ → ℕ
mask_of bits =
    if bits == 0 then 0 else (2 ^ bits % 2 ^ 32 + 2 ^ 32 - 1) % 2 ^ 32 * 2 ^ (32 - bits) % 2 ^ 32

abbrev pub dotted : ℕ → ℕ → ℕ → ℕ → Key
dotted a b c d = format_uint a ++ 46 ∷ format_uint b ++ 46 ∷ format_uint c ++ 46 ∷ format_uint d

unfoldable pub convert_ip_mask : ℤ → Key
unfolding mask_of
convert_ip_mask (negsuc n) = dotted 255 255 255 255
convert_ip_mask (pos bits) =
    let mask = mask_of bits in
    if ltb 32 bits
    then dotted 255 255 255 255
    else dotted (mask / 2 ^ 24) (mask / 2 ^ 16 % 256) (mask / 2 ^ 8 % 256) (mask % 256)

abbrev pub all_text : List ℕ → Bool
all_text [] = true
all_text (r ∷ runes) =
    let rest = all_text runes in
    if ltb r 32 && not (r == 10) && not (r == 13) && not (r == 9) then false else rest

unfoldable pub is_text : (Key → Option (List ℕ)) → Key → Bool
is_text decode bytes =
    if length bytes == 0
    then true
    else elim (decode bytes) [ none ↦ false | some runes ↦ all_text runes ]
