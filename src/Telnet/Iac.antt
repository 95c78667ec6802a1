-- ===== src/Telnet/Iac.antt =====
-- pkg/telnet/client.go: `iacProcessor`, which takes telnet commands out of a stream that arrives in
-- chunks, and `nawsMessage`, a command that the client sends. A byte is a number below 256.
pub mod Machine
pub mod Stream
pub mod Commands
mod Tests
use go_oam.Base.{
  ℕ, zero, suc, ◌+◌, ◌/◌, ◌%◌, ◌≤◌, Bool, true, false, ◌&&◌, ◌||◌, not, Option, none, some, List,
  [], ◌∷◌, ◌++◌, ltb, leb, ◌==◌, if◌then◌else◌, length,
}

abbrev pub iac : ℕ
iac = 255

abbrev pub se : ℕ
se = 240

abbrev pub sb : ℕ
sb = 250

abbrev pub will : ℕ
will = 251

abbrev pub opt_naws : ℕ
opt_naws = 31

-- WILL, WONT, DO and DONT.
abbrev pub is_negotiation : ℕ → Bool
is_negotiation cmd = (cmd == 251) || (cmd == 252) || (cmd == 253) || (cmd == 254)

abbrev pub max_iac_pending : ℕ
max_iac_pending = 4096

pub record IacProcessor : Type 0 where
  pub disabled : Bool
  pub pending : List ℕ

-- What is left behind the first IAC SE.
unfoldable pub find_subneg_end : List ℕ → Option (List ℕ)
find_subneg_end [] = none
find_subneg_end (x ∷ []) = none
find_subneg_end (x ∷ y ∷ rest) =
    let later = find_subneg_end (y ∷ rest) in if (x == iac) && (y == se) then some rest else later

-- The `switch`, for what follows an IAC: the bytes that go out and what is left, or `none` if the
-- command is not complete.
unfoldable pub command : List ℕ → Option (List ℕ × List ℕ)
unfolding find_subneg_end
command [] = none
command (cmd ∷ rest) =
    if cmd == iac
    then some (iac ∷ [], rest)
    else (if is_negotiation cmd
        then elim rest [ [] ↦ none | option ∷ rest' ↦ some ([], rest') ]
        else (if cmd == sb
            then elim (find_subneg_end rest) [ none ↦ none | some rest' ↦ some ([], rest') ]
            else some ([], rest)))

-- The loop over the bytes that are left, `data[i:]`: what goes out, and the incomplete command that
-- is to be stashed, which is empty when the loop runs to its end. Every round takes a byte at
-- least, so the number of bytes is fuel enough.
unfoldable pub filter : ℕ → List ℕ → List ℕ → List ℕ × List ℕ
unfolding command
filter zero bytes out = (out, bytes)
filter (suc fuel) [] out = (out, [])
filter (suc fuel) (b ∷ rest) out = elim (b == iac) [
  | false ↦ filter fuel rest (out ++ b ∷ [])
  | true ↦ elim (command rest) [
    | none ↦ (out, b ∷ rest)
    | some (literal, rest') ↦ filter fuel rest' (out ++ literal)
  ]
]

unfoldable pub stash : IacProcessor → List ℕ → List ℕ → List ℕ × IacProcessor
stash p bytes out =
    let pending = p.pending ++ bytes in
    if leb max_iac_pending (length pending)
    then (out ++ pending, record p { pending = [] })
    else (out, record p { pending = pending })

-- `bytes.IndexByte(chunk, iacByte) >= 0`
unfoldable pub contains_iac : List ℕ → Bool
contains_iac [] = false
contains_iac (b ∷ rest) = (b == iac) || contains_iac rest

unfoldable pub feed : IacProcessor → List ℕ → List ℕ × IacProcessor
unfolding filter stash contains_iac
feed p chunk =
    if p.disabled
    then (chunk, p)
    else (if (length p.pending == 0) && not (contains_iac chunk)
        then (chunk, p)
        else (let bytes = p.pending ++ chunk in
            let (out, rest) = filter (length bytes) bytes [] in
            stash (record p { pending = [] }) rest out))

-- `var iac iacProcessor`
abbrev pub new_processor : IacProcessor
new_processor = record { disabled = false; pending = [] }

-- What the loop of `Exec` appends to its result, for the chunks that it reads.
unfoldable pub feed_all : IacProcessor → List (List ℕ) → List ℕ × IacProcessor
unfolding feed
feed_all p [] = ([], p)
feed_all p (chunk ∷ chunks) =
    let (out, p') = feed p chunk in let (later, p'') = feed_all p' chunks in (out ++ later, p'')

unfoldable pub naws_message : ℕ → ℕ → List ℕ
naws_message h w =
    iac
    ∷ will
    ∷ opt_naws
    ∷ iac
    ∷ sb
    ∷ opt_naws
    ∷ w / 256 % 256
    ∷ w % 256
    ∷ h / 256 % 256
    ∷ h % 256
    ∷ iac
    ∷ se
    ∷ []
