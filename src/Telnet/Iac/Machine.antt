-- ===== src/Telnet/Iac/Machine.antt =====
-- The telnet commands as a machine that reads one byte at a time (RFC 854), and the loop of the
-- filter against it.
use go_oam.Base.{
  ℕ, zero, suc, ◌≤◌, ◌≡◌, ◌≢◌, refl, sym, ap, ◌∙◌, inl, inr, ◌⊎◌, true, false, Option, none, some,
  List, [], ◌∷◌, ◌++◌, arith, ◌==◌, if◌then◌else◌, length, Bool-cases,
}
use go_oam.Telnet.Iac.{iac, se, sb, is_negotiation, find_subneg_end, command, filter}

-- In the text, behind an IAC, before an option, in a subnegotiation, and behind an IAC in one.
pub data State : Type 0 where
  text : State
  escaped : State
  negotiating : State
  inside : State
  inside_escaped : State

abbrev pub next : State → ℕ → State
next text b = if b == iac then escaped else text
next escaped b = if is_negotiation b then negotiating else (if b == sb then inside else text)
next negotiating b = text
next inside b = if b == iac then inside_escaped else inside
next inside_escaped b = if b == se then text else (if b == iac then inside_escaped else inside)

abbrev pub emitted : State → ℕ → List ℕ
emitted text b = if b == iac then [] else b ∷ []
emitted escaped b = if b == iac then iac ∷ [] else []
emitted negotiating b = []
emitted inside b = []
emitted inside_escaped b = []

-- The state after some bytes, and the text among them.
unfoldable pub after : State → List ℕ → State
after s [] = s
after s (b ∷ rest) = after (next s b) rest

unfoldable pub text_of : State → List ℕ → List ℕ
text_of s [] = []
text_of s (b ∷ rest) = emitted s b ++ text_of (next s b) rest

pub after-append : (s : State) (a b : List ℕ) → after s (a ++ b) ≡ after (after s a) b
unfolding after
after-append s [] b = refl
after-append s (x ∷ a) b = after-append (next s x) a b

pub append_assoc : (a b c : List ℕ) → (a ++ b) ++ c ≡ a ++ (b ++ c)
append_assoc [] b c = refl
append_assoc (x ∷ a) b c = ap (λ r. x ∷ r) (append_assoc a b c)

pub text_of-append :
    (s : State) (a b : List ℕ) → text_of s (a ++ b) ≡ text_of s a ++ text_of (after s a) b
unfolding after text_of
text_of-append s [] b = refl
text_of-append s (x ∷ a) b =
    ap (λ r. emitted s x ++ r) (text_of-append (next s x) a b)
    ∙ sym (append_assoc (emitted s x) (text_of (next s x) a) (text_of (after (next s x) a) b))

-- Either the bytes end amid a command, without text, or the text goes on at a later place.
abbrev Resumes : State → List ℕ → Option (List ℕ × List ℕ) → Type 0
Resumes s bytes none = (text_of s bytes ≡ []) × (after s bytes ≢ text)
Resumes s bytes (some (literal, rest)) =
    (text_of s bytes ≡ literal ++ text_of text rest)
    × (after s bytes ≡ after text rest)
    × (length rest ≤ length bytes)

abbrev silently : Option (List ℕ) → Option (List ℕ × List ℕ)
silently none = none
silently (some rest) = some ([], rest)

-- A byte without text may be read first.
quiet-Resumes :
    (s t : State) (x : ℕ) (rest : List ℕ) (o : Option (List ℕ × List ℕ))
    → emitted s x ≡ []
    → next s x ≡ t
    → Resumes t rest o
    → Resumes s (x ∷ rest) o
unfolding after text_of
quiet-Resumes s t x rest none q e r = rw (q, e) r
quiet-Resumes s t x rest (some (literal, rest')) q e r = rw (q, e) (r.0, r.1, omega (arith, r.2))

-- Behind an IAC that no SE follows, a subnegotiation goes on as if it had not been there.
escape-Resumes :
    (y : ℕ) (rest : List ℕ) (o : Option (List ℕ × List ℕ))
    → y == se ≡ false
    → Resumes inside (y ∷ rest) o
    → Resumes inside_escaped (y ∷ rest) o
unfolding after text_of
escape-Resumes y rest none e r = rw e r
escape-Resumes y rest (some (literal, rest')) e r = rw e r

find_subneg_end-Resumes : (bytes : List ℕ) → Resumes inside bytes (silently (find_subneg_end bytes))
unfolding find_subneg_end after text_of
find_subneg_end-Resumes [] = (refl, λ e. cc)
find_subneg_end-Resumes (x ∷ []) =
    quiet-Resumes inside _ x [] none refl refl (refl, λ e. ground arith)
find_subneg_end-Resumes (x ∷ y ∷ rest) =
    let later = find_subneg_end-Resumes (y ∷ rest) in
    elim (Bool-cases (x == iac)) [
      | inl is ↦
          quiet-Resumes inside inside_escaped x (y ∷ rest) _ refl (rw is refl)
            (elim (Bool-cases (y == se)) [
              | inl ends ↦
                  rw (is, ends)
                    (quiet-Resumes inside_escaped text y rest (some ([], rest)) refl (rw ends refl)
                      (refl, refl, omega arith))
              | inr goes ↦ rw (is, goes) (escape-Resumes y rest _ goes later)
            ])
      | inr other ↦ rw other (quiet-Resumes inside inside x (y ∷ rest) _ refl (rw other refl) later)
    ]

-- A subnegotiation, and a command with an option.
begun-Resumes :
    (cmd : ℕ) (rest : List ℕ) (o : Option (List ℕ))
    → cmd ≡ sb
    → Resumes inside rest (silently o)
    → Resumes escaped (cmd ∷ rest) (elim o [ none ↦ none | some rest' ↦ some ([], rest') ])
begun-Resumes cmd rest none e r = rw e (quiet-Resumes escaped inside sb rest none refl refl r)
begun-Resumes cmd rest (some rest') e r =
    rw e (quiet-Resumes escaped inside sb rest (some ([], rest')) refl refl r)

option-Resumes :
    (cmd : ℕ) (rest : List ℕ)
    → cmd == iac ≡ false
    → is_negotiation cmd ≡ true
    → Resumes escaped (cmd ∷ rest) (elim rest [ [] ↦ none | option ∷ rest' ↦ some ([], rest') ])
unfolding after text_of
option-Resumes cmd [] other asks = rw (other, asks) (refl, λ e. cc)
option-Resumes cmd (option ∷ rest') other asks = rw (other, asks) (refl, refl, omega arith)

command-Resumes : (bytes : List ℕ) → Resumes escaped bytes (command bytes)
unfolding command after text_of
command-Resumes [] = (refl, λ e. cc)
command-Resumes (cmd ∷ rest) = elim (Bool-cases (cmd == iac)) [
  | inl literal ↦ let is : cmd ≡ iac = ground arith in rw is (refl, refl, omega arith)
  | inr other ↦ elim (Bool-cases (is_negotiation cmd)) [
    | inl asks ↦ rw (other, asks) (option-Resumes cmd rest other asks)
    | inr no_option ↦ elim (Bool-cases (cmd == sb)) [
      | inl begins ↦
          rw (other, no_option, begins)
            (begun-Resumes cmd rest (find_subneg_end rest) (ground arith)
              (find_subneg_end-Resumes rest))
      | inr short ↦
          rw (other, no_option, short)
            (quiet-Resumes escaped text cmd rest (some ([], rest)) (rw other refl)
              (rw (no_option, short) refl) (refl, refl, omega arith))
    ]
  ]
]

-- What the loop leaves: all the text has gone out, and an incomplete command is left or nothing.
pub record IsLeft (bytes out out' rest : List ℕ) : Type 0 where
  pub gone : out' ≡ out ++ text_of text bytes
  pub textless : text_of text rest ≡ []
  pub same_state : after text rest ≡ after text bytes
  pub shorter : length rest ≤ length bytes
  pub nothing_in_text : (rest ≡ []) ⊎ (after text rest ≢ text)

pub append_nil : (xs : List ℕ) → xs ++ [] ≡ xs
append_nil [] = refl
append_nil (x ∷ xs) = ap (λ r. x ∷ r) (append_nil xs)

continued-IsLeft :
    (bytes literal bytes' out out' rest : List ℕ)
    → text_of text bytes ≡ literal ++ text_of text bytes'
    → after text bytes ≡ after text bytes'
    → length bytes' ≤ length bytes
    → IsLeft bytes' (out ++ literal) out' rest
    → IsLeft bytes out out' rest
continued-IsLeft bytes literal bytes' out out' rest t s m l = record {
  gone = l.gone ∙ append_assoc out literal (text_of text bytes') ∙ sym (ap (λ r. out ++ r) t);
  textless = l.textless;
  same_state = l.same_state ∙ sym s;
  shorter = omega (arith, l.shorter);
  nothing_in_text = l.nothing_in_text;
}

done-IsLeft : (out : List ℕ) → IsLeft [] out out []
unfolding text_of
done-IsLeft out = record {
  gone = sym (append_nil out);
  textless = refl;
  same_state = refl;
  shorter = omega arith;
  nothing_in_text = inl refl;
}

-- A round of the loop at an IAC, with what is known of the rounds behind it.
command-IsLeft :
    (fuel : ℕ) (bytes out : List ℕ) (o : Option (List ℕ × List ℕ))
    → Resumes escaped bytes o
    → ((bytes' out' : List ℕ)
        → length bytes' ≤ length bytes
        → (let (gone, left) = filter fuel bytes' out' in IsLeft bytes' out' gone left))
    → (let (gone, left) = (elim o as (λ x. List ℕ × List ℕ) [
      | none ↦ (out, iac ∷ bytes)
      | some x ↦ filter fuel x.1 (out ++ x.0)
    ]) in
        IsLeft (iac ∷ bytes) out gone left)
unfolding text_of after
command-IsLeft fuel bytes out none r later = record {
  gone = sym (append_nil out) ∙ ap (λ t. out ++ t) (sym r.0);
  textless = r.0;
  same_state = refl;
  shorter = omega arith;
  nothing_in_text = inr r.1;
}
command-IsLeft fuel bytes out (some (literal, bytes')) r later =
    continued-IsLeft (iac ∷ bytes) literal bytes' out _ _ r.0 r.1 (omega (arith, r.2))
      (later bytes' (out ++ literal) r.2)

pub filter-IsLeft :
    (fuel : ℕ) (bytes out : List ℕ)
    → length bytes ≤ fuel
    → (let (out', rest) = filter fuel bytes out in IsLeft bytes out out' rest)
unfolding filter text_of after
filter-IsLeft zero [] out h = done-IsLeft out
filter-IsLeft zero (b ∷ rest) out h = absurd (omega arith)
filter-IsLeft (suc fuel) [] out h = done-IsLeft out
filter-IsLeft (suc fuel) (b ∷ rest) out h = elim (Bool-cases (b == iac)) [
  | inr other ↦
      rw (other, filter)
        (continued-IsLeft (b ∷ rest) (b ∷ []) rest out _ _ (rw other refl) (rw other refl)
          (omega arith) (filter-IsLeft fuel rest (out ++ b ∷ []) (omega arith)))
  | inl is ↦
      let same : b ≡ iac = ground arith in
      rw same (
        command-IsLeft fuel rest out (command rest) (command-Resumes rest)
          (λ bytes' out' l. filter-IsLeft fuel bytes' out' (omega arith)))
]
