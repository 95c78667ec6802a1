-- ===== src/Telnet/Iac/Stream.antt =====
-- The filter over a stream in chunks: what it lets through, however the stream is cut.
use go_oam.Base.{
  ℕ, ◌+◌, ◌≤◌, ◌<◌, ◌≡◌, ◌≢◌, ◌⊎◌, refl, sym, ap, ap₂, ◌∙◌, inl, inr, true, false, not, ◌&&◌, List,
  [], ◌∷◌, ◌++◌, arith, ◌==◌, leb, length, length-append, Bool-cases,
}
use go_oam.Telnet.Iac.{
  iac, max_iac_pending, IacProcessor, filter, stash, contains_iac, feed, feed_all, new_processor,
}
use go_oam.Telnet.Iac.Machine.{
  State, text, after, text_of, after-append, text_of-append, filter-IsLeft,
}

-- The processor is on, and what is pending is an incomplete command that leads to the state.
pub record IsAt (s : State) (p : IacProcessor) : Type 0 where
  pub enabled : p.disabled ≡ false
  pub textless : text_of text p.pending ≡ []
  pub state : after text p.pending ≡ s
  pub nothing_in_text : (p.pending ≡ []) ⊎ (s ≢ text)

pub plain_lem :
    (chunk : List ℕ)
    → contains_iac chunk ≡ false
    → (text_of text chunk ≡ chunk) × (after text chunk ≡ text)
unfolding contains_iac text_of after
plain_lem [] h = (refl, refl)
plain_lem (b ∷ rest) h =
    let (kept, same) = plain_lem rest (ground arith) in
    let other : b == iac ≡ false = ground arith in rw other (ap (λ r. b ∷ r) kept, same)

-- What the test of the fast path says.
fast_path_lem :
    (pending chunk : List ℕ)
    → (length pending == 0) && not (contains_iac chunk) ≡ true
    → (pending ≡ []) × (contains_iac chunk ≡ false)
fast_path_lem [] chunk h = (refl, ground arith)
fast_path_lem (x ∷ pending) chunk h = ground arith

-- The slow path of `feed`.
filtered_lem :
    (s : State) (p : IacProcessor) (chunk : List ℕ)
    → IsAt s p
    → (let (out, rest) = filter (length (p.pending ++ chunk)) (p.pending ++ chunk) [] in
        (out ≡ text_of s chunk)
        × IsAt (after s chunk) (record { disabled = false; pending = rest })
        × (length rest ≤ length p.pending + length chunk))
filtered_lem s p chunk a =
    let l = filter-IsLeft (length (p.pending ++ chunk)) (p.pending ++ chunk) [] (omega arith) in
    let reached : after text (p.pending ++ chunk) ≡ after s chunk =
      after-append text p.pending chunk ∙ ap (λ t. after t chunk) a.state in
    (
      l.gone
          ∙ text_of-append text p.pending chunk
          ∙ ap₂ (λ t u. t ++ text_of u chunk) a.textless a.state,
      record {
        enabled = refl;
        textless = l.textless;
        state = l.same_state ∙ reached;
        nothing_in_text = elim l.nothing_in_text [
          | inl empty ↦ inl empty
          | inr amid ↦ inr (λ e. amid (l.same_state ∙ reached ∙ e))
        ];
      },
      omega (arith, l.shorter, length-append p.pending chunk),
    )

-- The incomplete command at the end of some bytes.
abbrev pub unfinished : List ℕ → List ℕ
unfinished bytes = (filter (length bytes) bytes []).1

-- `feed` lets through the text of the chunk, and remembers an incomplete command at its end, as long
-- as that is shorter than 4096 bytes.
pub feed_lem :
    (s : State) (p : IacProcessor) (chunk : List ℕ)
    → IsAt s p
    → length (unfinished (p.pending ++ chunk)) < max_iac_pending
    → (let (out, p') = feed p chunk in (out ≡ text_of s chunk) × IsAt (after s chunk) p')
unfolding feed stash after
feed_lem s p chunk a short =
    let (passed, at, bound) = filtered_lem s p chunk a in
    elim (Bool-cases ((length p.pending == 0) && not (contains_iac chunk))) [
      | inl fast ↦
          let (empty, plain) = fast_path_lem p.pending chunk fast in
          let (kept, in_text) = plain_lem chunk plain in
          let s_text : s ≡ text = sym a.state ∙ ap (after text) empty in
          rw (a.enabled, fast, s_text)
            (
              sym kept,
              record {
                enabled = refl;
                textless = a.textless;
                state = ap (after text) empty ∙ sym in_text;
                nothing_in_text = inl empty;
              },
            )
      | inr slow ↦
          let fits : leb max_iac_pending
                (length (filter (length (p.pending ++ chunk)) (p.pending ++ chunk) []).1)
              ≡ false =
            ground arith in
          rw (a.enabled, slow, fits) (passed, at)
    ]

-- The pending bytes stay below the limit, whatever the chunk.
pub pending-feed :
    (p : IacProcessor) (chunk : List ℕ)
    → length p.pending < max_iac_pending
    → length (feed p chunk).1.pending < max_iac_pending
unfolding feed stash
pending-feed p chunk h = ground arith

-- No chunk ends in an incomplete command of as many bytes as the limit, with what was pending.
abbrev pub Fits : IacProcessor → List (List ℕ) → Type 0
Fits p [] = Unit {0}
Fits p (chunk ∷ chunks) =
    (length (unfinished (p.pending ++ chunk)) < max_iac_pending) × Fits (feed p chunk).1 chunks

abbrev pub concat : List (List ℕ) → List ℕ
concat [] = []
concat (chunk ∷ chunks) = chunk ++ concat chunks

feed_all_lem :
    (s : State) (p : IacProcessor) (chunks : List (List ℕ))
    → IsAt s p
    → Fits p chunks
    → (let (out, p') = feed_all p chunks in
        (out ≡ text_of s (concat chunks)) × IsAt (after s (concat chunks)) p')
unfolding feed_all text_of after
feed_all_lem s p [] a f = (refl, a)
feed_all_lem s p (chunk ∷ chunks) a f =
    let (passed, at) = feed_lem s p chunk a f.0 in
    let (later, ends) = feed_all_lem (after s chunk) (feed p chunk).1 chunks at f.1 in
    (
      ap₂ (λ x y. x ++ y) passed later ∙ sym (text_of-append s chunk (concat chunks)),
      rw (after-append s chunk (concat chunks)) ends,
    )

new_processor-IsAt : IsAt text new_processor
unfolding text_of after
new_processor-IsAt = record {
  enabled = refl;
  textless = refl;
  state = refl;
  nothing_in_text = inl refl;
}

-- A new filter lets through the text of a stream: what the machine that reads it byte by byte
-- emits. No chunk may leave an incomplete command, with what was pending before, of 4096 bytes or
-- more; a chunk itself may be of any length.
pub feed_all-eq-text_of :
    (chunks : List (List ℕ))
    → Fits new_processor chunks
    → (feed_all new_processor chunks).0 ≡ text_of text (concat chunks)
feed_all-eq-text_of chunks f = (feed_all_lem text new_processor chunks new_processor-IsAt f).0

-- How a stream is cut into chunks does not show in what a new filter lets through, when no chunk
-- of either cut leaves an incomplete command of 4096 bytes or more.
pub feed_all-recut :
    (chunks chunks' : List (List ℕ))
    → Fits new_processor chunks
    → Fits new_processor chunks'
    → concat chunks ≡ concat chunks'
    → (feed_all new_processor chunks).0 ≡ (feed_all new_processor chunks').0
feed_all-recut chunks chunks' f f' e =
    feed_all-eq-text_of chunks f ∙ ap (text_of text) e ∙ sym (feed_all-eq-text_of chunks' f')
