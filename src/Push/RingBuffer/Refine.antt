-- ===== src/Push/RingBuffer/Refine.antt =====
-- A valid buffer behaves as a list that keeps its newest `size` elements.
use native.Mathlib.Nat.{mod-add-mod}
use native.Mathlib.Decide.{dec_lt}
use native.Mathlib.Numerals.{add-one}
use go_oam.Base.{
  drop-eq-nil, pos, lt→ltb, le→ltb_false, ◌≢◌, tabulate-shift, tabulate-snoc, tabulate-ext, ==_iff,
  ℕ, zero, suc, ◌+◌, ◌-◌, ◌%◌, ◌≤◌, ◌<◌, ◌≡◌, refl, sym, ap, ap₂, ◌∙◌, some, List, [], ◌∷◌, ◌++◌,
  arith, length, get_or, set, drop, length-append, get_or-set, mod_cases,
}
use go_oam.Push.RingBuffer.{RingBuffer, push, pushed, appended, overwritten}
use go_oam.Push.RingBuffer.Invariant.{
  IsValid, tail_in_range, size-pushed, pushed-IsValid, push-eq-pushed,
}
use go_oam.Push.RingBuffer.Contents.{last_of, contents, length-contents}

-- A list with `x` behind it, cut to its newest `size` elements.
abbrev pub keep_newest {ℓ} : {A : Type ℓ} → ℕ → List A → List A
keep_newest size xs = drop (length xs - size) xs

next_place : (head size i : ℕ) → ((head + 1) % size + i) % size ≡ (head + suc i) % size
next_place head size i = mod-add-mod (head + 1) size i ∙ ap (λ k. k % size) (omega arith)

-- Less than a round before the tail's place only the tail's own number gives it.
other_place :
    (head size count i : ℕ)
    → head < size
    → count ≤ size
    → i < count
    → count < i + size
    → (head + i) % size ≢ (head + count) % size
other_place head size count i h c l r =
    omega (arith, mod_cases (head + i) size, mod_cases (head + count) size)

drop-snoc {ℓ} :
    {A : Type ℓ} (k : ℕ) (xs : List A) (x : A)
    → k ≤ length xs
    → drop k (xs ++ x ∷ []) ≡ drop k xs ++ x ∷ []
drop-snoc zero xs x h = refl
drop-snoc (suc k) [] x h = absurd (omega arith)
drop-snoc (suc k) (y ∷ xs) x h = drop-snoc k xs x (omega arith)

last-snoc {ℓ} :
    {A : Type ℓ} (xs : List A) (x : A) → drop (length (xs ++ x ∷ []) - 1) (xs ++ x ∷ []) ≡ x ∷ []
last-snoc xs x =
    let before : length (xs ++ x ∷ []) - 1 ≡ length xs = omega (arith, length-append xs (x ∷ [])) in
    rw before (
      drop-snoc (length xs) xs x (omega arith)
      ∙ ap (λ r. r ++ x ∷ []) (drop-eq-nil (length xs) xs (omega arith)))

-- The newest element is kept, at the end.
pub last-keep_newest {ℓ} :
    {A : Type ℓ} (n : ℕ) (xs : List A) (x : A)
    → 0 < n
    → last_of (pos 1) (keep_newest n (xs ++ x ∷ [])) ≡ x ∷ []
last-keep_newest n xs x p =
    let kept : keep_newest n (xs ++ x ∷ []) ≡ drop (length (xs ++ x ∷ []) - n) xs ++ x ∷ [] =
      drop-snoc _ xs x (omega (arith, length-append xs (x ∷ []))) in
    rw kept (last-snoc (drop (length (xs ++ x ∷ []) - n) xs) x)

module _ {A : Type 0} (z : A) where
  -- The write at the tail is seen at the end of the elements, and nowhere else.
  write_at_end :
      (rb : RingBuffer A) (x : A)
      → IsValid rb
      → get_or (set rb.items rb.tail x) ((rb.head + rb.count) % rb.size) z ≡ x
  write_at_end rb x v =
      rw (get_or-set rb.items rb.tail ((rb.head + rb.count) % rb.size) x z (tail_in_range rb v))
        (rw ((==_iff _ _).1 (sym v.tail_after)))

  write_elsewhere :
      (rb : RingBuffer A) (x : A) (i : ℕ)
      → IsValid rb
      → i < rb.count
      → rb.count < i + rb.size
      → get_or (set rb.items rb.tail x) ((rb.head + i) % rb.size) z
        ≡ get_or rb.items ((rb.head + i) % rb.size) z
  write_elsewhere rb x i v l r =
      rw (get_or-set rb.items rb.tail ((rb.head + i) % rb.size) x z (tail_in_range rb v))
        (ground (arith, other_place rb.head rb.size rb.count i v.head_in v.count_in l r))

  -- A push below the capacity.
  appended_lem :
      (rb : RingBuffer A) (x : A)
      → IsValid rb
      → rb.count < rb.size
      → contents z (appended rb x) ≡ contents z rb ++ x ∷ []
  appended_lem rb x v h = rw (add-one rb.count) (
      tabulate-snoc rb.count _
      ∙ ap₂ (λ r y. r ++ y ∷ [])
          (tabulate-ext rb.count _ _ (λ i l. write_elsewhere rb x i v l (omega arith)))
          (write_at_end rb x v))

  -- A push at the capacity.
  overwritten_lem :
      (rb : RingBuffer A) (x : A)
      → IsValid rb
      → rb.count ≡ rb.size
      → contents z (overwritten rb x) ≡ drop 1 (contents z rb ++ x ∷ [])
  overwritten_lem rb x v h =
      tabulate-shift rb.count _ _ x (omega arith)
        (λ i l.
          ap at (next_place rb.head rb.size i) ∙ write_elsewhere rb x (suc i) v l (omega arith))
        (ap at (next_place rb.head rb.size (rb.count - 1) ∙ ap (λ k. (rb.head + k) % rb.size) up)
          ∙ write_at_end rb x v)
    where
      at : ℕ → A
      at k = get_or (set rb.items rb.tail x) k z

      up : suc (rb.count - 1) ≡ rb.count
      up = omega arith

  pub contents-pushed :
      (rb : RingBuffer A) (x : A)
      → IsValid rb
      → contents z (pushed rb x) ≡ keep_newest rb.size (contents z rb ++ x ∷ [])
  unfolding pushed
  contents-pushed rb x v = elim (dec_lt rb.count rb.size) [
    | yes below ↦
        let none_lost : length (contents z rb ++ x ∷ []) - rb.size ≡ 0 =
          omega (arith, length-append (contents z rb) (x ∷ []), length-contents z rb) in
        rw (lt→ltb rb.count rb.size below, none_lost) (appended_lem rb x v below)
    | no full ↦
        let one_lost : length (contents z rb ++ x ∷ []) - rb.size ≡ 1 =
          omega (arith, length-append (contents z rb) (x ∷ []), length-contents z rb) in
        rw (le→ltb_false rb.count rb.size (omega arith), one_lost)
          (overwritten_lem rb x v (omega arith))
  ]

  -- `Push` on a valid buffer does not fault, leaves a valid buffer of the same size, and what it
  -- holds is the old contents with the new element behind, cut to the newest `size`.
  pub push_lem :
      (rb : RingBuffer A) (x : A)
      → IsValid rb
      → (rb' : RingBuffer A) × (push rb x ≡ some rb')
        × IsValid rb'
        × (rb'.size ≡ rb.size)
        × (contents z rb' ≡ keep_newest rb.size (contents z rb ++ x ∷ []))
  push_lem rb x v = (
    pushed rb x,
    push-eq-pushed rb x v,
    pushed-IsValid rb x v,
    size-pushed rb x,
    contents-pushed rb x v,
  )
