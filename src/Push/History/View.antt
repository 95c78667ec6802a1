-- ===== src/Push/History/View.antt =====
-- A history seen from outside: what each key holds, and how much it can hold.
use go_oam.Base.{
  ℕ, ◌≡◌, refl, sym, ◌∙◌, inl, inr, none, some, List, [], ◌∷◌, arith, if◌then◌else◌, Option-cases,
  ℤ, pos, Key, key_eq, key_eq→eq, lookup, lookup-insert, AllValues, AllValues-lookup,
  AllValues-insert,
}
use go_oam.Push.RingBuffer.{RingBuffer, positive_or, new_ring_buffer}
use go_oam.Push.RingBuffer.Invariant.{IsReadable, IsValid}
use go_oam.Push.RingBuffer.Contents.{contents}
use go_oam.Push.History.{History, get_buffer, put_buffer}

-- Every buffer can be read, and every buffer can be written.
abbrev pub AllReadable {ℓ} : {A : Type ℓ} → History A → Type 0
AllReadable h = AllValues IsReadable h.buffers

abbrev pub AllValid {ℓ} : {A : Type ℓ} → History A → Type 0
AllValid h = AllValues IsValid h.buffers

-- The size of a buffer that is made now.
abbrev pub fresh_size {ℓ} : {A : Type ℓ} → History A → ℕ
fresh_size h = positive_or 1024 h.max_size

-- How many elements a key can hold.
unfoldable pub capacity {ℓ} : {A : Type ℓ} → History A → Key → ℕ
capacity h key = elim (lookup key h.buffers) [ some rb ↦ rb.size | none ↦ fresh_size h ]

pub capacity-eq {ℓ} :
    {A : Type ℓ} (h : History A) (key : Key) (n : ℕ)
    → AllValues (λ rb. rb.size ≡ n) h.buffers
    → fresh_size h ≡ n
    → capacity h key ≡ n
unfolding capacity
capacity-eq h key n all e = elim (Option-cases (lookup key h.buffers)) [
  | inl fresh ↦ rw (capacity, fresh) e
  | inr (rb, found) ↦ rw (capacity, found) (AllValues-lookup _ key h.buffers rb all found)
]

module _ {A : Type 0} (z : A) where
  -- What a key holds in a map of buffers, oldest first.
  unfoldable pub held : List (Key × RingBuffer A) → Key → List A
  held m key = elim (lookup key m) [ some rb ↦ contents z rb | none ↦ [] ]

  -- What a key of a history holds.
  unfoldable pub view : History A → Key → List A
  unfolding held
  view h key = held h.buffers key

  pub view-held : (h : History A) (key : Key) → view h key ≡ held h.buffers key
  unfolding view
  view-held h key = refl

  pub held-nil : (key : Key) → held [] key ≡ []
  unfolding held
  held-nil key = refl

  pub held-cons :
      (i : Key) (rb : RingBuffer A) (m : List (Key × RingBuffer A)) (key : Key)
      → held ((i, rb) ∷ m) key ≡ (if key_eq key i then contents z rb else held m key)
  unfolding held
  held-cons i rb m key = ground arith

  pub view-put_buffer :
      (h : History A) (key : Key) (rb : RingBuffer A) (j : Key)
      → view (put_buffer h key rb) j ≡ (if key_eq j key then contents z rb else view h j)
  unfolding view
  view-put_buffer h key rb j = ground (arith, lookup-insert key j rb h.buffers)

  -- The buffer of a key that has none yet.
  abbrev fresh_buffer : History A → RingBuffer A
  fresh_buffer h = new_ring_buffer z (pos (fresh_size h))

  get_buffer-fresh :
      (h : History A) (key : Key)
      → lookup key h.buffers ≡ none
      → get_buffer z h key ≡ (fresh_buffer h, put_buffer h key (fresh_buffer h))
  unfolding get_buffer
  get_buffer-fresh h key e = rw (e, get_buffer)

  get_buffer-found :
      (h : History A) (key : Key) (rb : RingBuffer A)
      → lookup key h.buffers ≡ some rb
      → get_buffer z h key ≡ (rb, h)
  unfolding get_buffer
  get_buffer-found h key rb e = rw (e, get_buffer)

  size-fresh_buffer : (h : History A) → (fresh_buffer h).size ≡ fresh_size h
  unfolding new_ring_buffer
  size-fresh_buffer h = ground arith

  contents-fresh_buffer : (h : History A) → contents z (fresh_buffer h) ≡ []
  unfolding new_ring_buffer
  contents-fresh_buffer h = refl

  -- `getBuffer` gives a buffer with the size and the elements of its key, and changes nothing that
  -- can be seen.
  pub get_buffer-view :
      (h : History A) (key : Key)
      → let (rb, h') = get_buffer z h key in
        (rb.size ≡ capacity h key)
        × (contents z rb ≡ view h key)
        × ((j : Key) → view h' j ≡ view h j)
        × (h'.max_size ≡ h.max_size)
  unfolding view capacity held
  get_buffer-view h key = elim (Option-cases (lookup key h.buffers)) [
    | inl fresh ↦
        let empty : view h key ≡ [] = rw (view, held, fresh) in
        rw (get_buffer-fresh h key fresh) (
          size-fresh_buffer h ∙ rw (capacity, fresh),
          contents-fresh_buffer h ∙ sym empty,
          (λ j. ground (
            arith,
            view-put_buffer h key (fresh_buffer h) j,
            contents-fresh_buffer h,
            key_eq→eq j key,
            empty,
          )),
          refl,
        )
    | inr (rb, found) ↦
        rw (get_buffer-found h key rb found)
          (rw (capacity, found), rw (view, held, found), (λ j. refl), refl)
  ]

  -- What holds of each buffer and of a new one holds of the buffer of any key.
  pub get_buffer-AllValues :
      (P : RingBuffer A → Type 0) (h : History A) (key : Key)
      → ((n : ℤ) → P (new_ring_buffer z n))
      → AllValues P h.buffers
      → let (rb, h') = get_buffer z h key in P rb × AllValues P h'.buffers
  get_buffer-AllValues P h key new all = elim (Option-cases (lookup key h.buffers)) [
    | inl fresh ↦
        rw (get_buffer-fresh h key fresh)
          (new _, AllValues-insert P key (fresh_buffer h) h.buffers (new _) all)
    | inr (rb, found) ↦
        rw (get_buffer-found h key rb found) (AllValues-lookup P key h.buffers rb all found, all)
  ]
