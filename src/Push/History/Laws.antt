-- ===== src/Push/History/Laws.antt =====
-- What the methods of a history do to what its keys hold: an update is seen at its key alone.
use go_oam.Base.{
  not, ◌&&◌, subst, drop-eq-nil, ◌-◌, ℕ, ◌<◌, ◌≡◌, ◌^◌, refl, sym, inl, inr, some, List, [], ◌∷◌,
  ◌++◌, arith, if◌then◌else◌, ◌==◌, Bool-cases, pos, to_int32, to_int32_small, Key, key_eq,
  AllValues, AllValues-insert,
}
use go_oam.Push.RingBuffer
use go_oam.Push.RingBuffer.{RingBuffer, positive_or, new_ring_buffer, get_all, get_last}
use go_oam.Push.RingBuffer.Invariant.{
  IsReadable, IsValid, IsValid-IsReadable, new_ring_buffer-IsValid, clear-IsValid,
}
use go_oam.Push.RingBuffer.Contents.{contents-clear, last_of, get_all_lem, get_last_lem}
use go_oam.Push.RingBuffer.Refine.{keep_newest, push_lem as ring_push_lem}
use go_oam.Push.RingBuffer.Resize.{resize_lem as ring_resize_lem}
use go_oam.Push.History.{History, get_buffer, put_buffer, push, list, set_size, resize_all, clear}
use go_oam.Push.History.View.{
  AllReadable, AllValid, capacity, view, held, view-held, held-nil, held-cons, capacity-eq,
  view-put_buffer, get_buffer-view, get_buffer-AllValues,
}

module _ {A : Type 0} (z : A) where
  -- `Push` does not fault while every buffer can be written, and keeps them so. The key then holds
  -- its old elements and the new one, cut to its newest; no other key changes.
  pub key_push_lem :
      (h : History A) (key j : Key) (x : A)
      → AllValid h
      → (h' : History A) × (push z h key x ≡ some h')
        × AllValid h'
        × (view z h' j ≡ (
            if key_eq j key
            then keep_newest (capacity h key) (view z h key ++ x ∷ [])
            else view z h j))
  unfolding push
  key_push_lem h key j x v =
      let (rb, h1) = get_buffer z h key in
      let seen = get_buffer-view z h key in
      let kept = get_buffer-AllValues z IsValid h key (new_ring_buffer-IsValid z) v in
      let (rb', step, valid, sized, holds) = ring_push_lem z rb x kept.0 in
      (
        put_buffer h1 key rb',
        rw step refl,
        AllValues-insert IsValid key rb' h1.buffers valid kept.1,
        ground (arith, view-put_buffer z h1 key rb' j, holds, seen, seen.2 j),
      )

  -- `List` with a number that is not negative does not fault. It returns all that the key holds for
  -- 0 and the last `n` elements for another `n`, and changes what no key holds.
  pub key_list_lem :
      (h : History A) (key j : Key) (n : ℕ)
      → AllReadable h
      → (h' : History A) × (list z h key (pos n)
          ≡ some (h', some (if n == 0 then view z h key else last_of (pos n) (view z h key))))
        × AllReadable h'
        × (view z h' j ≡ view z h j)
  unfolding list
  key_list_lem h key j n v =
      let (rb, h1) = get_buffer z h key in
      let seen = get_buffer-view z h key in
      let kept =
        get_buffer-AllValues z IsReadable h key
          (λ k. IsValid-IsReadable (new_ring_buffer-IsValid z k)) v in
      (
        h1,
        ground (arith, get_all_lem z rb kept.0, get_last_lem z rb (pos n) kept.0, seen.1),
        kept.1,
        seen.2 j,
      )

  -- The loop of `SetSize` over the buffers.
  resize_all_lem :
      (n : ℕ) (m : List (Key × RingBuffer A))
      → 0 < n
      → AllValues IsReadable m
      → (m' : List (Key × RingBuffer A)) × (resize_all z (pos n) m ≡ some m')
        × AllValues IsReadable m'
        × AllValues (λ rb. rb.size ≡ n) m'
        × ((j : Key) → held z m' j ≡ keep_newest n (held z m j))
  unfolding resize_all
  resize_all_lem n [] p v =
      ([], refl, tt, tt, λ j. rw held-nil (sym (drop-eq-nil (0 - n) [] (omega arith))))
  resize_all_lem n ((i, rb) ∷ m) p v =
      let (rb', step, readable, sized, holds) = ring_resize_lem z rb n v.0 p in
      let (m', steps, readables, all_sized, hold) = resize_all_lem n m p v.1 in
      (
        (i, rb') ∷ m',
        rw (step, steps) refl,
        (readable, readables),
        (sized, all_sized),
        λ j. ground (arith, held-cons z i rb m j, held-cons z i rb' m' j, holds, hold j),
      )

  -- `SetSize` with a positive size does not fault; each key then holds the newest `n` of its
  -- elements, and every buffer can still be read.
  pub set_size_lem :
      (h : History A) (n : ℕ) (j : Key)
      → AllReadable h
      → 0 < n
      → (h' : History A) × (set_size z h (pos n) ≡ some h')
        × AllReadable h'
        × (view z h' j ≡ keep_newest n (view z h j))
  unfolding set_size
  set_size_lem h n j v p =
      let (m', steps, readables, all_sized, hold) = resize_all_lem n h.buffers p v in
      (
        record { buffers = m'; max_size = to_int32 n },
        ground (arith, steps),
        readables,
        rw (view-held, view-held) (hold j),
      )

  -- After `SetSize` every key, used before or not, holds up to `n` elements, where `n` is positive
  -- and fits in an int32.
  pub capacity-set_size :
      (h h' : History A) (n : ℕ) (j : Key)
      → AllReadable h
      → 0 < n
      → n < 2 ^ 31
      → set_size z h (pos n) ≡ some h'
      → capacity h' j ≡ n
  unfolding set_size
  capacity-set_size h h' n j v p small e =
      let (m', steps, readables, all_sized, hold) = resize_all_lem n h.buffers p v in
      let made : record { buffers = m'; max_size = to_int32 n } ≡ h' = ground (arith, steps) in
      subst (λ g. capacity g j ≡ n) made
        (capacity-eq _ j n all_sized (rw (to_int32_small n small) (ground arith)))

  -- `Clear` empties the key that it names, which is not the empty string, and leaves the others;
  -- with the empty string it changes nothing.
  pub clear_lem :
      (h : History A) (key j : Key)
      → AllValid h
      → AllValid (clear z h key)
        × (view z (clear z h key) j
            ≡ (if not (key_eq key []) && key_eq j key then [] else view z h j))
  unfolding clear
  clear_lem h key j v =
      let (rb, h1) = get_buffer z h key in
      let seen = get_buffer-view z h key in
      let kept = get_buffer-AllValues z IsValid h key (new_ring_buffer-IsValid z) v in
      elim (Bool-cases (key_eq key [])) [
        | inl unnamed ↦ rw unnamed (v, refl)
        | inr named ↦ rw named (
          AllValues-insert IsValid key (RingBuffer.clear rb) h1.buffers
              (clear-IsValid (IsValid-IsReadable kept.0)) kept.1,
          ground (
            arith,
            view-put_buffer z h1 key (RingBuffer.clear rb) j,
            contents-clear z rb,
            seen.2 j,
          ),
        )
      ]
