-- ===== src/Push/RingBuffer/Resize.antt =====
-- `Resize`: what it keeps, when the buffer can still be written, and when the next push faults.
use native.Mathlib.Nat.{mod-eq_of_lt}
use native.Mathlib.Decide.{ℕ_discrete}
use go_oam.Base.{
  subst, min, length-copy, copy-nil, mod_cases, ℕ, ◌+◌, ◌-◌, ◌%◌, ◌≤◌, ◌<◌, ◌≡◌, ◌≢◌, refl, sym, ap,
  ◌∙◌, some, none, List, ◌++◌, arith, length, get_or, drop, get_or-append, length-drop, replicate,
  length-replicate, tabulate-ext, tabulate-get_or, copy-fits, slice_from-drop, pos,
}
use go_oam.Push.RingBuffer.{RingBuffer, reloaded, refit, resize, push}
use go_oam.Push.RingBuffer.Invariant.{IsReadable, IsValid, IsValid-IsReadable}
use go_oam.Push.RingBuffer.Contents.{contents, length-contents, get_all_unsafe_lem}
use go_oam.Push.RingBuffer.Refine.{keep_newest}

module _ {A : Type 0} (z : A) where
  contents-reloaded :
      (n : ℕ) (kept : List A) → length kept ≤ n → contents z (reloaded z n kept) ≡ kept
  contents-reloaded n kept h =
      rw (copy-fits (replicate n z) kept (omega (arith, length-replicate n z)))
        (tabulate-ext (length kept) _ _ (λ i l. same i l) ∙ tabulate-get_or kept z)
    where
      same :
          (i : ℕ)
          → i < length kept
          → get_or (kept ++ drop (length kept) (replicate n z)) ((0 + i) % n) z ≡ get_or kept i z
      same i l =
          let here : (0 + i) % n ≡ i =
            mod-eq_of_lt {n = 0 + i} {m = n} (omega arith) ∙ omega arith in
          rw here (get_or-append kept _ i z l)

  reloaded-IsReadable :
      (n : ℕ) (kept : List A) → 0 < n → length kept ≤ n → IsReadable (reloaded z n kept)
  reloaded-IsReadable n kept p h =
      ground (
        arith,
        length-copy (replicate n z) kept,
        length-replicate n z,
        mod_cases (0 + length kept) n,
      )

  reloaded-IsValid : (n : ℕ) (kept : List A) → 0 < n → length kept < n → IsValid (reloaded z n kept)
  reloaded-IsValid n kept p h =
      ground (
        arith,
        length-copy (replicate n z) kept,
        length-replicate n z,
        mod_cases (0 + length kept) n,
      )

  refit_lem :
      (rb : RingBuffer A) (n : ℕ)
      → IsReadable rb
      → refit z rb n ≡ some (reloaded z n (keep_newest n (contents z rb)))
  unfolding refit
  refit_lem rb n v = ground (
    arith,
    get_all_unsafe_lem z rb v,
    length-contents z rb,
    copy-nil (replicate n z),
    slice_from-drop (contents z rb) (length (contents z rb) - n),
  )

  length-keep_newest : (n : ℕ) (xs : List A) → length (keep_newest n xs) ≡ min n (length xs)
  length-keep_newest n xs = omega (arith, length-drop (length xs - n) xs)

  keep_newest-all : (n : ℕ) (xs : List A) → length xs ≤ n → keep_newest n xs ≡ xs
  keep_newest-all n xs h = ap (λ k. drop k xs) none_lost
    where
      none_lost : length xs - n ≡ 0
      none_lost = omega arith

  -- To another size the buffer is loaded anew.
  reloaded_of_resize :
      (rb rb' : RingBuffer A) (n : ℕ)
      → IsReadable rb
      → 0 < n
      → n ≢ rb.size
      → resize z rb (pos n) ≡ some rb'
      → rb' ≡ reloaded z n (keep_newest n (contents z rb))
  unfolding resize
  reloaded_of_resize rb rb' n v p d e = ground (arith, refit_lem rb n v)

  -- `Resize(n)` for a positive `n` does not fault. The buffer then has the size `n`, can be read,
  -- and holds the newest `n` of the elements that it held, all of them if they were no more.
  pub resize_lem :
      (rb : RingBuffer A) (n : ℕ)
      → IsReadable rb
      → 0 < n
      → (rb' : RingBuffer A) × (resize z rb (pos n) ≡ some rb')
        × IsReadable rb'
        × (rb'.size ≡ n)
        × (contents z rb' ≡ keep_newest n (contents z rb))
  unfolding resize
  resize_lem rb n v p = elim (ℕ_discrete n rb.size) [
    | yes same ↦ (
      rb,
      ground arith,
      v,
      sym same,
      sym (keep_newest-all n (contents z rb) (omega (arith, length-contents z rb))),
    )
    | no other ↦
        let kept = keep_newest n (contents z rb) in
        let fits : length kept ≤ n = omega (arith, length-keep_newest n (contents z rb)) in
        (
          reloaded z n kept,
          ground (arith, refit_lem rb n v),
          reloaded-IsReadable n kept p fits,
          refl,
          contents-reloaded n kept fits,
        )
  ]

  -- A valid buffer can still be written after a resize to more than it holds.
  pub resize-IsValid :
      (rb rb' : RingBuffer A) (n : ℕ)
      → IsValid rb
      → rb.count < n
      → resize z rb (pos n) ≡ some rb'
      → IsValid rb'
  unfolding resize
  resize-IsValid rb rb' n v l e = elim (ℕ_discrete n rb.size) [
    | yes same ↦ let kept : rb ≡ rb' = ground arith in subst IsValid kept v
    | no other ↦
        let loaded = reloaded_of_resize rb rb' n (IsValid-IsReadable v) (omega arith) other e in
        rw loaded (
          reloaded-IsValid n (keep_newest n (contents z rb)) (omega arith)
            (omega (arith, length-keep_newest n (contents z rb), length-contents z rb)))
  ]

  -- After a resize to another size that is positive and no larger than the count, the tail is out
  -- of range and the next push faults.
  pub push-resize_shrunk :
      (rb rb' : RingBuffer A) (n : ℕ) (x : A)
      → IsReadable rb
      → 0 < n
      → n ≢ rb.size
      → n ≤ rb.count
      → resize z rb (pos n) ≡ some rb'
      → push rb' x ≡ none
  unfolding push
  push-resize_shrunk rb rb' n x v p d l e = rw (reloaded_of_resize rb rb' n v p d e) (
      ground (
        arith,
        length-copy (replicate n z) (keep_newest n (contents z rb)),
        length-replicate n z,
        length-keep_newest n (contents z rb),
        length-contents z rb,
      ))
