-- ===== src/Push/RingBuffer/Contents.antt =====
-- What a readable buffer holds, oldest first, and that the readers return it.
use native.Mathlib.Nat.{mod-add-mod, mod-lt}
use go_oam.Base.{
  subst, ℕ, ◌+◌, ◌-◌, ◌%◌, ◌≤◌, ◌<◌, ◌≡◌, refl, ap, some, List, [], ◌++◌, arith, length, get_or,
  take, drop, replicate, length-take, length-drop, length-replicate, tabulate, length-tabulate,
  tabulate-ext, get_elem?-tabulate, get_elem?-append, get_elem?-take, get_elem?-drop,
  get_elem?-get_or, eq_of_get_elem?, copy-full, copy_at-copy, mod_cases, mod_add_round, ℤ, pos,
  negsuc, slice, slice_from, copy, copy_at, slice-eq, slice_to-eq, slice_from-eq, drop-eq-nil,
  ◌>>=◌,
}
use go_oam.Push.RingBuffer.{RingBuffer, get_all, get_all_unsafe, read_last, get_last, clear}
use go_oam.Push.RingBuffer.Invariant.{IsReadable}

add-sub-left : (a b : ℕ) → a + b - a ≡ b
add-sub-left a b = omega arith

-- The last `n` elements, where `n` is positive.
abbrev pub last_of {ℓ} : {A : Type ℓ} → ℤ → List A → List A
last_of (pos n) xs = drop (length xs - n) xs
last_of (negsuc n) xs = []

module _ {A : Type 0} (z : A) where
  -- The `n` elements from index `start` on, going round at `size`.
  abbrev pub window : List A → ℕ → ℕ → ℕ → List A
  window items size start n = tabulate n (λ i. get_or items ((start + i) % size) z)

  abbrev pub contents : RingBuffer A → List A
  contents rb = window rb.items rb.size rb.head rb.count

  window-straight :
      (items : List A) (start n : ℕ)
      → start + n ≤ length items
      → take n (drop start items) ≡ window items (length items) start n
  window-straight items start n h = eq_of_get_elem? _ _ λ i. ground (
    arith,
    get_elem?-take n (drop start items) i,
    get_elem?-drop start items i,
    get_elem?-get_or items (start + i) z,
    get_elem?-tabulate n (λ i. get_or items ((start + i) % length items) z) i,
    mod_cases (start + i) (length items),
  )

  window-around :
      (items : List A) (start n : ℕ)
      → start < length items
      → length items ≤ start + n
      → n ≤ length items
      → take (length items - start) (drop start items) ++ take (n - (length items - start)) items
        ≡ window items (length items) start n
  window-around items start n s w h = eq_of_get_elem? _ _ λ i. ground (
    arith,
    get_elem?-append (take (length items - start) (drop start items))
        (take (n - (length items - start)) items) i,
    length-take (length items - start) (drop start items),
    length-drop start items,
    get_elem?-take (length items - start) (drop start items) i,
    get_elem?-take (n - (length items - start)) items (i - (length items - start)),
    get_elem?-drop start items i,
    get_elem?-get_or items (start + i) z,
    get_elem?-get_or items (i - (length items - start)) z,
    get_elem?-tabulate n (λ i. get_or items ((start + i) % length items) z) i,
    mod_cases (start + i) (length items),
  )

  pub length-contents : (rb : RingBuffer A) → length (contents rb) ≡ rb.count
  length-contents rb = length-tabulate rb.count _

  length-piece :
      (items : List A) (start n : ℕ)
      → start + n ≤ length items
      → length (take n (drop start items)) ≡ n
  length-piece items start n h =
      omega (arith, length-take n (drop start items), length-drop start items)

  pub contents-clear : (rb : RingBuffer A) → contents (clear rb) ≡ []
  unfolding clear
  contents-clear rb = refl

  -- The branch of one copy: the elements lie in one piece.
  one_piece :
      (items : List A) (start stop n : ℕ)
      → stop ≡ start + n
      → stop ≤ length items
      → (slice items start stop >>= λ s. some (copy (replicate n z) s))
        ≡ some (window items (length items) start n)
  one_piece items start stop n e h =
      rw (slice-eq items start stop (omega arith) h, e, add-sub-left start n)
        (rw
          (copy-full (replicate n z) (take n (drop start items))
            (omega (arith, length-piece items start n (omega arith), length-replicate n z)))
          (ap some (window-straight items start n (omega arith))))

  -- The branch of two copies: the elements go round the end of the array.
  two_pieces :
      (items : List A) (start stop n : ℕ)
      → start < length items
      → length items ≤ start + n
      → n ≤ length items
      → stop ≡ n - (length items - start)
      → (slice_from items start >>= λ s.
          slice items 0 stop >>= λ t. copy_at (copy (replicate n z) s) (length items - start) t)
        ≡ some (window items (length items) start n)
  two_pieces items start stop n s w h e =
      rw
        (
          slice_from-eq items start (omega arith),
          slice_to-eq items stop (omega arith),
          copy_at-copy (replicate n z) (take (length items - start) (drop start items))
              (take stop items) (length items - start)
              (omega (arith, length-piece items start (length items - start) (omega arith)))
              (omega (
                arith,
                length-piece items start (length items - start) (omega arith),
                length-take stop items,
                length-replicate n z,
              )),
          e,
        )
        (ap some (window-around items start n s w h))

  -- Both readers, in terms of the size that the buffer records.
  read_straight :
      (rb : RingBuffer A) (start stop n : ℕ)
      → length rb.items ≡ rb.size
      → stop ≡ start + n
      → stop ≤ rb.size
      → (slice rb.items start stop >>= λ s. some (copy (replicate n z) s))
        ≡ some (window rb.items rb.size start n)
  read_straight rb start stop n fa e h =
      subst
        (λ k.
          (slice rb.items start stop >>= λ s. some (copy (replicate n z) s))
          ≡ some (window rb.items k start n))
        fa (one_piece rb.items start stop n e (omega arith))

  read_around :
      (rb : RingBuffer A) (start stop n : ℕ)
      → length rb.items ≡ rb.size
      → start < rb.size
      → rb.size ≤ start + n
      → n ≤ rb.size
      → stop ≡ n - (rb.size - start)
      → (slice_from rb.items start >>= λ s.
          slice rb.items 0 stop >>= λ t. copy_at (copy (replicate n z) s) (rb.size - start) t)
        ≡ some (window rb.items rb.size start n)
  read_around rb start stop n fa s w h e =
      subst
        (λ k.
          (slice_from rb.items start >>= λ s.
          slice rb.items 0 stop >>= λ t. copy_at (copy (replicate n z) s) (k - start) t)
          ≡ some (window rb.items k start n))
        fa
        (two_pieces rb.items start stop n (omega arith) (omega arith) (omega arith) (omega arith))

  -- `getAllUnsafe` returns what the buffer holds, oldest first.
  pub get_all_unsafe_lem :
      (rb : RingBuffer A) → IsReadable rb → get_all_unsafe z rb ≡ some (contents rb)
  unfolding get_all_unsafe
  get_all_unsafe_lem rb v = ground (
    arith,
    mod_cases (rb.head + rb.count) rb.size,
    read_straight rb rb.head rb.tail rb.count,
    read_around rb rb.head rb.tail rb.count,
  )

  -- `GetAll` returns what the buffer holds, oldest first, and does not fault.
  pub get_all_lem : (rb : RingBuffer A) → IsReadable rb → get_all z rb ≡ some (contents rb)
  unfolding get_all
  get_all_lem rb v = get_all_unsafe_lem rb v

  drop-tabulate : (k n : ℕ) (f : ℕ → A) → drop k (tabulate n f) ≡ tabulate (n - k) (λ i. f (k + i))
  drop-tabulate k n f = eq_of_get_elem? _ _ λ i. ground (
    arith,
    get_elem?-drop k (tabulate n f) i,
    get_elem?-tabulate n f (k + i),
    get_elem?-tabulate (n - k) (λ j. f (k + j)) i,
  )

  -- The place from which `GetLast` reads: `n` before the tail, round the array.
  last_index :
      (rb : RingBuffer A) (n i : ℕ)
      → IsReadable rb
      → n ≤ rb.count
      → i < n
      → ((rb.tail + rb.size - n) % rb.size + i) % rb.size ≡ (rb.head + (rb.count - n + i)) % rb.size
  last_index rb n i v h l = rw mod-add-mod (
      ground (
        arith,
        mod_cases (rb.head + rb.count) rb.size,
        mod_add_round (rb.head + rb.count - n) rb.size i,
      ))

  last_window :
      (rb : RingBuffer A) (n : ℕ)
      → IsReadable rb
      → n ≤ rb.count
      → window rb.items rb.size ((rb.tail + rb.size - n) % rb.size) n
        ≡ drop (rb.count - n) (contents rb)
  last_window rb n v h =
      let left : rb.count - (rb.count - n) ≡ n = omega arith in
      rw
        (
          drop-tabulate (rb.count - n) rb.count (λ i. get_or rb.items ((rb.head + i) % rb.size) z),
          left,
        )
        (tabulate-ext n _ _ (λ i l. ap (λ k. get_or rb.items k z) (last_index rb n i v h l)))

  read_last_lem :
      (rb : RingBuffer A) (n : ℕ)
      → IsReadable rb
      → 0 < n
      → n ≤ rb.count
      → read_last z rb n ≡ some (drop (rb.count - n) (contents rb))
  unfolding read_last
  read_last_lem rb n v p h = ground (
    arith,
    last_window rb n v h,
    mod-lt (rb.tail + rb.size - n) v.nonempty,
    read_straight rb start (start + n) n,
    read_around rb start (n - (rb.size - start)) n,
  )
    where
      start : ℕ
      start = (rb.tail + rb.size - n) % rb.size

  -- `GetLast(n)` returns the last `n` elements that the buffer holds, all of them if it holds
  -- fewer, and none for an `n` that is not positive. It does not fault.
  pub get_last_lem :
      (rb : RingBuffer A) (n : ℤ) → IsReadable rb → get_last z rb n ≡ some (last_of n (contents rb))
  unfolding get_last
  get_last_lem rb (negsuc n) v = refl
  get_last_lem rb (pos n) v = ground (
    arith,
    length-contents rb,
    read_last_lem rb n v,
    read_last_lem rb rb.count v,
    drop-eq-nil (rb.count - n) (contents rb),
  )
