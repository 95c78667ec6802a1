-- ===== src/Push/ShardedHistory/Shards.antt =====
-- The methods that use one shard, seen through the keys.
use native.Mathlib.Decide.{ℕ_discrete}
use go_oam.Base.{
  subst, ==_iff, ℕ, zero, suc, ◌%◌, ◌<◌, ◌≡◌, refl, sym, ap, ◌∙◌, false, Option, none, some, List,
  [], ◌∷◌, ◌++◌, arith, if◌then◌else◌, ◌==◌, ℤ, pos, Key, key_eq, fnv32, length, get_elem?, set,
  modify, length-modify, get_elem?-modify_self, get_elem?-modify_ne, All, All-get_elem?, All-modify,
  All-replicate, get_elem?_in_range,
}
use go_oam.Push.RingBuffer
use go_oam.Push.RingBuffer.{RingBuffer, pushed, get_all, get_last}
use go_oam.Push.RingBuffer.Invariant.{
  IsValid, IsValid-IsReadable, new_ring_buffer-IsValid, pushed-IsValid, push-eq-pushed,
}
use go_oam.Push.RingBuffer.Contents.{contents, last_of, get_all_lem, get_last_lem}
use go_oam.Push.RingBuffer.Refine.{keep_newest, last-keep_newest, contents-pushed}
use go_oam.Push.ShardedHistory.{
  ShardedHistory, shard_count, get_shard, on_shard, push, list, new_sharded,
}

-- There are sixteen shards, and each can be written.
pub record IsValidHistory {A : Type 0} (h : ShardedHistory A) : Type 0 where
  pub all_there : length h.shards ≡ shard_count
  pub all_valid : All IsValid h.shards

-- The shard of a key that is not empty.
unfoldable pub shard_of : Key → ℕ
shard_of key = fnv32 key % shard_count

pub shard_of-lt : (key : Key) → shard_of key < shard_count
unfolding shard_of
shard_of-lt key = omega arith

pub get_shard-shard_of : (key : Key) → key_eq key [] ≡ false → get_shard key ≡ some (shard_of key)
unfolding get_shard shard_of
get_shard-shard_of key h = rw h refl

module _ {ℓ} {A : Type ℓ} where
  set-modify :
      (xs : List A) (i : ℕ) (x : A) (f : A → A)
      → get_elem? xs i ≡ some x
      → set xs i (f x) ≡ modify i f xs
  set-modify [] i x f h = refl
  set-modify (y ∷ xs) zero x f h = let same : y ≡ x = ground arith in ap (λ k. f k ∷ xs) (sym same)
  set-modify (y ∷ xs) (suc i) x f h = ap (λ r. y ∷ r) (set-modify xs i x f h)

module _ {A : Type 0} where
  -- A method that cannot fault on a valid buffer is a change of its shard.
  pub on_shard-modify :
      (f : RingBuffer A → Option (RingBuffer A)) (g : RingBuffer A → RingBuffer A)
      (shards : List (RingBuffer A)) (i : ℕ)
      → ((rb : RingBuffer A) → IsValid rb → f rb ≡ some (g rb))
      → All IsValid shards
      → i < length shards
      → on_shard f shards i ≡ some (modify i g shards)
  on_shard-modify f g shards i total v l =
      let (rb, found) = get_elem?_in_range shards i l in
      rw (found, total rb (All-get_elem? IsValid shards i rb v found))
        (ap some (set-modify shards i rb g found))

  -- How much the shard `i` can hold.
  unfoldable pub shard_size : ShardedHistory A → ℕ → ℕ
  shard_size h i = elim (get_elem? h.shards i) [ some rb ↦ rb.size | none ↦ 0 ]

  shard_size-found :
      (h : ShardedHistory A) (i : ℕ) (rb : RingBuffer A)
      → get_elem? h.shards i ≡ some rb
      → shard_size h i ≡ rb.size
  unfolding shard_size
  shard_size-found h i rb e = rw (shard_size, e)

module _ {A : Type 0} where
  abbrev pub pushed_under : ShardedHistory A → Key → A → ShardedHistory A
  pushed_under h key x = record h { shards = modify (shard_of key) (λ rb. pushed rb x) h.shards }

  pub pushed_under-IsValidHistory :
      (h : ShardedHistory A) (key : Key) (x : A)
      → IsValidHistory h
      → IsValidHistory (pushed_under h key x)
  pushed_under-IsValidHistory h key x v = record {
    all_there = length-modify (shard_of key) _ h.shards ∙ v.all_there;
    all_valid =
        All-modify IsValid (shard_of key) _ h.shards (λ rb w. pushed-IsValid rb x w) v.all_valid;
  }

  pub push-modify :
      (h : ShardedHistory A) (key : Key) (x : A)
      → IsValidHistory h
      → key_eq key [] ≡ false
      → push h key x
        ≡ some (record h { shards = modify (shard_of key) (λ rb. pushed rb x) h.shards })
  unfolding push
  push-modify h key x v named =
      rw (get_shard-shard_of key named, push)
        (rw (
          on_shard-modify (λ rb. RingBuffer.push rb x) (λ rb. pushed rb x) h.shards (shard_of key)
            (λ rb w. push-eq-pushed rb x w) v.all_valid
            (omega (arith, v.all_there, shard_of-lt key))))

module _ {A : Type 0} (z : A) where
  -- What the shard `i` holds.
  unfoldable pub shard_view : ShardedHistory A → ℕ → List A
  shard_view h i = elim (get_elem? h.shards i) [ some rb ↦ contents z rb | none ↦ [] ]

  shard_view-found :
      (h : ShardedHistory A) (i : ℕ) (rb : RingBuffer A)
      → get_elem? h.shards i ≡ some rb
      → shard_view h i ≡ contents z rb
  unfolding shard_view
  shard_view-found h i rb e = rw (shard_view, e)

  view-pushed_under :
      (h : ShardedHistory A) (key : Key) (i : ℕ) (x : A)
      → IsValidHistory h
      → i < shard_count
      → shard_view (pushed_under h key x) i ≡ (
          if i == shard_of key
          then keep_newest (shard_size h i) (shard_view h i ++ x ∷ [])
          else shard_view h i)
  view-pushed_under h key i x v l =
      let (rb, found) = get_elem?_in_range h.shards i (omega (arith, v.all_there)) in
      let valid = All-get_elem? IsValid h.shards i rb v.all_valid found in
      elim (ℕ_discrete i (shard_of key)) [
        | yes here ↦
            rw (shard_view-found h i rb found, shard_size-found h i rb found, (==_iff _ _).1 here)
              (shard_view-found (pushed_under h key x) i (pushed rb x)
                  (rw (← here) (get_elem?-modify_self i (λ r. pushed r x) h.shards rb found))
                ∙ contents-pushed z rb x valid)
        | no other ↦ rw (shard_view-found h i rb found) (
            shard_view-found (pushed_under h key x) i rb
              (get_elem?-modify_ne (shard_of key) i _ h.shards (λ e. other (sym e)) ∙ found)
            ∙ ground (arith, other))
      ]

  -- `Push` under a key that is not empty does not fault. Every shard but the key's is left as it
  -- was; the key's takes the element in and keeps its newest, whichever keys they came under.
  pub shard_push_lem :
      (h : ShardedHistory A) (key : Key) (i : ℕ) (x : A)
      → IsValidHistory h
      → key_eq key [] ≡ false
      → i < shard_count
      → (h' : ShardedHistory A) × (push h key x ≡ some h')
        × IsValidHistory h'
        × (shard_view h' i ≡ (
            if i == shard_of key
            then keep_newest (shard_size h i) (shard_view h i ++ x ∷ [])
            else shard_view h i))
  shard_push_lem h key i x v named l = (
    pushed_under h key x,
    push-modify h key x v named,
    pushed_under-IsValidHistory h key x v,
    view-pushed_under h key i x v l,
  )

  -- `List` under a key that is not empty returns what the key's shard holds, all of it for 0 and
  -- the last `n` elements for another `n`.
  pub shard_list_lem :
      (h : ShardedHistory A) (key : Key) (n : ℕ)
      → IsValidHistory h
      → key_eq key [] ≡ false
      → list z h key (pos n)
        ≡ some (
            some (
              if n == 0
              then shard_view h (shard_of key)
              else last_of (pos n) (shard_view h (shard_of key))))
  unfolding list
  shard_list_lem h key n v named =
      let (rb, found) =
        get_elem?_in_range h.shards (shard_of key) (omega (arith, v.all_there, shard_of-lt key)) in
      let readable =
        IsValid-IsReadable (All-get_elem? IsValid h.shards (shard_of key) rb v.all_valid found) in
      rw (get_shard-shard_of key named, list)
        (rw (found, shard_view-found h (shard_of key) rb found)
          (ground (arith, get_all_lem z rb readable, get_last_lem z rb (pos n) readable)))

  -- Two keys of one shard share one history: what is pushed under the one is listed under the other.
  pub list-push_collides :
      (h h' : ShardedHistory A) (key j : Key) (x : A)
      → IsValidHistory h
      → key_eq key [] ≡ false
      → key_eq j [] ≡ false
      → shard_of j ≡ shard_of key
      → push h key x ≡ some h'
      → list z h' j (pos 1) ≡ some (some (x ∷ []))
  list-push_collides h h' key j x v named named' same e =
      let (g, step, valid, seen) = shard_push_lem h key (shard_of j) x v named (shard_of-lt j) in
      let pushed_to : g ≡ h' = cc (step) in
      let (rb, found) =
        get_elem?_in_range h.shards (shard_of j) (omega (arith, v.all_there, shard_of-lt j)) in
      let writable = All-get_elem? IsValid h.shards (shard_of j) rb v.all_valid found in
      let room : 0 < shard_size h (shard_of j) =
        rw (shard_size-found h (shard_of j) rb found) (writable.nonempty) in
      let held : shard_view g (shard_of j)
          ≡ keep_newest (shard_size h (shard_of j)) (shard_view h (shard_of j) ++ x ∷ []) =
        rw ((==_iff (shard_of j) (shard_of key)).1 same) at seen in
      subst (λ k. list z k j (pos 1) ≡ some (some (x ∷ []))) pushed_to
        (rw (shard_list_lem g j 1 valid named', held)
          (ap (λ r. some (some r)) (last-keep_newest _ (shard_view h (shard_of j)) x room)))

  -- A new history has its shards, and each can be written.
  pub new_sharded-IsValidHistory : (max_size : ℤ) → IsValidHistory (new_sharded z max_size)
  unfolding new_sharded
  new_sharded-IsValidHistory max_size = record {
    all_there = refl;
    all_valid = All-replicate IsValid 16 _ (new_ring_buffer-IsValid z max_size);
  }
