-- ===== src/Push/ShardedHistory.antt =====
-- push/history/sharded.go: sixteen ring buffers, and a key's hash to choose among them. Each
-- method holds the lock of the shard that it uses. The receiver is not nil.
pub mod Shards
pub mod Batch
mod Tests
use go_oam.Base.{
  ℕ, ◌+◌, ◌%◌, Bool, Option, none, some, List, [], ◌∷◌, ◌++◌, ◌==◌, if◌then◌else◌, ◌>>=◌, ℤ, pos,
  negsuc, to_int32, Key, key_eq, fnv32, get_elem?, set, replicate, map,
}
use go_oam.Push.RingBuffer
use go_oam.Push.RingBuffer.{RingBuffer, new_ring_buffer, get_all, get_last, count_of}

abbrev pub shard_count : ℕ
shard_count = 16

pub record ShardedHistory {ℓ} (A : Type ℓ) : Type ℓ where
  pub shards : List (RingBuffer A)
  pub max_size : ℤ

-- The index of a key's shard; the empty key has none.
unfoldable pub get_shard : Key → Option ℕ
get_shard key = if key_eq key [] then none else some (fnv32 key % shard_count)

-- The records of each shard, in a map from shard indices.
abbrev pub ShardMap {ℓ} : Type ℓ → Type ℓ
ShardMap A = List (ℕ × List A)

module _ {ℓ} {A : Type ℓ} where
  -- `shardMap[idx] = append(shardMap[idx], r)`
  unfoldable pub append_to : ShardMap A → ℕ → A → ShardMap A
  append_to [] idx r = (idx, r ∷ []) ∷ []
  append_to ((i, recs) ∷ m) idx r =
      if i == idx then (i, recs ++ r ∷ []) ∷ m else (i, recs) ∷ append_to m idx r

  -- The first loop of `BatchPush`. It hashes the empty key like any other.
  unfoldable pub group : (A → Key) → List A → ShardMap A → ShardMap A
  unfolding append_to
  group key [] m = m
  group key (r ∷ records) m = group key records (append_to m (fnv32 (key r) % shard_count) r)

  -- A method on the buffer of one shard, written back.
  abbrev pub on_shard :
      (RingBuffer A → Option (RingBuffer A))
      → List (RingBuffer A)
      → ℕ
      → Option (List (RingBuffer A))
  on_shard f shards i = do rb ← get_elem? shards i; rb' ← f rb; some (set shards i rb')

  unfoldable pub push : ShardedHistory A → Key → A → Option (ShardedHistory A)
  push h key r = elim (get_shard key) [
    | none ↦ some h
    | some i ↦ on_shard (λ rb. RingBuffer.push rb r) h.shards i >>= λ shards.
        some (record h { shards = shards })
  ]

  -- The loop over the records of one shard.
  unfoldable pub push_all : List A → RingBuffer A → Option (RingBuffer A)
  push_all [] rb = some rb
  push_all (r ∷ recs) rb = RingBuffer.push rb r >>= λ rb'. push_all recs rb'

  -- The second loop of `BatchPush`. The order of the map stands for the unspecified order in which
  -- Go visits it.
  unfoldable pub write_shards : ShardMap A → List (RingBuffer A) → Option (List (RingBuffer A))
  unfolding push_all
  write_shards [] shards = some shards
  write_shards ((i, recs) ∷ m) shards =
      on_shard (push_all recs) shards i >>= λ shards'. write_shards m shards'

  unfoldable pub batch_push : (A → Key) → List A → ShardedHistory A → Option (ShardedHistory A)
  unfolding group write_shards
  batch_push key [] h = some h
  batch_push key (r ∷ records) h = write_shards (group key (r ∷ records) []) h.shards >>= λ shards.
      some (record h { shards = shards })

  unfoldable pub clear : ShardedHistory A → Key → Option (ShardedHistory A)
  clear h key = elim (get_shard key) [
    | none ↦ some h
    | some i ↦ on_shard (λ rb. some (RingBuffer.clear rb)) h.shards i >>= λ shards.
        some (record h { shards = shards })
  ]

  unfoldable pub count : ShardedHistory A → Key → Option ℕ
  count h key = elim (get_shard key) [
    | none ↦ some 0
    | some i ↦ get_elem? h.shards i >>= λ rb. some (count_of rb)
  ]

  -- The loop of `CountAll`.
  unfoldable pub total_count : List (RingBuffer A) → ℕ
  total_count [] = 0
  total_count (rb ∷ shards) = count_of rb + total_count shards

  unfoldable pub count_all : ShardedHistory A → ℕ
  unfolding total_count
  count_all h = total_count h.shards

  unfoldable pub clear_all : ShardedHistory A → ShardedHistory A
  clear_all h = record h { shards = map RingBuffer.clear h.shards }

module _ {ℓ} {A : Type ℓ} (zero_value : A) where
  unfoldable pub new_sharded : ℤ → ShardedHistory A
  new_sharded max_size = record {
    shards = replicate shard_count (new_ring_buffer zero_value max_size);
    max_size = elim max_size [ negsuc n ↦ pos 0 | pos n ↦ if n == 0 then pos 0 else to_int32 n ];
  }

  -- `none` inside is the nil slice.
  unfoldable pub list : ShardedHistory A → Key → ℤ → Option (Option (List A))
  list h key (negsuc n) = some none
  list h key (pos n) = elim (get_shard key) [
    | none ↦ some none
    | some i ↦ do
      rb ← get_elem? h.shards i
      xs ← (if n == 0 then get_all zero_value rb else get_last zero_value rb (pos n))
      some (some xs)
  ]

  -- The loop of `SetSize`.
  unfoldable pub resize_shards : ℤ → List (RingBuffer A) → Option (List (RingBuffer A))
  resize_shards n [] = some []
  resize_shards n (rb ∷ shards) = do
    rb' ← RingBuffer.resize zero_value rb n
    shards' ← resize_shards n shards
    some (rb' ∷ shards')

  unfoldable pub set_size : ShardedHistory A → ℤ → Option (ShardedHistory A)
  unfolding resize_shards
  set_size h (negsuc n) = some h
  set_size h (pos n) =
      if n == 0
      then some h
      else (resize_shards (pos n) h.shards >>= λ shards.
          some (record { shards = shards; max_size = to_int32 n }))
