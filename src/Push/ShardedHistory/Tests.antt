-- ===== src/Push/ShardedHistory/Tests.antt =====
-- Sharded histories on concrete inputs.
use go_oam.Base.{ℕ, ◌≡◌, refl, [], ◌∷◌, pos, Key, fnv32, fnv_from, fnv_step}
use go_oam.Push.ShardedHistory.{ShardedHistory, new_sharded, batch_push}
use go_oam.Push.ShardedHistory.Shards.{shard_of, new_sharded-IsValidHistory}
use go_oam.Push.ShardedHistory.Batch.{push_each, batch_push-eq-push_each}

abbrev fresh : ShardedHistory ℕ
fresh = new_sharded 0 (pos 2)

-- The FNV-1a hash of "a" is 0xe40c292c.
abbrev key_a : Key
key_a = b'a' ∷ []

hash_a : (fnv32 key_a ≡ 0xe40c292c) × (shard_of key_a ≡ 12)
unfolding fnv32 fnv_from fnv_step shard_of
hash_a = (refl, refl)

abbrev key_q : Key
key_q = b'q' ∷ []

same_shard : shard_of key_q ≡ shard_of key_a
unfolding fnv32 fnv_from fnv_step shard_of
same_shard = refl

-- Records are numbers, and a number's key is the letter with that code.
batch_push-eq-push_each_example :
    batch_push (λ (n : ℕ). n ∷ []) (97 ∷ 113 ∷ 98 ∷ []) fresh
    ≡ push_each (λ (n : ℕ). n ∷ []) (97 ∷ 113 ∷ 98 ∷ []) fresh
batch_push-eq-push_each_example =
    batch_push-eq-push_each (λ (n : ℕ). n ∷ []) (97 ∷ 113 ∷ 98 ∷ []) fresh
      (new_sharded-IsValidHistory 0 (pos 2)) (refl, (refl, (refl, tt)))
