-- ===== src/Push/ShardedHistory/Batch.antt =====
-- `BatchPush` against the pushes of its records one by one.
use native.Mathlib.Decide.{ℕ_discrete}
use mathlib.Core.Path.{fun_ext}
use go_oam.Base.{
  ==_iff, ==_false, ℕ, ◌<◌, ◌≡◌, ◌≢◌, refl, sym, ap, ◌∙◌, false, Option, some, List, [], ◌∷◌, ◌++◌,
  arith, ◌>>=◌, Key, key_eq, length, modify, length-modify, modify_comm, modify-modify, All,
  All-modify,
}
use go_oam.Push.RingBuffer.{RingBuffer, pushed}
use go_oam.Push.RingBuffer.Invariant.{IsValid, pushed-IsValid, push-eq-pushed}
use go_oam.Push.ShardedHistory.{
  ShardedHistory, ShardMap, shard_count, append_to, group, push, push_all, write_shards, batch_push,
}
use go_oam.Push.ShardedHistory.Shards.{
  IsValidHistory, shard_of, shard_of-lt, pushed_under, pushed_under-IsValidHistory, on_shard-modify,
  push-modify,
}

module _ {A : Type 0} where
  -- The reference: the records pushed one by one, each under its key.
  unfoldable pub push_each : (A → Key) → List A → ShardedHistory A → Option (ShardedHistory A)
  push_each key [] h = some h
  push_each key (r ∷ records) h = push h (key r) r >>= λ h'. push_each key records h'

  pushed_all : List A → RingBuffer A → RingBuffer A
  pushed_all [] rb = rb
  pushed_all (r ∷ recs) rb = pushed_all recs (pushed rb r)

  pushed_all-append :
      (recs : List A) (r : A) (rb : RingBuffer A)
      → pushed_all (recs ++ r ∷ []) rb ≡ pushed (pushed_all recs rb) r
  unfolding pushed_all
  pushed_all-append [] r rb = refl
  pushed_all-append (x ∷ recs) r rb = pushed_all-append recs r (pushed rb x)

  pushed_all-IsValid :
      (recs : List A) (rb : RingBuffer A) → IsValid rb → IsValid (pushed_all recs rb)
  unfolding pushed_all
  pushed_all-IsValid [] rb v = v
  pushed_all-IsValid (r ∷ recs) rb v = pushed_all-IsValid recs (pushed rb r) (pushed-IsValid rb r v)

  push_all-pushed_all :
      (recs : List A) (rb : RingBuffer A)
      → IsValid rb
      → push_all recs rb ≡ some (pushed_all recs rb)
  unfolding push_all pushed_all
  push_all-pushed_all [] rb v = refl
  push_all-pushed_all (r ∷ recs) rb v =
      rw (push-eq-pushed rb r v) (push_all-pushed_all recs (pushed rb r) (pushed-IsValid rb r v))

  -- The second loop where nothing faults.
  applied : ShardMap A → List (RingBuffer A) → List (RingBuffer A)
  applied [] shards = shards
  applied ((i, recs) ∷ m) shards = applied m (modify i (pushed_all recs) shards)

  -- No entry of the map is for the shard `i`.
  abbrev Absent : ℕ → ShardMap A → Type 0
  Absent i [] = Unit {0}
  Absent i ((j, recs) ∷ m) = (i ≢ j) × Absent i m

  -- Each shard has one entry at most, and every entry is for a shard.
  abbrev IsShardMap : ShardMap A → Type 0
  IsShardMap [] = Unit {0}
  IsShardMap ((j, recs) ∷ m) = (j < shard_count) × Absent j m × IsShardMap m

  append_to-Absent :
      (i idx : ℕ) (r : A) (m : ShardMap A) → i ≢ idx → Absent i m → Absent i (append_to m idx r)
  unfolding append_to
  append_to-Absent i idx r [] d a = (d, tt)
  append_to-Absent i idx r ((j, recs) ∷ m) d a = ground (arith, append_to-Absent i idx r m d a.1)

  append_to-IsShardMap :
      (idx : ℕ) (r : A) (m : ShardMap A)
      → idx < shard_count
      → IsShardMap m
      → IsShardMap (append_to m idx r)
  unfolding append_to
  append_to-IsShardMap idx r [] l s = (l, tt, tt)
  append_to-IsShardMap idx r ((j, recs) ∷ m) l s = elim (ℕ_discrete j idx) [
    | yes here ↦ rw ((==_iff j idx).1 here) s
    | no other ↦
        ground (arith, append_to-Absent j idx r m other s.1, append_to-IsShardMap idx r m l s.2)
  ]

  -- A change of a shard that the map leaves alone may be made before or after it.
  applied-modify :
      (i : ℕ) (f : RingBuffer A → RingBuffer A) (m : ShardMap A) (shards : List (RingBuffer A))
      → Absent i m
      → applied m (modify i f shards) ≡ modify i f (applied m shards)
  unfolding applied
  applied-modify i f [] shards a = refl
  applied-modify i f ((j, recs) ∷ m) shards a =
      ap (applied m) (modify_comm j i (pushed_all recs) f shards (λ e. a.0 (sym e)))
      ∙ applied-modify i f m (modify j (pushed_all recs) shards) a.1

  -- One more record for a shard is one more push on it.
  applied-append_to :
      (idx : ℕ) (r : A) (m : ShardMap A) (shards : List (RingBuffer A))
      → IsShardMap m
      → applied (append_to m idx r) shards ≡ modify idx (λ rb. pushed rb r) (applied m shards)
  unfolding applied append_to pushed_all
  applied-append_to idx r [] shards s = refl
  applied-append_to idx r ((j, recs) ∷ m) shards s = elim (ℕ_discrete j idx) [
    | yes here ↦
        rw ((==_iff j idx).1 here, ← here)
          (ap (λ f. applied m (modify j f shards)) (fun_ext (pushed_all-append recs r))
            ∙ ap (applied m) (sym (modify-modify j (λ rb. pushed rb r) (pushed_all recs) shards))
            ∙ applied-modify j (λ rb. pushed rb r) m (modify j (pushed_all recs) shards) s.1)
    | no other ↦
        rw (==_false j idx other)
          (applied-append_to idx r m (modify j (pushed_all recs) shards) s.2)
  ]

  write_shards-applied :
      (m : ShardMap A) (shards : List (RingBuffer A))
      → IsShardMap m
      → length shards ≡ shard_count
      → All IsValid shards
      → write_shards m shards ≡ some (applied m shards)
  unfolding write_shards applied
  write_shards-applied [] shards s l v = refl
  write_shards-applied ((j, recs) ∷ m) shards s l v =
      rw
        (on_shard-modify (push_all recs) (pushed_all recs) shards j
          (λ rb w. push_all-pushed_all recs rb w) v (omega arith))
        (write_shards-applied m (modify j (pushed_all recs) shards) s.2
          (length-modify j (pushed_all recs) shards ∙ l)
          (All-modify IsValid j (pushed_all recs) shards (λ rb w. pushed_all-IsValid recs rb w) v))

  group-IsShardMap :
      (key : A → Key) (records : List A) (m : ShardMap A)
      → IsShardMap m
      → IsShardMap (group key records m)
  unfolding group shard_of
  group-IsShardMap key [] m s = s
  group-IsShardMap key (r ∷ records) m s =
      group-IsShardMap key records (append_to m (shard_of (key r)) r)
        (append_to-IsShardMap (shard_of (key r)) r m (shard_of-lt (key r)) s)

  -- Every record comes under a key that is not empty.
  abbrev pub AllNamed : (A → Key) → List A → Type 0
  AllNamed key records = All (λ r. key_eq (key r) [] ≡ false) records

  push_each-group :
      (key : A → Key) (records : List A) (h : ShardedHistory A) (m : ShardMap A)
      (shards : List (RingBuffer A))
      → IsValidHistory h
      → AllNamed key records
      → IsShardMap m
      → h.shards ≡ applied m shards
      → push_each key records h ≡ some (record h { shards = applied (group key records m) shards })
  unfolding push_each group shard_of
  push_each-group key [] h m shards v n s e = ap (λ k. some (record h { shards = k })) e
  push_each-group key (r ∷ records) h m shards v n s e = rw (push-modify h (key r) r v n.0) (
      push_each-group key records (pushed_under h (key r) r) (append_to m (shard_of (key r)) r)
        shards (pushed_under-IsValidHistory h (key r) r v) n.1
        (append_to-IsShardMap (shard_of (key r)) r m (shard_of-lt (key r)) s)
        (ap (modify (shard_of (key r)) (λ rb. pushed rb r)) e
          ∙ sym (applied-append_to (shard_of (key r)) r m shards s)))

  -- `BatchPush` does what pushing its records one by one does, for records that all come under
  -- keys that are not empty.
  pub batch_push-eq-push_each :
      (key : A → Key) (records : List A) (h : ShardedHistory A)
      → IsValidHistory h
      → AllNamed key records
      → batch_push key records h ≡ push_each key records h
  unfolding batch_push applied push_each
  batch_push-eq-push_each key [] h v n = refl
  batch_push-eq-push_each key (r ∷ records) h v n =
      rw
        (write_shards-applied (group key (r ∷ records) []) h.shards
          (group-IsShardMap key (r ∷ records) [] tt) v.all_there v.all_valid)
        (sym (push_each-group key (r ∷ records) h [] h.shards v n tt refl))
