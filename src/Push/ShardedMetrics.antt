-- ===== src/Push/ShardedMetrics.antt =====
-- push/metrics/sharded.go: metrics by name in sixteen maps, each under its own lock; the hash of a
-- name chooses its map. A loop over the shards is taken as one step.
pub mod Placement
pub mod Refine
mod Tests
use go_oam.Base.{
  ℕ, ◌+◌, ◌%◌, Bool, Option, none, some, List, [], ◌∷◌, ◌++◌, if◌then◌else◌, Key, fnv32, lookup,
  insert, keys, map_values, collect, length, get_elem?, modify, map, replicate,
}
use go_oam.Push.Metric.{FloatOps, Metric, registered}
use go_oam.Push.Metrics.Methods.{update, assigned, added, subtracted, mark_sent, reset, delta_of}
use go_oam.Push.Metrics.Effects.{
  Call, registers, sets, incs, decs, incs_by, flushes, flushes_and_resets, clears,
}

pub record ShardedMetrics (F : Type 0) : Type 0 where
  pub shards : List (List (Key × Metric F))

unfoldable pub get_shard_index : Key → ℕ
get_shard_index name = fnv32 name % 16

module _ {F : Type 0} where
  unfoldable pub new_sharded : ShardedMetrics F
  new_sharded = record { shards = replicate 16 [] }

  -- The map of a name changed.
  abbrev pub on_shard :
      (List (Key × Metric F) → List (Key × Metric F)) → ShardedMetrics F → Key → ShardedMetrics F
  on_shard f m name = record { shards = modify (get_shard_index name) f m.shards }

  unfoldable pub register : ShardedMetrics F → Key → F → F → F → F → ShardedMetrics F
  register m name init step min max =
      on_shard (λ s. insert name (registered init step min max) s) m name

  unfoldable pub set : ShardedMetrics F → Key → F → ShardedMetrics F
  set m name value = on_shard (λ s. update (assigned value) s name) m name

  -- The metric of a name, in its map.
  unfoldable pub find : ShardedMetrics F → Key → Option (Metric F)
  find m name = elim (get_elem? m.shards (get_shard_index name)) [
    | none ↦ none
    | some s ↦ lookup name s
  ]

  -- The reports of the shards, one after the other, in one result.
  unfoldable pub collect_all :
      (Metric F → F) → List (List (Key × Metric F)) → List (Key × F) → List (Key × F)
  collect_all f [] result = result
  collect_all f (s ∷ shards) result = collect_all f shards (collect f s result)

  unfoldable pub flush_and_reset : ShardedMetrics F → List (Key × F) × ShardedMetrics F
  flush_and_reset m = (
    collect_all (λ mt. mt.accum) m.shards [],
    record { shards = map (map_values reset) m.shards },
  )

  unfoldable pub snapshot : ShardedMetrics F → List (Key × F)
  snapshot m = collect_all (λ mt. mt.accum) m.shards []

  unfoldable pub clear : ShardedMetrics F → ShardedMetrics F
  clear m = record { shards = map (map_values reset) m.shards }

  unfoldable pub count_shards : List (List (Key × Metric F)) → ℕ
  count_shards [] = 0
  count_shards (s ∷ shards) = length s + count_shards shards

  unfoldable pub count : ShardedMetrics F → ℕ
  unfolding count_shards
  count m = count_shards m.shards

  unfoldable pub keys_of_shards : List (List (Key × Metric F)) → List Key
  keys_of_shards [] = []
  keys_of_shards (s ∷ shards) = keys s ++ keys_of_shards shards

  unfoldable pub keys_of : ShardedMetrics F → List Key
  unfolding keys_of_shards
  keys_of m = keys_of_shards m.shards

module _ {F : Type 0} (ops : FloatOps F) where
  unfoldable pub inc : ShardedMetrics F → Key → ShardedMetrics F
  inc m name = on_shard (λ s. update (λ mt. added ops mt.step mt) s name) m name

  unfoldable pub dec : ShardedMetrics F → Key → ShardedMetrics F
  dec m name = on_shard (λ s. update (subtracted ops) s name) m name

  unfoldable pub inc_by : ShardedMetrics F → Key → F → ShardedMetrics F
  inc_by m name delta = on_shard (λ s. update (added ops delta) s name) m name

  unfoldable pub get : ShardedMetrics F → Key → F
  unfolding find
  get m name = elim (find m name) [ none ↦ ops.zero | some mt ↦ mt.accum ]

  unfoldable pub get_delta : ShardedMetrics F → Key → F
  unfolding find
  get_delta m name = elim (find m name) [ none ↦ ops.zero | some mt ↦ delta_of ops mt ]

  unfoldable pub flush : ShardedMetrics F → List (Key × F) × ShardedMetrics F
  flush m = (
    collect_all (delta_of ops) m.shards [],
    record { shards = map (map_values mark_sent) m.shards },
  )

  unfoldable pub step : ShardedMetrics F → Call F → ShardedMetrics F
  unfolding register set inc dec inc_by flush flush_and_reset clear
  step m (registers name init by min max) = register m name init by min max
  step m (sets name value) = set m name value
  step m (incs name) = inc m name
  step m (decs name) = dec m name
  step m (incs_by name delta) = inc_by m name delta
  step m flushes = (flush m).1
  step m flushes_and_resets = (flush_and_reset m).1
  step m clears = clear m

  unfoldable pub run : ShardedMetrics F → List (Call F) → ShardedMetrics F
  run m [] = m
  run m (c ∷ calls) = run (step m c) calls
