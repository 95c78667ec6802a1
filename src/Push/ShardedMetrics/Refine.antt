-- ===== src/Push/ShardedMetrics/Refine.antt =====
-- The sharded collector against the plain one: no history of calls tells them apart.
use mathlib.Core.Option
use go_oam.Base.{
  ℕ, zero, suc, ◌<◌, replicate, ◌≡◌, refl, sym, ap, ◌∙◌, inl, inr, none, some, List, [], ◌∷◌, arith,
  Option-cases, Key, lookup, lookup-insert, lookup-map_values, lookup-collect, map_values,
  get_elem?, length-modify, length-map, map,
}
use go_oam.Push.Metric.{FloatOps, Metric, registered}
use go_oam.Push.Metrics.Methods.{
  assigned, added, subtracted, Metrics, new_metrics, update, mark_sent, reset, delta_of,
}
use go_oam.Push.Metrics.Methods
use go_oam.Push.Metrics.Effects
use go_oam.Push.Metrics.Effects.{
  Call, registers, sets, incs, decs, incs_by, flushes, flushes_and_resets, clears, effect, effects,
  run-effects, lookup-update, run-Distinct,
}
use go_oam.Push.ShardedMetrics.{
  ShardedMetrics, get_shard_index, new_sharded, on_shard, find, get, get_delta, flush,
  flush_and_reset, snapshot, step, run,
}
use go_oam.Push.ShardedMetrics.Placement.{
  IsWellPlaced, AllPlaced-modify, AllPlaced-map, IsPlaced, IsPlaced-insert, IsPlaced-update,
  IsPlaced-map_values, find-on_shard, lookup-collect_all, new_sharded-IsWellPlaced,
  get_shard_index-lt,
}

get_elem?-map :
    {A B : Type 0} (f : A → B) (xs : List A) (i : ℕ)
    → get_elem? (map f xs) i ≡ Option.map f (get_elem? xs i)
get_elem?-map f [] i = refl
get_elem?-map f (x ∷ xs) zero = refl
get_elem?-map f (x ∷ xs) (suc i) = get_elem?-map f xs i

get_elem?-replicate : {A : Type 0} (x : A) (n i : ℕ) → i < n → get_elem? (replicate n x) i ≡ some x
get_elem?-replicate x zero i h = ground arith
get_elem?-replicate x (suc n) zero h = refl
get_elem?-replicate x (suc n) (suc i) h = get_elem?-replicate x n i (omega arith)

module _ {F : Type 0} where
  find-map_values :
      (f : Metric F → Metric F) (shards : List (List (Key × Metric F))) (j : Key)
      → find (record { shards = map (map_values f) shards }) j
        ≡ Option.map f (find (record { shards = shards }) j)
  unfolding find
  find-map_values f shards j = elim (Option-cases (get_elem? shards (get_shard_index j))) [
    | inl missing ↦ ground (arith, missing, get_elem?-map (map_values f) shards (get_shard_index j))
    | inr (s, here) ↦ ground (
      arith,
      here,
      get_elem?-map (map_values f) shards (get_shard_index j),
      lookup-map_values f j s,
    )
  ]

  on_shard-IsWellPlaced :
      (f : List (Key × Metric F) → List (Key × Metric F)) (m : ShardedMetrics F) (name : Key)
      → ((s : List (Key × Metric F))
          → IsPlaced (get_shard_index name) s
          → IsPlaced (get_shard_index name) (f s))
      → IsWellPlaced m
      → IsWellPlaced (on_shard f m name)
  on_shard-IsWellPlaced f m name h a = record {
    all_there = length-modify (get_shard_index name) f m.shards ∙ a.all_there;
    placed =
        AllPlaced-modify 0 (get_shard_index name) (get_shard_index name) f m.shards (omega arith) h
          a.placed;
  }

  all_shards-IsWellPlaced :
      (f : Metric F → Metric F) (m : ShardedMetrics F)
      → IsWellPlaced m
      → IsWellPlaced (record { shards = map (map_values f) m.shards })
  all_shards-IsWellPlaced f m a = record {
    all_there = length-map m.shards (map_values f) ∙ a.all_there;
    placed = AllPlaced-map 0 (map_values f) m.shards (λ i s. IsPlaced-map_values i f s) a.placed;
  }

module _ {F : Type 0} (ops : FloatOps F) where
  step-IsWellPlaced :
      (m : ShardedMetrics F) (c : Call F) → IsWellPlaced m → IsWellPlaced (step ops m c)
  unfolding step
  step-IsWellPlaced m (registers name init by min max) a =
      on_shard-IsWellPlaced _ m name (λ s. IsPlaced-insert _ name _ s refl) a
  step-IsWellPlaced m (sets name value) a =
      on_shard-IsWellPlaced _ m name (λ s. IsPlaced-update _ name _ s) a
  step-IsWellPlaced m (incs name) a =
      on_shard-IsWellPlaced _ m name (λ s. IsPlaced-update _ name _ s) a
  step-IsWellPlaced m (decs name) a =
      on_shard-IsWellPlaced _ m name (λ s. IsPlaced-update _ name _ s) a
  step-IsWellPlaced m (incs_by name delta) a =
      on_shard-IsWellPlaced _ m name (λ s. IsPlaced-update _ name _ s) a
  step-IsWellPlaced m flushes a = all_shards-IsWellPlaced mark_sent m a
  step-IsWellPlaced m flushes_and_resets a = all_shards-IsWellPlaced reset m a
  step-IsWellPlaced m clears a = all_shards-IsWellPlaced reset m a

  sharded_step-effect :
      (m : ShardedMetrics F) (c : Call F) (j : Key)
      → IsWellPlaced m
      → find (step ops m c) j ≡ effect ops c j (find m j)
  unfolding step effect
  sharded_step-effect m (registers name init by min max) j a =
      find-on_shard _ m name j (λ _. some (registered init by min max)) a
        (λ s. lookup-insert name j _ s)
  sharded_step-effect m (sets name value) j a =
      find-on_shard _ m name j (Option.map (assigned value)) a (λ s. lookup-update _ s name j)
  sharded_step-effect m (incs name) j a =
      find-on_shard _ m name j (Option.map (λ mt. added ops mt.step mt)) a
        (λ s. lookup-update _ s name j)
  sharded_step-effect m (decs name) j a =
      find-on_shard _ m name j (Option.map (subtracted ops)) a (λ s. lookup-update _ s name j)
  sharded_step-effect m (incs_by name delta) j a =
      find-on_shard _ m name j (Option.map (added ops delta)) a (λ s. lookup-update _ s name j)
  sharded_step-effect m flushes j a = find-map_values mark_sent m.shards j
  sharded_step-effect m flushes_and_resets j a = find-map_values reset m.shards j
  sharded_step-effect m clears j a = find-map_values reset m.shards j

  sharded_run-effects :
      (m : ShardedMetrics F) (calls : List (Call F)) (j : Key)
      → IsWellPlaced m
      → (find (run ops m calls) j ≡ effects ops calls j (find m j)) × IsWellPlaced (run ops m calls)
  unfolding run effects
  sharded_run-effects m [] j a = (refl, a)
  sharded_run-effects m (c ∷ calls) j a =
      let (seen, placed) = sharded_run-effects (step ops m c) calls j (step-IsWellPlaced m c a) in
      (seen ∙ ap (effects ops calls j) (sharded_step-effect m c j a), placed)

  find-new_sharded : (j : Key) → find {F = F} new_sharded j ≡ none
  unfolding find new_sharded
  find-new_sharded j =
      ground (arith, get_elem?-replicate [] 16 (get_shard_index j) (get_shard_index-lt j))

  -- After the same calls, the sharded collector holds the same metric under each name.
  find-run :
      (calls : List (Call F)) (j : Key)
      → find (run ops new_sharded calls) j ≡ lookup j (Effects.run ops new_metrics calls).items
  unfolding new_metrics
  find-run calls j =
      (sharded_run-effects new_sharded calls j new_sharded-IsWellPlaced).0
      ∙ ap (effects ops calls j) (find-new_sharded j)
      ∙ sym (run-effects ops new_metrics calls j)

  -- Both collectors start empty. After any calls, `Get` and `GetDelta` answer the same for each
  -- name, and so do the entries of a `Flush`, a `FlushAndReset` and a `Snapshot`.
  pub sharded-eq-plain :
      (calls : List (Call F)) (j : Key)
      → (get ops (run ops new_sharded calls) j
          ≡ Methods.get ops (Effects.run ops new_metrics calls) j)
        × (get_delta ops (run ops new_sharded calls) j
            ≡ Methods.get_delta ops (Effects.run ops new_metrics calls) j)
        × (lookup j (flush ops (run ops new_sharded calls)).0
            ≡ lookup j (Methods.flush ops (Effects.run ops new_metrics calls)).0)
        × (lookup j (flush_and_reset (run ops new_sharded calls)).0
            ≡ lookup j (Methods.flush_and_reset (Effects.run ops new_metrics calls)).0)
        × (lookup j (snapshot (run ops new_sharded calls))
            ≡ lookup j (Methods.snapshot (Effects.run ops new_metrics calls)))
  unfolding new_metrics get get_delta flush flush_and_reset snapshot Methods.get Methods.get_delta
      Methods.flush Methods.flush_and_reset Methods.snapshot
  sharded-eq-plain calls j =
      let m = run ops new_sharded calls in
      let p = Effects.run ops new_metrics calls in
      let placed = (sharded_run-effects new_sharded calls j new_sharded-IsWellPlaced).1 in
      let distinct = run-Distinct ops new_metrics calls tt in
      ground (
        arith,
        find-run calls j,
        lookup-collect_all (delta_of ops) j m placed.placed,
        lookup-collect_all (λ mt. mt.accum) j m placed.placed,
        lookup-collect (delta_of ops) j p.items [] distinct,
        lookup-collect (λ mt. mt.accum) j p.items [] distinct,
      )
