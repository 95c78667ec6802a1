-- ===== src/Push/ShardedMetrics/Placement.antt =====
-- The invariant of the shards: sixteen maps with distinct names, each name in the map of its hash.
use mathlib.Core.Option
use native.Mathlib.Decide.{ℕ_discrete}
use go_oam.Base.{
  subst, ℕ, zero, suc, ◌+◌, ◌<◌, ◌≡◌, ◌≢◌, refl, sym, ◌∙◌, false, Option, none, some, List, [], ◌∷◌,
  arith, if◌then◌else◌, ◌==◌, Key, key_eq, key_eq→eq, lookup, insert, lookup-insert,
  lookup-map_values, Distinct, Distinct-insert, Distinct-map_values, lookup-collect, map_values,
  collect, length, get_elem?, modify, get_elem?-modify_self, get_elem?-modify_ne,
  get_elem?_in_range, map, replicate,
}
use go_oam.Push.Metric.{Metric}
use go_oam.Push.Metrics.Methods.{update}
use go_oam.Push.Metrics.Effects.{lookup-update, update-Distinct}
use go_oam.Push.ShardedMetrics.{
  ShardedMetrics, get_shard_index, new_sharded, on_shard, find, collect_all,
}

pub get_shard_index-lt : (name : Key) → get_shard_index name < 16
unfolding get_shard_index
get_shard_index-lt name = omega arith

module _ {F : Type 0} where
  -- A map that may stand at the place `k`.
  pub record IsPlaced (k : ℕ) (s : List (Key × Metric F)) : Type 0 where
    pub distinct : Distinct s
    pub elsewhere : (j : Key) → get_shard_index j ≢ k → lookup j s ≡ none

  abbrev pub AllPlaced : ℕ → List (List (Key × Metric F)) → Type 0
  AllPlaced k [] = Unit {0}
  AllPlaced k (s ∷ shards) = IsPlaced k s × AllPlaced (suc k) shards

  pub AllPlaced-modify :
      (k i p : ℕ) (f : List (Key × Metric F) → List (Key × Metric F))
      (shards : List (List (Key × Metric F)))
      → p ≡ k + i
      → ((s : List (Key × Metric F)) → IsPlaced p s → IsPlaced p (f s))
      → AllPlaced k shards
      → AllPlaced k (modify i f shards)
  AllPlaced-modify k i p f [] e h a = tt
  AllPlaced-modify k zero p f (s ∷ shards) e h a =
      let here : p ≡ k = omega arith in
      (subst (λ q. IsPlaced q (f s)) here (h s (subst (λ q. IsPlaced q s) (sym here) a.0)), a.1)
  AllPlaced-modify k (suc i) p f (s ∷ shards) e h a =
      (a.0, AllPlaced-modify (suc k) i p f shards (omega arith) h a.1)

  pub AllPlaced-map :
      (k : ℕ) (f : List (Key × Metric F) → List (Key × Metric F))
      (shards : List (List (Key × Metric F)))
      → ((i : ℕ) (s : List (Key × Metric F)) → IsPlaced i s → IsPlaced i (f s))
      → AllPlaced k shards
      → AllPlaced k (map f shards)
  AllPlaced-map k f [] h a = tt
  AllPlaced-map k f (s ∷ shards) h a = (h k s a.0, AllPlaced-map (suc k) f shards h a.1)

  -- The metric of a name, looked for in the maps from the place `k` on.
  in_shards : ℕ → List (List (Key × Metric F)) → Key → Option (Metric F)
  in_shards k [] j = none
  in_shards k (s ∷ shards) j =
      if get_shard_index j == k then lookup j s else in_shards (suc k) shards j

  in_shards-below :
      (k : ℕ) (shards : List (List (Key × Metric F))) (j : Key)
      → get_shard_index j < k
      → in_shards k shards j ≡ none
  unfolding in_shards
  in_shards-below k [] j h = refl
  in_shards-below k (s ∷ shards) j h = ground (arith, in_shards-below (suc k) shards j)

  found_at : List (List (Key × Metric F)) → ℕ → Key → Option (Metric F)
  found_at shards i j = elim (get_elem? shards i) [ none ↦ none | some s ↦ lookup j s ]

  in_shards-found_at :
      (k i : ℕ) (shards : List (List (Key × Metric F))) (j : Key)
      → get_shard_index j ≡ k + i
      → in_shards k shards j ≡ found_at shards i j
  unfolding in_shards found_at
  in_shards-found_at k i [] j h = refl
  in_shards-found_at k zero (s ∷ shards) j h = ground arith
  in_shards-found_at k (suc i) (s ∷ shards) j h =
      ground (arith, in_shards-found_at (suc k) i shards j)

  -- The report of the maps from the place `k` on.
  lookup-collect_from :
      (f : Metric F → F) (j : Key) (k : ℕ) (shards : List (List (Key × Metric F)))
      (result : List (Key × F))
      → AllPlaced k shards
      → lookup j (collect_all f shards result)
        ≡ elim (in_shards k shards j) [ none ↦ lookup j result | some mt ↦ some (f mt) ]
  unfolding collect_all in_shards
  lookup-collect_from f j k [] result a = refl
  lookup-collect_from f j k (s ∷ shards) result a =
      let rest = lookup-collect_from f j (suc k) shards (collect f s result) a.1 in
      elim (ℕ_discrete (get_shard_index j) k) [
        | yes here ↦ ground (
          arith,
          rest,
          lookup-collect f j s result a.0.distinct,
          in_shards-below (suc k) shards j (omega arith),
        )
        | no other ↦
            ground (arith, rest, lookup-collect f j s result a.0.distinct, a.0.elsewhere j other)
      ]

  -- A report has, under each name, the report of the metric of that name.
  pub lookup-collect_all :
      (f : Metric F → F) (j : Key) (m : ShardedMetrics F)
      → AllPlaced 0 m.shards
      → lookup j (collect_all f m.shards []) ≡ Option.map f (find m j)
  unfolding find found_at
  lookup-collect_all f j m a = ground (
    arith,
    lookup-collect_from f j 0 m.shards [] a,
    in_shards-found_at 0 (get_shard_index j) m.shards j (omega arith),
  )

  -- What changes one name's metric alone may be done to the map of that name.
  pub IsPlaced-insert :
      (k : ℕ) (name : Key) (mt : Metric F) (s : List (Key × Metric F))
      → get_shard_index name ≡ k
      → IsPlaced k s
      → IsPlaced k (insert name mt s)
  IsPlaced-insert k name mt s e a = record {
    distinct = Distinct-insert name mt s a.distinct;
    elsewhere =
        λ j other. ground (arith, lookup-insert name j mt s, a.elsewhere j other, key_eq→eq j name);
  }

  pub IsPlaced-update :
      (k : ℕ) (name : Key) (f : Metric F → Metric F) (s : List (Key × Metric F))
      → IsPlaced k s
      → IsPlaced k (update f s name)
  IsPlaced-update k name f s a = record {
    distinct = update-Distinct f s name a.distinct;
    elsewhere = λ j other. ground (arith, lookup-update f s name j, a.elsewhere j other);
  }

  pub IsPlaced-map_values :
      (k : ℕ) (f : Metric F → Metric F) (s : List (Key × Metric F))
      → IsPlaced k s
      → IsPlaced k (map_values f s)
  IsPlaced-map_values k f s a = record {
    distinct = Distinct-map_values f s a.distinct;
    elsewhere = λ j other. ground (arith, lookup-map_values f j s, a.elsewhere j other);
  }

  -- The invariant.
  pub record IsWellPlaced (m : ShardedMetrics F) : Type 0 where
    pub all_there : length m.shards ≡ 16
    pub placed : AllPlaced 0 m.shards

  pub new_sharded-IsWellPlaced : IsWellPlaced new_sharded
  unfolding new_sharded
  new_sharded-IsWellPlaced = record { all_there = refl; placed = none_yet 0 16 }
    where
      empty : (k : ℕ) → IsPlaced k []
      empty k = record { distinct = tt; elsewhere = λ j other. refl }

      none_yet : (k n : ℕ) → AllPlaced k (replicate n [])
      none_yet k zero = tt
      none_yet k (suc n) = (empty k, none_yet (suc k) n)

  pub find-eq :
      (m : ShardedMetrics F) (j : Key) (s : List (Key × Metric F))
      → get_elem? m.shards (get_shard_index j) ≡ some s
      → find m j ≡ lookup j s
  unfolding find
  find-eq m j s e = rw (e, find)

  -- A change of the map of one name, seen at every name.
  pub find-on_shard :
      (f : List (Key × Metric F) → List (Key × Metric F)) (m : ShardedMetrics F) (name j : Key)
      (at_name : Option (Metric F) → Option (Metric F))
      → IsWellPlaced m
      → ((s : List (Key × Metric F))
          → lookup j (f s) ≡ (if key_eq j name then at_name (lookup j s) else lookup j s))
      → find (on_shard f m name) j ≡ (if key_eq j name then at_name (find m j) else find m j)
  find-on_shard f m name j at_name a h =
      let (s, here) =
        get_elem?_in_range m.shards (get_shard_index j)
          (omega (arith, a.all_there, get_shard_index-lt j)) in
      elim (ℕ_discrete (get_shard_index name) (get_shard_index j)) [
        | yes same ↦
            rw
              (
                find-eq m j s here,
                find-eq (on_shard f m name) j (f s)
                    (rw same (get_elem?-modify_self (get_shard_index j) f m.shards s here)),
              )
              (h s)
        | no other ↦
            let apart : key_eq j name ≡ false = ground (arith, key_eq→eq j name) in
            rw
              (
                apart,
                find-eq m j s here,
                find-eq (on_shard f m name) j s (
                    get_elem?-modify_ne (get_shard_index name) (get_shard_index j) f m.shards other
                    ∙ here),
              )
              refl
      ]
