-- ===== src/Push/Metrics/Effects.antt =====
-- A call as a client sees it: what it does to the metric of each name. Both collectors are held to
-- this description.
use mathlib.Core.Option
use go_oam.Base.{
  ◌≡◌, refl, ap, ◌∙◌, inl, inr, Option, none, some, List, [], ◌∷◌, arith, if◌then◌else◌,
  Option-cases, Key, key_eq, key_eq→eq, lookup, lookup-insert, lookup-map_values, Distinct,
  Distinct-insert, Distinct-map_values, lookup-collect,
}
use go_oam.Push.Metric.{FloatOps, Metric, registered}
use go_oam.Push.Metrics.Methods.{
  Metrics, register, set, inc, dec, inc_by, get, get_delta, flush, flush_and_reset, snapshot, clear,
  update, assigned, added, subtracted, mark_sent, reset, delta_of,
}

-- The calls that change a collector.
pub data Call (F : Type 0) : Type 0 where
  registers : Key → F → F → F → F → Call F
  sets : Key → F → Call F
  incs : Key → Call F
  decs : Key → Call F
  incs_by : Key → F → Call F
  flushes : Call F
  flushes_and_resets : Call F
  clears : Call F

module _ {F : Type 0} (ops : FloatOps F) where
  -- What a call does to the metric of the name `j`.
  unfoldable pub effect : Call F → Key → Option (Metric F) → Option (Metric F)
  effect (registers name init step min max) j o =
      if key_eq j name then some (registered init step min max) else o
  effect (sets name value) j o = if key_eq j name then Option.map (assigned value) o else o
  effect (incs name) j o = if key_eq j name then Option.map (λ mt. added ops mt.step mt) o else o
  effect (decs name) j o = if key_eq j name then Option.map (subtracted ops) o else o
  effect (incs_by name delta) j o = if key_eq j name then Option.map (added ops delta) o else o
  effect flushes j o = Option.map mark_sent o
  effect flushes_and_resets j o = Option.map reset o
  effect clears j o = Option.map reset o

  unfoldable pub step : Metrics F → Call F → Metrics F
  unfolding register set inc dec inc_by flush flush_and_reset clear
  step m (registers name init by min max) = register m name init by min max
  step m (sets name value) = set m name value
  step m (incs name) = inc ops m name
  step m (decs name) = dec ops m name
  step m (incs_by name delta) = inc_by ops m name delta
  step m flushes = (flush ops m).1
  step m flushes_and_resets = (flush_and_reset m).1
  step m clears = clear m

  unfoldable pub run : Metrics F → List (Call F) → Metrics F
  run m [] = m
  run m (c ∷ calls) = run (step m c) calls

  -- The metric of a name after a history of calls.
  unfoldable pub effects : List (Call F) → Key → Option (Metric F) → Option (Metric F)
  effects [] j o = o
  effects (c ∷ calls) j o = effects calls j (effect c j o)

module _ {F : Type 0} where
  pub lookup-update :
      (f : Metric F → Metric F) (m : List (Key × Metric F)) (name j : Key)
      → lookup j (update f m name)
        ≡ (if key_eq j name then Option.map f (lookup j m) else lookup j m)
  lookup-update f m name j = elim (Option-cases (lookup name m)) [
    | inl missing ↦ rw (missing, update) (ground (arith, key_eq→eq j name))
    | inr (mt, found) ↦
        rw (found, update) (ground (arith, key_eq→eq j name, lookup-insert name j (f mt) m))
  ]

  pub update-Distinct :
      (f : Metric F → Metric F) (m : List (Key × Metric F)) (name : Key)
      → Distinct m
      → Distinct (update f m name)
  update-Distinct f m name d = elim (Option-cases (lookup name m)) [
    | inl missing ↦ rw (missing, update) d
    | inr (mt, found) ↦ rw (found, update) (Distinct-insert name (f mt) m d)
  ]

module _ {F : Type 0} (ops : FloatOps F) where
  -- Every call does to each name what the description says.
  pub step-effect :
      (m : Metrics F) (c : Call F) (j : Key)
      → lookup j (step ops m c).items ≡ effect ops c j (lookup j m.items)
  unfolding step effect
  step-effect m (registers name init by min max) j = lookup-insert name j _ m.items
  step-effect m (sets name value) j = lookup-update _ m.items name j
  step-effect m (incs name) j = lookup-update _ m.items name j
  step-effect m (decs name) j = lookup-update _ m.items name j
  step-effect m (incs_by name delta) j = lookup-update _ m.items name j
  step-effect m flushes j = lookup-map_values _ j m.items
  step-effect m flushes_and_resets j = lookup-map_values _ j m.items
  step-effect m clears j = lookup-map_values _ j m.items

  -- So does every history of calls.
  pub run-effects :
      (m : Metrics F) (calls : List (Call F)) (j : Key)
      → lookup j (run ops m calls).items ≡ effects ops calls j (lookup j m.items)
  unfolding run effects
  run-effects m [] j = refl
  run-effects m (c ∷ calls) j =
      run-effects (step ops m c) calls j ∙ ap (effects ops calls j) (step-effect m c j)

  pub step-Distinct :
      (m : Metrics F) (c : Call F) → Distinct m.items → Distinct (step ops m c).items
  unfolding step
  step-Distinct m (registers name init by min max) d = Distinct-insert name _ m.items d
  step-Distinct m (sets name value) d = update-Distinct _ m.items name d
  step-Distinct m (incs name) d = update-Distinct _ m.items name d
  step-Distinct m (decs name) d = update-Distinct _ m.items name d
  step-Distinct m (incs_by name delta) d = update-Distinct _ m.items name d
  step-Distinct m flushes d = Distinct-map_values _ m.items d
  step-Distinct m flushes_and_resets d = Distinct-map_values _ m.items d
  step-Distinct m clears d = Distinct-map_values _ m.items d

  pub run-Distinct :
      (m : Metrics F) (calls : List (Call F)) → Distinct m.items → Distinct (run ops m calls).items
  unfolding run
  run-Distinct m [] d = d
  run-Distinct m (c ∷ calls) d = run-Distinct (step ops m c) calls (step-Distinct m c d)

  -- A `Flush` reports, for exactly the registered names, how far each moved since it was last
  -- reported; afterwards its value is the same and counts as reported.
  pub flush_lem :
      (m : Metrics F) (j : Key)
      → Distinct m.items
      → (lookup j (flush ops m).0 ≡ Option.map (delta_of ops) (lookup j m.items))
        × (get ops (flush ops m).1 j ≡ get ops m j)
        × (get_delta ops (flush ops m).1 j
            ≡ elim (lookup j m.items) [ none ↦ ops.zero | some mt ↦ ops.sub mt.accum mt.accum ])
  unfolding flush get get_delta
  flush_lem m j d =
      ground
        (arith, lookup-collect (delta_of ops) j m.items [] d, lookup-map_values mark_sent j m.items)

  -- A `FlushAndReset` reports the values of exactly the registered names and sets each back to its
  -- initial value. A `Snapshot` reports the same.
  pub flush_and_reset_lem :
      (m : Metrics F) (j : Key)
      → Distinct m.items
      → (lookup j (flush_and_reset m).0 ≡ Option.map (λ mt. mt.accum) (lookup j m.items))
        × (lookup j (snapshot m) ≡ lookup j (flush_and_reset m).0)
        × (get ops (flush_and_reset m).1 j
            ≡ elim (lookup j m.items) [ none ↦ ops.zero | some mt ↦ mt.init_val ])
  unfolding flush_and_reset snapshot get
  flush_and_reset_lem m j d =
      ground
        (arith, lookup-collect (λ mt. mt.accum) j m.items [] d, lookup-map_values reset j m.items)
