-- ===== src/Push/Metrics/Methods.antt =====
-- The methods of `Metrics`.
use go_oam.Base.{
  ℕ, none, some, List, [], if◌then◌else◌, Key, lookup, insert, keys, map_values, collect, length,
}
use go_oam.Push.Metric.{FloatOps, Metric, registered}

pub record Metrics (F : Type 0) : Type 0 where
  pub items : List (Key × Metric F)

module _ {F : Type 0} where
  unfoldable pub new_metrics : Metrics F
  new_metrics = record { items = [] }

  -- `Store` replaces the metric of that name, if there is one.
  unfoldable pub register : Metrics F → Key → F → F → F → F → Metrics F
  register m name init step min max = record {
    items = insert name (registered init step min max) m.items;
  }

  -- A change of the metric of a name, under its lock; without such a metric nothing happens.
  abbrev pub update : (Metric F → Metric F) → List (Key × Metric F) → Key → List (Key × Metric F)
  update f m name = elim (lookup name m) [ none ↦ m | some mt ↦ insert name (f mt) m ]

  -- `mt.accum = value`
  abbrev pub assigned : F → Metric F → Metric F
  assigned value mt = record mt { accum = value }

  unfoldable pub set : Metrics F → Key → F → Metrics F
  set m name value = record { items = update (assigned value) m.items name }

  -- The bodies of the loops.
  abbrev pub mark_sent : Metric F → Metric F
  mark_sent mt = record mt { sent = mt.accum }

  abbrev pub reset : Metric F → Metric F
  reset mt = record mt { accum = mt.init_val; sent = mt.init_val }

  unfoldable pub flush_and_reset : Metrics F → List (Key × F) × Metrics F
  flush_and_reset m =
      (collect (λ mt. mt.accum) m.items [], record { items = map_values reset m.items })

  unfoldable pub snapshot : Metrics F → List (Key × F)
  snapshot m = collect (λ mt. mt.accum) m.items []

  unfoldable pub clear : Metrics F → Metrics F
  clear m = record { items = map_values reset m.items }

  unfoldable pub count : Metrics F → ℕ
  count m = length m.items

  unfoldable pub keys_of : Metrics F → List Key
  keys_of m = keys m.items

module _ {F : Type 0} (ops : FloatOps F) where
  -- `v := mt.accum + mt.step; if v > mt.maxVal { v = mt.maxVal }`
  abbrev pub added : F → Metric F → Metric F
  added delta mt =
      let v = ops.add mt.accum delta in
      record mt { accum = if ops.lt mt.max_val v then mt.max_val else v }

  abbrev pub subtracted : Metric F → Metric F
  subtracted mt =
      let v = ops.sub mt.accum mt.step in
      record mt { accum = if ops.lt v mt.min_val then mt.min_val else v }

  unfoldable pub inc : Metrics F → Key → Metrics F
  inc m name = record { items = update (λ mt. added mt.step mt) m.items name }

  unfoldable pub dec : Metrics F → Key → Metrics F
  dec m name = record { items = update subtracted m.items name }

  unfoldable pub inc_by : Metrics F → Key → F → Metrics F
  inc_by m name delta = record { items = update (added delta) m.items name }

  unfoldable pub get : Metrics F → Key → F
  get m name = elim (lookup name m.items) [ none ↦ ops.zero | some mt ↦ mt.accum ]

  abbrev pub delta_of : Metric F → F
  delta_of mt = ops.sub mt.accum mt.sent

  unfoldable pub get_delta : Metrics F → Key → F
  get_delta m name = elim (lookup name m.items) [ none ↦ ops.zero | some mt ↦ delta_of mt ]

  unfoldable pub flush : Metrics F → List (Key × F) × Metrics F
  flush m = (collect delta_of m.items [], record { items = map_values mark_sent m.items })
