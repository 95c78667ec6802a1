-- ===== src/Push/Metric.antt =====
-- One metric of push/metrics: the struct `metric` of metrics.go, which is the struct `shardMetric`
-- of sharded.go with a lock, and Go's float64, of which only documented laws are used.
use go_oam.Base.{Bool, false, ◌≡◌}

-- The operations of float64 that the code uses.
pub record FloatOps (F : Type 0) : Type 0 where
  pub zero : F
  pub add : F → F → F
  pub sub : F → F → F
  pub lt : F → F → Bool

-- Laws of IEEE 754 that hold for every value, infinities and NaN too: no value is below itself;
-- a step that is not negative does not lead below a bound when added, nor above one when taken
-- away. An order with NaN is false.
pub record FloatLaws {F : Type 0} (ops : FloatOps F) : Type 0 where
  pub lt_irrefl : (x : F) → ops.lt x x ≡ false
  pub add_up :
      (x s lo : F)
      → ops.lt x lo ≡ false
      → ops.lt s ops.zero ≡ false
      → ops.lt (ops.add x s) lo ≡ false
  pub sub_down :
      (x s hi : F)
      → ops.lt hi x ≡ false
      → ops.lt s ops.zero ≡ false
      → ops.lt hi (ops.sub x s) ≡ false

pub record Metric (F : Type 0) : Type 0 where
  pub accum : F
  pub sent : F
  pub init_val : F
  pub step : F
  pub min_val : F
  pub max_val : F

-- The metric that `Register` makes.
abbrev pub registered : {F : Type 0} → F → F → F → F → Metric F
registered init step min max = record {
  accum = init;
  sent = init;
  init_val = init;
  step = step;
  min_val = min;
  max_val = max;
}
