-- ===== src/Push/ShardedMetrics/Tests.antt =====
-- A run of both collectors over the natural numbers.
use go_oam.Base.{ℕ, ◌+◌, ◌-◌, ltb, ◌≡◌, List, [], ◌∷◌, lookup}
use go_oam.Push.Metric.{FloatOps}
use go_oam.Push.Metrics.Methods.{new_metrics}
use go_oam.Push.Metrics.Methods
use go_oam.Push.Metrics.Effects
use go_oam.Push.Metrics.Effects.{Call, registers, incs, flushes}
use go_oam.Push.ShardedMetrics.{new_sharded, get, get_delta, flush, flush_and_reset, snapshot, run}
use go_oam.Push.ShardedMetrics.Refine.{sharded-eq-plain}

abbrev whole : FloatOps ℕ
whole = record { zero = 0; add = λ x y. x + y; sub = λ x y. x - y; lt = ltb }

abbrev calls : List (Call ℕ)
calls = registers (97 ∷ []) 3 1 0 5 ∷ registers (98 ∷ []) 1 1 0 9 ∷ flushes ∷ incs (97 ∷ []) ∷ []

sharded-eq-plain_example :
    (get whole (run whole new_sharded calls) (97 ∷ [])
      ≡ Methods.get whole (Effects.run whole new_metrics calls) (97 ∷ []))
    × (get_delta whole (run whole new_sharded calls) (97 ∷ [])
        ≡ Methods.get_delta whole (Effects.run whole new_metrics calls) (97 ∷ []))
    × (lookup (97 ∷ []) (flush whole (run whole new_sharded calls)).0
        ≡ lookup (97 ∷ []) (Methods.flush whole (Effects.run whole new_metrics calls)).0)
    × (lookup (97 ∷ []) (flush_and_reset (run whole new_sharded calls)).0
        ≡ lookup (97 ∷ []) (Methods.flush_and_reset (Effects.run whole new_metrics calls)).0)
    × (lookup (97 ∷ []) (snapshot (run whole new_sharded calls))
        ≡ lookup (97 ∷ []) (Methods.snapshot (Effects.run whole new_metrics calls)))
sharded-eq-plain_example = sharded-eq-plain whole calls (97 ∷ [])
