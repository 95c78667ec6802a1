-- ===== src/Push/Metrics/Tests.antt =====
-- A run of the collector over the natural numbers, which obey the laws asked of float64.
use go_oam.Base.{ℕ, ◌+◌, ◌-◌, ltb, ◌≡◌, refl, some, List, [], ◌∷◌, arith, Key, lookup}
use go_oam.Push.Metric.{FloatOps, FloatLaws, Metric, registered}
use go_oam.Push.Metrics.Methods.{
  Metrics, new_metrics, get, inc, dec, inc_by, get_delta, flush, flush_and_reset, snapshot,
}
use go_oam.Push.Metrics.Methods
use go_oam.Push.Metrics.Effects.{Call, registers, incs, decs, incs_by, flushes, run, step}
use go_oam.Push.Metrics.Bounds.{IsInRange}

abbrev whole : FloatOps ℕ
whole = record { zero = 0; add = λ x y. x + y; sub = λ x y. x - y; lt = ltb }

whole_laws : FloatLaws whole
whole_laws = record {
  lt_irrefl = λ x. ground arith;
  add_up = λ x s lo below up. ground arith;
  sub_down = λ x s hi above up. ground arith;
}

abbrev cpu : Key
cpu = 99 ∷ 112 ∷ 117 ∷ []

abbrev calls : List (Call ℕ)
calls = registers cpu 3 1 0 5 ∷ incs cpu ∷ flushes ∷ incs_by cpu 7 ∷ decs cpu ∷ []

abbrev after : Metrics ℕ
after = run whole new_metrics calls

abbrev cpu_after : Metric ℕ
cpu_after = record { accum = 4; sent = 4; init_val = 3; step = 1; min_val = 0; max_val = 5 }

lookup-after : lookup cpu after.items ≡ some cpu_after
unfolding run step new_metrics Methods.register Methods.inc Methods.inc_by Methods.flush Methods.dec
lookup-after = refl

registered-IsInRange : IsInRange whole (registered 3 1 0 5)
registered-IsInRange = record {
  floor = refl;
  ceiling = refl;
  init_floor = refl;
  init_ceiling = refl;
  ordered = refl;
  upward = refl;
}
