-- ===== src/Push/Metrics/Bounds.antt =====
-- The bounds of a metric: which calls keep its value between its minimum and its maximum.
use mathlib.Core.Option
use go_oam.Base.{
  ◌≡◌, ◌∙◌, Bool, true, false, Option, none, some, List, [], ◌∷◌, arith, if◌then◌else◌, Key, key_eq,
  key_eq_refl, lookup-insert, lookup, All, subst, sym,
}
use go_oam.Push.Metric.{FloatOps, FloatLaws, Metric, registered}
use go_oam.Push.Metrics.Methods.{
  Metrics, new_metrics, get, inc, dec, inc_by, added, subtracted, mark_sent, reset,
}
use go_oam.Push.Metrics.Effects.{
  Call, registers, sets, incs, decs, incs_by, flushes, flushes_and_resets, clears, effect, effects,
  run, run-effects,
}

module _ {F : Type 0} (ops : FloatOps F) where
  -- The value and the initial value lie between the bounds, and the step is not negative.
  pub record IsInRange (mt : Metric F) : Type 0 where
    pub floor : ops.lt mt.accum mt.min_val ≡ false
    pub ceiling : ops.lt mt.max_val mt.accum ≡ false
    pub init_floor : ops.lt mt.init_val mt.min_val ≡ false
    pub init_ceiling : ops.lt mt.max_val mt.init_val ≡ false
    pub ordered : ops.lt mt.max_val mt.min_val ≡ false
    pub upward : ops.lt mt.step ops.zero ≡ false

  -- A registration in range, or a call that respects the bounds: every call but `Set` and an
  -- `IncBy` with a negative amount.
  abbrev pub IsBounded : Call F → Type 0
  IsBounded (registers name init by min max) = IsInRange (registered init by min max)
  IsBounded (sets name value) = ⊥
  IsBounded (incs name) = Unit {0}
  IsBounded (decs name) = Unit {0}
  IsBounded (incs_by name delta) = ops.lt delta ops.zero ≡ false
  IsBounded flushes = Unit {0}
  IsBounded flushes_and_resets = Unit {0}
  IsBounded clears = Unit {0}

  abbrev IsInRangeIfThere : Option (Metric F) → Type 0
  IsInRangeIfThere none = Unit {0}
  IsInRangeIfThere (some mt) = IsInRange mt

module _ {F : Type 0} (ops : FloatOps F) (laws : FloatLaws ops) where
  added-IsInRange :
      (delta : F) (mt : Metric F)
      → ops.lt delta ops.zero ≡ false
      → IsInRange ops mt
      → IsInRange ops (added ops delta mt)
  added-IsInRange delta mt up v =
      ground (arith, laws.lt_irrefl mt.max_val, laws.add_up mt.accum delta mt.min_val)

  subtracted-IsInRange : (mt : Metric F) → IsInRange ops mt → IsInRange ops (subtracted ops mt)
  subtracted-IsInRange mt v =
      ground (arith, laws.lt_irrefl mt.min_val, laws.sub_down mt.accum mt.step mt.max_val)

  either-IsInRange :
      (t : Bool) (x y : Option (Metric F))
      → IsInRangeIfThere ops x
      → IsInRangeIfThere ops y
      → IsInRangeIfThere ops (if t then x else y)
  either-IsInRange true x y v w = v
  either-IsInRange false x y v w = w

  map-IsInRange :
      (f : Metric F → Metric F) (o : Option (Metric F))
      → ((mt : Metric F) → IsInRange ops mt → IsInRange ops (f mt))
      → IsInRangeIfThere ops o
      → IsInRangeIfThere ops (Option.map f o)
  map-IsInRange f none k v = tt
  map-IsInRange f (some mt) k v = k mt v

  effect-IsInRange :
      (c : Call F) (j : Key) (o : Option (Metric F))
      → IsBounded ops c
      → IsInRangeIfThere ops o
      → IsInRangeIfThere ops (effect ops c j o)
  unfolding effect
  effect-IsInRange (registers name init by min max) j o b v =
      either-IsInRange (key_eq j name) _ o b v
  effect-IsInRange (sets name value) j o b v = absurd b
  effect-IsInRange (incs name) j o b v =
      either-IsInRange (key_eq j name) _ o
        (map-IsInRange _ o (λ mt w. added-IsInRange mt.step mt w.upward w) v) v
  effect-IsInRange (decs name) j o b v =
      either-IsInRange (key_eq j name) _ o (map-IsInRange _ o subtracted-IsInRange v) v
  effect-IsInRange (incs_by name delta) j o b v =
      either-IsInRange (key_eq j name) _ o
        (map-IsInRange _ o (λ mt w. added-IsInRange delta mt b w) v) v
  effect-IsInRange flushes j o b v = map-IsInRange mark_sent o (λ mt w. ground arith) v
  effect-IsInRange flushes_and_resets j o b v = map-IsInRange reset o (λ mt w. ground arith) v
  effect-IsInRange clears j o b v = map-IsInRange reset o (λ mt w. ground arith) v

  effects-IsInRange :
      (calls : List (Call F)) (j : Key) (o : Option (Metric F))
      → All (IsBounded ops) calls
      → IsInRangeIfThere ops o
      → IsInRangeIfThere ops (effects ops calls j o)
  unfolding effects
  effects-IsInRange [] j o b v = v
  effects-IsInRange (c ∷ calls) j o b v =
      effects-IsInRange calls j (effect ops c j o) b.1 (effect-IsInRange c j o b.0 v)

  -- After any history of calls that respect the bounds, every registered metric lies between its
  -- bounds.
  pub run-IsInRange :
      (calls : List (Call F)) (j : Key) (mt : Metric F)
      → All (IsBounded ops) calls
      → lookup j (run ops new_metrics calls).items ≡ some mt
      → IsInRange ops mt
  unfolding new_metrics
  run-IsInRange calls j mt b e =
      subst (IsInRangeIfThere ops) (sym (run-effects ops new_metrics calls j) ∙ e)
        (effects-IsInRange calls j none b tt)

  -- Whatever the state and the amount, neither `Inc` nor `IncBy` leaves a value above the maximum,
  -- and `Dec` leaves none below the minimum.
  pub inc-dec_bounds :
      (m : Metrics F) (name : Key) (delta : F) (mt : Metric F)
      → lookup name m.items ≡ some mt
      → (ops.lt mt.max_val (get ops (inc ops m name) name) ≡ false)
        × (ops.lt mt.max_val (get ops (inc_by ops m name delta) name) ≡ false)
        × (ops.lt (get ops (dec ops m name) name) mt.min_val ≡ false)
  unfolding get inc inc_by dec
  inc-dec_bounds m name delta mt e = ground (
    arith,
    laws.lt_irrefl mt.max_val,
    laws.lt_irrefl mt.min_val,
    key_eq_refl name,
    lookup-insert name name (added ops mt.step mt) m.items,
    lookup-insert name name (added ops delta mt) m.items,
    lookup-insert name name (subtracted ops mt) m.items,
  )
