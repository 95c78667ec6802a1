-- ===== src/Push/Timer.antt =====
-- push/timer/timer.go: a timer that calls a function at intervals. A method is one step, and so is a
-- round of the loop `run`; the loop reads the ticker and the channel anew in each round, so that a
-- loop which has not ended when the timer is started again goes on as the new one. The callback is
-- not nil.
pub mod Stop
mod Tests
use go_oam.Base.{
  ℕ, suc, Bool, true, false, ◌&&◌, not, Option, none, some, List, [], ◌∷◌, if◌then◌else◌, ◌==◌, ℤ,
  pos, negsuc,
}

-- `stop_ch` says whether the channel is closed and `ticker` whether the ticker ticks, where they are
-- not nil; `stop_once` that the function of `stopOnce` has run, `looping` that a loop runs, and
-- `called` how often it has called back.
pub record Timer : Type 0 where
  pub running : Bool
  pub stop_once : Bool
  pub stop_ch : Option Bool
  pub ticker : Option Bool
  pub looping : Bool
  pub called : ℕ

unfoldable pub new_timer : Timer
new_timer = record {
  running = false;
  stop_once = false;
  stop_ch = none;
  ticker = none;
  looping = false;
  called = 0;
}

abbrev pub is_positive : ℤ → Bool
is_positive (pos n) = not (n == 0)
is_positive (negsuc n) = false

-- `NewTicker` panics unless the interval is positive.
unfoldable pub start : Timer → ℤ → Option Timer
start t interval =
    if t.running
    then some t
    else (if is_positive interval
        then some
            (record t { running = true; stop_ch = some false; ticker = some true; looping = true })
        else none)

-- The function of `stopOnce`.
abbrev pub clean_up : Timer → Timer
clean_up t = record t {
  stop_once = true;
  ticker = elim t.ticker [ none ↦ none | some ticks ↦ some false ];
  stop_ch = elim t.stop_ch [ none ↦ none | some closed ↦ some true ];
}

unfoldable pub stop : Timer → Timer
stop t =
    if t.running
    then (let t' = record t { running = false } in if t.stop_once then t' else clean_up t')
    else t

abbrev pub is_some_true : Option Bool → Bool
is_some_true none = false
is_some_true (some b) = b

-- A round of the loop: a tick arrives, or the channel is closed.
pub data Round : Type 0 where
  ticks : Round
  ends : Round

unfoldable pub round : Timer → Round → Timer
round t ticks = if t.looping && is_some_true t.ticker then record t { called = suc t.called } else t
round t ends = if t.looping && is_some_true t.stop_ch then record t { looping = false } else t

unfoldable pub rounds : Timer → List Round → Timer
unfolding round
rounds t [] = t
rounds t (r ∷ rs) = rounds (round t r) rs
