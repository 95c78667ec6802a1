-- ===== src/Push/Timer/Tests.antt =====
-- A timer that is started and stopped twice.
use go_oam.Base.{◌≡◌, refl, true, false, some, [], ◌∷◌, pos}
use go_oam.Push.Timer.{Timer, new_timer, start, stop, ends, rounds}

abbrev first : Timer
first = record {
  running = true;
  stop_once = false;
  stop_ch = some false;
  ticker = some true;
  looping = true;
  called = 0;
}

start-first : start new_timer (pos 5) ≡ some first
unfolding start new_timer
start-first = refl

abbrev second : Timer
second = record first { stop_once = true }

start-second : start (rounds (stop first) (ends ∷ [])) (pos 5) ≡ some second
unfolding start stop rounds
start-second = refl
