-- ===== src/Push/Timer/Stop.antt =====
-- What `Stop` does to the calls back.
use go_oam.Base.{
  ℕ, zero, suc, ◌+◌, ◌≡◌, refl, ◌∙◌, Bool, true, false, some, List, [], ◌∷◌, arith, replicate, ℤ,
}
use go_oam.Push.Timer.{Timer, start, stop, is_some_true, Round, ticks, ends, round, rounds}

silent :
    (t : Timer) (rs : List Round) → is_some_true t.ticker ≡ false → (rounds t rs).called ≡ t.called
unfolding rounds round
silent t [] h = refl
silent t (ticks ∷ rs) h = silent (round t ticks) rs (ground arith) ∙ ground arith
silent t (ends ∷ rs) h = silent (round t ends) rs (ground arith) ∙ ground arith

-- The first `Stop` of a running timer takes effect: whatever rounds follow, nothing is called back,
-- and a loop that sees the channel closed ends.
pub stop-silences :
    (t : Timer) (rs : List Round) (closed ticking : Bool)
    → t.running ≡ true
    → t.stop_once ≡ false
    → t.stop_ch ≡ some closed
    → t.ticker ≡ some ticking
    → ((stop t).running ≡ false)
      × ((rounds (stop t) rs).called ≡ t.called)
      × ((round (stop t) ends).looping ≡ false)
unfolding stop round
stop-silences t rs closed ticking r o c k =
    (ground arith, silent (stop t) rs (ground arith) ∙ ground arith, ground arith)

keeps_ticking :
    (t : Timer) (n : ℕ)
    → t.looping ≡ true
    → t.ticker ≡ some true
    → (rounds t (replicate n ticks)).called ≡ t.called + n
unfolding rounds round
keeps_ticking t zero l k = omega arith
keeps_ticking t (suc n) l k =
    keeps_ticking (round t ticks) n (ground arith) (ground arith) ∙ ground arith

-- A timer that is started again after its first `Stop` cannot be stopped: after the second `Stop` it
-- says that it does not run, the loop still runs and does not end, and every tick calls back.
pub stop-start_again :
    (t started : Timer) (interval : ℤ) (n : ℕ)
    → t.running ≡ false
    → t.stop_once ≡ true
    → start t interval ≡ some started
    → ((stop started).running ≡ false)
      × (round (stop started) ends ≡ stop started)
      × ((rounds (stop started) (replicate n ticks)).called ≡ started.called + n)
unfolding start stop round
stop-start_again t started interval n r o s = (
  ground arith,
  ground arith,
  keeps_ticking (stop started) n (ground arith) (ground arith) ∙ ground arith,
)
