-- ===== src/Ws/Client/Tests.antt =====
-- A client that connects, connects again, and reconnects with the second dial.
use go_oam.Base.{
  ℕ, ◌≡◌, ◌<◌, refl, Bool, true, false, Option, none, some, is_some, [], ◌∷◌, arith, ◌==◌,
  if◌then◌else◌, Key, pos,
}
use go_oam.Ws.Client.{state_connected, Client, new_client, connect, reconnect}
use go_oam.Ws.Client.Reconnect.{IsLeftAlone, reconnect-succeeds}

abbrev fresh : Client ℕ
fresh = new_client true (pos 40)

abbrev a : Key
a = 97 ∷ []

abbrev b : Key
b = 98 ∷ []

abbrev joined : Client ℕ
joined = (connect fresh none a).1

abbrev draw : ℕ → ℕ
draw n = 0

abbrev never : ℕ → Bool
never k = false

-- The first dial fails.
abbrev second_time : ℕ → Option ℕ
second_time k = if k == 0 then some 7 else none

abbrev conn_ids : ℕ → Key
conn_ids k = k ∷ []

abbrev never_again : ℕ → Option ℕ
never_again k = some 7

alone : IsLeftAlone draw second_time conn_ids never
alone = record { draws = λ n h. h; goes_on = λ k. refl }

alone_again : IsLeftAlone draw never_again conn_ids never
alone_again = record { draws = λ n h. h; goes_on = λ k. refl }

before_one : (j : ℕ) → j < 1 → is_some (second_time j) ≡ true
before_one j h = ground arith

open_fresh : fresh.ctx_done ≡ false
unfolding new_client
open_fresh = refl

forty : fresh.max_attempts ≡ pos 40
unfolding new_client
forty = refl

reconnect-succeeds_example :
    (c' : Client ℕ) × (reconnect draw second_time conn_ids never fresh ≡ some c')
    × (c'.state ≡ state_connected)
    × (c'.conn ≡ some (1 ∷ []))
reconnect-succeeds_example =
    reconnect-succeeds draw second_time conn_ids never fresh 40 1 alone open_fresh forty
      (ground arith) (ground arith) before_one refl
