-- ===== src/Socket/TcpClient/Tests.antt =====
-- Runs of a client over TCP.
use go_oam.Base.{ℕ, ◌≡◌, refl, true, none, some, List, [], ◌∷◌, ◌++◌}
use go_oam.Socket.TcpClient.{Client, new_client}
use go_oam.Socket.TcpClient.Life.{
  Event, connects, closes, goes_on, reads, delivers, fails, step, here, after, IsSound,
  Reach-IsSound,
}
use go_oam.Socket.TcpClient.Stream.{start_of, observe, observe_all, got-sent, got-eof}

abbrev life_events : List (Event ℕ)
life_events =
    connects (some 3)
    ∷ connects none
    ∷ delivers (72 ∷ 105 ∷ []) true
    ∷ delivers (33 ∷ []) true
    ∷ reads
    ∷ closes
    ∷ goes_on
    ∷ goes_on
    ∷ reads
    ∷ []

abbrev after_connect : Client ℕ
after_connect = step (step (new_client true) (connects none)) (fails 7)

Reach-IsSound_example : IsSound after_connect
Reach-IsSound_example = Reach-IsSound true (after (fails 7) (after (connects none) here refl) refl)

got-sent_example :
    (let t = observe_all (start_of true) life_events in t.got ++ t.client.output ≡ t.sent)
got-sent_example = got-sent true life_events

got-eof_example :
    (observe_all (start_of true) life_events).got ≡ (observe_all (start_of true) life_events).sent
unfolding observe_all observe new_client
got-eof_example = got-eof true life_events refl

got_of : (observe_all (start_of true) life_events).got ≡ (72 ∷ 105 ∷ []) ∷ (33 ∷ []) ∷ []
unfolding observe_all observe new_client
got_of = refl
