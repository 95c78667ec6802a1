-- ===== src/Telnet/Client/Tests.antt =====
-- A client that is connected, reads, and is closed.
use go_oam.Base.{ℕ, ◌≡◌, ◌≤◌, refl, true, false, none, List, [], ◌∷◌, ◌++◌, length, pos}
use go_oam.Telnet.Iac.{feed_all}
use go_oam.Telnet.Client.{
  Client, state_connected, new_client, connect, deliver, exec, state_err, eof,
}
use go_oam.Telnet.Client.Auth.{Step}
use go_oam.Telnet.Client.Exec.{exec_lem}
use go_oam.Telnet.Client.Life.{connects, arrives, step, run}

abbrev chunks : List (List ℕ)
chunks = (104 ∷ 255 ∷ []) ∷ (241 ∷ 105 ∷ []) ∷ []

abbrev connected : Client ℕ
connected = run new_client (connects none ∷ arrives (104 ∷ []) ∷ [])

connected-state : connected.state ≡ state_connected
unfolding run step new_client connect deliver
connected-state = refl

connected-looping : connected.looping ≡ true
unfolding run step new_client connect deliver
connected-looping = refl

connected-state_err : state_err connected ≡ none
unfolding run step new_client connect deliver state_err
connected-state_err = refl

exec_lem_example :
    (let r = exec connected (pos 1) false (1 ∷ []) none none chunks eof in
      (length r.0 ≤ 1)
      × ((rest : List ℕ) × (r.0 ++ rest
            ≡ (feed_all (record { disabled = false; pending = [] }) chunks).0)))
exec_lem_example = exec_lem connected (pos 1) false (1 ∷ []) none chunks eof connected-state_err

abbrev prompted : Step ℕ
prompted = record { timed_out = true; sent = none }
