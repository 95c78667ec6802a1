-- ===== src/Socket/UdpClient/Tests.antt =====
-- Runs of a client over UDP.
use go_oam.Base.{◌++◌, ℕ, ◌≡◌, refl, true, none, List, [], ◌∷◌}
use go_oam.Socket.TcpClient.{new_client}
use go_oam.Socket.TcpClient.Life.{Event, connects, reads, delivers, fails}
use go_oam.Socket.TcpClient.Stream.{start_of}
use go_oam.Socket.UdpClient.Same.{
  observe_udp, observe_all_udp, answers_udp, answers_tcp, got-datagrams,
}

abbrev datagrams : List (Event ℕ)
datagrams =
    connects none
    ∷ delivers (1 ∷ []) true
    ∷ delivers (2 ∷ 3 ∷ []) true
    ∷ reads
    ∷ fails 4
    ∷ reads
    ∷ []

got-datagrams_example :
    (let t = observe_all_udp (start_of true) datagrams in
      (t.got ++ t.client.output ≡ t.sent)
      × (answers_udp (new_client true) datagrams ≡ answers_tcp (new_client true) datagrams))
got-datagrams_example = got-datagrams true datagrams

two_datagrams : (observe_all_udp (start_of true) datagrams).got ≡ (1 ∷ []) ∷ (2 ∷ 3 ∷ []) ∷ []
unfolding observe_all_udp observe_udp new_client
two_datagrams = refl
