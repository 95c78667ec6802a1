-- ===== src/Ws/Messages/Tests.antt =====
-- Handlers are numbers, and a middleware doubles or adds one.
use go_oam.Base.{ℕ, ◌+◌, ◌*◌, ◌≡◌, refl, true, some, [], ◌∷◌, pos}
use go_oam.Ws.Messages.{Request, Codecs, Server, use_middleware, wrap, handle, receive, runs}
use go_oam.Ws.Messages.Dispatch.{receive-handle}

abbrev empty : Server ℕ
empty = record { handlers = []; middleware = []; max_message_size = pos 10 }

abbrev login : Request
login = record { id = 1 ∷ []; action = 5 ∷ []; payload = [] }

abbrev decoders : Codecs
decoders = record { json = 106 ∷ []; unmarshal = λ codec bytes. some login }

abbrev double : ℕ → ℕ
double n = n * 2

abbrev increment : ℕ → ℕ
increment n = n + 1

receive-handle_example :
    receive
      (handle
        (use_middleware
          (handle (use_middleware (use_middleware empty (double ∷ [])) (increment ∷ [])) (5 ∷ []) 3)
          (double ∷ []))
        (6 ∷ [])
        4)
      decoders
      (112 ∷ [])
      (112 ∷ [])
      true
      (7 ∷ 8 ∷ [])
    ≡ runs 8 login (106 ∷ [])
unfolding wrap
receive-handle_example =
    receive-handle empty (double ∷ []) (increment ∷ []) (double ∷ []) (5 ∷ []) (6 ∷ []) 3 4 decoders
      (112 ∷ []) (112 ∷ []) true (7 ∷ 8 ∷ []) login refl refl refl refl refl
