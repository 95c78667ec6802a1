-- ===== src/Ws/Messages.antt =====
-- ws/server/conn.go and ws/server/server.go: what a message that is read leads to, and the handlers
-- with the middleware around them.
pub mod Dispatch
mod Tests
use go_oam.Base.{
  ℕ, suc, Bool, true, false, ◌&&◌, not, Option, none, some, List, [], ◌∷◌, ◌++◌, ltb, ◌==◌,
  if◌then◌else◌, length, Key, ℤ, pos, negsuc, lookup, insert,
}

-- `types.Request`
pub record Request : Type 0 where
  pub id : Key
  pub action : Key
  pub payload : Key

-- The errors that the read loop answers with.
pub data Reply : Type 0 where
  invalid_request : ℕ → Reply
  handler_not_found : Key → Reply
  internal_error : Key → Reply

-- A decoder of a codec; `json` is the one for text.
pub record Codecs : Type 0 where
  pub json : Key
  pub unmarshal : Key → Key → Option Request

-- `H` is the type of handlers.
pub record Server {ℓ} (H : Type ℓ) : Type ℓ where
  pub handlers : List (Key × H)
  pub middleware : List (H → H)
  pub max_message_size : ℤ

module _ {ℓ} {H : Type ℓ} where
  -- `Use`
  unfoldable pub use_middleware : Server H → List (H → H) → Server H
  use_middleware s more = record s { middleware = s.middleware ++ more }

  -- The loop of `Handle` from the last middleware to the first.
  unfoldable pub wrap : List (H → H) → H → H
  wrap [] handler = handler
  wrap (m ∷ ms) handler = m (wrap ms handler)

  unfoldable pub handle : Server H → Key → H → Server H
  unfolding wrap
  handle s action handler = record s {
    handlers = insert action (wrap s.middleware handler) s.handlers;
  }

-- `maxMessageSize > 0 && len(data) > maxMessageSize`
abbrev pub too_large : ℤ → ℕ → Bool
too_large (negsuc n) size = false
too_large (pos n) size = not (n == 0) && ltb n size

-- What the read loop does with a message: it answers, or runs a handler; and the codec that the
-- connection answers with from then on.
pub data Outcome {ℓ} (H : Type ℓ) : Type ℓ where
  answers : Reply → Key → Outcome H
  runs : H → Request → Key → Outcome H

-- A round of the read loop, for a message that is text or not. `configured` is the codec of the
-- connection, `current` the one that it answers with.
unfoldable pub receive {ℓ} : {H : Type ℓ} → Server H → Codecs → Key → Key → Bool → Key → Outcome H
receive s codecs configured current is_text bytes =
    let codec = if is_text then codecs.json else configured in
    if too_large s.max_message_size (length bytes)
    then answers (invalid_request 413) current
    else elim (codecs.unmarshal codec bytes) [
      | none ↦ answers (invalid_request 400) current
      | some req ↦ elim (lookup req.action s.handlers) [
        | none ↦ answers (handler_not_found req.action) codec
        | some handler ↦ runs handler req codec
      ]
    ]

-- `fails` of `healthLoop` after a ping: the loop closes the connection at the third failure in a
-- row, which is `none`.
unfoldable pub ping : ℕ → Bool → Option ℕ
ping fails answered = if answered then some 0 else (if ltb fails 2 then some (suc fails) else none)

unfoldable pub pings : ℕ → List Bool → Option ℕ
unfolding ping
pings fails [] = some fails
pings fails (answered ∷ later) = elim (ping fails answered) [
  | none ↦ none
  | some fails' ↦ pings fails' later
]
