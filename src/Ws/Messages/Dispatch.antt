-- ===== src/Ws/Messages/Dispatch.antt =====
-- Which handler a message reaches.
use go_oam.Base.{
  ℕ, zero, suc, ◌≡◌, refl, ap, Bool, true, false, not, ◌&&◌, some, List, [], ◌∷◌, ◌++◌, arith,
  if◌then◌else◌, length, Key, key_eq, key_eq_refl, is_some, ◌||◌, lookup, lookup-insert,
}
use go_oam.Ws.Messages.{
  Request, Codecs, Server, use_middleware, wrap, handle, too_large, runs, receive, ping, pings,
}

module _ {H : Type 0} where
  wrap-append : (a b : List (H → H)) (handler : H) → wrap (a ++ b) handler ≡ wrap a (wrap b handler)
  unfolding wrap
  wrap-append [] b handler = refl
  wrap-append (m ∷ a) b handler = ap m (wrap-append a b handler)

  -- A message that is not too large and that its codec decodes, to an action that was registered
  -- last behind some middleware, runs the handler of that action within this middleware, the first
  -- outermost; middleware that is added later does not touch it, nor does a handler of another
  -- action.
  pub receive-handle :
      (s : Server H) (outer inner later : List (H → H)) (action other : Key) (handler h' : H)
      (codecs : Codecs) (configured current : Key) (is_text : Bool) (bytes : Key) (req : Request)
      → s.middleware ≡ []
      → key_eq action other ≡ false
      → too_large s.max_message_size (length bytes) ≡ false
      → codecs.unmarshal (if is_text then codecs.json else configured) bytes ≡ some req
      → req.action ≡ action
      → receive
          (handle
            (use_middleware
              (handle (use_middleware (use_middleware s outer) inner) action handler)
              later)
            other
            h')
          codecs
          configured
          current
          is_text
          bytes
        ≡ runs (wrap outer (wrap inner handler)) req (if is_text then codecs.json else configured)
  unfolding receive handle use_middleware
  receive-handle s outer inner later action other handler h' codecs configured current is_text bytes
        req e ne small d a =
      let first = handle (use_middleware (use_middleware s outer) inner) action handler in
      let found : lookup req.action (handle (use_middleware first later) other h').handlers
          ≡ some (wrap (outer ++ inner) handler) =
        ground (
          arith,
          a,
          e,
          ne,
          key_eq_refl action,
          lookup-insert action action (wrap (outer ++ inner) handler) s.handlers,
          lookup-insert other action (wrap ((s.middleware ++ outer) ++ inner ++ later) h')
              first.handlers,
        ) in
      rw (small, d, found, wrap-append outer inner handler) refl

-- The first `k` pings fail.
unfoldable pub fail : ℕ → List Bool → Bool
fail zero pinged = true
fail (suc k) [] = false
fail (suc k) (answered ∷ later) = not answered && fail k later

-- Somewhere three pings in a row fail.
unfoldable pub fail_thrice : List Bool → Bool
unfolding fail
fail_thrice [] = false
fail_thrice (answered ∷ later) = let rest = fail_thrice later in fail 3 (answered ∷ later) || rest

pings-fail :
    (pinged : List Bool)
    → (not (is_some (pings 0 pinged)) ≡ fail_thrice pinged)
      × (not (is_some (pings 1 pinged)) ≡ fail 2 pinged || fail_thrice pinged)
      × (not (is_some (pings 2 pinged)) ≡ fail 1 pinged || fail_thrice pinged)
unfolding pings ping fail fail_thrice
pings-fail [] = (refl, refl, refl)
pings-fail (answered ∷ later) =
    let (zeroth, first, second) = pings-fail later in (ground arith, ground arith, ground arith)

-- The health loop closes the connection exactly when three pings in a row fail.
pub pings_lem : (pinged : List Bool) → not (is_some (pings 0 pinged)) ≡ fail_thrice pinged
pings_lem pinged = (pings-fail pinged).0
