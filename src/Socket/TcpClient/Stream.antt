-- ===== src/Socket/TcpClient/Stream.antt =====
-- What a user reads of what the read loop has put into the channel.
use mathlib.Core.List.{append_assoc, append-nil}
use go_oam.Base.{
  ◌≡◌, refl, sym, ap, ◌∙◌, inl, inr, Bool, Option, List, [], ◌∷◌, ◌++◌, arith, ltb, if◌then◌else◌,
  length, length-append, ◌⊎◌, Key,
}
use go_oam.Socket.TcpClient.{
  eof, Client, new_client, dispatch_error, connect, shutdown, shutdown_goes_on, close, leave,
  deliver, read_fails, loop_panics, Received, bytes, failed, waits, read,
}
use go_oam.Socket.TcpClient.Life.{
  Event, connects, closes, goes_on, reads, delivers, fails, panics, cancels, step, IsSound,
  step-IsSound,
}

-- A client with the chunks that its reads have returned, and those that its read loop has sent.
pub record Trace (E : Type 0) : Type 0 where
  pub client : Client E
  pub got : List Key
  pub sent : List Key

nil_of : (xs : List Key) → length xs ≡ 0 → xs ≡ []
nil_of [] e = refl
nil_of (x ∷ xs) e = absurd (omega (arith, e))

list-cases : (xs : List Key) → (xs ≡ []) ⊎ ((x : Key) × (ys : List Key) × (xs ≡ x ∷ ys))
list-cases [] = inl refl
list-cases (x ∷ xs) = inr (x, xs, refl)

module _ {E : Type 0} where
  abbrev pub start_of : Bool → Trace E
  start_of on_error = record { client = new_client on_error; got = []; sent = [] }

  abbrev pub with_bytes : Received E → List Key → List Key
  with_bytes (bytes chunk) got = got ++ chunk ∷ []
  with_bytes (failed e) got = got
  with_bytes waits got = got

  -- A round of the loop sends the chunk, where the channel holds more after it.
  abbrev pub with_sent : Client E → Client E → Key → List Key → List Key
  with_sent c c' chunk sent =
      if ltb (length c.output) (length c'.output) then sent ++ chunk ∷ [] else sent

  unfoldable pub observe : Trace E → Event E → Trace E
  unfolding step deliver read
  observe t (delivers chunk picks) =
      let c' = deliver t.client chunk picks in
      record { client = c'; got = t.got; sent = with_sent t.client c' chunk t.sent }
  observe t reads =
      let r = read t.client in record { client = r.1; got = with_bytes r.0 t.got; sent = t.sent }
  observe t (connects dial) = record t { client = step t.client (connects dial) }
  observe t closes = record t { client = step t.client closes }
  observe t goes_on = record t { client = step t.client goes_on }
  observe t (fails e) = record t { client = step t.client (fails e) }
  observe t (panics e) = record t { client = step t.client (panics e) }
  observe t cancels = record t { client = step t.client cancels }

  unfoldable pub observe_all : Trace E → List (Event E) → Trace E
  unfolding observe
  observe_all t [] = t
  observe_all t (event ∷ events) = observe_all (observe t event) events

  abbrev IsFifo : Trace E → Type 0
  IsFifo t = IsSound t.client × (t.got ++ t.client.output ≡ t.sent)

  -- The steps that are no round of the loop and no read leave the channel as it is.
  output-connect :
      (c : Client E) (dial : Option E) → IsSound c → (connect c dial).1.output ≡ c.output
  unfolding connect
  output-connect c dial v = ground (arith, v, nil_of c.output)

  output-close : (c : Client E) → (close c).output ≡ c.output
  unfolding close shutdown
  output-close c = ground arith

  output-goes_on : (c : Client E) → (shutdown_goes_on c).output ≡ c.output
  unfolding shutdown_goes_on dispatch_error leave
  output-goes_on c = ground arith

  output-read_fails : (c : Client E) (e : E) → (read_fails c e).output ≡ c.output
  unfolding read_fails shutdown dispatch_error leave
  output-read_fails c e = ground arith

  output-loop_panics : (c : Client E) (e : E) → (loop_panics c e).output ≡ c.output
  unfolding loop_panics shutdown dispatch_error leave
  output-loop_panics c e = ground arith

  read_lem :
      (c : Client E) (got : List Key)
      → IsSound c
      → with_bytes (read c).0 got ++ (read c).1.output ≡ got ++ c.output
  unfolding read
  read_lem c got v = elim (list-cases c.output) [
    | inl empty ↦ ground (arith, empty, v)
    | inr (chunk, later, there) ↦ ground (arith, there, v, append_assoc got (chunk ∷ []) later)
  ]

  deliver_lem :
      (c : Client E) (got sent : List Key) (chunk : Key) (picks : Bool)
      → got ++ c.output ≡ sent
      → got ++ (deliver c chunk picks).output ≡ with_sent c (deliver c chunk picks) chunk sent
  unfolding deliver leave
  deliver_lem c got sent chunk picks f =
      ground (arith, f, length-append c.output (chunk ∷ []), append_assoc got c.output (chunk ∷ []))

  observe-IsFifo : (t : Trace E) (event : Event E) → IsFifo t → IsFifo (observe t event)
  unfolding observe step
  observe-IsFifo t (connects dial) (v, f) = (
    step-IsSound t.client (connects dial) v,
    ap (λ o. t.got ++ o) (output-connect t.client dial v) ∙ f,
  )
  observe-IsFifo t closes (v, f) =
      (step-IsSound t.client closes v, ap (λ o. t.got ++ o) (output-close t.client) ∙ f)
  observe-IsFifo t goes_on (v, f) =
      (step-IsSound t.client goes_on v, ap (λ o. t.got ++ o) (output-goes_on t.client) ∙ f)
  observe-IsFifo t reads (v, f) = (step-IsSound t.client reads v, read_lem t.client t.got v ∙ f)
  observe-IsFifo t (delivers chunk picks) (v, f) = (
    step-IsSound t.client (delivers chunk picks) v,
    deliver_lem t.client t.got t.sent chunk picks f,
  )
  observe-IsFifo t (fails e) (v, f) =
      (step-IsSound t.client (fails e) v, ap (λ o. t.got ++ o) (output-read_fails t.client e) ∙ f)
  observe-IsFifo t (panics e) (v, f) =
      (step-IsSound t.client (panics e) v, ap (λ o. t.got ++ o) (output-loop_panics t.client e) ∙ f)
  observe-IsFifo t cancels (v, f) = (step-IsSound t.client cancels v, f)

  drained : (c : Client E) → (read c).0 ≡ failed eof → c.output ≡ []
  unfolding read
  drained c e = elim (list-cases c.output) [
    | inl empty ↦ empty
    | inr (chunk, later, there) ↦ ground (arith, there, e)
  ]

  observe_all-IsFifo :
      (t : Trace E) (events : List (Event E)) → IsFifo t → IsFifo (observe_all t events)
  unfolding observe_all
  observe_all-IsFifo t [] v = v
  observe_all-IsFifo t (event ∷ events) v =
      observe_all-IsFifo (observe t event) events (observe-IsFifo t event v)

  pub observed-IsFifo :
      (on_error : Bool) (events : List (Event E)) → IsFifo (observe_all (start_of on_error) events)
  unfolding new_client
  observed-IsFifo on_error events = observe_all-IsFifo (start_of on_error) events (ground arith)

  -- Whatever happens to a new client: the chunks that its reads have returned, and behind them those
  -- that wait, are the chunks that the read loop has sent, in this order.
  pub got-sent :
      (on_error : Bool) (events : List (Event E))
      → (let t = observe_all (start_of on_error) events in t.got ++ t.client.output ≡ t.sent)
  got-sent on_error events = (observed-IsFifo on_error events).1

  -- When a read returns `io.EOF`, also after `Close`, every chunk that the read loop has sent has been
  -- read.
  pub got-eof :
      (on_error : Bool) (events : List (Event E))
      → (read (observe_all (start_of on_error) events).client).0 ≡ failed eof
      → (observe_all (start_of on_error) events).got ≡ (observe_all (start_of on_error) events).sent
  got-eof on_error events e =
      let t = observe_all (start_of on_error) events in
      let (v, f) = observed-IsFifo on_error events in
      sym (append-nil t.got) ∙ ap (λ o. t.got ++ o) (sym (drained t.client e)) ∙ f
