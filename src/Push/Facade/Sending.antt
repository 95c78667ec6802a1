-- ===== src/Push/Facade/Sending.antt =====
-- What a configured facade sends, and how often it tries.
use go_oam.Base.{
  ◌≤◌, ◌≡◌, inl, inr, false, Option, none, some, List, [], ◌∷◌, arith, length, Option-cases, Key, ℤ,
  pos, negsuc,
}
use go_oam.Push.Client.{Network, do_push_with_retry}
use go_oam.Push.Pool.{Pool, timeout_or, async_push_timeout, apply_all}
use go_oam.Push.Pool
use go_oam.Push.Facade.{
  Record, SendParams, Push, with_base_url, with_push_uri, with_timeout, with_retry, or_else, url_of,
  timeout_of, stamp, send_async,
}

-- The options that the package offers.
pub data Setting : Type 0 where
  base_url : Key → Setting
  push_uri : Key → Setting
  timeout : ℤ → Setting
  retry : ℤ → Setting

unfoldable pub option : Setting → Push → Push
unfolding with_base_url with_push_uri with_timeout with_retry
option (base_url url) = with_base_url url
option (push_uri uri) = with_push_uri uri
option (timeout d) = with_timeout d
option (retry n) = with_retry n

-- The value that each part of the configuration ends with, from a default: that of the last option
-- which sets it and is not ignored.
unfoldable pub base_of : Key → List Setting → Key
base_of d [] = d
base_of d (base_url url ∷ ss) = base_of (or_else url d) ss
base_of d (push_uri uri ∷ ss) = base_of d ss
base_of d (timeout t ∷ ss) = base_of d ss
base_of d (retry n ∷ ss) = base_of d ss

unfoldable pub uri_of : Key → List Setting → Key
uri_of d [] = d
uri_of d (base_url url ∷ ss) = uri_of d ss
uri_of d (push_uri uri ∷ ss) = uri_of (or_else uri d) ss
uri_of d (timeout t ∷ ss) = uri_of d ss
uri_of d (retry n ∷ ss) = uri_of d ss

unfoldable pub time_of : ℤ → List Setting → ℤ
time_of d [] = d
time_of d (base_url url ∷ ss) = time_of d ss
time_of d (push_uri uri ∷ ss) = time_of d ss
time_of d (timeout t ∷ ss) = time_of (timeout_or t d) ss
time_of d (retry n ∷ ss) = time_of d ss

unfoldable pub tries_of : ℤ → List Setting → ℤ
tries_of d [] = d
tries_of d (base_url url ∷ ss) = tries_of d ss
tries_of d (push_uri uri ∷ ss) = tries_of d ss
tries_of d (timeout t ∷ ss) = tries_of d ss
tries_of d (retry (pos n) ∷ ss) = tries_of (pos n) ss
tries_of d (retry (negsuc n) ∷ ss) = tries_of d ss

abbrev pub minute : ℤ
minute = pos 60000000000

module _ (encode : Record → Key) (network : Key → Key → ℤ → Network) where
  -- An asynchronous send that finds the queue full pushes at once and without a retry, whatever the
  -- options say.
  pub send_async-full :
      (p : Push) (c : Pool) (now : ℤ) (r : Record) (params : Option SendParams)
      → p.cli ≡ some c
      → c.closed ≡ false
      → c.queue_size ≤ length c.queue
      → send_async encode network p now r params ≡ (
        elim (do_push_with_retry
            (network
              (url_of p params)
              (encode (stamp now r))
              (timeout_or (timeout_of p params) c.timeout))
            (pos 0)) [ none ↦ none | some res ↦ some (res.0, p) ],
        stamp now r,
      )
  unfolding send_async async_push_timeout
  send_async-full p c now r params there o full =
      let net =
        network (url_of p params) (encode (stamp now r))
          (timeout_or (timeout_of p params) c.timeout) in
      elim (Option-cases (do_push_with_retry net (pos 0))) [
        | inl fault ↦ ground arith
        | inr (res, pushed) ↦ ground arith
      ]
