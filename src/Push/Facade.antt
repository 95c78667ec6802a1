-- ===== src/Push/Facade.antt =====
-- push/push.go: the facade, which resolves the defaults and hands a record to the client. Where a
-- call leads depends on the URL, the payload and the timeout, so a network is given for each; the
-- encoder of records is a parameter.
pub mod Sending
mod Tests
use go_oam.Base.{
  ℕ, Bool, true, false, Option, none, some, List, [], ◌∷◌, ◌++◌, ltb, ◌==◌, if◌then◌else◌, length,
  Key, ℤ, pos, negsuc,
}
use go_oam.Push.Client.{Network, PushError}
use go_oam.Push.Pool.{Pool, Job, new_pool, async_push_timeout, timeout_or, close}
use go_oam.Push.Pool.Batch.{push_timeout}
use go_oam.Push.Pool

pub record Record : Type 0 where
  pub core_uid : Key
  pub ne_uid : Key
  pub record_time : ℤ
  pub record_type : Key
  pub record_data : Key
  pub params : List (Key × Key)

pub record SendParams : Type 0 where
  pub url : Key
  pub timeout : ℤ

pub record Push : Type 0 where
  pub base_url : Key
  pub push_uri : Key
  pub push_url : Key
  pub timeout : ℤ
  pub retry : ℤ
  pub cli : Option Pool

unfoldable pub with_base_url : Key → Push → Push
with_base_url url p = if length url == 0 then p else record p { base_url = url }

unfoldable pub with_push_uri : Key → Push → Push
with_push_uri uri p = if length uri == 0 then p else record p { push_uri = uri }

unfoldable pub with_timeout : ℤ → Push → Push
with_timeout (negsuc n) p = p
with_timeout (pos n) p = if n == 0 then p else record p { timeout = pos n }

unfoldable pub with_retry : ℤ → Push → Push
with_retry (negsuc n) p = p
with_retry (pos n) p = record p { retry = pos n }

abbrev pub apply_opts : List (Push → Push) → Push → Push
apply_opts [] p = p
apply_opts (opt ∷ opts) p = apply_opts opts (opt p)

-- "http://localhost" and "/api/push/receive".
abbrev pub localhost : Key
localhost =
    104 ∷ 116 ∷ 116 ∷ 112 ∷ 58 ∷ 47 ∷ 47 ∷ 108 ∷ 111 ∷ 99 ∷ 97 ∷ 108 ∷ 104 ∷ 111 ∷ 115 ∷ 116 ∷ []

abbrev pub default_push_uri : Key
default_push_uri =
    47 ∷ 97 ∷ 112 ∷ 105 ∷ 47 ∷ 112 ∷ 117 ∷ 115 ∷ 104 ∷ 47 ∷ 114 ∷ 101 ∷ 99 ∷ 101 ∷ 105 ∷ 118 ∷ 101
    ∷ []

-- `baseURL` and `pushURI` after the options.
abbrev pub or_else : Key → Key → Key
or_else s other = if length s == 0 then other else s

unfoldable pub filled_in : ℕ → Push → Push
filled_in cpus p =
    let base = or_else p.base_url localhost in
    let uri = or_else p.push_uri default_push_uri in
    record p {
      base_url = base;
      push_uri = uri;
      push_url = base ++ uri;
      cli = some (new_pool cpus (Pool.with_timeout p.timeout ∷ Pool.with_retry p.retry ∷ []));
    }

abbrev pub unset : Push
unset = record {
  base_url = [];
  push_uri = [];
  push_url = [];
  timeout = pos 60000000000;
  retry = pos 0;
  cli = none;
}

-- `cpus` is `runtime.NumCPU()`.
unfoldable pub new_push : ℕ → List (Push → Push) → Push
unfolding filled_in
new_push cpus opts = filled_in cpus (apply_opts opts unset)

-- `Close`, up to the wait for the workers.
unfoldable pub close_push : Push → Push
close_push p = elim p.cli [ none ↦ p | some c ↦ record p { cli = some (close c) } ]

-- The URL and the timeout of a call.
unfoldable pub url_of : Push → Option SendParams → Key
url_of p none = p.push_url
url_of p (some params) = or_else params.url p.push_url

unfoldable pub timeout_of : Push → Option SendParams → ℤ
timeout_of p none = p.timeout
timeout_of p (some params) = timeout_or params.timeout p.timeout

-- A record without a time gets that of the call.
unfoldable pub stamp : ℤ → Record → Record
stamp now r = record r {
  record_time = elim r.record_time [ pos n ↦ if n == 0 then now else pos n | negsuc n ↦ negsuc n ];
}

module _ (encode : Record → Key) (network : Key → Key → ℤ → Network) where
  -- The result of a call, and the record, which the caller shares; the outer `none` is a panic. The
  -- second number is that of the requests.
  unfoldable pub send :
      Push → ℤ → Record → Option SendParams → Option (Option PushError × ℕ) × Record
  send p now r params =
      let r' = stamp now r in
      let url = url_of p params in
      let timeout = timeout_of p params in
      elim p.cli [
        | none ↦ (none, r')
        | some c ↦
            (push_timeout c (network url (encode r') (timeout_or timeout c.timeout)) timeout, r')
      ]

  unfoldable pub send_async :
      Push → ℤ → Record → Option SendParams → Option (Option PushError × Push) × Record
  send_async p now r params =
      let r' = stamp now r in
      let url = url_of p params in
      let timeout = timeout_of p params in
      elim p.cli [
        | none ↦ (none, r')
        | some c ↦ (
          elim (async_push_timeout c (network url (encode r') (timeout_or timeout c.timeout)) url
              (encode r') timeout) [
                | none ↦ none
                | some res ↦ some (res.0, record p { cli = some res.1 })
              ],
          r',
        )
      ]
