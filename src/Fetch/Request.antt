-- ===== src/Fetch/Request.antt =====
-- pkg/fetch/fetch.go: the client that a request uses, where an upload comes from, and what a request
-- comes to. The client of resty is an argument, known by a number, and so is what it returns.
pub mod Clients
mod Tests
use go_oam.Base.{
  ℕ, zero, suc, ◌⊎◌, inl, inr, Bool, true, false, not, ◌&&◌, ◌||◌, Option, none, some, List, [],
  ◌∷◌, ltb, ◌==◌, if◌then◌else◌, length, Key, key_eq, ℤ, pos, negsuc,
}

-- The fields of `Options` that choose a client; the times are durations, in nanoseconds.
pub record Options : Type 0 where
  pub local_addr : Key
  pub retry_count : ℤ
  pub retry_wait_time : ℤ
  pub retry_max_wait : ℤ

pub record ClientCacheKey : Type 0 where
  pub local_addr : Key
  pub retry_count : ℕ
  pub retry_wait_time : ℕ
  pub retry_max_wait : ℕ

abbrev pub time_or : ℤ → ℕ → ℕ
time_or (pos zero) default = default
time_or (pos (suc n)) default = suc n
time_or (negsuc n) default = default

-- The first lines of `getClient`.
unfoldable pub cache_key_of : Options → ClientCacheKey
cache_key_of opts =
    let plain : ClientCacheKey = record {
      local_addr = opts.local_addr;
      retry_count = 0;
      retry_wait_time = 0;
      retry_max_wait = 0;
    } in
    elim opts.retry_count [
      | negsuc n ↦ plain
      | pos n ↦ if n == 0 then plain else record {
        local_addr = opts.local_addr;
        retry_count = n;
        retry_wait_time = time_or opts.retry_wait_time 300000000;
        retry_max_wait = time_or opts.retry_max_wait 5000000000;
      }
    ]

abbrev pub same_key : ClientCacheKey → ClientCacheKey → Bool
same_key k j =
    key_eq k.local_addr j.local_addr
    && k.retry_count == j.retry_count
    && k.retry_wait_time == j.retry_wait_time
    && k.retry_max_wait == j.retry_max_wait

-- The clients that are cached, by their keys; a client is known by its number, and `made` is how many
-- there were.
pub record Cache : Type 0 where
  pub clients : List (ClientCacheKey × ℕ)
  pub made : ℕ

abbrev pub load : ClientCacheKey → List (ClientCacheKey × ℕ) → Option ℕ
load key [] = none
load key ((k, client) ∷ clients) = if same_key key k then some client else load key clients

-- `LoadOrStore`
abbrev pub load_or_store : Cache → ClientCacheKey → ℕ → ℕ × Cache
load_or_store cache key client = elim (load key cache.clients) [
  | some actual ↦ (actual, cache)
  | none ↦ (client, record cache { clients = (key, client) ∷ cache.clients })
]

-- `getClient`
unfoldable pub get_client : Cache → Options → ℕ × Cache
unfolding cache_key_of
get_client cache opts =
    let key = cache_key_of opts in
    elim (load key cache.clients) [
      | some client ↦ (client, cache)
      | none ↦ load_or_store (record cache { made = suc cache.made }) key cache.made
    ]

-- Where `build` takes an upload from: its reader, its data where there are some, its path, or nowhere.
pub data Source (R : Type 0) : Type 0 where
  from_reader : Key → R → Source R
  from_data : Key → Key → Source R
  from_path : Key → Source R
  nowhere : Source R

pub record FileUpload (R : Type 0) : Type 0 where
  pub field : Key
  pub reader : Option R
  pub path : Key
  pub bytes : Option Key
  pub name : Key

module _ {R : Type 0} where
  unfoldable pub source_of : FileUpload R → Source R
  source_of f =
      let name = if key_eq f.name [] then f.field else f.name in
      let by_path = if key_eq f.path [] then nowhere else from_path f.path in
      elim f.reader [
        | some reader ↦ from_reader name reader
        | none ↦ elim f.bytes [
          | some bytes ↦ if ltb 0 (length bytes) then from_data name bytes else by_path
          | none ↦ by_path
        ]
      ]

pub data FetchError (E : Type 0) : Type 0 where
  by_client : E → FetchError E
  http_status : ℕ → FetchError E

-- `do`, by what the client returns: an error, or a body and a status, of which those from 400 on are
-- errors.
unfoldable pub do_request : {E : Type 0} → E ⊎ (Key × ℕ) → Option Key × Option (FetchError E)
do_request (inl e) = (none, some (by_client e))
do_request (inr (body, status)) =
    if ltb 399 status then (some body, some (http_status status)) else (some body, none)
