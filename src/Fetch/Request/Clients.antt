-- ===== src/Fetch/Request/Clients.antt =====
-- Which requests share a client.
use go_oam.Base.{
  ℤ, pos, negsuc, is_positive, false, zero, suc, key_eq, if◌then◌else◌, ◌||◌, ◌&&◌, ℕ, ◌<◌, ◌≡◌,
  refl, ap, ◌∙◌, inl, inr, Bool, true, some, List, [], ◌∷◌, arith, ◌==◌, ltb, key_eq_refl,
  key_eq→eq, Option-cases, Bool-cases, sym,
}
use go_oam.Fetch.Request.{
  Options, ClientCacheKey, cache_key_of, time_or, same_key, Cache, load, get_client,
}

-- A cache after some requests.
unfoldable pub get_clients : Cache → List Options → Cache
unfolding get_client
get_clients cache [] = cache
get_clients cache (opts ∷ more) = get_clients (get_client cache opts).1 more

abbrev pub empty : Cache
empty = record { clients = []; made = 0 }

-- The numbers of the clients go down from the last that was given out.
abbrev falling : ℕ → List (ClientCacheKey × ℕ) → Bool
falling made [] = true
falling made ((key, client) ∷ clients) = ltb client made && falling client clients

same_key_refl : (key : ClientCacheKey) → same_key key key ≡ true
same_key_refl key = ground (arith, key_eq_refl key.local_addr)

same_key_eq : (k j : ClientCacheKey) → same_key k j ≡ true → k ≡ j
same_key_eq k j e =
    let local : k.local_addr ≡ j.local_addr =
      key_eq→eq k.local_addr j.local_addr (ground (arith, e)) in
    ground (arith, e, local)

load-falling :
    (key : ClientCacheKey) (clients : List (ClientCacheKey × ℕ)) (made client : ℕ)
    → falling made clients ≡ true
    → load key clients ≡ some client
    → client < made
load-falling key [] made client f l = absurd (ground (arith, l))
load-falling key ((k, c) ∷ clients) made client f l =
    ground (arith, f, l, load-falling key clients c client)

load-injective :
    (k j : ClientCacheKey) (clients : List (ClientCacheKey × ℕ)) (made client : ℕ)
    → falling made clients ≡ true
    → load k clients ≡ some client
    → load j clients ≡ some client
    → k ≡ j
load-injective k j [] made client f l m = absurd (ground (arith, l))
load-injective k j ((h, c) ∷ clients) made client f l m = ground (
  arith,
  f,
  l,
  m,
  same_key_eq k h,
  same_key_eq j h,
  load-falling k clients c client,
  load-falling j clients c client,
  load-injective k j clients c client,
)

get_client-falling :
    (cache : Cache) (opts : Options)
    → falling cache.made cache.clients ≡ true
    → falling (get_client cache opts).1.made (get_client cache opts).1.clients ≡ true
unfolding get_client
get_client-falling cache opts f = elim (Option-cases (load (cache_key_of opts) cache.clients)) [
  | inl none_there ↦ ground (arith, none_there, f)
  | inr (client, there) ↦ ground (arith, there, f)
]

get_client-load :
    (cache : Cache) (opts : Options)
    → load (cache_key_of opts) (get_client cache opts).1.clients ≡ some (get_client cache opts).0
unfolding get_client
get_client-load cache opts = elim (Option-cases (load (cache_key_of opts) cache.clients)) [
  | inl none_there ↦ ground (arith, none_there, same_key_refl (cache_key_of opts))
  | inr (client, there) ↦ ground (arith, there)
]

get_client-keeps :
    (cache : Cache) (opts : Options) (key : ClientCacheKey) (client : ℕ)
    → load key cache.clients ≡ some client
    → load key (get_client cache opts).1.clients ≡ some client
unfolding get_client
get_client-keeps cache opts key client l =
    elim (Option-cases (load (cache_key_of opts) cache.clients)) [
      | inl none_there ↦ elim (Bool-cases (same_key key (cache_key_of opts))) [
        | inl same ↦
            let eq = same_key_eq key (cache_key_of opts) same in
            absurd (ground (arith, none_there, l, eq))
        | inr other ↦ ground (arith, none_there, other, l)
      ]
      | inr (c, there) ↦ ground (arith, there, l)
    ]

get_clients-falling :
    (cache : Cache) (more : List Options)
    → falling cache.made cache.clients ≡ true
    → falling (get_clients cache more).made (get_clients cache more).clients ≡ true
unfolding get_clients
get_clients-falling cache [] f = f
get_clients-falling cache (opts ∷ more) f =
    get_clients-falling (get_client cache opts).1 more (get_client-falling cache opts f)

get_clients-keeps :
    (cache : Cache) (more : List Options) (key : ClientCacheKey) (client : ℕ)
    → load key cache.clients ≡ some client
    → load key (get_clients cache more).clients ≡ some client
unfolding get_clients
get_clients-keeps cache [] key client l = l
get_clients-keeps cache (opts ∷ more) key client l =
    get_clients-keeps (get_client cache opts).1 more key client
      (get_client-keeps cache opts key client l)

abbrev pub or_default : ℤ → ℤ → ℤ
or_default t default = if is_positive t then t else default

abbrev pub int_eq : ℤ → ℤ → Bool
int_eq (pos n) (pos m) = n == m
int_eq (pos n) (negsuc m) = false
int_eq (negsuc n) (pos m) = false
int_eq (negsuc n) (negsuc m) = n == m

-- The same source address, and either no retries in both or as many, with the same times, of which
-- one that is not positive stands for 300 ms and 5 s.
abbrev pub agree : Options → Options → Bool
agree a b =
    key_eq a.local_addr b.local_addr
    && (if is_positive a.retry_count || is_positive b.retry_count
        then int_eq a.retry_count b.retry_count
          && int_eq (or_default a.retry_wait_time (pos 300000000))
              (or_default b.retry_wait_time (pos 300000000))
          && int_eq (or_default a.retry_max_wait (pos 5000000000))
              (or_default b.retry_max_wait (pos 5000000000))
        else true)

int_eq-time_or :
    (s t : ℤ) (default : ℕ)
    → int_eq (or_default s (pos (suc default))) (or_default t (pos (suc default)))
      ≡ (time_or s (suc default) == time_or t (suc default))
int_eq-time_or (pos zero) (pos zero) default = ground arith
int_eq-time_or (pos zero) (pos (suc m)) default = ground arith
int_eq-time_or (pos zero) (negsuc m) default = ground arith
int_eq-time_or (pos (suc n)) (pos zero) default = ground arith
int_eq-time_or (pos (suc n)) (pos (suc m)) default = ground arith
int_eq-time_or (pos (suc n)) (negsuc m) default = ground arith
int_eq-time_or (negsuc n) (pos zero) default = ground arith
int_eq-time_or (negsuc n) (pos (suc m)) default = ground arith
int_eq-time_or (negsuc n) (negsuc m) default = ground arith

agree_lem : (a b : Options) → same_key (cache_key_of a) (cache_key_of b) ≡ agree a b
unfolding cache_key_of
agree_lem a b = ground (
  arith,
  int_eq-time_or a.retry_wait_time b.retry_wait_time 299999999,
  int_eq-time_or a.retry_max_wait b.retry_max_wait 4999999999,
)

get_client-key :
    (before between : List Options) (opts later : Options)
    → (let first = get_client (get_clients empty before) opts in
        let second = get_client (get_clients first.1 between) later in
        (first.0 == second.0) ≡ same_key (cache_key_of opts) (cache_key_of later))
get_client-key before between opts later =
    let start = get_clients empty before in
    let first = get_client start opts in
    let middle = get_clients first.1 between in
    let second = get_client middle later in
    let f : falling second.1.made second.1.clients ≡ true = get_client-falling middle later (
      get_clients-falling first.1 between
        (get_client-falling start opts (get_clients-falling empty before refl))) in
    let kept : load (cache_key_of opts) second.1.clients ≡ some first.0 =
      get_client-keeps middle later (cache_key_of opts) first.0 (
        get_clients-keeps first.1 between (cache_key_of opts) first.0
          (get_client-load start opts)) in
    let found : load (cache_key_of later) second.1.clients ≡ some second.0 =
      get_client-load middle later in
    let apart : first.0 ≡ second.0 → cache_key_of opts ≡ cache_key_of later = λ same.
      load-injective (cache_key_of opts) (cache_key_of later) second.1.clients second.1.made
        second.0 f (kept ∙ ap (λ c. some c) same) found in
    elim (Bool-cases (same_key (cache_key_of opts) (cache_key_of later))) [
      | inl same ↦
          let k = same_key_eq (cache_key_of opts) (cache_key_of later) same in
          let both : some first.0 ≡ some second.0 =
            sym kept ∙ ap (λ k. load k second.1.clients) k ∙ found in
          ground (arith, same, both)
      | inr other ↦ ground (arith, other, apart, same_key_refl (cache_key_of later))
    ]

-- Two requests, with any others before and between them, have the same client just when their options
-- have the same source address and either both no retries, or as many, with the same times between
-- them, where a time that is not positive stands for 300 ms and 5 s.
pub get_client-shared :
    (before between : List Options) (opts later : Options)
    → (let first = get_client (get_clients empty before) opts in
        let second = get_client (get_clients first.1 between) later in
        (first.0 == second.0) ≡ agree opts later)
get_client-shared before between opts later =
    get_client-key before between opts later ∙ agree_lem opts later
