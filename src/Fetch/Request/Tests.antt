-- ===== src/Fetch/Request/Tests.antt =====
-- Requests with retries and without.
use go_oam.Base.{◌≡◌, ◌==◌, true, refl, none, some, [], ◌∷◌, pos, Key}
use go_oam.Fetch.Request.{Options, get_client, source_of, from_path}
use go_oam.Fetch.Request.Clients.{get_clients, empty, get_client-shared}

abbrev plain : Options
plain = record {
  local_addr = [];
  retry_count = pos 0;
  retry_wait_time = pos 9;
  retry_max_wait = pos 0;
}

abbrev retrying : Options
retrying = record plain { retry_count = pos 2 }

-- The time between retries does not matter where there are none.
abbrev other_time : Options
other_time = record plain { retry_wait_time = pos 4 }

get_client-shared_example :
    (let first = get_client (get_clients empty (retrying ∷ [])) plain in
      let second = get_client (get_clients first.1 (retrying ∷ [])) other_time in
      (first.0 == second.0) ≡ true)
get_client-shared_example = get_client-shared (retrying ∷ []) (retrying ∷ []) plain other_time

-- Data that are empty give way to the path.
empty_data :
    source_of {R = Key}
      (record { field = 1 ∷ []; reader = none; path = 2 ∷ []; bytes = some []; name = [] })
    ≡ from_path (2 ∷ [])
unfolding source_of
empty_data = refl
