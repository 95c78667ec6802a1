-- ===== src/Push/Facade/Tests.antt =====
-- A facade with a URL of its own, and a record without a time.
use go_oam.Base.{true, false, none, some, List, [], ◌∷◌, Key, ℤ, pos, negsuc}
use go_oam.Push.Client.{Network}
use go_oam.Push.Pool.{Pool}
use go_oam.Push.Facade.{Record, Push, unset}
use go_oam.Push.Facade.Sending.{Setting, base_url, timeout, retry}

abbrev alarm : Record
alarm = record {
  core_uid = [];
  ne_uid = 7 ∷ [];
  record_time = pos 0;
  record_type = 1 ∷ [];
  record_data = [];
  params = [];
}

abbrev encoded : Record → Key
encoded r = r.ne_uid

abbrev answers : Network
answers = record { random = λ n. 0; expired = λ n. none; do_push = λ n. none }

abbrev everywhere : Key → Key → ℤ → Network
everywhere url payload d = answers

abbrev host : Key
host = 104 ∷ []

abbrev settings : List Setting
settings = base_url host ∷ timeout (pos 5) ∷ timeout (negsuc 3) ∷ retry (pos 2) ∷ base_url [] ∷ []

abbrev full : Pool
full = record {
  base_url = [];
  timeout = pos 5;
  retry = pos 3;
  queue_size = 1;
  workers = 1;
  queue = some (record { url = host; payload = []; timeout = pos 5 }) ∷ [];
  closed = false;
  running = true;
  active = 1;
  processed = 0;
  failed = 0;
}

abbrev with_full : Push
with_full = record unset { cli = some full; retry = pos 3 }
