-- ===== src/Ws/Hub/Tests.antt =====
-- A server with room for two connections, and three requests.
use go_oam.Base.{
  ℕ, ◌≡◌, refl, Bool, true, false, Option, none, some, List, [], ◌∷◌, length, Key, pos, lookup,
}
use go_oam.Ws.Topics.Relation.{subscribed}
use go_oam.Ws.Hub.{Conn, Hub, new_hub, admit, refusal, join, subscribe_conn, publish_filter}
use go_oam.Ws.Hub.Links.{
  IsLinked, Reach, here, after, admits, joins, follows_topics, step, is_open, follows,
  Reach-IsLinked,
}
use go_oam.Ws.Hub.Sending.{sent_to, publish_filter_lem}

abbrev json : Key
json = 106 ∷ []

abbrev news : Key
news = 110 ∷ []

abbrev a : Key
a = 97 ∷ []

abbrev b : Key
b = 98 ∷ []

abbrev start : Hub
start = new_hub (pos 2) 4 json

abbrev one : Hub
one = step (step (step start (admits none)) (joins a)) (follows_topics a (news ∷ []))

-- The encoder gives one byte.
abbrev encode : Key → ℕ → Option Key
encode codec n = some (n ∷ [])

one_reached : Reach start one
unfolding step new_hub admit join refusal
one_reached =
    after (follows_topics a (news ∷ []))
      (after (joins a) (after (admits none) here tt refl) refl refl) tt refl

Reach-IsLinked_example : IsLinked one
Reach-IsLinked_example = Reach-IsLinked (pos 2) 4 json one_reached

one_open : is_open one a ≡ true
unfolding step new_hub admit join refusal subscribe_conn is_open
one_open = refl

abbrev topic : Key
topic = 116 ∷ []

new_topic : follows one a topic ≡ false
unfolding step new_hub admit join refusal subscribe_conn follows
new_topic = refl

abbrev everybody : Key → Bool
everybody j = true

abbrev is_queue : Option Conn → List Key
is_queue none = []
is_queue (some c) = c.queue

publish_filter_lem_example :
    lookup a (publish_filter encode everybody one news 7).store
    ≡ some (record {
      subs = (news, true) ∷ [];
      queue = (7 ∷ []) ∷ [];
      capacity = 4;
      resp_codec = json;
      closed = false;
    })
unfolding subscribed step new_hub admit join refusal subscribe_conn sent_to
publish_filter_lem_example =
    publish_filter_lem encode everybody one news a 7 Reach-IsLinked_example.tidy

one_total : one.total ≡ pos 1
unfolding step new_hub admit join refusal subscribe_conn
one_total = refl

one_limit : one.max_conns ≡ pos 2
unfolding step new_hub admit join refusal subscribe_conn
one_limit = refl

abbrev conn_a : Conn
conn_a = record {
  subs = (news, true) ∷ [];
  queue = [];
  capacity = 4;
  resp_codec = json;
  closed = false;
}

stored : lookup a one.store ≡ some conn_a
unfolding step new_hub admit join refusal subscribe_conn
stored = refl

abbrev type_of : Key → ℕ
type_of codec = length codec
