-- ===== src/Ws/Topics.antt =====
-- ws/server/server.go: `topicManager`, which keeps the subscribers of each topic. A connection is
-- known by its id. A method holds the lock, and is one step.
pub mod Relation
pub mod Refine
mod Tests
use go_oam.Base.{
  ℕ, Bool, true, false, Option, none, some, List, [], ◌∷◌, ◌==◌, if◌then◌else◌, length, Key, lookup,
  insert, delete, keys, has,
}

-- `map[string]*Conn`
abbrev pub Ids : Type 0
Ids = List (Key × Unit {0})

abbrev pub Topics : Type 0
Topics = List (Key × Ids)

unfoldable pub new_topic_manager : Topics
new_topic_manager = []

unfoldable pub subscribe : Key → Key → Topics → Topics
subscribe topic id tm = elim (lookup topic tm) [
  | none ↦ insert topic (insert id tt []) tm
  | some subs ↦ insert topic (insert id tt subs) tm
]

unfoldable pub unsubscribe : Key → Key → Topics → Topics
unsubscribe topic id tm = elim (lookup topic tm) [
  | none ↦ tm
  | some subs ↦
      if length (delete id subs) == 0 then delete topic tm else insert topic (delete id subs) tm
]

-- The loop over all topics.
unfoldable pub unsubscribe_all : Key → Topics → Topics
unsubscribe_all id [] = []
unsubscribe_all id ((topic, subs) ∷ tm) =
    let rest = unsubscribe_all id tm in
    if length (delete id subs) == 0 then rest else (topic, delete id subs) ∷ rest

unfoldable pub subscribers : Topics → Key → List Key
subscribers tm topic = elim (lookup topic tm) [ none ↦ [] | some subs ↦ keys subs ]

unfoldable pub topic_count : Topics → Key → ℕ
topic_count tm topic = elim (lookup topic tm) [ none ↦ 0 | some subs ↦ length subs ]

unfoldable pub topic_list : Topics → List Key
topic_list tm = keys tm
