-- ===== src/Ws/Topics/Tests.antt =====
-- Two connections on one topic, of which one leaves.
use go_oam.Base.{◌≡◌, refl, true, List, [], ◌∷◌, Key}
use go_oam.Ws.Topics.{new_topic_manager, subscribe, unsubscribe_all, subscribers}
use go_oam.Ws.Topics.Relation.{subscribed}
use go_oam.Ws.Topics.Refine.{Change, subscribes, leaves, change, changes, related, changes-refine}

abbrev news : Key
news = 110 ∷ []

abbrev two : List Change
two = subscribes news (1 ∷ []) ∷ subscribes news (2 ∷ []) ∷ leaves (1 ∷ []) ∷ []

left : subscribers (changes new_topic_manager two) news ≡ (2 ∷ []) ∷ []
unfolding changes change new_topic_manager subscribe unsubscribe_all subscribers
left = refl

changes-refine_example : subscribed (changes new_topic_manager two) news (2 ∷ []) ≡ true
unfolding related
changes-refine_example = changes-refine two news (2 ∷ [])
