-- ===== src/Ws/Topics/Refine.antt =====
-- A history of changes to the topics, against the set of pairs that it describes.
use go_oam.Base.{
  ◌≡◌, refl, ap, ◌∙◌, inl, inr, Bool, true, false, not, ◌&&◌, ◌||◌, List, [], ◌∷◌, arith, ◌==◌,
  if◌then◌else◌, length, length-map, Option-cases, Key, key_eq, lookup, keys, has, AllValues-lookup,
}
use go_oam.Ws.Topics.{
  Topics, new_topic_manager, subscribe, unsubscribe, unsubscribe_all, subscribers, topic_count,
  topic_list,
}
use go_oam.Ws.Topics.Relation.{
  subscribed, IsTidy, IsTopic, subscribed-subscribe, subscribed-unsubscribe,
  subscribed-unsubscribe_all, subscribe-IsTidy, unsubscribe-IsTidy, unsubscribe_all-IsTidy,
}

pub data Change : Type 0 where
  subscribes : Key → Key → Change
  unsubscribes : Key → Key → Change
  leaves : Key → Change

unfoldable pub change : Topics → Change → Topics
change tm (subscribes topic id) = subscribe topic id tm
change tm (unsubscribes topic id) = unsubscribe topic id tm
change tm (leaves id) = unsubscribe_all id tm

unfoldable pub changes : Topics → List Change → Topics
unfolding change
changes tm [] = tm
changes tm (c ∷ cs) = changes (change tm c) cs

-- Whether a pair of a topic and a connection is in the set after a change, and after many.
unfoldable pub related_after : Change → Key → Key → Bool → Bool
related_after (subscribes topic id) t j old = if key_eq t topic && key_eq j id then true else old
related_after (unsubscribes topic id) t j old = if key_eq t topic && key_eq j id then false else old
related_after (leaves id) t j old = if key_eq j id then false else old

unfoldable pub related : List Change → Key → Key → Bool → Bool
unfolding related_after
related [] t j old = old
related (c ∷ cs) t j old = related cs t j (related_after c t j old)

change_lem :
    (tm : Topics) (c : Change) (t j : Key)
    → IsTidy tm
    → (subscribed (change tm c) t j ≡ related_after c t j (subscribed tm t j))
      × IsTidy (change tm c)
unfolding change related_after
change_lem tm (subscribes topic id) t j v =
    (subscribed-subscribe tm topic id t j, subscribe-IsTidy tm topic id v)
change_lem tm (unsubscribes topic id) t j v =
    (subscribed-unsubscribe tm topic id t j, unsubscribe-IsTidy tm topic id v)
change_lem tm (leaves id) t j v =
    (subscribed-unsubscribe_all tm id t j v.distinct, unsubscribe_all-IsTidy tm id v)

changed :
    (tm : Topics) (cs : List Change) (t j : Key)
    → IsTidy tm
    → (subscribed (changes tm cs) t j ≡ related cs t j (subscribed tm t j)) × IsTidy (changes tm cs)
unfolding changes related
changed tm [] t j v = (refl, v)
changed tm (c ∷ cs) t j v =
    let (one, tidy) = change_lem tm c t j v in
    let (rest, ends) = changed (change tm c) cs t j tidy in (rest ∙ ap (related cs t j) one, ends)

new_topic_manager-IsTidy : IsTidy new_topic_manager
unfolding new_topic_manager
new_topic_manager-IsTidy = record { distinct = tt; each = tt }

-- After any changes to a new topic manager, the pairs of a topic and a subscriber are those of the
-- set that the changes describe.
pub changes-refine :
    (cs : List Change) (t j : Key)
    → subscribed (changes new_topic_manager cs) t j ≡ related cs t j false
unfolding subscribed new_topic_manager
changes-refine cs t j = (changed new_topic_manager cs t j new_topic_manager-IsTidy).0

-- Whether a key stands in a list, and how often a list names it.
abbrev pub names : Key → List Key → Bool
names k [] = false
names k (j ∷ ks) = key_eq k j || names k ks

names-keys {ℓ} : {V : Type ℓ} (k : Key) (m : List (Key × V)) → names k (keys m) ≡ has k m
names-keys k [] = refl
names-keys k ((j, v) ∷ m) = ground (arith, names-keys k m)

length-keys {ℓ} : {V : Type ℓ} (m : List (Key × V)) → length (keys m) ≡ length m
length-keys m = length-map m _

names-subscribers : (tm : Topics) (t j : Key) → names j (subscribers tm t) ≡ subscribed tm t j
unfolding subscribers subscribed
names-subscribers tm t j = elim (Option-cases (lookup t tm)) [
  | inl absent ↦ ground arith
  | inr (subs, there) ↦ ground (arith, names-keys j subs)
]

listed_lem : (tm : Topics) (t : Key) → IsTidy tm → has t tm ≡ not (topic_count tm t == 0)
unfolding topic_count
listed_lem tm t v = elim (Option-cases (lookup t tm)) [
  | inl absent ↦ ground arith
  | inr (subs, there) ↦
      let kept = AllValues-lookup IsTopic t tm subs v.each there in
      rw (there, topic_count) (ground (arith, kept.1))
]

length-subscribers : (tm : Topics) (t : Key) → length (subscribers tm t) ≡ topic_count tm t
unfolding subscribers topic_count
length-subscribers tm t = elim (Option-cases (lookup t tm)) [
  | inl absent ↦ ground arith
  | inr (subs, there) ↦ ground (arith, length-keys {0} subs)
]

-- After any changes to a new topic manager, `subscribers` names exactly those who are subscribed to
-- the topic, `topicCount` is their number, and `topicList` names the topic exactly when this number
-- is not 0.
pub subscribers-changes :
    (cs : List Change) (t j : Key)
    → (let tm = changes new_topic_manager cs in
        (names j (subscribers tm t) ≡ related cs t j false)
        × (length (subscribers tm t) ≡ topic_count tm t)
        × (names t (topic_list tm) ≡ not (topic_count tm t == 0)))
unfolding topic_list
subscribers-changes cs t j =
    let tm = changes new_topic_manager cs in
    let tidy = (changed new_topic_manager cs t j new_topic_manager-IsTidy).1 in
    (
      names-subscribers tm t j ∙ changes-refine cs t j,
      length-subscribers tm t,
      names-keys t tm ∙ listed_lem tm t tidy,
    )
