-- ===== src/Ws/Topics/Relation.antt =====
-- The topic manager as a relation between topics and connections.
use go_oam.Base.{
  ◌≡◌, ◌≢◌, refl, inl, inr, Bool, true, false, ◌&&◌, none, some, [], ◌∷◌, arith, ◌==◌,
  if◌then◌else◌, length, Bool-cases, Option-cases, Key, key_eq, key_eq→eq, lookup, insert, delete,
  has, has-insert, has-delete, lookup-insert, lookup-delete, Distinct, Distinct-insert,
  Distinct-delete, AllValues, AllValues-lookup, AllValues-insert,
}
use go_oam.Ws.Topics.{Ids, Topics, subscribe, unsubscribe, unsubscribe_all}

-- Whether a connection is among the subscribers of a topic.
unfoldable pub subscribed : Topics → Key → Key → Bool
subscribed tm topic id = elim (lookup topic tm) [ none ↦ false | some subs ↦ has id subs ]

-- No topic stands twice, none is without subscribers, and none has a subscriber twice.
abbrev pub IsTopic : Ids → Type 0
IsTopic subs = Distinct subs × (subs ≢ [])

pub record IsTidy (tm : Topics) : Type 0 where
  pub distinct : Distinct tm
  pub each : AllValues IsTopic tm

empty-has : (subs : Ids) (j : Key) → length subs ≡ 0 → has j subs ≡ false
empty-has [] j h = refl
empty-has (x ∷ subs) j h = absurd (omega arith)

inhabited : (id : Key) (subs : Ids) → insert id tt subs ≢ []
inhabited id [] e = cc
inhabited id (x ∷ subs) e = ground arith

AllValues-delete :
    (P : Ids → Type 0) (k : Key) (m : Topics) → AllValues P m → AllValues P (delete k m)
AllValues-delete P k [] a = tt
AllValues-delete P k ((j, v) ∷ m) a = elim (Bool-cases (key_eq k j)) [
  | inl here ↦ rw here (AllValues-delete P k m a.1)
  | inr there ↦ rw there (a.0, AllValues-delete P k m a.1)
]

pub subscribed-subscribe :
    (tm : Topics) (topic id t j : Key)
    → subscribed (subscribe topic id tm) t j
      ≡ (if key_eq t topic && key_eq j id then true else subscribed tm t j)
unfolding subscribed subscribe
subscribed-subscribe tm topic id t j = elim (Option-cases (lookup topic tm)) [
  | inl new ↦
      ground (
        arith,
        lookup-insert topic t (insert id tt []) tm,
        has-insert id j tt [],
        key_eq→eq t topic,
      )
  | inr (subs, old) ↦ ground (
    arith,
    lookup-insert topic t (insert id tt subs) tm,
    has-insert id j tt subs,
    key_eq→eq t topic,
  )
]

pub subscribed-unsubscribe :
    (tm : Topics) (topic id t j : Key)
    → subscribed (unsubscribe topic id tm) t j
      ≡ (if key_eq t topic && key_eq j id then false else subscribed tm t j)
unfolding subscribed unsubscribe
subscribed-unsubscribe tm topic id t j = elim (Option-cases (lookup topic tm)) [
  | inl absent ↦ ground (arith, key_eq→eq t topic)
  | inr (subs, there) ↦ ground (
    arith,
    empty-has (delete id subs) j,
    has-delete id j subs,
    lookup-delete topic t tm,
    lookup-insert topic t (delete id subs) tm,
    key_eq→eq t topic,
  )
]

unsubscribe_all-absent :
    (tm : Topics) (id t : Key) → lookup t tm ≡ none → lookup t (unsubscribe_all id tm) ≡ none
unfolding unsubscribe_all
unsubscribe_all-absent [] id t h = refl
unsubscribe_all-absent ((topic, subs) ∷ tm) id t h = ground (arith, unsubscribe_all-absent tm id t)

pub subscribed-unsubscribe_all :
    (tm : Topics) (id t j : Key)
    → Distinct tm
    → subscribed (unsubscribe_all id tm) t j ≡ (if key_eq j id then false else subscribed tm t j)
unfolding subscribed unsubscribe_all
subscribed-unsubscribe_all [] id t j d = ground arith
subscribed-unsubscribe_all ((topic, subs) ∷ tm) id t j d = ground (
  arith,
  subscribed-unsubscribe_all tm id t j,
  unsubscribe_all-absent tm id topic,
  empty-has (delete id subs) j,
  has-delete id j subs,
  key_eq→eq t topic,
)

pub subscribe-IsTidy : (tm : Topics) (topic id : Key) → IsTidy tm → IsTidy (subscribe topic id tm)
unfolding subscribe
subscribe-IsTidy tm topic id v = elim (Option-cases (lookup topic tm)) [
  | inl new ↦
      rw (new, subscribe)
        (record {
          distinct = Distinct-insert topic _ tm v.distinct;
          each = AllValues-insert IsTopic topic _ tm ((refl, tt), λ e. cc) v.each;
        })
  | inr (subs, old) ↦
      let kept = AllValues-lookup IsTopic topic tm subs v.each old in
      rw (old, subscribe)
        (record {
          distinct = Distinct-insert topic _ tm v.distinct;
          each =
              AllValues-insert IsTopic topic _ tm
                (Distinct-insert id tt subs kept.0, inhabited id subs) v.each;
        })
]

pub unsubscribe-IsTidy :
    (tm : Topics) (topic id : Key) → IsTidy tm → IsTidy (unsubscribe topic id tm)
unfolding unsubscribe
unsubscribe-IsTidy tm topic id v = elim (Option-cases (lookup topic tm)) [
  | inl absent ↦ rw (absent, unsubscribe) v
  | inr (subs, there) ↦
      let kept = AllValues-lookup IsTopic topic tm subs v.each there in
      elim (Bool-cases (length (delete id subs) == 0)) [
        | inl last ↦
            rw (there, unsubscribe)
              (rw last (record {
                distinct = Distinct-delete topic tm v.distinct;
                each = AllValues-delete IsTopic topic tm v.each;
              }))
        | inr others ↦
            rw (there, unsubscribe)
              (rw others (record {
                distinct = Distinct-insert topic _ tm v.distinct;
                each =
                    AllValues-insert IsTopic topic _ tm
                      (Distinct-delete id subs kept.0, λ e. ground arith) v.each;
              }))
      ]
]

pub unsubscribe_all-IsTidy : (tm : Topics) (id : Key) → IsTidy tm → IsTidy (unsubscribe_all id tm)
unfolding unsubscribe_all
unsubscribe_all-IsTidy [] id v = v
unsubscribe_all-IsTidy ((topic, subs) ∷ tm) id v =
    let rest = unsubscribe_all-IsTidy tm id (record { distinct = v.distinct.1; each = v.each.1 }) in
    elim (Bool-cases (length (delete id subs) == 0)) [
      | inl last ↦ rw last rest
      | inr others ↦ rw others (record {
        distinct = (unsubscribe_all-absent tm id topic v.distinct.0, rest.distinct);
        each = ((Distinct-delete id subs v.each.0.0, λ e. ground arith), rest.each);
      })
    ]
