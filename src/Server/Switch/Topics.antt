-- ===== src/Server/Switch/Topics.antt =====
-- When the switch tells the application that a topic is created or removed.
use hardlight.Prelude.{
  suc, ◌≡◌, refl, ◌∙◌, Bool, true, false, ◌&&◌, not, none, inl, inr, [], ◌∷◌, arith, ◌==◌,
  if◌then◌else◌, nat_beq, lookup, insert, remove, contains_key, length, is_empty, AllValues,
  lookup-AllValues, insert-AllValues, remove-AllValues, length-insert, contains_key-insert,
  contains_key-remove, contains_key-eq-lookup, Bool-cases, Option-cases, list_eq, nat_eq,
}
use hardlight.Topic.{Topic, topic_eq, topic_beq_refl, topic_beq_iff}
use hardlight.Wire.{Event}
use hardlight.Channels.{Sender, SubscriptionId, created, removed}
use hardlight.Server.Switch.{
  EventSwitch, Subscribers, notify, route_event, subscribe, unsubscribe, failed_ids, remove_all,
}
use hardlight.Server.Switch.View.{view}

-- Every topic of the table has a subscriber.
abbrev pub IsTidy : EventSwitch → Type 0
IsTidy s = AllValues (λ (m : Subscribers). is_empty m ≡ false) s.subscriptions

unfoldable pub has_topic : Topic → EventSwitch → Bool
has_topic t s = contains_key t s.subscriptions

insert-nonempty :
    (id : SubscriptionId) (tx : Sender) (m : Subscribers) → is_empty (insert id tx m) ≡ false
unfolding insert
insert-nonempty id tx [] = refl
insert-nonempty id tx ((j, rx) ∷ m) = ground arith

pub subscribe-IsTidy :
    (s : EventSwitch) (t : Topic) (id : SubscriptionId) (tx : Sender)
    → IsTidy s
    → IsTidy (subscribe t id tx s).0
unfolding subscribe
subscribe-IsTidy s t id tx tidy =
    insert-AllValues _ t _ s.subscriptions (insert-nonempty id tx _) tidy

pub unsubscribe-IsTidy :
    (s : EventSwitch) (t : Topic) (id : SubscriptionId) → IsTidy s → IsTidy (unsubscribe t id s).0
unfolding unsubscribe
unsubscribe-IsTidy s t id tidy = elim (Option-cases (lookup t s.subscriptions)) [
  | inl e ↦ rw (e, unsubscribe) tidy
  | inr (m, e) ↦ elim (Bool-cases (is_empty (remove id m))) [
    | inl empty ↦ rw (e, unsubscribe) (rw empty (remove-AllValues _ t s.subscriptions tidy))
    | inr more ↦ rw (e, unsubscribe) (rw more (insert-AllValues _ t _ s.subscriptions more tidy))
  ]
]

pub length-insert_nil : (id : SubscriptionId) (tx : Sender) → length (insert id tx []) ≡ 1
unfolding insert
length-insert_nil id tx = refl

length_of_nonempty : (m : Subscribers) → is_empty m ≡ false → (nat_beq (suc (length m)) 1) ≡ false
length_of_nonempty [] h = cc
length_of_nonempty (x ∷ m) h = ground arith

-- In a table without empty entries, and for an id that is not in use, `subscribe` says that its topic
-- is created when the topic has no entry, and has no other output.
pub created_exactly :
    (s : EventSwitch) (t : Topic) (id : SubscriptionId) (tx : Sender)
    → IsTidy s
    → view s t id ≡ none
    → (subscribe t id tx s).1 ≡ (if has_topic t s then [] else notify (created t) ∷ [])
unfolding subscribe view has_topic
created_exactly s t id tx tidy fresh = elim (Option-cases (lookup t s.subscriptions)) [
  | inl e ↦ ground (arith, e, contains_key-eq-lookup t s.subscriptions, length-insert_nil id tx)
  | inr (m, e) ↦ ground (
    arith,
    e,
    contains_key-eq-lookup t s.subscriptions,
    length-insert id tx m,
    contains_key-eq-lookup id m,
    length_of_nonempty m (lookup-AllValues _ t m s.subscriptions tidy e),
  )
]

-- `unsubscribe` says that its topic is removed when it drops the topic's entry, and has no other
-- output.
pub removed_exactly :
    (s : EventSwitch) (t : Topic) (id : SubscriptionId)
    → (unsubscribe t id s).1 ≡ (
        if has_topic t s && not (has_topic t (unsubscribe t id s).0)
        then notify (removed t) ∷ []
        else [])
unfolding unsubscribe has_topic
removed_exactly s t id = elim (Option-cases (lookup t s.subscriptions)) [
  | inl e ↦ ground (arith, e, contains_key-eq-lookup t s.subscriptions)
  | inr (m, e) ↦ ground (
    arith,
    e,
    contains_key-eq-lookup t s.subscriptions,
    contains_key-remove t t s.subscriptions,
    contains_key-insert t t (remove id m) s.subscriptions,
    topic_beq_refl t,
  )
]

remove_none :
    (is_open : Sender → Bool) (m : Subscribers)
    → ((tx : Sender) → is_open tx ≡ true)
    → remove_all (failed_ids is_open m) m ≡ m
unfolding failed_ids remove_all
remove_none is_open m all = rw (none_fail m) refl
  where
    none_fail : (n : Subscribers) → failed_ids is_open n ≡ []
    none_fail [] = refl
    none_fail ((id, tx) ∷ n) = rw (all tx) (none_fail n)

pub route_event-IsTidy :
    (s : EventSwitch) (is_open : Sender → Bool) (event : Event)
    → ((tx : Sender) → is_open tx ≡ true)
    → IsTidy s
    → IsTidy (route_event is_open event s).0
unfolding route_event
route_event-IsTidy s is_open event all tidy =
    elim (Option-cases (lookup event.topic s.subscriptions)) [
      | inl e ↦ rw (e, route_event) tidy
      | inr (m, e) ↦
          rw (e, route_event)
            (rw (remove_none is_open m all) (
              insert-AllValues _ event.topic m s.subscriptions
                (lookup-AllValues _ event.topic m s.subscriptions tidy e) tidy))
    ]

-- No event adds or drops an entry of the table.
pub has_topic-route_event :
    (s : EventSwitch) (is_open : Sender → Bool) (event : Event) (t : Topic)
    → has_topic t (route_event is_open event s).0 ≡ has_topic t s
unfolding route_event has_topic
has_topic-route_event s is_open event t = elim (Option-cases (lookup event.topic s.subscriptions)) [
  | inl e ↦ rw (e, route_event) refl
  | inr (m, e) ↦
      let after = remove_all (failed_ids is_open m) m in
      let there = contains_key-eq-lookup event.topic s.subscriptions in
      rw (e, route_event)
        (contains_key-insert event.topic t after s.subscriptions
          ∙ ground (arith, e, there, topic_beq_iff event.topic t))
]

pub has_topic-subscribe :
    (s : EventSwitch) (t u : Topic) (id : SubscriptionId) (tx : Sender)
    → has_topic u (subscribe t id tx s).0 ≡ (if t == u then true else has_topic u s)
unfolding subscribe has_topic
has_topic-subscribe s t u id tx = contains_key-insert t u _ s.subscriptions

pub has_topic-unsubscribe_ne :
    (s : EventSwitch) (t u : Topic) (id : SubscriptionId)
    → (t == u) ≡ false
    → has_topic u (unsubscribe t id s).0 ≡ has_topic u s
unfolding unsubscribe has_topic
has_topic-unsubscribe_ne s t u id ne = elim (Option-cases (lookup t s.subscriptions)) [
  | inl e ↦ rw (e, unsubscribe) refl
  | inr (m, e) ↦ ground (
    arith,
    e,
    contains_key-remove t u s.subscriptions,
    contains_key-insert t u (remove id m) s.subscriptions,
  )
]

pub has_topic-unsubscribe_absent :
    (s : EventSwitch) (t u : Topic) (id : SubscriptionId)
    → has_topic t s ≡ false
    → has_topic u (unsubscribe t id s).0 ≡ has_topic u s
unfolding unsubscribe has_topic
has_topic-unsubscribe_absent s t u id absent =
    ground (arith, contains_key-eq-lookup t s.subscriptions)
