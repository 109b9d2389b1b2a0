-- ===== src/Server/Switch/History.antt =====
-- What the application hears about a topic over the life of the switch.
use hardlight.Prelude.{
  ◌≡◌, refl, sym, ◌∙◌, ap, Bool, true, false, Option, none, some, inl, inr, List, [], ◌∷◌, ◌++◌,
  arith, ◌==◌, lookup, remove, IsUnique, remove_absent, contains_key-eq-lookup, contains_key,
  Option-cases, list_eq, nat_eq, beq_refl, lookup-insert,
}
use hardlight.Topic.{Topic, topic_eq, topic_beq_iff, topic_beq_refl}
use hardlight.Wire.{Event}
use hardlight.Codec.{◌>>=◌}
use hardlight.Channels.{Sender, SubscriptionId, SubscriptionNotification, created, removed}
use hardlight.Server.Switch.{
  EventSwitch, Subscribers, Output, deliver, notify, Input, event, notification, Turn, switch_turn,
  run_switch, route_event, subscribe, unsubscribe, deliveries, failed_ids, remove_all,
  on_notification,
}
use hardlight.Server.Switch.Validity.{IsValid, lookup-IsUnique}
use hardlight.Server.Switch.View.{view}
use hardlight.Server.Switch.Topics.{
  IsTidy, has_topic, subscribe-IsTidy, unsubscribe-IsTidy, route_event-IsTidy, created_exactly,
  removed_exactly, has_topic-route_event, has_topic-subscribe, has_topic-unsubscribe_ne,
  has_topic-unsubscribe_absent, length-insert_nil,
}

-- Whether a topic exists for one who reads the notifications: `none` once a topic is created twice
-- or removed twice.
unfoldable pub follow : Topic → Bool → List Output → Option Bool
follow t b [] = some b
follow t b (deliver tx e ∷ outs) = follow t b outs
follow t b (notify (created u) ∷ outs) = elim (t == u) [
  | false ↦ follow t b outs
  | true ↦ elim b [ true ↦ none | false ↦ follow t true outs ]
]
follow t b (notify (removed u) ∷ outs) = elim (t == u) [
  | false ↦ follow t b outs
  | true ↦ elim b [ false ↦ none | true ↦ follow t false outs ]
]

follow-append :
    (t : Topic) (b : Bool) (xs ys : List Output)
    → follow t b (xs ++ ys) ≡ (follow t b xs >>= λ c. follow t c ys)
unfolding follow
follow-append t b [] ys = refl
follow-append t b (deliver tx e ∷ xs) ys = follow-append t b xs ys
follow-append t b (notify (created u) ∷ xs) ys =
    ground (arith, follow-append t b xs ys, follow-append t true xs ys)
follow-append t b (notify (removed u) ∷ xs) ys =
    ground (arith, follow-append t b xs ys, follow-append t false xs ys)

-- No send to a connection fails, and a subscription comes under an id that is not in use.
abbrev pub CalmInput : EventSwitch → (Sender → Bool) → Input → Type 0
CalmInput s is_open (event e) = (tx : Sender) → is_open tx ≡ true
CalmInput s is_open (notification (SubscriptionNotification.subscribe t id tx)) = view s t id ≡ none
CalmInput s is_open (notification (SubscriptionNotification.unsubscribe t id)) = Unit {0}

abbrev pub IsCalm : EventSwitch → List Turn → Type 0
IsCalm s [] = Unit {0}
IsCalm s (t ∷ turns) =
    CalmInput s t.is_open t.input × IsCalm (switch_turn t.is_open t.input s).0 turns

switch_turn-IsTidy :
    (is_open : Sender → Bool) (i : Input) (s : EventSwitch)
    → CalmInput s is_open i
    → IsTidy s
    → IsTidy (switch_turn is_open i s).0
unfolding switch_turn on_notification
switch_turn-IsTidy is_open (event e) s calm tidy = route_event-IsTidy s is_open e calm tidy
switch_turn-IsTidy is_open (notification (SubscriptionNotification.subscribe t id tx)) s calm tidy =
    subscribe-IsTidy s t id tx tidy
switch_turn-IsTidy is_open (notification (SubscriptionNotification.unsubscribe t id)) s calm tidy =
    unsubscribe-IsTidy s t id tidy

follow-deliveries :
    (t : Topic) (b : Bool) (is_open : Sender → Bool) (e : Event) (m : Subscribers)
    → follow t b (deliveries is_open e m) ≡ some b
unfolding follow deliveries
follow-deliveries t b is_open e [] = refl
follow-deliveries t b is_open e ((id, tx) ∷ m) = ground (arith, follow-deliveries t b is_open e m)

follow-route_event :
    (t : Topic) (b : Bool) (is_open : Sender → Bool) (e : Event) (s : EventSwitch)
    → follow t b (route_event is_open e s).1 ≡ some b
unfolding route_event
follow-route_event t b is_open e s = elim (Option-cases (lookup e.topic s.subscriptions)) [
  | inl h ↦ rw (h, route_event) (unfold follow in refl)
  | inr (m, h) ↦ rw (h, route_event) (follow-deliveries t b is_open e m)
]

follow-subscribe :
    (t u : Topic) (id : SubscriptionId) (tx : Sender) (s : EventSwitch)
    → IsTidy s
    → view s u id ≡ none
    → follow t (has_topic t s) (subscribe u id tx s).1 ≡ some (has_topic t (subscribe u id tx s).0)
unfolding follow
follow-subscribe t u id tx s tidy fresh = ground (
  arith,
  created_exactly s u id tx tidy fresh,
  has_topic-subscribe s u t id tx,
  topic_beq_iff t u,
  topic_beq_iff u t,
)

follow-unsubscribe :
    (t u : Topic) (id : SubscriptionId) (s : EventSwitch)
    → follow t (has_topic t s) (unsubscribe u id s).1 ≡ some (has_topic t (unsubscribe u id s).0)
unfolding follow
follow-unsubscribe t u id s = ground (
  arith,
  removed_exactly s u id,
  has_topic-unsubscribe_ne s u t id,
  has_topic-unsubscribe_absent s u t id,
  topic_beq_iff t u,
  topic_beq_iff u t,
)

follow-switch_turn :
    (t : Topic) (is_open : Sender → Bool) (i : Input) (s : EventSwitch)
    → CalmInput s is_open i
    → IsTidy s
    → follow t (has_topic t s) (switch_turn is_open i s).1
      ≡ some (has_topic t (switch_turn is_open i s).0)
unfolding switch_turn on_notification
follow-switch_turn t is_open (event e) s calm tidy =
    follow-route_event t (has_topic t s) is_open e s
    ∙ ap some (sym (has_topic-route_event s is_open e t))
follow-switch_turn t is_open (notification (SubscriptionNotification.subscribe u id tx)) s calm
      tidy =
    follow-subscribe t u id tx s tidy calm
follow-switch_turn t is_open (notification (SubscriptionNotification.unsubscribe u id)) s calm
      tidy =
    follow-unsubscribe t u id s

-- From a table without empty entries on, as long as no send fails and no subscription comes under an
-- id that is in use, the notifications of a topic alternate, and say
-- at the end whether the switch has the topic.
pub follow-run_switch :
    (t : Topic) (turns : List Turn) (s : EventSwitch)
    → IsCalm s turns
    → IsTidy s
    → follow t (has_topic t s) (run_switch turns s).1 ≡ some (has_topic t (run_switch turns s).0)
unfolding run_switch
follow-run_switch t [] s calm tidy = unfold follow in refl
follow-run_switch t (turn ∷ turns) s calm tidy =
    let now = switch_turn turn.is_open turn.input s in
    follow-append t (has_topic t s) now.1 (run_switch turns now.0).1
    ∙ (rw (follow-switch_turn t turn.is_open turn.input s calm.0 tidy) (
        follow-run_switch t turns now.0 calm.1
          (switch_turn-IsTidy turn.is_open turn.input s calm.0 tidy)))

remove_head :
    (id : SubscriptionId) (tx : Sender) (m : Subscribers)
    → contains_key id m ≡ false
    → remove id ((id, tx) ∷ m) ≡ m
unfolding remove
remove_head id tx m fresh = rw (beq_refl id) (remove_absent id m fresh)

deliveries_to_none :
    (is_open : Sender → Bool) (e : Event) (m : Subscribers)
    → ((tx : Sender) → is_open tx ≡ false)
    → deliveries is_open e m ≡ []
unfolding deliveries
deliveries_to_none is_open e [] gone = refl
deliveries_to_none is_open e ((id, tx) ∷ m) gone =
    rw (gone tx) (deliveries_to_none is_open e m gone)

subscribe_to_empty :
    (s : EventSwitch) (t : Topic) (id : SubscriptionId) (tx : Sender)
    → lookup t s.subscriptions ≡ some []
    → (subscribe t id tx s).1 ≡ notify (created t) ∷ []
unfolding subscribe
subscribe_to_empty s t id tx h = ground (arith, h, length-insert_nil id tx)

-- With every receiver gone, the subscribers of the event's topic are all dropped.
remove_all_failed :
    (is_open : Sender → Bool) (m : Subscribers)
    → ((tx : Sender) → is_open tx ≡ false)
    → IsUnique m
    → remove_all (failed_ids is_open m) m ≡ []
unfolding remove_all failed_ids
remove_all_failed is_open [] gone u = refl
remove_all_failed is_open ((id, tx) ∷ m) gone u =
    let head_fails : failed_ids is_open ((id, tx) ∷ m) ≡ id ∷ failed_ids is_open m =
      rw (gone tx) refl in
    ap (λ ids. remove_all ids ((id, tx) ∷ m)) head_fails
    ∙ ap (remove_all (failed_ids is_open m)) (remove_head id tx m u.0)
    ∙ remove_all_failed is_open m gone u.1

-- In a table with one entry to a topic and to an id, the switch forgets to say that a topic is
-- removed when an event finds all of its receivers gone: it sends nothing, keeps the topic, and
-- announces it as created again at the next subscription.
pub created_again :
    (s : EventSwitch) (is_open : Sender → Bool) (e : Event) (id : SubscriptionId) (tx : Sender)
    → IsValid s
    → has_topic e.topic s ≡ true
    → ((rx : Sender) → is_open rx ≡ false)
    → let after = route_event is_open e s in
      (after.1 ≡ [])
      × (has_topic e.topic after.0 ≡ true)
      × ((subscribe e.topic id tx after.0).1 ≡ notify (created e.topic) ∷ [])
unfolding route_event
created_again s is_open e id tx v there gone =
    elim (Option-cases (lookup e.topic s.subscriptions)) [
      | inl h ↦ absurd (
          unfold has_topic in
          ground (arith, h, there, contains_key-eq-lookup e.topic s.subscriptions))
      | inr (m, h) ↦
          let none_left =
            remove_all_failed is_open m gone (lookup-IsUnique e.topic m s.subscriptions v.ids h) in
          let entry =
            lookup-insert e.topic e.topic (remove_all (failed_ids is_open m) m) s.subscriptions in
          (
            rw (h, route_event) (deliveries_to_none is_open e m gone),
            has_topic-route_event s is_open e e.topic ∙ there,
            rw (h, route_event)
                (subscribe_to_empty _ e.topic id tx
                  (ground (arith, entry, none_left, topic_beq_refl e.topic))),
          )
    ]
