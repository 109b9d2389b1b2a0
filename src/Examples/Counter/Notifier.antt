-- ===== src/Examples/Counter/Notifier.antt =====
-- The task of examples/counter.rs that greets a new topic, and the event switch that it talks to.
use hardlight.Prelude.{
  ◌≡◌, refl, ◌∙◌, Bool, true, false, ◌==◌, All, Bool-cases, Option-cases, inl, inr, is_empty,
  remove, lookup-remove, Option, none, some, List, [], ◌∷◌, lookup, insert, lookup-insert, list_eq,
  nat_eq,
}
use hardlight.Codec.{Codec, ◌>>=◌}
use hardlight.Topic.{Topic, topic_eq, topic_beq_refl}
use hardlight.Wire.{Bytes, Event, event_new}
use hardlight.Channels.{
  Sender, SubscriptionId, SubscriptionNotification, TopicNotification, created, removed,
}
use hardlight.Serialize.{codable_into}
use hardlight.Server.Application.{emit}
use hardlight.Server.Switch.{
  EventSwitch, Output, deliver, notify, deliveries, failed_ids, remove_all, route_event, subscribe,
  unsubscribe, on_notification, Input, notification, switch_turn, Turn, run_switch,
}
use hardlight.Examples.Counter.{CounterEvent, server_sent_test}

-- What the switch has told the application.
abbrev pub notifications : List Output → List TopicNotification
notifications [] = []
notifications (deliver tx e ∷ outputs) = notifications outputs
notifications (notify n ∷ outputs) = n ∷ notifications outputs

module _ (codec : Codec CounterEvent) (switch_ok : Bool) where
  -- The loop over the notifications, on the queue of the switch; `none` is the panic where rkyv cannot
  -- write the event.
  unfoldable pub notifier : List TopicNotification → List Event → Option (List Event)
  unfolding codable_into emit
  notifier [] new_event_rx = some new_event_rx
  notifier (created topic ∷ rest) new_event_rx = do
    payload ← codable_into codec server_sent_test
    notifier rest (emit switch_ok topic payload new_event_rx)
  notifier (removed topic ∷ rest) new_event_rx = notifier rest new_event_rx

-- The topic that an input of the switch is about.
abbrev pub topic_of : Input → Topic
topic_of (Input.event e) = e.topic
topic_of (notification (SubscriptionNotification.subscribe topic id tx)) = topic
topic_of (notification (SubscriptionNotification.unsubscribe topic id)) = topic

-- An input about another topic leaves the subscribers of a topic as they are.
lookup-switch_turn :
    (topic : Topic) (is_open : Sender → Bool) (input : Input) (s : EventSwitch)
    → (topic_of input == topic) ≡ false
    → lookup topic (switch_turn is_open input s).0.subscriptions ≡ lookup topic s.subscriptions
unfolding switch_turn route_event on_notification subscribe unsubscribe
lookup-switch_turn topic is_open (Input.event e) s ne =
    elim (Option-cases (lookup e.topic s.subscriptions)) [
      | inl absent ↦ rw (switch_turn, route_event, absent) refl
      | inr (subscribers, present) ↦
          rw (switch_turn, route_event, present)
            (lookup-insert e.topic topic (remove_all (failed_ids is_open subscribers) subscribers)
                s.subscriptions
              ∙ (rw ne refl))
    ]
lookup-switch_turn topic is_open (notification (SubscriptionNotification.subscribe t id tx)) s ne =
    lookup-insert t topic _ s.subscriptions ∙ (rw ne refl)
lookup-switch_turn topic is_open (notification (SubscriptionNotification.unsubscribe t id)) s ne =
    elim (Option-cases (lookup t s.subscriptions)) [
      | inl absent ↦ rw (switch_turn, on_notification, unsubscribe, absent) refl
      | inr (old, present) ↦
          rw (switch_turn, on_notification, unsubscribe, present)
            (elim (Bool-cases (is_empty (remove id old))) [
              | inl empty ↦ rw empty (lookup-remove t topic s.subscriptions ∙ (rw ne refl))
              | inr some_left ↦
                  rw some_left
                    (lookup-insert t topic (remove id old) s.subscriptions ∙ (rw ne refl))
            ])
    ]

abbrev pub IsElsewhere : Topic → Turn → Type 0
IsElsewhere topic turn = (topic_of turn.input == topic) ≡ false

lookup-run_switch :
    (topic : Topic) (turns : List Turn) (s : EventSwitch)
    → All (IsElsewhere topic) turns
    → lookup topic (run_switch turns s).0.subscriptions ≡ lookup topic s.subscriptions
unfolding run_switch
lookup-run_switch topic [] s all = refl
lookup-run_switch topic (turn ∷ turns) s all =
    lookup-run_switch topic turns (switch_turn turn.is_open turn.input s).0 all.1
    ∙ lookup-switch_turn topic turn.is_open turn.input s all.0

module _ (codec : Codec CounterEvent) (is_open : Sender → Bool) where
  -- While the switch runs, rkyv can write the event and the connection lives: of whoever subscribes to a
  -- topic that the switch does not know yet, the application is told, and emits its greeting; if all
  -- that the switch takes before it takes the greeting is about other topics, the greeting is sent to
  -- the subscriber, once, and to no one else.
  pub first_subscriber_is_greeted :
      (s : EventSwitch) (topic : Topic) (id : SubscriptionId) (tx : Sender) (payload : Bytes)
      (between : List Turn)
      → lookup topic s.subscriptions ≡ none
      → codable_into codec server_sent_test ≡ some payload
      → is_open tx ≡ true
      → All (IsElsewhere topic) between
      → let (s1, outputs) = subscribe topic id tx s in
        (notifier codec true (notifications outputs) [] ≡ some (event_new topic payload ∷ []))
        × ((route_event is_open (event_new topic payload) (run_switch between s1).0).1
            ≡ deliver tx (event_new topic payload) ∷ [])
  unfolding subscribe notifier emit event_new route_event deliveries insert lookup codable_into
  first_subscriber_is_greeted s topic id tx payload between unknown writes lives elsewhere =
      let s1 = (subscribe topic id tx s).0 in
      let found : lookup topic (insert topic ((id, tx) ∷ []) s.subscriptions)
          ≡ some ((id, tx) ∷ []) =
        lookup-insert topic topic ((id, tx) ∷ []) s.subscriptions
        ∙ (rw (topic_beq_refl topic) refl) in
      let later : lookup topic (run_switch between s1).0.subscriptions ≡ some ((id, tx) ∷ []) =
        lookup-run_switch topic between s1 elsewhere ∙ (rw unknown found) in
      (rw unknown (rw (writes, ◌>>=◌) refl), rw (route_event, later) (rw (deliveries, lives) refl))
