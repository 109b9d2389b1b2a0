-- ===== src/System/Hub/Delivered.antt =====
-- Who receives an event, once the switch has caught up with the connections.
use hardlight.Prelude.{
  ℕ, ◌≡◌, some, inl, inr, [], ◌∷◌, arith, if◌then◌else◌, lookup, contains_key,
  contains_key-eq-lookup, Option-cases, list_eq, nat_eq,
}
use hardlight.Topic.{Topic, topic_eq}
use hardlight.Wire.{Event}
use hardlight.Channels.{Sender, SubscriptionId}
use hardlight.Server.Connection.{Connection}
use hardlight.Server.Switch.{EventSwitch, route_event}
use hardlight.Server.Switch.Validity.{IsValid, lookup-IsUnique}
use hardlight.Server.Switch.View.{view}
use hardlight.Server.Switch.Delivery.{received, received-route_event, subscriptions_of}
use hardlight.Server.Switch.Holdings.{holdings_none, holdings_one}
use hardlight.System.Hub.{Hub, Reach, new_hub, settled, drain, always_open}
use hardlight.System.Hub.Invariant.{Agrees, Inv, Reach-Inv, new_hub-Inv}

module _ (s : EventSwitch) (v : IsValid s) (tx : Sender) (c : Connection)
    (agrees : Agrees (view s) tx c) where
  -- A connection has one subscription to each topic of its own table, and none to another.
  subscriptions_of-own :
      (t : Topic) → subscriptions_of s t tx ≡ (if contains_key t c.subscriptions then 1 else 0)
  unfolding subscriptions_of view
  subscriptions_of-own t = elim (Option-cases (lookup t s.subscriptions)) [
    | inl e ↦ elim (Option-cases (lookup t c.subscriptions)) [
      | inl f ↦ ground (arith, e, f, contains_key-eq-lookup t c.subscriptions)
      | inr (id, f) ↦ absurd (ground (arith, e, f, agrees t id))
    ]
    | inr (m, e) ↦
        let unique = lookup-IsUnique t m s.subscriptions v.ids e in
        let held : (j : SubscriptionId) → lookup j m ≡ some tx → lookup t c.subscriptions ≡ some j =
          λ j h. (agrees t j).0 (rw e h) in
        elim (Option-cases (lookup t c.subscriptions)) [
          | inl f ↦ ground (
            arith,
            e,
            f,
            contains_key-eq-lookup t c.subscriptions,
            holdings_none tx m unique (λ j h. cc (held j h)),
          )
          | inr (id, f) ↦ ground (
            arith,
            e,
            f,
            contains_key-eq-lookup t c.subscriptions,
            holdings_one tx m id unique (rw e at ((agrees t id).1 f))
                (λ j h. ground (arith, f, held j h)),
          )
        ]
  ]

pub received-subscriber :
    (h : Hub)
    → Inv h
    → h.pending ≡ []
    → (e : Event) (tx : Sender)
    → received tx (route_event always_open e h.event_switch).1
      ≡ (if contains_key e.topic (h.conns tx).subscriptions then e ∷ [] else [])
unfolding settled drain
received-subscriber h v caught_up e tx =
    let own : Agrees (view h.event_switch) tx (h.conns tx) = rw caught_up at (v.agrees tx) in
    ground (
      arith,
      received-route_event h.event_switch always_open e tx,
      subscriptions_of-own h.event_switch v.valid tx (h.conns tx) own e.topic,
    )

-- In a run from a new server, in which the receivers live and no random id comes twice for a topic:
-- once the switch has taken every notification, an event reaches each connection that is subscribed
-- to its topic exactly once, and no other.
pub event_reaches_subscribers :
    (levels : Sender → ℕ) {h : Hub} (e : Event) (tx : Sender)
    → Reach (new_hub levels) h
    → h.pending ≡ []
    → received tx (route_event always_open e h.event_switch).1
      ≡ (if contains_key e.topic (h.conns tx).subscriptions then e ∷ [] else [])
event_reaches_subscribers levels {h} e tx run caught_up =
    received-subscriber h (Reach-Inv (new_hub-Inv levels) run) caught_up e tx
