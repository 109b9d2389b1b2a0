-- ===== src/Server/Switch/Delivery.antt =====
-- Who receives an event that the switch routes.
use hardlight.Prelude.{
  ℕ, suc, ◌≡◌, Bool, Option, none, some, inl, inr, List, [], ◌∷◌, arith, if◌then◌else◌, nat_beq,
  lookup, replicate, Option-cases, list_eq, nat_eq,
}
use hardlight.Topic.{Topic, topic_eq}
use hardlight.Wire.{Event}
use hardlight.Channels.{Sender}
use hardlight.Server.Switch.{
  EventSwitch, Subscribers, Output, deliver, notify, route_event, deliveries,
}

-- The events that reach a sender, in order.
unfoldable pub received : Sender → List Output → List Event
received tx [] = []
received tx (deliver rx event ∷ outs) =
    let more = received tx outs in if nat_beq rx tx then event ∷ more else more
received tx (notify n ∷ outs) = received tx outs

-- How many subscriptions of a sender a list of subscribers holds.
unfoldable pub holdings : Sender → Subscribers → ℕ
holdings tx [] = 0
holdings tx ((id, rx) ∷ m) = let more = holdings tx m in if nat_beq rx tx then suc more else more

abbrev holdings_of : Sender → Option Subscribers → ℕ
holdings_of tx none = 0
holdings_of tx (some m) = holdings tx m

-- The subscriptions of a sender to a topic.
unfoldable pub subscriptions_of : EventSwitch → Topic → Sender → ℕ
unfolding holdings
subscriptions_of s t tx = holdings_of tx (lookup t s.subscriptions)

received-deliveries :
    (is_open : Sender → Bool) (event : Event) (tx : Sender) (m : Subscribers)
    → received tx (deliveries is_open event m)
      ≡ (if is_open tx then replicate (holdings tx m) event else [])
unfolding received deliveries holdings
received-deliveries is_open event tx [] = ground arith
received-deliveries is_open event tx ((id, rx) ∷ m) =
    ground (arith, received-deliveries is_open event tx m)

-- An event reaches a connection once for each subscription that it has to the event's topic, and
-- not at all if its receiver is gone.
pub received-route_event :
    (s : EventSwitch) (is_open : Sender → Bool) (event : Event) (tx : Sender)
    → received tx (route_event is_open event s).1
      ≡ (if is_open tx then replicate (subscriptions_of s event.topic tx) event else [])
unfolding route_event subscriptions_of received
received-route_event s is_open event tx = elim (Option-cases (lookup event.topic s.subscriptions)) [
  | inl e ↦ rw (e, route_event) (ground arith)
  | inr (m, e) ↦ rw (e, route_event) (received-deliveries is_open event tx m)
]
