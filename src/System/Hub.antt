-- ===== src/System/Hub.antt =====
-- All connections of a server and the event switch between them: the handlers' notifications wait in
-- one channel, in order. A connection's number is also its sender of events; its loop never ends, so
-- every send to it succeeds.
pub mod Invariant
pub mod Delivered
use hardlight.Prelude.{
  ℕ, ◌≡◌, Bool, true, false, Option, none, some, List, [], ◌∷◌, ◌++◌, nat_beq, if◌then◌else◌,
}
use hardlight.Topic.{Topic}
use hardlight.Wire.{Event}
use hardlight.Channels.{
  Sender, SubscriptionId, SubscriptionNotification, ProxiedSubscriptionNotification,
}
use hardlight.Server.Connection.{
  Connection, Answers, Effect, transmit, spawn_rpc, tell_switch, new_connection, on_subscription,
}
use hardlight.Server.Switch.{EventSwitch, on_notification, route_event, new_switch}
use hardlight.Server.Switch.Refinement.{Register, register_turn}
use hardlight.Server.Switch.{notification}
use hardlight.Server.Switch.View.{view}

pub record Hub : Type 0 where
  pub conns : Sender → Connection
  pub pending : List SubscriptionNotification
  pub event_switch : EventSwitch

abbrev pub always_open : Sender → Bool
always_open tx = true

unfoldable pub new_hub : (Sender → ℕ) → Hub
new_hub levels = record {
  conns = λ tx. new_connection (levels tx);
  pending = [];
  event_switch = new_switch;
}

-- The notifications among the effects of a round.
unfoldable pub told : List Effect → List SubscriptionNotification
told [] = []
told (transmit frame ∷ effects) = told effects
told (spawn_rpc id internal ∷ effects) = told effects
told (tell_switch n ∷ effects) = n ∷ told effects

abbrev pub update : (Sender → Connection) → Sender → Connection → Sender → Connection
update conns tx c rx = if nat_beq tx rx then c else conns rx

-- The register once the pending notifications are through.
unfoldable pub drain : List SubscriptionNotification → Register → Register
unfolding register_turn
drain [] r = r
drain (n ∷ pending) r = drain pending (register_turn always_open (notification n) r)

unfoldable pub settled : Hub → Register
unfolding drain
settled h = drain h.pending (view h.event_switch)

-- The id that a handler draws is not in use for the topic.
abbrev pub IsFresh : Hub → Answers → ProxiedSubscriptionNotification → Type 0
IsFresh h a (ProxiedSubscriptionNotification.subscribe t) = settled h t a.random ≡ none
IsFresh h a (ProxiedSubscriptionNotification.unsubscribe t) = Unit {0}

pub data Step (h g : Hub) : Type 0 where
  -- A connection's loop takes a notification of its handler.
  handler_asks :
      (a : Answers) (tx : Sender) (n : ProxiedSubscriptionNotification)
      → IsFresh h a n
      → (let r = on_subscription a tx (h.conns tx) n in
          g ≡ record h { conns = update h.conns tx r.0; pending = h.pending ++ told r.1 })
      → Step h g
  -- The switch takes the next notification.
  switch_learns :
      (n : SubscriptionNotification) (rest : List SubscriptionNotification)
      → h.pending ≡ n ∷ rest
      → g ≡ record h { pending = rest; event_switch = (on_notification n h.event_switch).0 }
      → Step h g
  -- The switch routes an event.
  switch_routes :
      (e : Event)
      → g ≡ record h { event_switch = (route_event always_open e h.event_switch).0 }
      → Step h g

pub data Reach (h : Hub) : Hub → Type 0 where
  here : Reach h h
  next : {g i : Hub} → Reach h g → Step g i → Reach h i
