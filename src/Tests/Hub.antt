-- ===== src/Tests/Hub.antt =====
-- One subscription on its way through a server.
use hardlight.Prelude.{
  ℕ, ◌≡◌, refl, true, [], ◌∷◌, ◌++◌, if◌then◌else◌, contains_key, insert, lookup,
}
use hardlight.Topic.{Topic, topic_eq}
use hardlight.Wire.{Event}
use hardlight.Channels.{Sender, SubscriptionNotification, ProxiedSubscriptionNotification}
use hardlight.Server.Connection.{on_subscription, new_connection}
use hardlight.Server.Switch.{route_event, on_notification, new_switch}
use hardlight.Server.Switch.View.{view}
use hardlight.Server.Switch.Delivery.{received}
use hardlight.System.Hub.{
  Hub, always_open, new_hub, told, update, drain, settled, handler_asks, switch_learns, Reach, here,
  next,
}
use hardlight.System.Hub.Delivered.{event_reaches_subscribers}
use hardlight.Tests.Data.{all_well}

abbrev news : Topic
news = record { inner = b'n' ∷ []; is_string = true }

abbrev headline : Event
headline = record { topic = news; payload = 3 ∷ [] }

abbrev levels : Sender → ℕ
levels tx = 6

abbrev idle : Hub
idle = new_hub levels

abbrev asking : Hub
asking =
    let r =
      on_subscription all_well 7 (idle.conns 7) (ProxiedSubscriptionNotification.subscribe news) in
    record idle { conns = update idle.conns 7 r.0; pending = idle.pending ++ told r.1 }

abbrev entered : Hub
entered = record asking {
  pending = [];
  event_switch =
      (on_notification (SubscriptionNotification.subscribe news (1 ∷ 2 ∷ []) 7)
        asking.event_switch).0;
}

entered_run : Reach idle entered
unfolding new_hub new_connection new_switch settled drain on_subscription told contains_key insert
    view lookup
entered_run =
    next
      (next here
        (handler_asks all_well 7 (ProxiedSubscriptionNotification.subscribe news) refl refl))
      (switch_learns (SubscriptionNotification.subscribe news (1 ∷ 2 ∷ []) 7) [] refl refl)

event_reaches_subscribers_example :
    received 7 (route_event always_open headline entered.event_switch).1
    ≡ (if contains_key news (entered.conns 7).subscriptions then headline ∷ [] else [])
event_reaches_subscribers_example = event_reaches_subscribers levels headline 7 entered_run refl
