-- ===== src/Tests/Switch.antt =====
-- The event switch on a table with one subscription.
use hardlight.Prelude.{
  List, ◌≡◌, refl, Bool, true, false, some, [], ◌∷◌, list_eq, nat_eq, lookup, contains_key,
}
use hardlight.Topic.{Topic, topic_eq}
use hardlight.Wire.{Event}
use hardlight.Channels.{Sender, SubscriptionId, SubscriptionNotification, created}
use hardlight.Server.Switch.{
  EventSwitch, Turn, event, notification, notify, route_event, subscribe, run_switch, switch_turn,
  on_notification,
}
use hardlight.Server.Switch.Validity.{IsValid}
use hardlight.Server.Switch.View.{view}
use hardlight.Server.Switch.Topics.{has_topic}
use hardlight.Server.Switch.History.{follow, follow-run_switch, created_again}
use hardlight.Server.Switch.Refinement.{register_run, view-run_switch}

abbrev id1 : SubscriptionId
id1 = 1 ∷ []

abbrev id2 : SubscriptionId
id2 = 2 ∷ []

abbrev news : Topic
news = record { inner = b'n' ∷ []; is_string = true }

abbrev sport : Topic
sport = record { inner = b's' ∷ []; is_string = true }

-- Sender 7 is subscribed to the news under the id 1.
abbrev one_reader : EventSwitch
one_reader = record { subscriptions = (news, (1 ∷ [], 7) ∷ []) ∷ [] }

one_reader-IsValid : IsValid one_reader
unfolding contains_key
one_reader-IsValid = record { topics = (refl, tt); ids = ((refl, tt), tt) }

abbrev headline : Event
headline = record { topic = news; payload = 3 ∷ [] }

abbrev all_open : Sender → Bool
all_open tx = true

abbrev all_gone : Sender → Bool
all_gone tx = false

abbrev turns : List Turn
turns =
    record {
      is_open = all_open;
      input = notification (SubscriptionNotification.subscribe sport id2 8);
    }
    ∷ record { is_open = all_open; input = event headline }
    ∷ record {
      is_open = all_open;
      input = notification (SubscriptionNotification.unsubscribe news id1);
    }
    ∷ []

follow-run_switch_example :
    follow news (has_topic news one_reader) (run_switch turns one_reader).1
    ≡ some (has_topic news (run_switch turns one_reader).0)
unfolding view lookup run_switch switch_turn on_notification subscribe
follow-run_switch_example =
    follow-run_switch news turns one_reader (refl, (λ tx. refl, (tt, tt))) (refl, tt)

created_again_example :
    let after = route_event all_gone headline one_reader in
    (after.1 ≡ [])
    × (has_topic news after.0 ≡ true)
    × ((subscribe news id2 8 after.0).1 ≡ notify (created news) ∷ [])
unfolding has_topic contains_key
created_again_example =
    created_again one_reader all_gone headline id2 8 one_reader-IsValid refl (λ rx. refl)

view-run_switch_example :
    view (run_switch turns one_reader).0 ≡ register_run turns (view one_reader)
view-run_switch_example = view-run_switch turns one_reader one_reader-IsValid
