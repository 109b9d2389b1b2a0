-- ===== src/Tests/Publishing.antt =====
-- An event on its way through a whole server, from the application to a client that is subscribed.
use hardlight.Prelude.{ℕ, ◌≡◌, refl, [], ◌∷◌, ◌++◌, contains_key, insert, lookup}
use hardlight.Topic.{topic_eq}
use hardlight.Wire.{binary}
use hardlight.Codec.{encode_frame, deflate}
use hardlight.Channels.{Sender, SubscriptionNotification, ProxiedSubscriptionNotification}
use hardlight.Client.{on_message}
use hardlight.Server.Connection.{
  on_subscription, connection_round, forward, send_msg, new_connection,
}
use hardlight.Server.Switch.{on_notification, route_event, new_switch, Inbox, select_input}
use hardlight.Server.Switch.Delivery.{received}
use hardlight.Server.Switch.View.{view}
use hardlight.System.Hub.{told, drain, settled, always_open}
use hardlight.System.Session.{new_session, response_arrives}
use hardlight.System.Session.Heard.{events_in}
use hardlight.System.Publishing.{
  World, new_world, queued, Run, start, go, goes_on, asks, emits, learns, routes, takes_event,
}
use hardlight.System.Publishing.Path.{all_heard, all_meant, AllCalm, subscriber_hears_events}
use hardlight.Tests.Heard.{speaker, speaker-IsFaithful, news, event_codec}
use hardlight.Tests.Data.{plain_flate, all_well}

abbrev levels : Sender → ℕ
levels tx = 6

abbrev at_first : World ℕ
at_first = new_world levels 6 6 0

abbrev asked : World ℕ
asked =
    let r =
      on_subscription all_well 0 at_first.session.server
        (ProxiedSubscriptionNotification.subscribe news.topic) in
    record at_first {
      session = record at_first.session { server = r.0 };
      inbox = queued speaker 0 at_first.inbox r.1;
    }

abbrev empty_inbox : Inbox
empty_inbox = record { new_event_rx = []; subscription_notification_rx = [] }

abbrev learned : World ℕ
learned = record asked {
  inbox = empty_inbox;
  event_switch =
      (on_notification (SubscriptionNotification.subscribe news.topic (1 ∷ 2 ∷ []) 0)
        asked.event_switch).0;
}

abbrev emitted : World ℕ
emitted = record learned { inbox = record empty_inbox { new_event_rx = news ∷ [] } }

abbrev routed : World ℕ
routed = record emitted {
  inbox = empty_inbox;
  event_switch = (route_event always_open news emitted.event_switch).0;
  event_rx = emitted.event_rx ++ received 0 (route_event always_open news emitted.event_switch).1;
}

abbrev sent : World ℕ
sent = record routed { session = record routed.session { s2c = (4 ∷ 8 ∷ []) ∷ [] }; event_rx = [] }

routed_run : Run speaker 0 at_first routed
unfolding new_world new_session new_connection new_switch settled drain on_subscription told
    contains_key insert view lookup select_input
routed_run =
    go
      (go
        (go
          (go start
            (asks all_well (ProxiedSubscriptionNotification.subscribe news.topic) refl refl))
          (learns (SubscriptionNotification.subscribe news.topic (1 ∷ 2 ∷ []) 0) empty_inbox refl
            refl))
        (emits news refl))
      (routes news empty_inbox refl refl)

sent_run : Run speaker 0 at_first sent
unfolding new_world new_session new_connection new_switch connection_round forward send_msg
    encode_frame deflate on_subscription on_notification route_event contains_key insert lookup
    received
sent_run =
    go routed_run (takes_event all_well news [] sent.session.server (4 ∷ 8 ∷ []) refl refl refl)

abbrev arrived : World ℕ
arrived = record sent {
  session = record sent.session {
    client =
        (on_message plain_flate event_codec speaker.client_state sent.session.client
          (binary (4 ∷ 8 ∷ []))).0;
    s2c = [];
  };
}

arrived_run : Run speaker 0 at_first arrived
arrived_run = go sent_run (goes_on (response_arrives (4 ∷ 8 ∷ []) [] refl refl) tt refl)

arrived_calm : AllCalm speaker 0 arrived_run
unfolding AllCalm arrived_run sent_run routed_run
arrived_calm = (((((((tt, tt), tt), tt), refl), tt), tt))

subscriber_hears_events_example :
    all_heard speaker 0 arrived_run ++ (events_in speaker 0 [] ++ arrived.event_rx)
    ≡ all_meant speaker 0 arrived_run
subscriber_hears_events_example =
    subscriber_hears_events speaker 0 speaker-IsFaithful levels 6 6 0 arrived_run arrived_calm

-- The client has heard it.
news_arrives : all_meant speaker 0 arrived_run ≡ news ∷ []
unfolding all_meant arrived_run sent_run routed_run on_subscription contains_key insert lookup
    new_world new_session new_connection
news_arrives = refl
