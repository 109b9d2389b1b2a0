-- ===== src/Server/Application.antt =====
-- What the application and its handlers hold of a server: `Server` up to `run`, `EventEmitter` and
-- `HandlerSubscriptionManager` of src/server.rs.
use hardlight.Prelude.{
  ℕ, ◌≡◌, refl, Bool, true, false, Option, none, some, List, [], ◌∷◌, ◌++◌, if◌then◌else◌,
}
use hardlight.Topic.{Topic}
use hardlight.Wire.{Bytes, Event, event_new}
use hardlight.Channels.{ProxiedSubscriptionNotification}
use hardlight.Handshake.{hl_version_string}

-- The receiving half of a channel.
abbrev pub Receiver : Type 0
Receiver = ℕ

pub record Server : Type 0 where
  pub hl_version_string : Bytes
  pub event_rx : Option Receiver
  pub topic_notif_rx : Option Receiver

-- The two receivers are those of the channels that `new` makes.
unfoldable pub new : ℕ → Receiver → Receiver → Server
unfolding hl_version_string
new version_major event_rx topic_notif_rx = record {
  hl_version_string = hl_version_string version_major;
  event_rx = some event_rx;
  topic_notif_rx = some topic_notif_rx;
}

-- `get_topic_notifier` takes the receiver out.
unfoldable pub get_topic_notifier : Server → Option Receiver × Server
get_topic_notifier s = (s.topic_notif_rx, record s { topic_notif_rx = none })

-- The receiver that `run` gives to the event switch; `none` is the panic of `unwrap`.
unfoldable pub switch_receiver : Server → Option Receiver
switch_receiver s = s.event_rx

-- `EventEmitter::emit`, on the queue of the switch; the flag says that the switch still listens.
unfoldable pub emit : Bool → Topic → Bytes → List Event → List Event
unfolding event_new
emit switch_ok topic payload new_event_rx =
    if switch_ok then new_event_rx ++ (event_new topic payload ∷ []) else new_event_rx

-- `HandlerSubscriptionManager`: what its channel holds, oldest first.
abbrev pub HandlerSubscriptionManager : Type 0
HandlerSubscriptionManager = List ProxiedSubscriptionNotification

unfoldable pub add : Topic → HandlerSubscriptionManager → HandlerSubscriptionManager
add topic m = m ++ (ProxiedSubscriptionNotification.subscribe topic ∷ [])

unfoldable pub remove : Topic → HandlerSubscriptionManager → HandlerSubscriptionManager
remove topic m = m ++ (ProxiedSubscriptionNotification.unsubscribe topic ∷ [])

-- What an application may do with a server before it runs it.
pub data Preparation : Type 0 where
  asks_for_notifier gets_emitter : Preparation

abbrev keep : Option Receiver → List Receiver → List Receiver
keep none rs = rs
keep (some r) rs = r ∷ rs

-- The receivers that the application is handed, and the server that it runs.
unfoldable pub prepare : List Preparation → Server → List Receiver × Server
unfolding get_topic_notifier
prepare [] s = ([], s)
prepare (asks_for_notifier ∷ rest) s =
    let (given, s1) = get_topic_notifier s in
    let (more, s2) = prepare rest s1 in (keep given more, s2)
prepare (gets_emitter ∷ rest) s = prepare rest s

unfoldable pub asks : List Preparation → Bool
asks [] = false
asks (asks_for_notifier ∷ rest) = true
asks (gets_emitter ∷ rest) = asks rest

prepare_taken :
    (ps : List Preparation) (s : Server)
    → s.topic_notif_rx ≡ none
    → ((prepare ps s).0 ≡ []) × ((prepare ps s).1.event_rx ≡ s.event_rx)
unfolding prepare
prepare_taken [] s h = (refl, refl)
prepare_taken (asks_for_notifier ∷ rest) s h =
    let (e, f) = prepare_taken rest (record s { topic_notif_rx = none }) refl in (rw (h, e) refl, f)
prepare_taken (gets_emitter ∷ rest) s h = prepare_taken rest s h

-- Whatever an application does with its server first, it is handed the receiver of topic
-- notifications once if it asks for it, and the receiver of events is there when the server runs.
pub prepare_lem :
    (ps : List Preparation) (version_major : ℕ) (event_rx topic_notif_rx : Receiver)
    → let r = prepare ps (new version_major event_rx topic_notif_rx) in
      (r.0 ≡ (if asks ps then topic_notif_rx ∷ [] else [])) × (switch_receiver r.1 ≡ some event_rx)
unfolding prepare asks switch_receiver new
prepare_lem [] v e t = (refl, refl)
prepare_lem (asks_for_notifier ∷ rest) v e t =
    let taken = record (new v e t) { topic_notif_rx = none } in
    let (none_left, kept) = prepare_taken rest taken refl in (rw none_left refl, kept)
prepare_lem (gets_emitter ∷ rest) v e t = prepare_lem rest v e t
