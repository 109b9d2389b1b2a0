-- ===== src/Server/Switch.antt =====
-- `EventSwitch` of src/server.rs: the table of subscriptions, and the two arms of its loop.
pub mod View
pub mod Delivery
pub mod Holdings
pub mod Topics
pub mod History
pub mod Refinement
pub mod Validity
pub mod Select
use hardlight.Prelude.{
  ℕ, Bool, true, false, Option, none, some, List, [], ◌∷◌, ◌++◌, ◌≡◌, if◌then◌else◌, Map, lookup,
  insert, remove, length, is_empty, nat_beq, list_eq, nat_eq,
}
use hardlight.Topic.{Topic, topic_eq}
use hardlight.Wire.{Event}
use hardlight.Channels.{
  Sender, SubscriptionId, SubscriptionNotification, TopicNotification, created, removed,
}

abbrev pub Subscribers : Type 0
Subscribers = Map SubscriptionId Sender

abbrev pub Table : Type 0
Table = Map Topic Subscribers

-- The receivers of the source are the arguments of `run_switch`.
pub record EventSwitch : Type 0 where
  pub subscriptions : Table

unfoldable pub new_switch : EventSwitch
new_switch = record { subscriptions = [] }

-- What the switch sends: an event to a connection, a notification to the application.
pub data Output : Type 0 where
  deliver : Sender → Event → Output
  notify : TopicNotification → Output

-- The loop over the subscribers: `is_open tx` says that `connection.send` succeeds.
unfoldable pub deliveries : (Sender → Bool) → Event → Subscribers → List Output
deliveries is_open event [] = []
deliveries is_open event ((id, tx) ∷ rest) =
    let more = deliveries is_open event rest in if is_open tx then deliver tx event ∷ more else more

-- `subs_to_remove`
unfoldable pub failed_ids : (Sender → Bool) → Subscribers → List SubscriptionId
failed_ids is_open [] = []
failed_ids is_open ((id, tx) ∷ rest) =
    let more = failed_ids is_open rest in if is_open tx then more else id ∷ more

unfoldable pub remove_all : List SubscriptionId → Subscribers → Subscribers
remove_all [] m = m
remove_all (id ∷ ids) m = remove_all ids (remove id m)

unfoldable pub route_event : (Sender → Bool) → Event → EventSwitch → EventSwitch × List Output
unfolding deliveries failed_ids remove_all
route_event is_open event s = elim (lookup event.topic s.subscriptions) [
  | none ↦ (s, [])
  | some subscribers ↦ (
    record s {
      subscriptions =
          insert event.topic (remove_all (failed_ids is_open subscribers) subscribers)
            s.subscriptions;
    },
    deliveries is_open event subscribers,
  )
]

abbrev or_empty : Option Subscribers → Subscribers
or_empty none = []
or_empty (some m) = m

unfoldable pub subscribe : Topic → SubscriptionId → Sender → EventSwitch → EventSwitch × List Output
subscribe topic id tx s =
    let subscribers = insert id tx (or_empty (lookup topic s.subscriptions)) in
    (
      record s { subscriptions = insert topic subscribers s.subscriptions },
      if nat_beq (length subscribers) 1 then notify (created topic) ∷ [] else [],
    )

unfoldable pub unsubscribe : Topic → SubscriptionId → EventSwitch → EventSwitch × List Output
unsubscribe topic id s = elim (lookup topic s.subscriptions) [
  | none ↦ (s, [])
  | some old ↦
      let subscribers = remove id old in
      if is_empty subscribers
      then (record s { subscriptions = remove topic s.subscriptions }, notify (removed topic) ∷ [])
      else (record s { subscriptions = insert topic subscribers s.subscriptions }, [])
]

unfoldable pub on_notification : SubscriptionNotification → EventSwitch → EventSwitch × List Output
unfolding subscribe unsubscribe
on_notification (SubscriptionNotification.subscribe topic id tx) s = subscribe topic id tx s
on_notification (SubscriptionNotification.unsubscribe topic id) s = unsubscribe topic id s

-- What an arm of the loop has received.
pub data Input : Type 0 where
  event : Event → Input
  notification : SubscriptionNotification → Input

unfoldable pub switch_turn : (Sender → Bool) → Input → EventSwitch → EventSwitch × List Output
unfolding route_event on_notification
switch_turn is_open (event e) s = route_event is_open e s
switch_turn is_open (notification n) s = on_notification n s

-- The two receivers of the loop, oldest message first.
pub record Inbox : Type 0 where
  pub new_event_rx : List Event
  pub subscription_notification_rx : List SubscriptionNotification

-- `select!` with `biased`: an event goes before a notification; `none` waits.
unfoldable pub select_input : Inbox → Option (Input × Inbox)
select_input inbox = elim inbox.new_event_rx [
  | e ∷ events ↦ some (event e, record inbox { new_event_rx = events })
  | [] ↦ elim inbox.subscription_notification_rx [
    | n ∷ rest ↦ some (notification n, record inbox { subscription_notification_rx = rest })
    | [] ↦ none
  ]
]

-- One input, with what the connections' channels answer at that time.
pub record Turn : Type 0 where
  pub is_open : Sender → Bool
  pub input : Input

-- `EventSwitch::run` over the inputs that it takes, in their order.
unfoldable pub run_switch : List Turn → EventSwitch → EventSwitch × List Output
unfolding switch_turn
run_switch [] s = (s, [])
run_switch (t ∷ turns) s =
    let (s1, outs) = switch_turn t.is_open t.input s in
    let (s2, more) = run_switch turns s1 in (s2, outs ++ more)
