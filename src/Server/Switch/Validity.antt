-- ===== src/Server/Switch/Validity.antt =====
-- The table of the event switch as a map: one entry to a topic, and below it one to an id.
use hardlight.Prelude.{
  ◌≡◌, refl, Bool, Option, none, some, inl, inr, List, [], ◌∷◌, lookup, insert, remove, IsUnique,
  AllValues, lookup-AllValues, insert-AllValues, remove-AllValues, insert-IsUnique, remove-IsUnique,
  Bool-cases, Option-cases, list_eq, nat_eq, is_empty,
}
use hardlight.Topic.{Topic, topic_eq}
use hardlight.Wire.{Event}
use hardlight.Channels.{Sender, SubscriptionId, SubscriptionNotification}
use hardlight.Server.Switch.{
  EventSwitch, Subscribers, Table, route_event, subscribe, unsubscribe, on_notification, remove_all,
  failed_ids, or_empty,
}

-- Each entry of a table holds subscribers with distinct ids.
abbrev pub AllUnique : Table → Type 0
AllUnique = AllValues IsUnique

pub record IsValid (s : EventSwitch) : Type 0 where
  pub topics : IsUnique s.subscriptions
  pub ids : AllUnique s.subscriptions

pub lookup-IsUnique :
    (t : Topic) (m : Subscribers) (table : Table)
    → AllUnique table
    → lookup t table ≡ some m
    → IsUnique m
lookup-IsUnique t m table v h = lookup-AllValues IsUnique t m table v h

pub remove_all-IsUnique :
    (ids : List SubscriptionId) (m : Subscribers) → IsUnique m → IsUnique (remove_all ids m)
unfolding remove_all
remove_all-IsUnique [] m u = u
remove_all-IsUnique (id ∷ ids) m u = remove_all-IsUnique ids (remove id m) (remove-IsUnique id m u)

or_empty-IsUnique :
    (o : Option Subscribers) → ((m : Subscribers) → o ≡ some m → IsUnique m) → IsUnique (or_empty o)
or_empty-IsUnique none f = tt
or_empty-IsUnique (some m) f = f m refl

module _ (s : EventSwitch) (v : IsValid s) where
  replace-IsValid :
      (t : Topic) (m : Subscribers)
      → IsUnique m
      → IsValid (record s { subscriptions = insert t m s.subscriptions })
  replace-IsValid t m u = record {
    topics = insert-IsUnique t m s.subscriptions v.topics;
    ids = insert-AllValues IsUnique t m s.subscriptions u v.ids;
  }

  pub route_event-IsValid :
      (is_open : Sender → Bool) (event : Event) → IsValid (route_event is_open event s).0
  unfolding route_event
  route_event-IsValid is_open event = elim (Option-cases (lookup event.topic s.subscriptions)) [
    | inl e ↦ rw (e, route_event) v
    | inr (m, e) ↦
        rw (e, route_event)
          (replace-IsValid event.topic _ (
            remove_all-IsUnique (failed_ids is_open m) m
              (lookup-IsUnique event.topic m s.subscriptions v.ids e)))
  ]

  pub subscribe-IsValid :
      (t : Topic) (id : SubscriptionId) (tx : Sender) → IsValid (subscribe t id tx s).0
  unfolding subscribe
  subscribe-IsValid t id tx = replace-IsValid t _ (
      insert-IsUnique id tx _ (
        or_empty-IsUnique (lookup t s.subscriptions)
          (λ m e. lookup-IsUnique t m s.subscriptions v.ids e)))

  pub unsubscribe-IsValid : (t : Topic) (id : SubscriptionId) → IsValid (unsubscribe t id s).0
  unfolding unsubscribe
  unsubscribe-IsValid t id = elim (Option-cases (lookup t s.subscriptions)) [
    | inl e ↦ rw (e, unsubscribe) v
    | inr (m, e) ↦
        let kept = remove-IsUnique id m (lookup-IsUnique t m s.subscriptions v.ids e) in
        elim (Bool-cases (is_empty (remove id m))) [
          | inl empty ↦
              rw (e, unsubscribe)
                (rw empty (record {
                  topics = remove-IsUnique t s.subscriptions v.topics;
                  ids = remove-AllValues IsUnique t s.subscriptions v.ids;
                }))
          | inr more ↦ rw (e, unsubscribe) (rw more (replace-IsValid t _ kept))
        ]
  ]

  -- Both notifications keep the table a map.
  pub on_notification-IsValid : (n : SubscriptionNotification) → IsValid (on_notification n s).0
  unfolding on_notification
  on_notification-IsValid (SubscriptionNotification.subscribe t id tx) = subscribe-IsValid t id tx
  on_notification-IsValid (SubscriptionNotification.unsubscribe t id) = unsubscribe-IsValid t id
