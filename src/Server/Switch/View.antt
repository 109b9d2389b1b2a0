-- ===== src/Server/Switch/View.antt =====
-- The event switch seen as a map from a topic and an id to a sender.
use hardlight.Prelude.{
  ◌≡◌, refl, sym, ◌∙◌, Bool, false, ◌&&◌, ◌||◌, Option, none, some, inl, inr, List, [], ◌∷◌, arith,
  ◌==◌, if◌then◌else◌, lookup, remove, IsUnique, lookup-insert, lookup-remove, Bool-cases,
  Option-cases, list_eq, nat_eq, is_empty, lookup-contains_key, list_beq_iff, not, lookup_of_empty,
}
use hardlight.Topic.{Topic, topic_eq}
use hardlight.Wire.{Event}
use hardlight.Channels.{Sender, SubscriptionId}
use hardlight.Server.Switch.{
  EventSwitch, Subscribers, route_event, subscribe, unsubscribe, remove_all, failed_ids, or_empty,
}
use hardlight.Server.Switch.Validity.{IsValid, lookup-IsUnique}

abbrev pub under : SubscriptionId → Option Subscribers → Option Sender
under id none = none
under id (some m) = lookup id m

-- The sender that is subscribed to a topic under an id.
unfoldable pub view : EventSwitch → Topic → SubscriptionId → Option Sender
view s t id = under id (lookup t s.subscriptions)

under-or_empty :
    (id : SubscriptionId) (o : Option Subscribers) → lookup id (or_empty o) ≡ under id o
unfolding lookup
under-or_empty id none = refl
under-or_empty id (some m) = refl

-- A subscription is entered, and every other stays.
pub view-subscribe :
    (s : EventSwitch) (t u : Topic) (id j : SubscriptionId) (tx : Sender)
    → view (subscribe t id tx s).0 u j ≡ (if t == u && id == j then some tx else view s u j)
unfolding view subscribe
view-subscribe s t u id j tx = elim (Bool-cases (t == u)) [
  | inl hit ↦
      let same : t ≡ u = (topic_eq.eq_iff t u).0 hit in
      rw (lookup-insert t u _ s.subscriptions, hit)
        (rw (lookup-insert id j tx _, under-or_empty j _, same) refl)
  | inr miss ↦ rw (lookup-insert t u _ s.subscriptions, miss) refl
]

-- A subscription is deleted, and every other stays.
pub view-unsubscribe :
    (s : EventSwitch) (t u : Topic) (id j : SubscriptionId)
    → view (unsubscribe t id s).0 u j ≡ (if t == u && id == j then none else view s u j)
unfolding view unsubscribe
view-unsubscribe s t u id j = elim (Option-cases (lookup t s.subscriptions)) [
  | inl e ↦ elim (Bool-cases (t == u)) [
    | inl hit ↦
        let same : t ≡ u = (topic_eq.eq_iff t u).0 hit in
        rw (e, unsubscribe) (rw (hit, ← same, e) (ground arith))
    | inr miss ↦ rw (e, unsubscribe) (rw miss refl)
  ]
  | inr (m, e) ↦
      let gone = lookup-remove id j m in
      elim (Bool-cases (t == u)) [
        | inl hit ↦
            let same : t ≡ u = (topic_eq.eq_iff t u).0 hit in
            elim (Bool-cases (is_empty (remove id m))) [
              | inl empty ↦
                  rw (e, unsubscribe)
                    (rw empty (
                      rw (lookup-remove t u s.subscriptions, hit, ← same, e)
                        (sym (lookup_of_empty j (remove id m) empty) ∙ gone)))
              | inr more ↦
                  rw (e, unsubscribe)
                    (rw more (rw (lookup-insert t u _ s.subscriptions, hit, ← same, e) gone))
            ]
        | inr miss ↦ elim (Bool-cases (is_empty (remove id m))) [
          | inl empty ↦
              rw (e, unsubscribe) (rw empty (rw (lookup-remove t u s.subscriptions, miss) refl))
          | inr more ↦
              rw (e, unsubscribe) (rw more (rw (lookup-insert t u _ s.subscriptions, miss) refl))
        ]
      ]
]

elem : SubscriptionId → List SubscriptionId → Bool
elem j [] = false
elem j (id ∷ ids) = id == j || elem j ids

lookup-remove_all :
    (j : SubscriptionId) (ids : List SubscriptionId) (m : Subscribers)
    → lookup j (remove_all ids m) ≡ (if elem j ids then none else lookup j m)
unfolding remove_all elem
lookup-remove_all j [] m = refl
lookup-remove_all j (id ∷ ids) m =
    ground (arith, lookup-remove_all j ids (remove id m), lookup-remove id j m)

module _ (is_open : Sender → Bool) where
  -- What is left of a subscription after an event: nothing if its receiver is gone.
  abbrev pub keep_open : Option Sender → Option Sender
  keep_open none = none
  keep_open (some tx) = if is_open tx then some tx else none

  abbrev is_closed : Option Sender → Bool
  is_closed none = false
  is_closed (some tx) = not (is_open tx)

  elem-failed_ids :
      (j : SubscriptionId) (m : Subscribers)
      → IsUnique m
      → elem j (failed_ids is_open m) ≡ is_closed (lookup j m)
  unfolding elem failed_ids lookup
  elem-failed_ids j [] u = refl
  elem-failed_ids j ((id, tx) ∷ m) u = elim (Bool-cases (id == j)) [
    | inl hit ↦
        let same : id ≡ j = (list_beq_iff id j).0 hit in
        let absent : lookup j m ≡ none = rw same at (lookup-contains_key id m u.0) in
        ground (arith, elem-failed_ids j m u.1, absent, hit)
    | inr miss ↦ ground (arith, elem-failed_ids j m u.1, miss)
  ]

  lookup-prune :
      (j : SubscriptionId) (m : Subscribers)
      → IsUnique m
      → lookup j (remove_all (failed_ids is_open m) m) ≡ keep_open (lookup j m)
  lookup-prune j m u =
      ground (arith, lookup-remove_all j (failed_ids is_open m) m, elem-failed_ids j m u)

  -- In a table with one entry to a topic and to an id, an event drops the subscriptions of its topic
  -- whose receiver is gone, and no other.
  pub view-route_event :
      (s : EventSwitch) (event : Event) (u : Topic) (j : SubscriptionId)
      → IsValid s
      → view (route_event is_open event s).0 u j
        ≡ (if event.topic == u then keep_open (view s u j) else view s u j)
  unfolding view route_event
  view-route_event s event u j v = elim (Option-cases (lookup event.topic s.subscriptions)) [
    | inl e ↦ elim (Bool-cases (event.topic == u)) [
      | inl hit ↦
          let same : event.topic ≡ u = (topic_eq.eq_iff event.topic u).0 hit in
          rw (e, route_event) (rw (hit, ← same, e) refl)
      | inr miss ↦ rw (e, route_event) (rw miss refl)
    ]
    | inr (m, e) ↦ elim (Bool-cases (event.topic == u)) [
      | inl hit ↦
          let same : event.topic ≡ u = (topic_eq.eq_iff event.topic u).0 hit in
          rw (e, route_event)
            (rw (lookup-insert event.topic u _ s.subscriptions, hit, ← same, e)
              (lookup-prune j m (lookup-IsUnique event.topic m s.subscriptions v.ids e)))
      | inr miss ↦
          rw (e, route_event) (rw (lookup-insert event.topic u _ s.subscriptions, miss) refl)
    ]
  ]
