-- ===== src/Server/Connection/Subscriptions.antt =====
-- What a connection makes of the notifications of its handler, one by one and as a history.
use hardlight.Prelude.{
  ◌≡◌, refl, Bool, true, false, Option, none, some, inl, inr, List, [], ◌∷◌, arith, ◌==◌,
  if◌then◌else◌, lookup, insert, remove, contains_key, lookup-insert, lookup-remove,
  contains_key-eq-lookup, Option-cases, list_eq, nat_eq,
}
use hardlight.Topic.{Topic, topic_eq, topic_beq_iff}
use hardlight.Channels.{Sender, SubscriptionId, ProxiedSubscriptionNotification}
use hardlight.Server.Connection.{Connection, Answers, on_subscription}

abbrev pub topic_of : ProxiedSubscriptionNotification → Topic
topic_of (ProxiedSubscriptionNotification.subscribe t) = t
topic_of (ProxiedSubscriptionNotification.unsubscribe t) = t

abbrev or_fresh : Answers → Option SubscriptionId → Option SubscriptionId
or_fresh a (some id) = some id
or_fresh a none = if a.switch_ok then some a.random else none

-- The id of a topic after a notification of the topic, from the id before.
abbrev pub id_after :
    Answers → ProxiedSubscriptionNotification → Option SubscriptionId → Option SubscriptionId
id_after a (ProxiedSubscriptionNotification.subscribe t) old = or_fresh a old
id_after a (ProxiedSubscriptionNotification.unsubscribe t) old = if a.switch_ok then none else old

-- A notification of the handler sets the id of its topic and no other: a new subscription gets the
-- random id and keeps it through a second one, and where the switch is gone nothing changes.
pub lookup-on_subscription :
    (a : Answers) (tx : Sender) (c : Connection) (n : ProxiedSubscriptionNotification) (u : Topic)
    → lookup u (on_subscription a tx c n).0.subscriptions ≡ (
        if topic_of n == u
        then id_after a n (lookup u c.subscriptions)
        else lookup u c.subscriptions)
unfolding on_subscription
lookup-on_subscription a tx c (ProxiedSubscriptionNotification.subscribe t) u =
    let known = contains_key-eq-lookup t c.subscriptions in
    let inserted = insert t a.random c.subscriptions in
    elim (Option-cases (lookup t c.subscriptions)) [
      | inl e ↦ ground (
        arith,
        e,
        known,
        topic_beq_iff t u,
        lookup-insert t u a.random c.subscriptions,
        lookup-remove t u inserted,
      )
      | inr (id, e) ↦ ground (arith, e, known, topic_beq_iff t u)
    ]
lookup-on_subscription a tx c (ProxiedSubscriptionNotification.unsubscribe t) u =
    elim (Option-cases (lookup t c.subscriptions)) [
      | inl e ↦ rw (on_subscription, e) (ground (arith, e, topic_beq_iff t u))
      | inr (id, e) ↦
          rw (on_subscription, e)
            (ground (
              arith,
              e,
              topic_beq_iff t u,
              lookup-remove t u c.subscriptions,
              lookup-insert t u id (remove t c.subscriptions),
            ))
    ]

-- The loop takes the notifications in their order; each comes with what the libraries answer.
unfoldable pub on_subscriptions :
    Sender → Connection → List (Answers × ProxiedSubscriptionNotification) → Connection
on_subscriptions tx c [] = c
on_subscriptions tx c ((a, n) ∷ ns) = on_subscriptions tx (on_subscription a tx c n).0 ns

-- The last notification of a topic, if there is one, says whether the handler wants it.
unfoldable pub wanted : Topic → Bool → List (Answers × ProxiedSubscriptionNotification) → Bool
wanted u b [] = b
wanted u b ((a, ProxiedSubscriptionNotification.subscribe t) ∷ ns) =
    if t == u then wanted u true ns else wanted u b ns
wanted u b ((a, ProxiedSubscriptionNotification.unsubscribe t) ∷ ns) =
    if t == u then wanted u false ns else wanted u b ns

abbrev pub SwitchListens : List (Answers × ProxiedSubscriptionNotification) → Type 0
SwitchListens [] = Unit {0}
SwitchListens ((a, n) ∷ ns) = (a.switch_ok ≡ true) × SwitchListens ns

after_subscribe :
    (a : Answers) (tx : Sender) (c : Connection) (t u : Topic)
    → a.switch_ok ≡ true
    → contains_key u
        (on_subscription a tx c (ProxiedSubscriptionNotification.subscribe t)).0.subscriptions
      ≡ (if t == u then true else contains_key u c.subscriptions)
after_subscribe a tx c t u ok =
    let n = ProxiedSubscriptionNotification.subscribe t in
    ground (
      arith,
      ok,
      lookup-on_subscription a tx c n u,
      contains_key-eq-lookup u (on_subscription a tx c n).0.subscriptions,
      contains_key-eq-lookup u c.subscriptions,
      Option-cases (lookup u c.subscriptions),
    )

after_unsubscribe :
    (a : Answers) (tx : Sender) (c : Connection) (t u : Topic)
    → a.switch_ok ≡ true
    → contains_key u
        (on_subscription a tx c (ProxiedSubscriptionNotification.unsubscribe t)).0.subscriptions
      ≡ (if t == u then false else contains_key u c.subscriptions)
after_unsubscribe a tx c t u ok =
    let n = ProxiedSubscriptionNotification.unsubscribe t in
    ground (
      arith,
      ok,
      lookup-on_subscription a tx c n u,
      contains_key-eq-lookup u (on_subscription a tx c n).0.subscriptions,
      contains_key-eq-lookup u c.subscriptions,
    )

-- As long as the switch listens, a connection is subscribed to a topic exactly if the last thing that
-- its handler said of the topic was to add it, or if it said nothing and the connection was
-- subscribed before.
pub contains_key-on_subscriptions :
    (tx : Sender) (c : Connection) (u : Topic)
    (ns : List (Answers × ProxiedSubscriptionNotification))
    → SwitchListens ns
    → contains_key u (on_subscriptions tx c ns).subscriptions
      ≡ wanted u (contains_key u c.subscriptions) ns
unfolding on_subscriptions wanted
contains_key-on_subscriptions tx c u [] listens = refl
contains_key-on_subscriptions tx c u ((a, ProxiedSubscriptionNotification.subscribe t) ∷ ns)
      listens =
    let n = ProxiedSubscriptionNotification.subscribe t in
    let rest = contains_key-on_subscriptions tx (on_subscription a tx c n).0 u ns listens.1 in
    ground (arith, rest, after_subscribe a tx c t u listens.0)
contains_key-on_subscriptions tx c u ((a, ProxiedSubscriptionNotification.unsubscribe t) ∷ ns)
      listens =
    let n = ProxiedSubscriptionNotification.unsubscribe t in
    let rest = contains_key-on_subscriptions tx (on_subscription a tx c n).0 u ns listens.1 in
    ground (arith, rest, after_unsubscribe a tx c t u listens.0)
