-- ===== src/System/Hub/Invariant.antt =====
-- The connections' own tables and the switch agree, once the pending notifications are through.
use hardlight.Prelude.{
  ℕ, ◌≡◌, ◌↔◌, refl, ◌∙◌, fun_ext, Bool, true, false, Option, none, some, inl, inr, List, [], ◌∷◌,
  ◌++◌, arith, nat_beq, nat_beq_iff, if◌then◌else◌, ◌==◌, lookup, insert, remove, lookup-insert,
  lookup-remove, contains_key-eq-lookup, Bool-cases, Option-cases, list_eq, nat_eq, list_beq_iff,
}
use hardlight.Topic.{Topic, topic_eq, topic_beq_iff}
use hardlight.Wire.{Event}
use hardlight.Channels.{
  Sender, SubscriptionId, SubscriptionNotification, ProxiedSubscriptionNotification,
}
use hardlight.Server.Connection.{Connection, Answers, on_subscription, new_connection}
use hardlight.Server.Switch.{
  EventSwitch, on_notification, route_event, new_switch, notification, switch_turn,
}
use hardlight.Server.Switch.Validity.{IsValid, route_event-IsValid, on_notification-IsValid}
use hardlight.Server.Switch.View.{view, keep_open, view-route_event}
use hardlight.Server.Switch.Refinement.{Register, register_turn, view-switch_turn}
use hardlight.System.Hub.{
  Hub, Step, handler_asks, switch_learns, switch_routes, Reach, here, next, new_hub, told, update,
  drain, settled, IsFresh, always_open,
}

-- A register holds a connection's sender exactly where the connection's own table says so.
abbrev pub Agrees : Register → Sender → Connection → Type 0
Agrees r tx c =
    (t : Topic) (j : SubscriptionId) → (r t j ≡ some tx) ↔ (lookup t c.subscriptions ≡ some j)

pub record Inv (h : Hub) : Type 0 where
  pub valid : IsValid h.event_switch
  pub agrees : (tx : Sender) → Agrees (settled h) tx (h.conns tx)

drain-append :
    (xs ys : List SubscriptionNotification) (r : Register)
    → drain (xs ++ ys) r ≡ drain ys (drain xs r)
unfolding drain
drain-append [] ys r = refl
drain-append (n ∷ xs) ys r = drain-append xs ys (register_turn always_open (notification n) r)

abbrev FreshIn : Register → Answers → ProxiedSubscriptionNotification → Type 0
FreshIn r a (ProxiedSubscriptionNotification.subscribe t) = r t a.random ≡ none
FreshIn r a (ProxiedSubscriptionNotification.unsubscribe t) = Unit {0}

module _ (r : Register) (a : Answers) (tx : Sender) (c : Connection) (own : Agrees r tx c) where
  abbrev after : ProxiedSubscriptionNotification → Register
  after n = drain (told (on_subscription a tx c n).1) r

  asks_own :
      (n : ProxiedSubscriptionNotification) → Agrees (after n) tx (on_subscription a tx c n).0
  unfolding on_subscription told drain
  asks_own (ProxiedSubscriptionNotification.subscribe t) u j = ground (
    arith,
    own u j,
    contains_key-eq-lookup t c.subscriptions,
    topic_beq_iff t u,
    list_beq_iff a.random j,
    lookup-insert t u a.random c.subscriptions,
    lookup-remove t u (insert t a.random c.subscriptions),
  )
  asks_own (ProxiedSubscriptionNotification.unsubscribe t) u j =
      elim (Option-cases (lookup t c.subscriptions)) [
        | inl e ↦ rw (e, on_subscription) (own u j)
        | inr (id, e) ↦ ground (
          arith,
          e,
          own u j,
          topic_beq_iff t u,
          list_beq_iff id j,
          lookup-remove t u c.subscriptions,
          lookup-insert t u id (remove t c.subscriptions),
        )
      ]

  -- Of every other connection's subscriptions a round leaves all in place.
  asks_other :
      (n : ProxiedSubscriptionNotification) (rx : Sender)
      → FreshIn r a n
      → nat_beq tx rx ≡ false
      → (u : Topic) (j : SubscriptionId) → (r u j ≡ some rx) ↔ (after n u j ≡ some rx)
  unfolding on_subscription told drain
  asks_other (ProxiedSubscriptionNotification.subscribe t) rx fresh ne u j =
      ground (arith, fresh, topic_beq_iff t u, list_beq_iff a.random j, nat_beq_iff tx rx)
  asks_other (ProxiedSubscriptionNotification.unsubscribe t) rx fresh ne u j =
      elim (Option-cases (lookup t c.subscriptions)) [
        | inl e ↦ rw (e, on_subscription) (λ h. h, λ h. h)
        | inr (id, e) ↦
            ground (arith, e, own t id, topic_beq_iff t u, list_beq_iff id j, nat_beq_iff tx rx)
      ]

fresh_in :
    (h : Hub) (a : Answers) (n : ProxiedSubscriptionNotification)
    → IsFresh h a n
    → FreshIn (settled h) a n
fresh_in h a (ProxiedSubscriptionNotification.subscribe t) f = f
fresh_in h a (ProxiedSubscriptionNotification.unsubscribe t) f = tt

-- An event changes no subscription while every send succeeds.
view-event_open :
    (e : Event) (s : EventSwitch) → IsValid s → view (route_event always_open e s).0 ≡ view s
view-event_open e s v =
    fun_ext
      λ u. fun_ext λ j. view-route_event always_open s e u j v ∙ same (e.topic == u) (view s u j)
  where
    same : (b : Bool) (o : Option Sender) → (if b then keep_open always_open o else o) ≡ o
    same false o = refl
    same true none = refl
    same true (some tx) = refl

view-on_notification :
    (n : SubscriptionNotification) (s : EventSwitch)
    → IsValid s
    → view (on_notification n s).0 ≡ register_turn always_open (notification n) (view s)
unfolding switch_turn
view-on_notification n s v = view-switch_turn always_open (notification n) s v

module _ (h : Hub) (v : Inv h) where
  handler_asks-Inv :
      (a : Answers) (tx : Sender) (n : ProxiedSubscriptionNotification)
      → IsFresh h a n
      → (let r = on_subscription a tx (h.conns tx) n in
          Inv (record h { conns = update h.conns tx r.0; pending = h.pending ++ told r.1 }))
  unfolding settled
  handler_asks-Inv a tx n fresh = record {
    valid = v.valid;
    agrees = λ rx u j. elim (Bool-cases (nat_beq tx rx)) [
      | inl hit ↦
          let same : tx ≡ rx = (nat_beq_iff tx rx).0 hit in
          rw
            (drain-append h.pending (told (on_subscription a tx (h.conns tx) n).1)
              (view h.event_switch))
            (rw hit (rw (← same) (asks_own (settled h) a tx (h.conns tx) (v.agrees tx) n u j)))
      | inr miss ↦
          let others =
            asks_other (settled h) a tx (h.conns tx) (v.agrees tx) n rx (fresh_in h a n fresh) miss
              u j in
          rw
            (drain-append h.pending (told (on_subscription a tx (h.conns tx) n).1)
              (view h.event_switch))
            (rw miss (λ e. (v.agrees rx u j).0 (others.1 e), λ e. others.0 ((v.agrees rx u j).1 e)))
    ];
  }

  switch_learns-Inv :
      (n : SubscriptionNotification) (rest : List SubscriptionNotification)
      → h.pending ≡ n ∷ rest
      → Inv (record h { pending = rest; event_switch = (on_notification n h.event_switch).0 })
  unfolding settled drain
  switch_learns-Inv n rest e = record {
    valid = on_notification-IsValid h.event_switch v.valid n;
    agrees =
        λ tx u j. rw (view-on_notification n h.event_switch v.valid) (rw e at (v.agrees tx u j));
  }

  switch_routes-Inv :
      (e : Event) → Inv (record h { event_switch = (route_event always_open e h.event_switch).0 })
  unfolding settled
  switch_routes-Inv e = record {
    valid = route_event-IsValid h.event_switch v.valid always_open e;
    agrees = λ tx u j. rw (view-event_open e h.event_switch v.valid) (v.agrees tx u j);
  }

pub Step-Inv : {h g : Hub} → Step h g → Inv h → Inv g
Step-Inv {h} (handler_asks a tx n fresh e) v = rw e (handler_asks-Inv h v a tx n fresh)
Step-Inv {h} (switch_learns n rest q e) v = rw e (switch_learns-Inv h v n rest q)
Step-Inv {h} (switch_routes ev e) v = rw e (switch_routes-Inv h v ev)

pub Reach-Inv : {h g : Hub} → Inv h → Reach h g → Inv g
Reach-Inv v here = v
Reach-Inv v (next r s) = Step-Inv s (Reach-Inv v r)

pub new_hub-Inv : (levels : Sender → ℕ) → Inv (new_hub levels)
unfolding new_hub new_switch settled drain view lookup new_connection
new_hub-Inv levels = record {
  valid = record { topics = tt; ids = tt };
  agrees = λ tx t j. (λ e. absurd (ground (arith, e)), λ e. absurd (ground (arith, e)));
}
