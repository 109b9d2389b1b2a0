-- ===== src/System/Publishing/Invariant.antt =====
-- The tables of the connections and the switch agree throughout a run.
use hardlight.Prelude.{
  ℕ, ◌≡◌, refl, sym, ◌∙◌, ap, true, false, Option, none, some, inl, inr, List, [], ◌∷◌, ◌++◌, arith,
  nat_beq, nat_beq_iff, Bool-cases, list_eq, nat_eq,
}
use hardlight.Topic.{topic_eq}
use hardlight.Wire.{Event}
use hardlight.Channels.{Sender, SubscriptionNotification, ProxiedSubscriptionNotification}
use hardlight.Server.Connection.{Connection, Answers, on_subscription, new_connection, event}
use hardlight.Server.Switch.{Input, Inbox, select_input, notification}
use hardlight.System.Hub.{
  Hub, new_hub, told, update, settled, IsFresh, handler_asks, switch_learns, switch_routes,
}
use hardlight.System.Hub.Invariant.{Inv, Step-Inv, new_hub-Inv}
use hardlight.System.Session.{Setting, new_session}
use hardlight.System.Publishing.{
  World, new_world, hub_of, queued, Move, goes_on, asks, other_asks, emits, learns, routes,
  takes_event, fails_event, Run, start, go,
}
use hardlight.System.Publishing.Tables.{IsApart-subscriptions, round-subscriptions}

-- Of a connection only its table matters.
Inv-same_tables :
    (h g : Hub)
    → Inv h
    → g.event_switch ≡ h.event_switch
    → g.pending ≡ h.pending
    → ((rx : Sender) → (g.conns rx).subscriptions ≡ (h.conns rx).subscriptions)
    → Inv g
unfolding settled
Inv-same_tables h g v e p same = record {
  valid = rw e v.valid;
  agrees = λ rx t j. rw (e, p, same rx) (v.agrees rx t j);
}

Inv-handler_asks :
    (h : Hub)
    → Inv h
    → (a : Answers) (rx : Sender) (n : ProxiedSubscriptionNotification) (c : Connection)
    → h.conns rx ≡ c
    → IsFresh h a n
    → (let r = on_subscription a rx c n in
        Inv (record h { conns = update h.conns rx r.0; pending = h.pending ++ told r.1 }))
Inv-handler_asks h i a rx n c own fresh = rw (← own) (Step-Inv (handler_asks a rx n fresh refl) i)

pub same_again : (rx : Sender) → nat_beq rx rx ≡ true
same_again rx = (nat_beq_iff rx rx).1 refl

-- The notifications that wait before the switch takes an input.
abbrev waited : Option (Input × Inbox) → List SubscriptionNotification
waited none = []
waited (some (Input.event e, rest)) = rest.subscription_notification_rx
waited (some (notification n, rest)) = n ∷ rest.subscription_notification_rx

waited-select_input :
    (es : List Event) (ns : List SubscriptionNotification)
    → waited (select_input (record { new_event_rx = es; subscription_notification_rx = ns })) ≡ ns
unfolding select_input
waited-select_input (e ∷ es) ns = refl
waited-select_input [] (n ∷ ns) = refl
waited-select_input [] [] = refl

pub select_input-notifications :
    (inbox : Inbox) {o : Option (Input × Inbox)}
    → select_input inbox ≡ o
    → inbox.subscription_notification_rx ≡ waited o
select_input-notifications inbox h =
    sym (waited-select_input inbox.new_event_rx inbox.subscription_notification_rx) ∙ ap waited h

module _ {S : Type 0} (w : Setting S) (tx : Sender) where
  -- The connection has another state with the same table.
  Inv-goes_on :
      (v u : World S)
      → Inv (hub_of w tx v)
      → u.event_switch ≡ v.event_switch
      → u.inbox.subscription_notification_rx ≡ v.inbox.subscription_notification_rx
      → u.others ≡ v.others
      → u.session.server.subscriptions ≡ v.session.server.subscriptions
      → Inv (hub_of w tx u)
  Inv-goes_on v u i e p o s = Inv-same_tables (hub_of w tx v) (hub_of w tx u) i e p (λ rx.
      elim (Bool-cases (nat_beq tx rx)) [
        | inl hit ↦ rw hit s
        | inr miss ↦ rw miss (ap (λ f. (f rx).subscriptions) o)
      ])

  Inv-asks :
      (v : World S)
      → Inv (hub_of w tx v)
      → (a : Answers) (n : ProxiedSubscriptionNotification) → IsFresh (hub_of w tx v) a n
      → (let r = on_subscription a tx v.session.server n in
          Inv (
            hub_of w tx (record v {
              session = record v.session { server = r.0 };
              inbox = queued w tx v.inbox r.1;
            })))
  Inv-asks v i a n fresh =
      let r = on_subscription a tx v.session.server n in
      let h = hub_of w tx v in
      Inv-same_tables (record h { conns = update h.conns tx r.0; pending = h.pending ++ told r.1 })
        (hub_of w tx (record v {
          session = record v.session { server = r.0 };
          inbox = queued w tx v.inbox r.1;
        }))
        (Inv-handler_asks h i a tx n v.session.server (rw (same_again tx) refl) fresh) refl refl
        (λ rx. elim (Bool-cases (nat_beq tx rx)) [
          | inl hit ↦ rw hit refl
          | inr miss ↦ rw miss refl
        ])

  Inv-other_asks :
      (v : World S)
      → Inv (hub_of w tx v)
      → (a : Answers) (rx : Sender) (n : ProxiedSubscriptionNotification) → nat_beq tx rx ≡ false
      → IsFresh (hub_of w tx v) a n
      → (let r = on_subscription a rx (v.others rx) n in
          Inv (
            hub_of w tx
              (record v { others = update v.others rx r.0; inbox = queued w tx v.inbox r.1 })))
  Inv-other_asks v i a rx n ne fresh =
      let r = on_subscription a rx (v.others rx) n in
      let h = hub_of w tx v in
      Inv-same_tables (record h { conns = update h.conns rx r.0; pending = h.pending ++ told r.1 })
        (hub_of w tx
          (record v { others = update v.others rx r.0; inbox = queued w tx v.inbox r.1 }))
        (Inv-handler_asks h i a rx n (v.others rx) (rw ne refl) fresh) refl refl
        (λ sx. elim (Bool-cases (nat_beq tx sx)) [
          | inl hit ↦
              let distinct : nat_beq rx sx ≡ false =
                ground (arith, ne, nat_beq_iff tx sx, nat_beq_iff rx sx, nat_beq_iff tx rx, hit) in
              rw (hit, distinct) refl
          | inr miss ↦ rw miss refl
        ])

  Move-Inv : {v u : World S} → Move w tx v u → Inv (hub_of w tx v) → Inv (hub_of w tx u)
  Move-Inv {v} {u} (goes_on s q e) i =
      Inv-goes_on v u i (ap World.event_switch e) (ap (λ x. x.inbox.subscription_notification_rx) e)
        (ap World.others e) (IsApart-subscriptions w tx s q)
  Move-Inv {v} (asks a n fresh e) i = rw e (Inv-asks v i a n fresh)
  Move-Inv {v} (other_asks a rx n ne fresh e) i = rw e (Inv-other_asks v i a rx n ne fresh)
  Move-Inv {v} (emits ev e) i = rw e i
  Move-Inv {v} (learns n rest h e) i = rw e (
      Step-Inv
        (switch_learns n rest.subscription_notification_rx (select_input-notifications v.inbox h)
          refl)
        i)
  Move-Inv {v} (routes ev rest h e) i =
      rw (e, ← select_input-notifications v.inbox h) (Step-Inv (switch_routes ev refl) i)
  Move-Inv {v} {u} (takes_event a ev rest c frame q h e) i =
      Inv-goes_on v u i (ap World.event_switch e) (ap (λ x. x.inbox.subscription_notification_rx) e)
        (ap World.others e)
        (rw e (
          round-subscriptions w.z w.client_codec w.server_codec a tx v.session.server (event ev) tt
            h))
  Move-Inv {v} {u} (fails_event a ev rest c q h e) i =
      Inv-goes_on v u i (ap World.event_switch e) (ap (λ x. x.inbox.subscription_notification_rx) e)
        (ap World.others e)
        (rw e (
          round-subscriptions w.z w.client_codec w.server_codec a tx v.session.server (event ev) tt
            h))

  pub Run-Inv : {v u : World S} → Run w tx v u → Inv (hub_of w tx v) → Inv (hub_of w tx u)
  Run-Inv start i = i
  Run-Inv (go r m) i = Move-Inv m (Run-Inv r i)

  pub new_world-Inv :
      (levels : Sender → ℕ) (level agreed : ℕ) (initial : S)
      → Inv (hub_of w tx (new_world levels level agreed initial))
  unfolding new_world new_session new_connection new_hub
  new_world-Inv levels level agreed initial =
      Inv-same_tables (new_hub levels) (hub_of w tx (new_world levels level agreed initial))
        (new_hub-Inv levels) refl refl
        (λ rx. elim (Bool-cases (nat_beq tx rx)) [
          | inl hit ↦ rw hit refl
          | inr miss ↦ rw miss refl
        ])
