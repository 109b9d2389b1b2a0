-- ===== src/System/Publishing.antt =====
-- A server's event switch and all of its connections, and one of them up to the client's application:
-- the session of connection `tx`, the other connections, the switch with its two receivers, and the
-- channel from the switch to the connection. The loops of the connections never end, so that every
-- send of the switch succeeds.
pub mod Tables
pub mod Invariant
pub mod Path
use hardlight.Prelude.{ℕ, ◌≡◌, Bool, true, false, some, List, [], ◌∷◌, ◌++◌, nat_beq, if◌then◌else◌}
use hardlight.Wire.{Bytes, Event}
use hardlight.Channels.{Sender, SubscriptionNotification, ProxiedSubscriptionNotification}
use hardlight.Server.Connection.{
  Connection, Answers, Effect, transmit, on_subscription, event, new_connection,
}
use hardlight.Server.Switch.{
  EventSwitch, Input, Inbox, select_input, notification, on_notification, route_event, new_switch,
}
use hardlight.Server.Switch.Delivery.{received}
use hardlight.System.Hub.{Hub, told, update, always_open, IsFresh}
use hardlight.System.Session.{
  Setting, Session, Step, serve, new_session, call, request_arrives, loses_request, task_ends,
  responds, loses_response, pushes_state, pushes_event, loses_state, loses_event, subscribes,
  response_arrives,
}

pub record World (S : Type 0) : Type 0 where
  pub session : Session S
  pub others : Sender → Connection
  pub inbox : Inbox
  pub event_switch : EventSwitch
  pub event_rx : List Event

unfoldable pub new_world : {S : Type 0} → (Sender → ℕ) → ℕ → ℕ → S → World S
new_world levels level agreed initial = record {
  session = new_session level agreed initial;
  others = λ rx. new_connection (levels rx);
  inbox = record { new_event_rx = []; subscription_notification_rx = [] };
  event_switch = new_switch;
  event_rx = [];
}

module _ {S : Type 0} (w : Setting S) (tx : Sender) where
  -- All connections with the switch.
  abbrev pub hub_of : World S → Hub
  hub_of v = record {
    conns = update v.others tx v.session.server;
    pending = v.inbox.subscription_notification_rx;
    event_switch = v.event_switch;
  }

  -- The steps of a session in which its connection takes nothing from the switch or its handler's
  -- subscriptions.
  abbrev pub IsApart : {σ τ : Session S} → Step w tx σ τ → Type 0
  IsApart (call socket_ok k e) = Unit
  IsApart (request_arrives a frame rest c effects q ok h e) = Unit
  IsApart (loses_request a frame rest c effects q ok h e) = Unit
  IsApart (task_ends before after id internal output q reply e) = Unit
  IsApart (responds a msg rest c frame q h e) = Unit
  IsApart (loses_response a msg rest c q h e) = Unit
  IsApart (pushes_state a changes c frame h e) = Unit
  IsApart (pushes_event a ev c frame h e) = ⊥
  IsApart (loses_state a changes c h e) = Unit
  IsApart (loses_event a ev c h e) = ⊥
  IsApart (subscribes a n c effects h e) = ⊥
  IsApart (response_arrives frame rest q e) = Unit

  abbrev pub queued : Inbox → List Effect → Inbox
  queued inbox effects = record inbox {
    subscription_notification_rx = inbox.subscription_notification_rx ++ told effects;
  }

  pub data Move (v u : World S) : Type 0 where
    goes_on :
        (s : Step w tx v.session u.session)
        → IsApart s
        → u ≡ record v { session = u.session }
        → Move v u
    -- The connection's loop takes a notification of its handler, and another connection's of its own.
    asks :
        (a : Answers) (n : ProxiedSubscriptionNotification)
        → IsFresh (hub_of v) a n
        → (let r = on_subscription a tx v.session.server n in
            u
            ≡ record v { session = record v.session { server = r.0 }; inbox = queued v.inbox r.1 })
        → Move v u
    other_asks :
        (a : Answers) (rx : Sender) (n : ProxiedSubscriptionNotification)
        → nat_beq tx rx ≡ false
        → IsFresh (hub_of v) a n
        → (let r = on_subscription a rx (v.others rx) n in
            u ≡ record v { others = update v.others rx r.0; inbox = queued v.inbox r.1 })
        → Move v u
    -- The application or a handler emits an event.
    emits :
        (e : Event)
        → u
          ≡ record v { inbox = record v.inbox { new_event_rx = v.inbox.new_event_rx ++ (e ∷ []) } }
        → Move v u
    -- The switch takes what its `select!` gives.
    learns :
        (n : SubscriptionNotification) (rest : Inbox)
        → select_input v.inbox ≡ some (notification n, rest)
        → u ≡ record v { inbox = rest; event_switch = (on_notification n v.event_switch).0 }
        → Move v u
    routes :
        (e : Event) (rest : Inbox)
        → select_input v.inbox ≡ some (Input.event e, rest)
        → (let r = route_event always_open e v.event_switch in
            u ≡ record v {
              inbox = rest;
              event_switch = r.0;
              event_rx = v.event_rx ++ received tx r.1;
            })
        → Move v u
    -- The connection's loop takes the next event of its channel, and sends it or fails to.
    takes_event :
        (a : Answers) (e : Event) (rest : List Event) (c : Connection) (frame : Bytes)
        → v.event_rx ≡ e ∷ rest
        → serve w tx a v.session.server (event e) ≡ some (c, transmit frame ∷ [])
        → u ≡ record v {
          session = record v.session { server = c; s2c = v.session.s2c ++ (frame ∷ []) };
          event_rx = rest;
        }
        → Move v u
    fails_event :
        (a : Answers) (e : Event) (rest : List Event) (c : Connection)
        → v.event_rx ≡ e ∷ rest
        → serve w tx a v.session.server (event e) ≡ some (c, [])
        → u ≡ record v { session = record v.session { server = c }; event_rx = rest }
        → Move v u

  pub data Run (v : World S) : World S → Type 0 where
    start : Run v v
    go : {u t : World S} → Run v u → Move u t → Run v t
