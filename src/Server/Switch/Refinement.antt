-- ===== src/Server/Switch/Refinement.antt =====
-- The event switch refines an abstract register of subscriptions.
use hardlight.Prelude.{
  ◌≡◌, refl, ◌∙◌, ap, fun_ext, Bool, ◌&&◌, Option, none, some, List, [], ◌∷◌, ◌==◌, if◌then◌else◌,
  list_eq, nat_eq,
}
use hardlight.Topic.{Topic, topic_eq}
use hardlight.Channels.{Sender, SubscriptionId, SubscriptionNotification}
use hardlight.Server.Switch.{
  EventSwitch, Input, event, notification, Turn, switch_turn, run_switch, on_notification,
}
use hardlight.Server.Switch.Validity.{IsValid, route_event-IsValid, on_notification-IsValid}
use hardlight.Server.Switch.View.{
  view, keep_open, view-subscribe, view-unsubscribe, view-route_event,
}

-- Who is subscribed to what.
abbrev pub Register : Type 0
Register = Topic → SubscriptionId → Option Sender

-- What an input does to the register.
unfoldable pub register_turn : (Sender → Bool) → Input → Register → Register
register_turn is_open (event e) r u j = if e.topic == u then keep_open is_open (r u j) else r u j
register_turn is_open (notification (SubscriptionNotification.subscribe t id tx)) r u j =
    if t == u && id == j then some tx else r u j
register_turn is_open (notification (SubscriptionNotification.unsubscribe t id)) r u j =
    if t == u && id == j then none else r u j

unfoldable pub register_run : List Turn → Register → Register
unfolding register_turn
register_run [] r = r
register_run (t ∷ turns) r = register_run turns (register_turn t.is_open t.input r)

pub switch_turn-IsValid :
    (is_open : Sender → Bool) (i : Input) (s : EventSwitch)
    → IsValid s
    → IsValid (switch_turn is_open i s).0
unfolding switch_turn
switch_turn-IsValid is_open (event e) s v = route_event-IsValid s v is_open e
switch_turn-IsValid is_open (notification n) s v = on_notification-IsValid s v n

pub view-switch_turn :
    (is_open : Sender → Bool) (i : Input) (s : EventSwitch)
    → IsValid s
    → view (switch_turn is_open i s).0 ≡ register_turn is_open i (view s)
unfolding switch_turn register_turn on_notification
view-switch_turn is_open (event e) s v =
    fun_ext λ u. fun_ext λ j. view-route_event is_open s e u j v
view-switch_turn is_open (notification (SubscriptionNotification.subscribe t id tx)) s v =
    fun_ext λ u. fun_ext λ j. view-subscribe s t u id j tx
view-switch_turn is_open (notification (SubscriptionNotification.unsubscribe t id)) s v =
    fun_ext λ u. fun_ext λ j. view-unsubscribe s t u id j

-- From a table with one entry to a topic and to an id on, whatever the switch receives, its table
-- keeps one entry to a topic, and below it one to an id.
pub run_switch-IsValid :
    (turns : List Turn) (s : EventSwitch) → IsValid s → IsValid (run_switch turns s).0
unfolding run_switch
run_switch-IsValid [] s v = v
run_switch-IsValid (t ∷ turns) s v =
    run_switch-IsValid turns (switch_turn t.is_open t.input s).0
      (switch_turn-IsValid t.is_open t.input s v)

-- From a table with one entry to a topic and to an id on, whatever the switch receives, its table
-- stands for the register that the inputs, one by one, make
-- of the register that it stood for.
pub view-run_switch :
    (turns : List Turn) (s : EventSwitch)
    → IsValid s
    → view (run_switch turns s).0 ≡ register_run turns (view s)
unfolding run_switch register_run
view-run_switch [] s v = refl
view-run_switch (t ∷ turns) s v =
    view-run_switch turns (switch_turn t.is_open t.input s).0
      (switch_turn-IsValid t.is_open t.input s v)
    ∙ ap (register_run turns) (view-switch_turn t.is_open t.input s v)
