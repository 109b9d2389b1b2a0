-- ===== src/Server/Connection.antt =====
-- The loop of a connection handler (`Server::spawn_connection_handler` of src/server.rs) and
-- `Server::send_msg`. The handler's tasks and channels are the effects and the inputs of a round.
pub mod Subscriptions
pub mod Flags
pub mod Rounds
pub mod Select
use hardlight.Prelude.{
  ℕ, Bool, true, false, Option, none, some, List, [], ◌∷◌, ◌++◌, if◌then◌else◌, Map, lookup, insert,
  remove, contains_key, get_elem?, set, replicate,
}
use hardlight.Topic.{Topic, topic_eq}
use hardlight.Wire.{
  Bytes, Event, StateUpdate, WsMessage, binary, other, ClientMessage, rpc_request, ServerMessage,
  rpc_response, new_event, state_change,
}
use hardlight.Codec.{Codec, Flate, encode_frame, decode_frame, ◌>>=◌}
use hardlight.Channels.{
  Sender, SubscriptionId, SubscriptionNotification, ProxiedSubscriptionNotification,
}

pub record Connection : Type 0 where
  pub in_flight : List Bool
  pub subscriptions : Map Topic SubscriptionId
  pub compression : ℕ

-- `[false; u8::MAX as usize + 1]`, no subscription, and the level that the handshake has settled.
unfoldable pub new_connection : ℕ → Connection
new_connection level = record {
  in_flight = replicate 256 false;
  subscriptions = [];
  compression = level;
}

-- What an arm of `select!` has received.
pub data Arm : Type 0 where
  response : ServerMessage → Arm
  state_changes : List StateUpdate → Arm
  event : Event → Arm
  subscription : ProxiedSubscriptionNotification → Arm
  message : WsMessage → Arm
  receive_error : Arm

-- What the libraries answer in a round: whether the background thread sends its result, whether the
-- socket takes a message, whether the switch still listens, and the bytes of the random generator.
pub record Answers : Type 0 where
  pub worker_ok : Bool
  pub socket_ok : Bool
  pub switch_ok : Bool
  pub random : SubscriptionId

pub data Effect : Type 0 where
  transmit : Bytes → Effect
  spawn_rpc : ℕ → Bytes → Effect
  tell_switch : SubscriptionNotification → Effect

module _ (z : Flate) (server : Codec ServerMessage) where
  -- The frame that goes out; `none` is `Err(())`, which every caller ignores.
  unfoldable pub send_msg : Answers → ServerMessage → ℕ → Option Bytes
  send_msg a msg level =
      if a.worker_ok
      then (do frame ← encode_frame z server level msg; if a.socket_ok then some frame else none)
      else none

  abbrev pub sent : Option Bytes → List Effect
  sent none = []
  sent (some frame) = transmit frame ∷ []

  -- A round that only sends.
  unfoldable pub forward : Answers → Connection → ServerMessage → Connection × List Effect
  unfolding send_msg
  forward a c msg = (c, sent (send_msg a msg c.compression))

  -- `none` is a panic: `unreachable!()`, or an index out of bounds.
  unfoldable pub on_response :
      Answers → Connection → ServerMessage → Option (Connection × List Effect)
  unfolding forward
  on_response a c (rpc_response id output) = do
    flag ← get_elem? c.in_flight id
    some (forward a (record c { in_flight = set c.in_flight id false }) (rpc_response id output))
  on_response a c (new_event topic payload) = none
  on_response a c (state_change changes) = none

unfoldable pub on_subscription :
    Answers → Sender → Connection → ProxiedSubscriptionNotification → Connection × List Effect
on_subscription a tx c (ProxiedSubscriptionNotification.subscribe topic) =
    let inserted = insert topic a.random c.subscriptions in
    if contains_key topic c.subscriptions
    then (c, [])
    else if a.switch_ok
    then (
      record c { subscriptions = inserted },
      tell_switch (SubscriptionNotification.subscribe topic a.random tx) ∷ [],
    )
    else (record c { subscriptions = remove topic inserted }, [])
on_subscription a tx c (ProxiedSubscriptionNotification.unsubscribe topic) =
    elim (lookup topic c.subscriptions) [
      | none ↦ (c, [])
      | some id ↦
          let left = remove topic c.subscriptions in
          if a.switch_ok
          then (
            record c { subscriptions = left },
            tell_switch (SubscriptionNotification.unsubscribe topic id) ∷ [],
          )
          else (record c { subscriptions = insert topic id left }, [])
    ]

unfoldable pub on_request : Connection → ClientMessage → Option (Connection × List Effect)
on_request c (rpc_request id internal) = do
  busy ← get_elem? c.in_flight id
  some (
      if busy
      then (c, [])
      else (record c { in_flight = set c.in_flight id true }, spawn_rpc id internal ∷ []))

module _ (z : Flate) (client : Codec ClientMessage) where
  abbrev handle_decoded : Connection → Option ClientMessage → Option (Connection × List Effect)
  handle_decoded c none = some (c, [])
  handle_decoded c (some request) = on_request c request

  unfoldable pub on_message : Answers → Connection → WsMessage → Option (Connection × List Effect)
  unfolding on_request
  on_message a c (binary frame) =
      handle_decoded c (if a.worker_ok then decode_frame z client frame else none)
  on_message a c other = some (c, [])

module _ (z : Flate) (client : Codec ClientMessage) (server : Codec ServerMessage) where
  -- One round of the loop. No round ends it.
  unfoldable pub connection_round :
      Answers → Sender → Connection → Arm → Option (Connection × List Effect)
  unfolding on_response on_subscription on_message
  connection_round a tx c (response msg) = on_response z server a c msg
  connection_round a tx c (state_changes changes) =
      some (forward z server a c (state_change changes))
  connection_round a tx c (event e) = some (forward z server a c (new_event e.topic e.payload))
  connection_round a tx c (subscription n) = some (on_subscription a tx c n)
  connection_round a tx c (message msg) = on_message z client a c msg
  connection_round a tx c receive_error = some (c, [])

  -- The loop over the arms that fire, each with what the libraries answer in its round.
  unfoldable pub run_connection :
      Sender → List (Answers × Arm) → Connection → Option (Connection × List Effect)
  run_connection tx [] c = some (c, [])
  run_connection tx ((a, arm) ∷ arms) c = do
    (c1, effects) ← connection_round a tx c arm
    (c2, more) ← run_connection tx arms c1
    some (c2, effects ++ more)
