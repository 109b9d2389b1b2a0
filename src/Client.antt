-- ===== src/Client.antt =====
-- The connection loop of `Client::connect` (src/client.rs), the caller's end of a connection.
pub mod Slots
pub mod Callers
pub mod Sends
pub mod Reads
use hardlight.Prelude.{
  ℕ, ◌+◌, ◌%◌, zero, suc, Bool, true, false, Option, none, some, List, [], ◌∷◌, ◌++◌, if◌then◌else◌,
  get_elem?, set, replicate,
}
use mathlib.Core.Option
use hardlight.Wire.{
  Bytes, Event, StateUpdate, RpcHandlerError, HandlerResult, ok, err, WsMessage, binary, other,
  ClientMessage, rpc_request, ServerMessage, rpc_response, new_event, state_change,
  too_many_calls_in_flight, client_encode_error, client_compress_error, client_not_connected,
}
use hardlight.Codec.{Codec, Flate, deflate, inflate}

-- `RpcResponseSender`: the sending half that a caller waits on.
abbrev pub Caller : Type 0
Caller = ℕ

-- The trait `ClientState`. The method changes the state also where it fails.
pub record ClientState (S : Type 0) : Type 0 where
  pub apply_changes : List StateUpdate → S → S × HandlerResult (Unit {0})

pub record Client (S : Type 0) : Type 0 where
  pub compression : ℕ
  pub state : S
  pub active_rpc_calls : List (Option Caller)

-- The state of the loop once the handshake has passed: 256 free slots.
unfoldable pub new_client : {S : Type 0} → ℕ → S → Client S
new_client level initial = record {
  compression = level;
  state = initial;
  active_rpc_calls = replicate 256 none;
}

-- `iter().position(|x| x.is_none())`
unfoldable pub position : {A : Type 0} → List (Option A) → Option ℕ
position [] = none
position (none ∷ slots) = some 0
position (some a ∷ slots) = Option.map suc (position slots)

pub data Arm : Type 0 where
  rpc_request_received : Bytes → Caller → Arm
  message : WsMessage → Arm
  receive_error : Arm
  shutdown : Arm

pub data Effect : Type 0 where
  transmit : Bytes → Effect
  complete : Caller → HandlerResult Bytes → Effect
  broadcast : Event → Effect

module _ {S : Type 0} where
  refuse : Client S → Caller → RpcHandlerError → Client S × List Effect
  refuse c caller e = (c, complete caller (err e) ∷ [])

  -- `completion_tx` goes to a slot only when the message is out.
  send_call : Bool → Client S → ℕ → Caller → Option Bytes → Client S × List Effect
  unfolding refuse
  send_call socket_ok c id caller none = refuse c caller client_compress_error
  send_call socket_ok c id caller (some frame) =
      if socket_ok
      then (
        record c { active_rpc_calls = set c.active_rpc_calls id (some caller) },
        transmit frame ∷ [],
      )
      else refuse c caller client_not_connected

module _ {S : Type 0} (z : Flate) (client : Codec ClientMessage) where
  serialize_call : Bool → Client S → ℕ → Caller → Option Bytes → Client S × List Effect
  unfolding send_call
  serialize_call socket_ok c id caller none = refuse c caller client_encode_error
  serialize_call socket_ok c id caller (some bytes) =
      send_call socket_ok c id caller (deflate z bytes c.compression)

  -- The arm of a call of the application; `socket_ok` says that `stream.send` succeeds.
  unfoldable pub on_call : Bool → Client S → Bytes → Caller → Client S × List Effect
  unfolding serialize_call
  on_call socket_ok c internal caller = elim (position c.active_rpc_calls) [
    | none ↦ refuse c caller too_many_calls_in_flight
    | some id ↦
        serialize_call socket_ok c id caller (client.to_bytes (rpc_request (id % 256) internal))
  ]

module _ {S : Type 0} (cs : ClientState S) where
  taken : Client S → ℕ → HandlerResult Bytes → Option (Option Caller) → Client S × List Effect
  taken c id output (some (some caller)) =
      (record c { active_rpc_calls = set c.active_rpc_calls id none }, complete caller output ∷ [])
  taken c id output (some none) = (c, [])
  taken c id output none = (c, [])

  -- A decoded message of the server. An id is below 256, so that the index is in bounds.
  unfoldable pub on_server_message : Client S → ServerMessage → Client S × List Effect
  unfolding taken
  on_server_message c (rpc_response id output) = taken c id output (get_elem? c.active_rpc_calls id)
  on_server_message c (state_change changes) =
      (record c { state = (cs.apply_changes changes c.state).0 }, [])
  on_server_message c (new_event topic payload) =
      (c, broadcast (record { topic = topic; payload = payload }) ∷ [])

module _ {S : Type 0} (z : Flate) (server : Codec ServerMessage) (cs : ClientState S) where
  handle_parsed : Client S → Option ServerMessage → Client S × List Effect
  handle_parsed c none = (c, [])
  handle_parsed c (some msg) = on_server_message cs c msg

  handle_inflated : Client S → Option Bytes → Client S × List Effect
  unfolding handle_parsed
  handle_inflated c none = (c, [])
  handle_inflated c (some bytes) = handle_parsed c (server.from_bytes bytes)

  -- The arm of the socket.
  unfoldable pub on_message : Client S → WsMessage → Client S × List Effect
  unfolding handle_inflated
  on_message c (binary frame) = handle_inflated c (inflate z frame)
  on_message c other = (c, [])

module _ {S : Type 0} (z : Flate) (client : Codec ClientMessage) (server : Codec ServerMessage)
    (cs : ClientState S) where
  -- One round of `select!`; `none` is the `break` at the application's shutdown.
  unfoldable pub client_round : Bool → Client S → Arm → Option (Client S × List Effect)
  unfolding on_call on_message on_server_message
  client_round socket_ok c (rpc_request_received internal caller) =
      some (on_call z client socket_ok c internal caller)
  client_round socket_ok c (message msg) = some (on_message z server cs c msg)
  client_round socket_ok c receive_error = some (c, [])
  client_round socket_ok c shutdown = none

  -- The loop over the arms that fire, up to the shutdown; each comes with the socket's answer.
  unfoldable pub run_client : List (Bool × Arm) → Client S → Client S × List Effect
  run_client [] c = (c, [])
  run_client ((socket_ok, arm) ∷ arms) c = elim (client_round socket_ok c arm) [
    | none ↦ (c, [])
    | some (c', effects) ↦ let (c'', more) = run_client arms c' in (c'', effects ++ more)
  ]
