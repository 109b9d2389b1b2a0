-- ===== src/Wire.antt =====
-- src/wire.rs, and the data of src/server.rs that crosses the wire or the channels: errors, topics,
-- events, state updates and the two message types. A byte is a number below 256.
use hardlight.Prelude.{ℕ, List}
use hardlight.Topic.{Topic}

abbrev pub Bytes : Type 0
Bytes = List ℕ

pub data RpcHandlerError : Type 0 where
  client_not_connected : RpcHandlerError
  too_many_calls_in_flight : RpcHandlerError
  client_encode_error client_decode_error : RpcHandlerError
  server_encode_error server_decode_error : RpcHandlerError
  client_compress_error client_decompress_error : RpcHandlerError
  server_compress_error server_decompress_error : RpcHandlerError
  handler_panicked : RpcHandlerError

-- `Result<T, RpcHandlerError>`
pub data HandlerResult {ℓ} (A : Type ℓ) : Type ℓ where
  ok : A → HandlerResult A
  err : RpcHandlerError → HandlerResult A

pub record Event : Type 0 where
  pub topic : Topic
  pub payload : Bytes

-- `Event::new`: the payload has been turned into bytes by its own `Into`.
unfoldable pub event_new : Topic → Bytes → Event
event_new topic payload = record { topic = topic; payload = payload }

-- The field `data` of the source is `bytes`.
pub record StateUpdate : Type 0 where
  pub index : ℕ
  pub bytes : Bytes

pub data ClientMessage : Type 0 where
  rpc_request : (id : ℕ) → (internal : Bytes) → ClientMessage

pub data ServerMessage : Type 0 where
  rpc_response : (id : ℕ) → (output : HandlerResult Bytes) → ServerMessage
  new_event : (topic : Topic) → (payload : Bytes) → ServerMessage
  state_change : List StateUpdate → ServerMessage

-- A WebSocket message, as far as the program looks at it.
pub data WsMessage : Type 0 where
  binary : Bytes → WsMessage
  other : WsMessage
