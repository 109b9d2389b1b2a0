-- ===== src/System/Session/Queues.antt =====
-- The queues of a session, by the id that an entry carries.
use hardlight.Prelude.{ℕ, Option, none, some, []}
use hardlight.Wire.{
  Bytes, HandlerResult, err, handler_panicked, ClientMessage, rpc_request, ServerMessage,
  rpc_response, new_event, state_change,
}

abbrev pub request_id : Option ClientMessage → Option ℕ
request_id none = none
request_id (some (rpc_request id internal)) = some id

abbrev pub request_body : Option ClientMessage → Bytes
request_body none = []
request_body (some (rpc_request id internal)) = internal

abbrev pub response_id : Option ServerMessage → Option ℕ
response_id none = none
response_id (some (rpc_response id output)) = some id
response_id (some (new_event topic payload)) = none
response_id (some (state_change changes)) = none

-- Of an entry that is no response, any output.
abbrev pub response_output : Option ServerMessage → HandlerResult Bytes
response_output none = err handler_panicked
response_output (some (rpc_response id output)) = output
response_output (some (new_event topic payload)) = err handler_panicked
response_output (some (state_change changes)) = err handler_panicked

abbrev pub task_id : ℕ × Bytes → Option ℕ
task_id (id, internal) = some id
