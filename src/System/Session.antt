-- ===== src/System/Session.antt =====
-- A connection as a whole: the loop of the client, the loop of its connection handler, the handler's
-- tasks, and the channels and the socket between them, which keep order. A step is one round of one
-- of the parts.
pub mod Queues
pub mod Frames
pub mod Rounds
pub mod Invariant
pub mod ClientSteps
pub mod ClientReads
pub mod ServerSteps
pub mod TaskSteps
pub mod Losses
pub mod Deliveries
pub mod Progress
pub mod Liveness
pub mod Mirror
pub mod Heard
pub mod Methods
pub mod Correct
use hardlight.Prelude.{ℕ, ◌≡◌, Bool, true, false, Option, none, some, List, [], ◌∷◌, ◌++◌, length}
use hardlight.Topic.{Topic}
use hardlight.Wire.{
  Bytes, Event, StateUpdate, HandlerResult, ok, err, ClientMessage, rpc_request, ServerMessage,
  rpc_response, new_event, state_change, WsMessage, binary,
}
use hardlight.Codec.{Codec, Flate, encode_frame, decode_frame}
use hardlight.Channels.{Sender, ProxiedSubscriptionNotification}
use hardlight.Client.{Caller, Client, ClientState, new_client, on_call, on_message}
use hardlight.Client.Sends.{frames}
use hardlight.Server.Connection.{
  Connection, Answers, Arm, Effect, transmit, spawn_rpc, tell_switch, new_connection,
  connection_round, response, message, state_changes, event, subscription,
}

-- What the two ends run with: the libraries, the client's state, the request that a caller makes
-- (a `oneshot` sender is used for one call), and what the handler may reply to a request.
pub record Setting (S : Type 0) : Type 1 where
  pub z : Flate
  pub client_codec : Codec ClientMessage
  pub server_codec : Codec ServerMessage
  pub client_state : ClientState S
  pub question : Caller → Bytes
  pub Replies : Bytes → HandlerResult Bytes → Type 0

pub record Session (S : Type 0) : Type 0 where
  pub client : Client S
  pub c2s : List Bytes
  pub server : Connection
  pub tasks : List (ℕ × Bytes)
  pub rpc_rx : List ServerMessage
  pub s2c : List Bytes
  -- Requests that the server's worker did not decode, and responses that did not go out.
  pub lost_requests : List Bytes
  pub lost_responses : List ServerMessage

unfoldable pub new_session : {S : Type 0} → ℕ → ℕ → S → Session S
new_session level agreed initial = record {
  client = new_client level initial;
  c2s = [];
  server = new_connection agreed;
  tasks = [];
  rpc_rx = [];
  s2c = [];
  lost_requests = [];
  lost_responses = [];
}

-- The tasks that a round of the handler's loop spawns.
unfoldable pub spawned : List Effect → List (ℕ × Bytes)
spawned [] = []
spawned (transmit frame ∷ effects) = spawned effects
spawned (spawn_rpc id internal ∷ effects) = (id, internal) ∷ spawned effects
spawned (tell_switch n ∷ effects) = spawned effects

module _ {S : Type 0} (w : Setting S) (tx : Sender) where
  open w use {z, client_codec, server_codec, client_state, question, Replies}

  -- A round of the handler's loop.
  abbrev pub serve : Answers → Connection → Arm → Option (Connection × List Effect)
  serve a c arm = connection_round z client_codec server_codec a tx c arm

  pub data Step (σ τ : Session S) : Type 0 where
    -- The application makes a call; the socket may fail.
    call :
        (socket_ok : Bool) (k : Caller)
        → (let r = on_call z client_codec socket_ok σ.client (question k) k in
            τ ≡ record σ { client = r.0; c2s = σ.c2s ++ frames r.1 })
        → Step σ τ
    -- The server takes the next frame of the client.
    request_arrives :
        (a : Answers) (frame : Bytes) (rest : List Bytes) (c : Connection) (effects : List Effect)
        → σ.c2s ≡ frame ∷ rest
        → a.worker_ok ≡ true
        → serve a σ.server (message (binary frame)) ≡ some (c, effects)
        → τ ≡ record σ { c2s = rest; server = c; tasks = σ.tasks ++ spawned effects }
        → Step σ τ
    -- The worker that decodes the frame fails.
    loses_request :
        (a : Answers) (frame : Bytes) (rest : List Bytes) (c : Connection) (effects : List Effect)
        → σ.c2s ≡ frame ∷ rest
        → a.worker_ok ≡ false
        → serve a σ.server (message (binary frame)) ≡ some (c, effects)
        → τ ≡ record σ {
          c2s = rest;
          server = c;
          tasks = σ.tasks ++ spawned effects;
          lost_requests = σ.lost_requests ++ (frame ∷ []);
        }
        → Step σ τ
    -- A task ends; tasks end in any order.
    task_ends :
        (before after : List (ℕ × Bytes)) (id : ℕ) (internal : Bytes) (output : HandlerResult Bytes)
        → σ.tasks ≡ before ++ ((id, internal) ∷ after)
        → Replies internal output
        → τ
          ≡ record σ { tasks = before ++ after; rpc_rx = σ.rpc_rx ++ (rpc_response id output ∷ []) }
        → Step σ τ
    -- The server takes a response from its tasks, and the send succeeds.
    responds :
        (a : Answers) (msg : ServerMessage) (rest : List ServerMessage) (c : Connection)
        (frame : Bytes)
        → σ.rpc_rx ≡ msg ∷ rest
        → serve a σ.server (response msg) ≡ some (c, transmit frame ∷ [])
        → τ ≡ record σ { server = c; rpc_rx = rest; s2c = σ.s2c ++ (frame ∷ []) }
        → Step σ τ
    -- The server takes a response from its tasks, and the send fails.
    loses_response :
        (a : Answers) (msg : ServerMessage) (rest : List ServerMessage) (c : Connection)
        → σ.rpc_rx ≡ msg ∷ rest
        → serve a σ.server (response msg) ≡ some (c, [])
        → τ
          ≡ record σ { server = c; rpc_rx = rest; lost_responses = σ.lost_responses ++ (msg ∷ []) }
        → Step σ τ
    -- The server sends a state update or an event, or deals with a subscription.
    pushes_state :
        (a : Answers) (changes : List StateUpdate) (c : Connection) (frame : Bytes)
        → serve a σ.server (state_changes changes) ≡ some (c, transmit frame ∷ [])
        → τ ≡ record σ { server = c; s2c = σ.s2c ++ (frame ∷ []) }
        → Step σ τ
    pushes_event :
        (a : Answers) (e : Event) (c : Connection) (frame : Bytes)
        → serve a σ.server (event e) ≡ some (c, transmit frame ∷ [])
        → τ ≡ record σ { server = c; s2c = σ.s2c ++ (frame ∷ []) }
        → Step σ τ
    loses_state :
        (a : Answers) (changes : List StateUpdate) (c : Connection)
        → serve a σ.server (state_changes changes) ≡ some (c, [])
        → τ ≡ record σ { server = c }
        → Step σ τ
    loses_event :
        (a : Answers) (e : Event) (c : Connection)
        → serve a σ.server (event e) ≡ some (c, [])
        → τ ≡ record σ { server = c }
        → Step σ τ
    subscribes :
        (a : Answers) (n : ProxiedSubscriptionNotification) (c : Connection) (effects : List Effect)
        → serve a σ.server (subscription n) ≡ some (c, effects)
        → τ ≡ record σ { server = c }
        → Step σ τ
    -- The client takes the next frame of the server.
    response_arrives :
        (frame : Bytes) (rest : List Bytes)
        → σ.s2c ≡ frame ∷ rest
        → τ ≡ record σ {
          client = (on_message z server_codec client_state σ.client (binary frame)).0;
          s2c = rest;
        }
        → Step σ τ

  pub data Reach (σ : Session S) : Session S → Type 0 where
    here : Reach σ σ
    next : {τ υ : Session S} → Reach σ τ → Step τ υ → Reach σ υ
