-- ===== src/System/Publishing/Tables.antt =====
-- A connection's table of subscriptions changes only when its handler asks for it.
use hardlight.Prelude.{
  ◌≡◌, refl, true, false, Option, none, some, inl, inr, List, Option-cases, get_elem?,
  if◌then◌else◌,
}
use hardlight.Wire.{
  ClientMessage, rpc_request, ServerMessage, rpc_response, new_event, state_change, WsMessage,
  binary, other,
}
use hardlight.Codec.{Codec, Flate, decode_frame, ◌>>=◌}
use hardlight.Channels.{Sender}
use hardlight.Server.Connection.{
  Connection, Answers, Arm, response, state_changes, event, subscription, message, receive_error,
  Effect, forward, on_response, on_request, on_message, connection_round,
}
use hardlight.System.Session.{
  Setting, Session, Step, call, request_arrives, loses_request, task_ends, responds, loses_response,
  pushes_state, pushes_event, loses_state, loses_event, subscribes, response_arrives,
}
use hardlight.System.Publishing.{IsApart}

abbrev Outcome : Type 0
Outcome = Option (Connection × List Effect)

-- The round, if it comes to an end, leaves the table as it was.
abbrev Keeps : Connection → Outcome → Type 0
Keeps c none = Unit
Keeps c (some r) = r.0.subscriptions ≡ c.subscriptions

on_request-Keeps : (c : Connection) (m : ClientMessage) → Keeps c (on_request c m)
unfolding on_request
on_request-Keeps c (rpc_request id internal) = elim (Option-cases (get_elem? c.in_flight id)) [
  | inl e ↦ rw (e, ◌>>=◌) tt
  | inr (true, e) ↦ rw (e, ◌>>=◌) refl
  | inr (false, e) ↦ rw (e, ◌>>=◌) refl
]

module _ (z : Flate) (client : Codec ClientMessage) (server : Codec ServerMessage) (a : Answers)
    (tx : Sender) (c : Connection) where
  on_response-Keeps : (msg : ServerMessage) → Keeps c (on_response z server a c msg)
  unfolding on_response
  on_response-Keeps (rpc_response id output) = elim (Option-cases (get_elem? c.in_flight id)) [
    | inl e ↦ rw (e, ◌>>=◌) tt
    | inr (flag, e) ↦ rw (e, ◌>>=◌, forward) refl
  ]
  on_response-Keeps (new_event topic payload) = tt
  on_response-Keeps (state_change changes) = tt

  on_message-Keeps : (msg : WsMessage) → Keeps c (on_message z client a c msg)
  unfolding on_message
  on_message-Keeps (binary frame) =
      elim (Option-cases (if a.worker_ok then decode_frame z client frame else none)) [
        | inl e ↦ rw e refl
        | inr (m, e) ↦ rw e (on_request-Keeps c m)
      ]
  on_message-Keeps other = refl

  abbrev AsksNothing : Arm → Type 0
  AsksNothing (response msg) = Unit
  AsksNothing (state_changes changes) = Unit
  AsksNothing (event e) = Unit
  AsksNothing (subscription n) = ⊥
  AsksNothing (message msg) = Unit
  AsksNothing receive_error = Unit

  round-Keeps :
      (arm : Arm) → AsksNothing arm → Keeps c (connection_round z client server a tx c arm)
  unfolding connection_round forward
  round-Keeps (response msg) q = on_response-Keeps msg
  round-Keeps (state_changes changes) q = refl
  round-Keeps (event e) q = refl
  round-Keeps (subscription n) q = absurd q
  round-Keeps (message msg) q = on_message-Keeps msg
  round-Keeps receive_error q = refl

  pub round-subscriptions :
      (arm : Arm)
      → AsksNothing arm
      → {d : Connection} {effects : List Effect}
      → connection_round z client server a tx c arm ≡ some (d, effects)
      → d.subscriptions ≡ c.subscriptions
  round-subscriptions arm q h = rw h at (round-Keeps arm q)

module _ {S : Type 0} (w : Setting S) (tx : Sender) where
  open w use {z, client_codec, server_codec}

  pub IsApart-subscriptions :
      {σ τ : Session S} (s : Step w tx σ τ)
      → IsApart w tx s
      → τ.server.subscriptions ≡ σ.server.subscriptions
  IsApart-subscriptions (call socket_ok k e) q = rw e refl
  IsApart-subscriptions {σ} (request_arrives a frame rest c effects p ok h e) q =
      rw e (
        round-subscriptions z client_codec server_codec a tx σ.server (message (binary frame)) tt h)
  IsApart-subscriptions {σ} (loses_request a frame rest c effects p ok h e) q =
      rw e (
        round-subscriptions z client_codec server_codec a tx σ.server (message (binary frame)) tt h)
  IsApart-subscriptions (task_ends before after id internal output p reply e) q = rw e refl
  IsApart-subscriptions {σ} (responds a msg rest c frame p h e) q =
      rw e (round-subscriptions z client_codec server_codec a tx σ.server (response msg) tt h)
  IsApart-subscriptions {σ} (loses_response a msg rest c p h e) q =
      rw e (round-subscriptions z client_codec server_codec a tx σ.server (response msg) tt h)
  IsApart-subscriptions {σ} (pushes_state a changes c frame h e) q =
      rw e
        (round-subscriptions z client_codec server_codec a tx σ.server (state_changes changes) tt h)
  IsApart-subscriptions {σ} (loses_state a changes c h e) q =
      rw e
        (round-subscriptions z client_codec server_codec a tx σ.server (state_changes changes) tt h)
  IsApart-subscriptions (response_arrives frame rest p e) q = rw e refl
  IsApart-subscriptions (pushes_event a ev c frame h e) q = absurd q
  IsApart-subscriptions (loses_event a ev c h e) q = absurd q
  IsApart-subscriptions (subscribes a n c effects h e) q = absurd q
