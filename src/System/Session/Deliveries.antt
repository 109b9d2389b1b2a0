-- ===== src/System/Session/Deliveries.antt =====
-- Rounds that only deliver what is under way: the server takes a frame, a task ends, the server sends
-- a response, the client takes a frame. What is left to do falls with each.
use hardlight.Prelude.{
  ℕ, suc, ◌+◌, ◌*◌, ◌≤◌, ◌<◌, ◌≡◌, Option, none, some, List, [], ◌∷◌, ◌++◌, arith, length,
  length-append,
}
use hardlight.Wire.{Bytes, rpc_response, binary}
use hardlight.Channels.{Sender}
use hardlight.Client.{on_message}
use hardlight.Client
use hardlight.Server.Connection
use hardlight.Server.Connection.{Connection, Answers, Effect, message, on_request, connection_round}
use hardlight.System.Session.{
  Setting, Session, Step, call, request_arrives, loses_request, task_ends, responds, loses_response,
  pushes_state, pushes_event, loses_state, loses_event, subscribes, response_arrives, spawned,
  serve,
}

-- The rounds that it takes, at most, to deliver what is under way.
abbrev pub left : {S : Type 0} → Session S → ℕ
left σ = 4 * length σ.c2s + 3 * length σ.tasks + 2 * length σ.rpc_rx + length σ.s2c

module _ {S : Type 0} (w : Setting S) (tx : Sender) where
  open w use {z, server_codec, client_state}

  -- What the client does in a round that delivers; `none` of the other rounds.
  abbrev pub delivered : {σ τ : Session S} → Step w tx σ τ → Option (List Client.Effect)
  delivered (call socket_ok k e) = none
  delivered (request_arrives a frame rest c effects q ok h e) = some []
  delivered (loses_request a frame rest c effects q ok h e) = none
  delivered (task_ends before after id internal output q reply e) = some []
  delivered (responds a msg rest c frame q h e) = some []
  delivered (loses_response a msg rest c q h e) = none
  delivered (pushes_state a changes c frame h e) = none
  delivered (pushes_event a ev c frame h e) = none
  delivered (loses_state a changes c h e) = none
  delivered (loses_event a ev c h e) = none
  delivered (subscribes a n c effects h e) = none
  delivered {σ} (response_arrives frame rest q e) =
      some (on_message z server_codec client_state σ.client (binary frame)).1

  -- A run of `n` rounds that deliver, with what the client does in them.
  pub data Delivery : ℕ → List Client.Effect → Session S → Session S → Type 0 where
    settled : {σ : Session S} → Delivery 0 [] σ σ
    round :
        {n : ℕ} {effects more : List Client.Effect} {σ τ υ : Session S} (s : Step w tx σ τ)
        → delivered s ≡ some effects
        → Delivery n more τ υ
        → Delivery (suc n) (effects ++ more) σ υ

  -- A frame that arrives spawns one task at most.
  spawns_one :
      (a : Answers) (c : Connection) (frame : Bytes) {r : Connection × List Effect}
      → serve w tx a c (message (binary frame)) ≡ some r
      → length (spawned r.1) ≤ 1
  unfolding connection_round Connection.on_message on_request spawned
  spawns_one a c frame h = ground (arith, h)

  delivered_falls :
      {σ τ : Session S} {effects : List Client.Effect} (s : Step w tx σ τ)
      → delivered s ≡ some effects
      → left τ < left σ
  delivered_falls (call socket_ok k e) d = absurd (ground (arith, d))
  delivered_falls {σ} (request_arrives a frame rest c effects q ok h e) d =
      let one = spawns_one a σ.server frame h in
      let split = length-append σ.tasks (spawned effects) in rw (e, q) (omega arith)
  delivered_falls (loses_request a frame rest c effects q ok h e) d = absurd (ground (arith, d))
  delivered_falls {σ} (task_ends before after id internal output q reply e) d =
      let one = length-append before ((id, internal) ∷ after) in
      let two = length-append before after in
      let done = length-append σ.rpc_rx (rpc_response id output ∷ []) in rw (e, q) (omega arith)
  delivered_falls {σ} (responds a msg rest c frame q h e) d =
      let sent = length-append σ.s2c (frame ∷ []) in rw (e, q) (omega arith)
  delivered_falls (loses_response a msg rest c q h e) d = absurd (ground (arith, d))
  delivered_falls (pushes_state a changes c frame h e) d = absurd (ground (arith, d))
  delivered_falls (pushes_event a ev c frame h e) d = absurd (ground (arith, d))
  delivered_falls (loses_state a changes c h e) d = absurd (ground (arith, d))
  delivered_falls (loses_event a ev c h e) d = absurd (ground (arith, d))
  delivered_falls (subscribes a n c effects h e) d = absurd (ground (arith, d))
  delivered_falls (response_arrives frame rest q e) d = rw (e, q) (omega arith)

  -- A run of rounds that deliver ends: its rounds, and what it leaves, are no more than what was left
  -- to do at its start, four times the frames to the server, three times the tasks, twice the responses
  -- that wait for the server, and the frames to the client.
  pub deliveries_end :
      {n : ℕ} {effects : List Client.Effect} {σ τ : Session S}
      → Delivery n effects σ τ
      → n + left τ ≤ left σ
  deliveries_end settled = omega arith
  deliveries_end (round s d r) = omega (arith, delivered_falls s d, deliveries_end r)
