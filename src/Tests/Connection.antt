-- ===== src/Tests/Connection.antt =====
-- A connection's loop on a few arms, its queues, and what a handler and an application hold.
use hardlight.Prelude.{
  ℕ, ◌+◌, ◌≤◌, ◌≡◌, true, none, some, Option, List, [], ◌∷◌, arith, if◌then◌else◌, count, leb,
}
use hardlight.Topic.{Topic, topic_eq}
use hardlight.Wire.{Bytes, ok, rpc_request, rpc_response, binary, ClientMessage}
use hardlight.Codec.{Codec, decode_frame}
use hardlight.Server.Connection.{
  Connection, Answers, Arm, response, message, Effect, new_connection, run_connection,
}
use hardlight.Server.Connection.Flags.{spawn_tag, response_tag}
use hardlight.Server.Connection.Rounds.{ReadsFit, one_task_per_id}
use hardlight.Server.Connection.Select.{Queues}
use hardlight.Tests.Data.{all_well, plain_flate, client_codec, server_codec}

-- The client's codec, for ids that are bytes.
abbrev read_byte : Bytes → Option ClientMessage
read_byte [] = none
read_byte (id ∷ internal) = if leb id 255 then some (rpc_request id internal) else none

abbrev byte_codec : Codec ClientMessage
byte_codec = record { to_bytes = client_codec.to_bytes; from_bytes = read_byte }

byte_codec-ReadsFit : ReadsFit plain_flate byte_codec server_codec
unfolding decode_frame
byte_codec-ReadsFit [] id internal h = ground (arith, h)
byte_codec-ReadsFit (b ∷ bs) id internal h = ground (arith, h)

-- A request, the same id again, its response, and the id once more.
abbrev arms : List (Answers × Arm)
arms =
    (all_well, message (binary (4 ∷ 9 ∷ [])))
    ∷ (all_well, message (binary (4 ∷ 8 ∷ [])))
    ∷ (all_well, response (rpc_response 4 (ok [])))
    ∷ (all_well, message (binary (4 ∷ 7 ∷ [])))
    ∷ []

one_task_per_id_example :
    (c : Connection) × (effects : List Effect) × (run_connection plain_flate byte_codec server_codec
        1 arms
        (new_connection 6)
      ≡ some (c, effects))
    × ((i : ℕ) → count spawn_tag i effects ≤ count response_tag i arms + 1)
one_task_per_id_example =
    one_task_per_id plain_flate byte_codec server_codec 1 6 arms byte_codec-ReadsFit
      (tt, (tt, (omega arith, (tt, tt))))

abbrev queues : Queues
queues = record {
  rpc_rx = rpc_response 4 (ok []) ∷ [];
  state_change_rx = [] ∷ [];
  events_rx = [];
  proxy_subscription_notification_rx = [];
  ws_stream = some (binary (4 ∷ 7 ∷ [])) ∷ none ∷ [];
}

abbrev news : Topic
news = record { inner = b'n' ∷ []; is_string = true }

abbrev connection : Connection
connection = new_connection 6
