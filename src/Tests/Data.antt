-- ===== src/Tests/Data.antt =====
-- Libraries that are simple enough to run: a codec that prefixes the id, and no compression.
use hardlight.Prelude.{ℕ, ◌≡◌, refl, Option, none, some, [], ◌∷◌, ◌++◌, arith, true}
use hardlight.Wire.{
  Bytes, ok, err, ClientMessage, rpc_request, ServerMessage, rpc_response, new_event, state_change,
}
use hardlight.Codec.{Codec, Flate, RoundTrips, Inflates}
use hardlight.Server.Connection.{Answers}
use hardlight.System.Session.{Setting}
use hardlight.System.Session.Correct.{IsFaithful}

abbrev pub plain_flate : Flate
plain_flate = record {
  Compressor = Bytes;
  Decompressor = Bytes;
  new_compressor = λ level. [];
  compressor_write = λ c msg. some (c ++ msg);
  compressor_finish = λ c. some c;
  new_decompressor = [];
  decompressor_write = λ d msg. some (d ++ msg);
  decompressor_finish = λ d. some d;
}

pub plain_flate-Inflates : Inflates plain_flate
plain_flate-Inflates level msg bs c w f = (bs, refl, ground arith)

abbrev client_to : ClientMessage → Option Bytes
client_to (rpc_request id internal) = some (id ∷ internal)

abbrev client_from : Bytes → Option ClientMessage
client_from [] = none
client_from (id ∷ internal) = some (rpc_request id internal)

abbrev pub client_codec : Codec ClientMessage
client_codec = record { to_bytes = client_to; from_bytes = client_from }

-- It writes successful responses only.
abbrev server_to : ServerMessage → Option Bytes
server_to (rpc_response id (ok output)) = some (id ∷ output)
server_to (rpc_response id (err e)) = none
server_to (new_event topic payload) = none
server_to (state_change changes) = none

abbrev server_from : Bytes → Option ServerMessage
server_from [] = none
server_from (id ∷ output) = some (rpc_response id (ok output))

abbrev pub server_codec : Codec ServerMessage
server_codec = record { to_bytes = server_to; from_bytes = server_from }

pub client_codec-RoundTrips : RoundTrips client_codec
client_codec-RoundTrips (rpc_request id internal) bs h = ground (arith, h)

pub server_codec-RoundTrips : RoundTrips server_codec
server_codec-RoundTrips (rpc_response id (ok output)) bs h = ground (arith, h)
server_codec-RoundTrips (rpc_response id (err e)) bs h = absurd (ground (arith, h))
server_codec-RoundTrips (new_event topic payload) bs h = absurd (ground (arith, h))
server_codec-RoundTrips (state_change changes) bs h = absurd (ground (arith, h))

-- Every caller asks its own number, and the handler replies with the request.
abbrev pub echo : Setting ℕ
echo = record {
  z = plain_flate;
  client_codec = client_codec;
  server_codec = server_codec;
  client_state = record { apply_changes = λ changes s. (s, ok tt) };
  question = λ k. k ∷ [];
  Replies = λ request output. output ≡ ok request;
}

pub echo-IsFaithful : IsFaithful echo 0
echo-IsFaithful = record {
  requests = client_codec-RoundTrips;
  responses = server_codec-RoundTrips;
  frames = plain_flate-Inflates;
}

abbrev pub all_well : Answers
all_well = record { worker_ok = true; socket_ok = true; switch_ok = true; random = 1 ∷ 2 ∷ [] }
