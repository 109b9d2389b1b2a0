-- ===== src/Tests/Mirror.antt =====
-- A server that writes its state once, and the client that follows.
use hardlight.Prelude.{◌≡◌, refl, Option, none, some, [], ◌∷◌, arith}
use hardlight.Wire.{Bytes, ServerMessage, rpc_response, new_event, state_change, binary}
use hardlight.Codec.{Codec, RoundTrips, encode_frame, deflate}
use hardlight.Client.{on_message}
use hardlight.Server.Connection.{connection_round, send_msg, new_connection, forward}
use hardlight.System.Session.{
  Setting, Session, Reach, here, next, pushes_state, response_arrives, new_session,
}
use hardlight.System.Session.Correct.{IsFaithful}
use hardlight.System.Session.Mirror.{
  generated_state, pushed, to_come, apply_pushes, client_follows_pushes,
  client_state_is_last_written,
}
use hardlight.Macros.State.{State, diff, drop_guard}
use hardlight.Macros.State.Order.{run_writes}
use hardlight.Tests.Data.{
  plain_flate, plain_flate-Inflates, client_codec, client_codec-RoundTrips, all_well,
}
use hardlight.Tests.State.{fields, state_of, second_set, fields-AllRoundTrip}

-- It writes a single update only.
abbrev state_to : ServerMessage → Option Bytes
state_to (rpc_response id output) = none
state_to (new_event topic payload) = none
state_to (state_change []) = none
state_to (state_change (u ∷ [])) = some (u.index ∷ u.bytes)
state_to (state_change (u ∷ v ∷ us)) = none

abbrev state_from : Bytes → Option ServerMessage
state_from [] = none
state_from (index ∷ bytes) = some (state_change (record { index = index; bytes = bytes } ∷ []))

abbrev state_codec : Codec ServerMessage
state_codec = record { to_bytes = state_to; from_bytes = state_from }

state_codec-RoundTrips : RoundTrips state_codec
state_codec-RoundTrips (rpc_response id output) bs h = absurd (ground (arith, h))
state_codec-RoundTrips (new_event topic payload) bs h = absurd (ground (arith, h))
state_codec-RoundTrips (state_change []) bs h = absurd (ground (arith, h))
state_codec-RoundTrips (state_change (u ∷ [])) bs h = ground (arith, h)
state_codec-RoundTrips (state_change (u ∷ v ∷ us)) bs h = absurd (ground (arith, h))

abbrev mirror : Setting (State fields)
mirror = record {
  z = plain_flate;
  client_codec = client_codec;
  server_codec = state_codec;
  client_state = generated_state fields;
  question = λ k. k ∷ [];
  Replies = λ request output. Unit;
}

mirror-IsFaithful : IsFaithful mirror 0
mirror-IsFaithful = record {
  requests = client_codec-RoundTrips;
  responses = state_codec-RoundTrips;
  frames = plain_flate-Inflates;
}

abbrev fresh : Session (State fields)
fresh = new_session 6 6 (state_of 2 3)

-- The handler has written 5 to the second field.
abbrev written : Session (State fields)
written = record fresh { s2c = (1 ∷ 5 ∷ []) ∷ [] }

written_run : Reach mirror 0 fresh written
unfolding new_session new_connection connection_round forward send_msg encode_frame deflate
written_run =
    next here (pushes_state all_well (second_set ∷ []) fresh.server (1 ∷ 5 ∷ []) refl refl)

abbrev followed : Session (State fields)
followed = record written {
  client =
      (on_message plain_flate state_codec (generated_state fields) fresh.client
        (binary (1 ∷ 5 ∷ []))).0;
  s2c = [];
}

followed_run : Reach mirror 0 fresh followed
unfolding new_session
followed_run = next written_run (response_arrives (1 ∷ 5 ∷ []) [] refl refl)

client_follows_pushes_example :
    to_come mirror 0 written
    ≡ apply_pushes (generated_state fields) (pushed mirror 0 written_run) (state_of 2 3)
client_follows_pushes_example =
    client_follows_pushes mirror 0 mirror-IsFaithful 6 6 (state_of 2 3) written_run

client_state_is_last_written_example : followed.client.state ≡ state_of 2 5
unfolding new_session pushed run_writes drop_guard diff written_run followed_run
client_state_is_last_written_example =
    client_state_is_last_written fields mirror 0 mirror-IsFaithful fields-AllRoundTrip refl 6 6
      (state_of 2 3) followed_run (state_of 2 5 ∷ []) (some (second_set ∷ []) ∷ []) refl refl refl
