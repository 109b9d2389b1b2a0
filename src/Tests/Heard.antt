-- ===== src/Tests/Heard.antt =====
-- A server that sends one event, and the client that hears it.
use hardlight.Prelude.{
  ◌≡◌, refl, Bool, true, false, List, Option, none, some, [], ◌∷◌, ◌++◌, arith, ℕ,
}
use hardlight.Wire.{Bytes, Event, ServerMessage, rpc_response, new_event, state_change, ok, binary}
use hardlight.Codec.{Codec, RoundTrips, encode_frame, deflate}
use hardlight.Client.{on_message}
use hardlight.Server.Connection.{connection_round, send_msg, new_connection, forward}
use hardlight.System.Session.{
  Setting, Session, Reach, here, next, pushes_event, response_arrives, new_session,
}
use hardlight.System.Session.Correct.{IsFaithful}
use hardlight.System.Session.Heard.{heard, events_in, sent_events, client_hears_events}
use hardlight.Tests.Data.{
  plain_flate, plain_flate-Inflates, client_codec, client_codec-RoundTrips, all_well,
}

-- It writes events of topics of one byte.
abbrev event_to : List ℕ → Bool → Bytes → Option Bytes
event_to [] is_string payload = none
event_to (t ∷ []) true payload = none
event_to (t ∷ []) false payload = some (t ∷ payload)
event_to (t ∷ u ∷ us) is_string payload = none

abbrev message_to : ServerMessage → Option Bytes
message_to (rpc_response id output) = none
message_to (new_event topic payload) = event_to topic.inner topic.is_string payload
message_to (state_change changes) = none

abbrev message_from : Bytes → Option ServerMessage
message_from [] = none
message_from (t ∷ payload) = some (new_event (record { inner = t ∷ []; is_string = false }) payload)

abbrev pub event_codec : Codec ServerMessage
event_codec = record { to_bytes = message_to; from_bytes = message_from }

read_back :
    (inner : List ℕ) (is_string : Bool) (payload bs : Bytes)
    → event_to inner is_string payload ≡ some bs
    → message_from bs ≡ some (new_event (record { inner = inner; is_string = is_string }) payload)
read_back [] is_string payload bs h = absurd (ground (arith, h))
read_back (t ∷ []) true payload bs h = absurd (ground (arith, h))
read_back (t ∷ []) false payload bs h = ground (arith, h)
read_back (t ∷ u ∷ us) is_string payload bs h = absurd (ground (arith, h))

event_codec-RoundTrips : RoundTrips event_codec
event_codec-RoundTrips (rpc_response id output) bs h = absurd (ground (arith, h))
event_codec-RoundTrips (new_event topic payload) bs h =
    read_back topic.inner topic.is_string payload bs h
event_codec-RoundTrips (state_change changes) bs h = absurd (ground (arith, h))

abbrev pub speaker : Setting ℕ
speaker = record {
  z = plain_flate;
  client_codec = client_codec;
  server_codec = event_codec;
  client_state = record { apply_changes = λ changes s. (s, ok tt) };
  question = λ k. k ∷ [];
  Replies = λ request output. Unit;
}

pub speaker-IsFaithful : IsFaithful speaker 0
speaker-IsFaithful = record {
  requests = client_codec-RoundTrips;
  responses = event_codec-RoundTrips;
  frames = plain_flate-Inflates;
}

abbrev pub news : Event
news = record { topic = record { inner = 4 ∷ []; is_string = false }; payload = 8 ∷ [] }

abbrev fresh : Session ℕ
fresh = new_session 6 6 0

abbrev spoken : Session ℕ
spoken = record fresh { s2c = (4 ∷ 8 ∷ []) ∷ [] }

spoken_run : Reach speaker 0 fresh spoken
unfolding new_session new_connection connection_round forward send_msg encode_frame deflate
spoken_run = next here (pushes_event all_well news fresh.server (4 ∷ 8 ∷ []) refl refl)

abbrev listened : Session ℕ
listened = record spoken {
  client =
      (on_message plain_flate event_codec speaker.client_state fresh.client
        (binary (4 ∷ 8 ∷ []))).0;
  s2c = [];
}

listened_run : Reach speaker 0 fresh listened
unfolding new_session
listened_run = next spoken_run (response_arrives (4 ∷ 8 ∷ []) [] refl refl)

client_hears_events_example :
    heard speaker 0 listened_run ++ events_in speaker 0 [] ≡ sent_events speaker 0 listened_run
client_hears_events_example = client_hears_events speaker 0 speaker-IsFaithful 6 6 0 listened_run
