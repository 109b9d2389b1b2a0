-- ===== src/Tests/Methods.antt =====
-- A trait with one method, which gives back its argument, called over a connection.
use hardlight.Prelude.{
  ℕ, ◌≡◌, refl, true, Option, none, some, List, [], ◌∷◌, ◌++◌, arith, get_elem?, count,
}
use hardlight.Wire.{Bytes, ok, rpc_response, binary}
use hardlight.Codec.{Codec, RoundTrips, decode_frame, encode_frame, deflate}
use hardlight.Client.{Client, Effect, on_call, on_message, new_client, position}
use hardlight.Client.Sends.{frames}
use hardlight.Macros.Rpc.{
  Method, first, RpcCall, this, that, Implementation, method, no_methods, call_of, handle_rpc_call,
}
use hardlight.Server.Connection
use hardlight.Server.Connection.{
  connection_round, new_connection, spawn_rpc, on_request, on_response, send_msg,
}
use hardlight.System.Session.{
  Setting, Session, call, request_arrives, task_ends, responds, response_arrives, Reach, here, next,
  new_session, spawned,
}
use hardlight.System.Session.Correct.{IsFaithful}
use hardlight.System.Session.Deliveries.{Delivery, settled, round}
use hardlight.System.Session.Methods.{generated, GetsResult, method_answers}
use hardlight.Tests.Data.{
  all_well, plain_flate, client_codec, server_codec, client_codec-RoundTrips,
  server_codec-RoundTrips, plain_flate-Inflates,
}
use hardlight.Tests.Session.{start, accepted, answered}

abbrev read_number : Bytes → Option ℕ
read_number [] = none
read_number (n ∷ rest) = some n

abbrev number : Codec ℕ
number = record { to_bytes = λ n. some (n ∷ []); from_bytes = read_number }

abbrev same : Method
same = record { Args = ℕ; Out = ℕ; out_codec = number }

abbrev write_call : RpcCall (same ∷ []) → Option Bytes
write_call (this n) = some (n ∷ [])
write_call (that c) = elim c [ ]

abbrev read_call : Bytes → Option (RpcCall (same ∷ []))
read_call [] = none
read_call (n ∷ rest) = some (this n)

abbrev calls : Codec (RpcCall (same ∷ []))
calls = record { to_bytes = write_call; from_bytes = read_call }

calls-RoundTrips : RoundTrips calls
calls-RoundTrips (this n) bs h = ground (arith, h)
calls-RoundTrips (that c) bs h = elim c [ ]

abbrev methods : Implementation ℕ (same ∷ [])
methods = method (λ n state. (state, ok n)) no_methods

abbrev served : Setting ℕ
served =
    generated plain_flate client_codec server_codec
      (record { apply_changes = λ changes s. (s, ok tt) }) calls methods (λ k. k ∷ [])

served-IsFaithful : IsFaithful served 0
served-IsFaithful = record {
  requests = client_codec-RoundTrips;
  responses = server_codec-RoundTrips;
  frames = plain_flate-Inflates;
}

-- Up to the response, which is on its way.
served_run : Reach served 0 start answered
unfolding new_session new_client new_connection on_call frames position deflate spawned
    connection_round Connection.on_message on_request on_response send_msg encode_frame decode_frame
    handle_rpc_call
served_run =
    next
      (next
        (next (next here (call true 7 refl)) (
          request_arrives all_well (0 ∷ 7 ∷ []) [] accepted.server (spawn_rpc 0 (7 ∷ []) ∷ []) refl
            refl refl refl))
        (task_ends [] [] 0 (7 ∷ []) (ok (7 ∷ [])) refl (0, 0, refl) refl))
      (responds all_well (rpc_response 0 (ok (7 ∷ []))) [] answered.server (0 ∷ 7 ∷ []) refl refl
        refl)

abbrev taken : Client ℕ × List Effect
taken =
    on_message plain_flate server_codec served.client_state answered.client (binary (0 ∷ 7 ∷ []))

abbrev over : Session ℕ
over = record answered { client = taken.0; s2c = [] }

last_round : Delivery served 0 1 (taken.1 ++ []) answered over
last_round = round (response_arrives (0 ∷ 7 ∷ []) [] refl refl) refl settled

waits : get_elem? answered.client.active_rpc_calls 0 ≡ some (some 7)
unfolding new_session new_client on_call position deflate
waits = refl

method_answers_example :
    GetsResult plain_flate client_codec server_codec served.client_state calls methods
      (λ k. k ∷ [])
      first
      7
      7
      (taken.1 ++ [])
unfolding new_session count call_of
method_answers_example =
    method_answers plain_flate client_codec server_codec served.client_state calls methods
      (λ k. k ∷ []) 0 served-IsFaithful calls-RoundTrips (λ n bs h. ground (arith, h)) first 7 7
      refl (λ state out gives e. ground (arith, e)) 6 6 0 served_run 0 waits refl last_round refl
