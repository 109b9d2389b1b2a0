-- ===== src/Tests/Session.antt =====
-- One call through both ends of a connection.
use hardlight.Prelude.{ℕ, ◌+◌, ◌≡◌, refl, some, [], ◌∷◌, ◌++◌, get_elem?, set, count, true, false}
use hardlight.Wire.{ok, rpc_response, rpc_request, binary}
use hardlight.Client.{Caller, complete, on_call, on_message, new_client, position}
use hardlight.Client.Sends.{frames}
use hardlight.Codec.{decode_frame, encode_frame, deflate}
use hardlight.Server.Connection.{
  connection_round, new_connection, message, spawn_rpc, on_response, send_msg,
}
use hardlight.System.Session.{
  Session, call, request_arrives, task_ends, responds, Reach, here, next, new_session, serve,
  spawned,
}
use hardlight.System.Session.Queues.{task_id}
use hardlight.System.Session.Invariant.{occupied, request_tag, response_tag, done_tag}
use hardlight.System.Session.Correct.{under_way_once, response_answers_asker, request_is_served}
use hardlight.Tests.Data.{echo, echo-IsFaithful, all_well, plain_flate, client_codec, server_codec}

abbrev pub start : Session ℕ
start = new_session 6 6 0

-- Caller 7 has asked.
abbrev pub asked : Session ℕ
asked =
    let r = on_call plain_flate client_codec true start.client (7 ∷ []) 7 in
    record start { client = r.0; c2s = start.c2s ++ frames r.1 }

pub asked_run : Reach echo 0 start asked
asked_run = next here (call true 7 refl)

pub asked_c2s : asked.c2s ≡ (0 ∷ 7 ∷ []) ∷ []
unfolding new_session new_client on_call frames position deflate
asked_c2s = refl

under_way_once_example :
    count (request_tag echo) 0 asked.c2s
      + count task_id 0 asked.tasks
      + count (done_tag echo) 0 asked.rpc_rx
      + count (response_tag echo) 0 asked.s2c
      + count (request_tag echo) 0 asked.lost_requests
      + count (done_tag echo) 0 asked.lost_responses
    ≡ occupied (get_elem? asked.client.active_rpc_calls 0)
under_way_once_example = under_way_once echo 0 echo-IsFaithful 6 6 0 asked_run 0

request_reads : decode_frame plain_flate client_codec (0 ∷ 7 ∷ []) ≡ some (rpc_request 0 (7 ∷ []))
unfolding decode_frame
request_reads = refl

request_is_served_example :
    serve echo 0 all_well asked.server (message (binary (0 ∷ 7 ∷ [])))
    ≡ some (
      record asked.server { in_flight = set asked.server.in_flight 0 true },
      spawn_rpc 0 (7 ∷ []) ∷ [],
    )
request_is_served_example =
    request_is_served echo 0 echo-IsFaithful 6 6 0 asked_run all_well (0 ∷ 7 ∷ []) [] 0 (7 ∷ [])
      asked_c2s refl request_reads

-- The server has taken the request, its task has ended, and the response is on its way.
abbrev pub accepted : Session ℕ
accepted = record asked {
  c2s = [];
  server = record asked.server { in_flight = set asked.server.in_flight 0 true };
  tasks = asked.tasks ++ ((0, 7 ∷ []) ∷ []);
}

pub accepted_run : Reach echo 0 start accepted
unfolding spawned
accepted_run = next asked_run (
    request_arrives all_well (0 ∷ 7 ∷ []) [] accepted.server (spawn_rpc 0 (7 ∷ []) ∷ []) asked_c2s
      refl request_is_served_example refl)

abbrev pub finished : Session ℕ
finished = record accepted { tasks = []; rpc_rx = rpc_response 0 (ok (7 ∷ [])) ∷ [] }

pub finished_run : Reach echo 0 start finished
unfolding new_session
finished_run = next accepted_run (task_ends [] [] 0 (7 ∷ []) (ok (7 ∷ [])) refl refl refl)

abbrev pub answered : Session ℕ
answered = record finished {
  server = record finished.server { in_flight = set finished.server.in_flight 0 false };
  rpc_rx = [];
  s2c = (0 ∷ 7 ∷ []) ∷ [];
}

pub answered_run : Reach echo 0 start answered
unfolding new_session new_connection connection_round on_response send_msg encode_frame
answered_run = next finished_run (
    responds all_well (rpc_response 0 (ok (7 ∷ []))) [] answered.server (0 ∷ 7 ∷ []) refl refl refl)

response_reads :
    decode_frame plain_flate server_codec (0 ∷ 7 ∷ []) ≡ some (rpc_response 0 (ok (7 ∷ [])))
unfolding decode_frame
response_reads = refl

response_answers_asker_example :
    (k : Caller) × (get_elem? answered.client.active_rpc_calls 0 ≡ some (some k))
    × ((on_message plain_flate server_codec echo.client_state answered.client
          (binary (0 ∷ 7 ∷ []))).1
        ≡ complete k (ok (7 ∷ [])) ∷ [])
    × (ok (7 ∷ []) ≡ ok (k ∷ []))
response_answers_asker_example =
    response_answers_asker echo 0 echo-IsFaithful 6 6 0 answered_run (0 ∷ 7 ∷ []) [] 0 (ok (7 ∷ []))
      refl response_reads
