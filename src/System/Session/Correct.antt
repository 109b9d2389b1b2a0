-- ===== src/System/Session/Correct.antt =====
-- What a session promises: every call is answered by its own reply, and no request is refused.
use hardlight.Prelude.{
  ℕ, ◌+◌, ◌≡◌, refl, sym, true, false, Option, none, some, List, [], ◌∷◌, get_elem?, set,
  length-replicate, count, replicate, zero, suc,
}
use hardlight.Wire.{Bytes, HandlerResult, rpc_request, rpc_response, binary}
use hardlight.Codec.{RoundTrips, Inflates, decode_frame}
use hardlight.Channels.{Sender}
use hardlight.Client.{Caller, complete, on_message, new_client}
use hardlight.Client.Reads.{on_message_read, on_response_taken}
use hardlight.Server.Connection.{Answers, spawn_rpc, message, new_connection}
use hardlight.System.Session.Losses.{
  loses_request-Inv, loses_response-Inv, loses_state-Inv, loses_event-Inv,
}
use hardlight.System.Session.{loses_request, loses_response, loses_state, loses_event}
use hardlight.System.Session.{
  Setting, Session, Step, call, request_arrives, task_ends, responds, pushes_state, pushes_event,
  subscribes, response_arrives, Reach, here, next, new_session, serve,
}
use hardlight.System.Session.Queues.{task_id}
use hardlight.System.Session.Rounds.{round_accepts}
use hardlight.System.Session.Invariant.{occupied, raised, request_tag, response_tag, done_tag, Inv}
use hardlight.System.Session.ClientSteps.{call-Inv}
use hardlight.System.Session.ClientReads.{response_arrives-Inv, response_finds_slot}
use hardlight.System.Session.ServerSteps.{request_arrives-Inv, request_not_in_flight}
use hardlight.System.Session.TaskSteps.{
  task_ends-Inv, responds-Inv, pushes_state-Inv, pushes_event-Inv, subscribes-Inv,
}

occupied-replicate : (n i : ℕ) → occupied (get_elem? (replicate n none) i) ≡ 0
occupied-replicate zero i = refl
occupied-replicate (suc n) zero = refl
occupied-replicate (suc n) (suc i) = occupied-replicate n i

raised-replicate : (n i : ℕ) → raised (get_elem? (replicate n false) i) ≡ 0
raised-replicate zero i = refl
raised-replicate (suc n) zero = refl
raised-replicate (suc n) (suc i) = raised-replicate n i

module _ {S : Type 0} (w : Setting S) (tx : Sender) where
  open w use {z, client_codec, server_codec, client_state, question, Replies}

  pub new_session-Inv : (level agreed : ℕ) (initial : S) → Inv w (new_session level agreed initial)
  unfolding new_session new_client new_connection count
  new_session-Inv level agreed initial = record {
    slots = length-replicate {A = Option Caller} 256 none;
    flags = length-replicate 256 false;
    balance = λ i. sym (occupied-replicate 256 i);
    flagged = λ i. sym (raised-replicate 256 i);
    carries = λ i k h. record { requests = tt; tasks = tt; done = tt; responses = tt };
  }

  -- rkyv and flate2 give back what they were given.
  pub record IsFaithful : Type 0 where
    pub requests : RoundTrips client_codec
    pub responses : RoundTrips server_codec
    pub frames : Inflates z

  module _ (law : IsFaithful) where
    pub Step-Inv : {σ τ : Session S} → Step w tx σ τ → Inv w σ → Inv w τ
    Step-Inv {σ} (call socket_ok k e) v = rw e (call-Inv w law.requests law.frames socket_ok σ k v)
    Step-Inv {σ} (request_arrives a frame rest c effects q ok h e) v =
        rw e (request_arrives-Inv w tx σ v frame rest q a c effects ok h)
    Step-Inv {σ} (loses_request a frame rest c effects q fails h e) v =
        rw e (loses_request-Inv w tx σ v frame rest q a c effects fails h)
    Step-Inv {σ} (task_ends before after id internal output q reply e) v =
        rw e (task_ends-Inv w tx σ v before after id internal output q reply)
    Step-Inv {σ} (responds a msg rest c frame q h e) v =
        rw e (responds-Inv w tx σ v law.responses law.frames a msg rest c frame q h)
    Step-Inv {σ} (loses_response a msg rest c q h e) v =
        rw e (loses_response-Inv w tx σ v a msg rest c q h)
    Step-Inv {σ} (loses_state a changes c h e) v = rw e (loses_state-Inv w tx σ v a changes c h)
    Step-Inv {σ} (loses_event a ev c h e) v = rw e (loses_event-Inv w tx σ v a ev c h)
    Step-Inv {σ} (pushes_state a changes c frame h e) v =
        rw e (pushes_state-Inv w tx σ v law.responses law.frames a changes c frame h)
    Step-Inv {σ} (pushes_event a ev c frame h e) v =
        rw e (pushes_event-Inv w tx σ v law.responses law.frames a ev c frame h)
    Step-Inv {σ} (subscribes a n c effects h e) v = rw e (subscribes-Inv w tx σ v a n c effects h)
    Step-Inv {σ} (response_arrives frame rest q e) v =
        rw e (response_arrives-Inv w σ v frame rest q)

    pub Reach-Inv : {σ τ : Session S} → Inv w σ → Reach w tx σ τ → Inv w τ
    Reach-Inv v here = v
    Reach-Inv v (next r s) = Step-Inv s (Reach-Inv v r)

    module _ (level agreed : ℕ) (initial : S) {σ : Session S}
        (run : Reach w tx (new_session level agreed initial) σ) where
      session-Inv : Inv w σ
      session-Inv = Reach-Inv (new_session-Inv level agreed initial) run

      -- At every moment of a run in which the libraries read back what they have written, a slot
      -- of the client that holds a caller has exactly one request, task, finished task or response
      -- with its number that is under way or was lost at the server, and a free slot has none.
      pub under_way_once :
          (id : ℕ)
          → count (request_tag w) id σ.c2s
              + count task_id id σ.tasks
              + count (done_tag w) id σ.rpc_rx
              + count (response_tag w) id σ.s2c
              + count (request_tag w) id σ.lost_requests
              + count (done_tag w) id σ.lost_responses
            ≡ occupied (get_elem? σ.client.active_rpc_calls id)
      under_way_once id = session-Inv.balance id

      -- In a run in which the libraries read back what they have written and the result of a task
      -- is a reply to its request, whatever the sockets and workers lose: a response that arrives
      -- goes to the one caller that waits in its slot, and is a reply to what this caller asked.
      pub response_answers_asker :
          (frame : Bytes) (rest : List Bytes) (id : ℕ) (output : HandlerResult Bytes)
          → σ.s2c ≡ frame ∷ rest
          → decode_frame z server_codec frame ≡ some (rpc_response id output)
          → (k : Caller) × (get_elem? σ.client.active_rpc_calls id ≡ some (some k))
            × ((on_message z server_codec client_state σ.client (binary frame)).1
                ≡ complete k output ∷ [])
            × Replies (question k) output
      response_answers_asker frame rest id output q reads =
          let (k, busy) = response_finds_slot w σ session-Inv frame rest q id (rw reads refl) in
          let carried = rw q at ((session-Inv.carries id k busy).responses) in
          (
            k,
            busy,
            rw (on_message_read z server_codec client_state σ.client frame _ reads)
                (rw (on_response_taken z server_codec client_state σ.client id output k busy) refl),
            rw reads at (carried.0 (rw reads refl)),
          )

      -- In a run in which the libraries read back what they have written, whatever was lost before,
      -- a request that arrives is never taken for a duplicate: its id is not in flight, and the
      -- server, if its worker answers, spawns a task for it.
      pub request_is_served :
          (a : Answers) (frame : Bytes) (rest : List Bytes) (id : ℕ) (internal : Bytes)
          → σ.c2s ≡ frame ∷ rest
          → a.worker_ok ≡ true
          → decode_frame z client_codec frame ≡ some (rpc_request id internal)
          → serve w tx a σ.server (message (binary frame))
            ≡ some (
              record σ.server { in_flight = set σ.server.in_flight id true },
              spawn_rpc id internal ∷ [],
            )
      request_is_served a frame rest id internal q ok reads =
          round_accepts z client_codec server_codec a tx σ.server frame id internal ok reads
            (request_not_in_flight w tx σ session-Inv frame rest q id (rw reads refl))
