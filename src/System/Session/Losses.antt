-- ===== src/System/Session/Losses.antt =====
-- What a worker or a socket of the server loses keeps the invariant.
use hardlight.Prelude.{
  ℕ, ◌≡◌, ◌∙◌, ap, true, false, some, List, [], ◌∷◌, ◌++◌, arith, get_elem?, set, hit_self, count,
  count-append, append-nil, length-set,
}
use hardlight.Wire.{Bytes, HandlerResult, ServerMessage, rpc_response, Event, StateUpdate, binary}
use hardlight.Channels.{Sender}
use hardlight.Server.Connection.{
  Connection, Answers, Effect, response, state_changes, event, message,
}
use hardlight.System.Session.{Setting, Session, serve, spawned}
use hardlight.System.Session.Rounds.{
  round_undecoded, round_loses, round_loses_state, round_loses_event, round_of_response,
}
use hardlight.System.Session.TaskSteps.{same_flags-Inv}
use hardlight.System.Session.Invariant.{
  raised-set-false, flag_of_raised, request_tag, done_tag, Inv,
}

module _ {S : Type 0} (w : Setting S) (tx : Sender) (σ : Session S) (v : Inv w σ) where
  open w use {z, client_codec, server_codec}

  module _ (frame : Bytes) (rest : List Bytes) (e : σ.c2s ≡ frame ∷ rest) where
    lose_request-Inv :
        Inv w (record σ { c2s = rest; lost_requests = σ.lost_requests ++ (frame ∷ []) })
    unfolding count
    lose_request-Inv = record {
      slots = v.slots;
      flags = v.flags;
      balance = λ i. omega (
        arith,
        v.balance i,
        ap (count (request_tag w) i) e,
        count-append (request_tag w) i σ.lost_requests (frame ∷ []),
      );
      flagged = v.flagged;
      carries = λ i k h.
          let old = v.carries i k h in
          record {
            requests = (rw e at old.requests).1;
            tasks = old.tasks;
            done = old.done;
            responses = old.responses;
          };
    }

    pub loses_request-Inv :
        (a : Answers) (c : Connection) (effects : List Effect)
        → a.worker_ok ≡ false
        → serve w tx a σ.server (message (binary frame)) ≡ some (c, effects)
        → Inv w (record σ {
          c2s = rest;
          server = c;
          tasks = σ.tasks ++ spawned effects;
          lost_requests = σ.lost_requests ++ (frame ∷ []);
        })
    loses_request-Inv a c effects fails h =
        let round = round_undecoded z client_codec server_codec a tx σ.server frame fails in
        let here : σ.server ≡ c = ground (arith, h, round) in
        let quiet : [] ≡ effects = ground (arith, h, round) in
        rw (← here, ← quiet) (unfold spawned in rw append-nil lose_request-Inv)

  module _ (id : ℕ) (output : HandlerResult Bytes) (rest : List ServerMessage)
      (e : σ.rpc_rx ≡ rpc_response id output ∷ rest) where
    lose_response-Inv : Inv w (record σ {
      server = record σ.server { in_flight = set σ.server.in_flight id false };
      rpc_rx = rest;
      lost_responses = σ.lost_responses ++ (rpc_response id output ∷ []);
    })
    unfolding count
    lose_response-Inv = record {
      slots = v.slots;
      flags = length-set σ.server.in_flight id false ∙ v.flags;
      balance = λ i. omega (
        arith,
        v.balance i,
        ap (count (done_tag w) i) e,
        count-append (done_tag w) i σ.lost_responses (rpc_response id output ∷ []),
      );
      flagged = λ i. omega (
        arith,
        v.flagged i,
        ap (count (done_tag w) i) e,
        raised-set-false σ.server.in_flight id i up,
      );
      carries = λ i k h.
          let old = v.carries i k h in
          record {
            requests = old.requests;
            tasks = old.tasks;
            done = (rw e at old.done).1;
            responses = old.responses;
          };
    }
      where
        up : get_elem? σ.server.in_flight id ≡ some true
        up =
            flag_of_raised (get_elem? σ.server.in_flight id)
              (omega (arith, v.flagged id, ap (count (done_tag w) id) e, hit_self id))

  pub loses_response-Inv :
      (a : Answers) (msg : ServerMessage) (rest : List ServerMessage) (c : Connection)
      → σ.rpc_rx ≡ msg ∷ rest
      → serve w tx a σ.server (response msg) ≡ some (c, [])
      → Inv w
          (record σ { server = c; rpc_rx = rest; lost_responses = σ.lost_responses ++ (msg ∷ []) })
  loses_response-Inv a msg rest c e h =
      let (id, output, is) = round_of_response z client_codec server_codec a tx σ.server msg h in
      let lowered =
        round_loses z client_codec server_codec a tx σ.server id output c (rw is at h) in
      rw (lowered, is) (lose_response-Inv id output rest (rw is at e))

  pub loses_state-Inv :
      (a : Answers) (changes : List StateUpdate) (c : Connection)
      → serve w tx a σ.server (state_changes changes) ≡ some (c, [])
      → Inv w (record σ { server = c })
  loses_state-Inv a changes c h =
      same_flags-Inv w tx σ v c
        (round_loses_state z client_codec server_codec a tx σ.server changes c h)

  pub loses_event-Inv :
      (a : Answers) (e : Event) (c : Connection)
      → serve w tx a σ.server (event e) ≡ some (c, [])
      → Inv w (record σ { server = c })
  loses_event-Inv a e c h =
      same_flags-Inv w tx σ v c (round_loses_event z client_codec server_codec a tx σ.server e c h)
