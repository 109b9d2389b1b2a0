-- ===== src/System/Session/ServerSteps.antt =====
-- The steps of the server keep the invariant.
use hardlight.Prelude.{
  ℕ, ◌≡◌, refl, sym, ◌∙◌, ap, Bool, true, false, Option, none, some, List, [], ◌∷◌, ◌++◌,
  append-nil, arith, get_elem?, set, hit, hit_self, count, count-append, All-append, length-set,
  get_elem?-lt-length, get_elem?_total,
}
use hardlight.Wire.{Bytes, rpc_request, ClientMessage, binary}
use hardlight.Codec.{decode_frame}
use hardlight.Channels.{Sender}
use hardlight.Server.Connection.{Connection, Answers, Effect, spawn_rpc, message}
use hardlight.System.Session.{Setting, Session, spawned, serve}
use hardlight.System.Session.Queues.{task_id}
use hardlight.System.Session.Rounds.{round_unread, round_accepts}
use hardlight.System.Session.Invariant.{
  occupied, raised, raised-set-true, slot_of_occupied, request_tag, Inv,
}

module _ {S : Type 0} (w : Setting S) (tx : Sender) where
  open w use {z, client_codec, server_codec, client_state, question, Replies}

  module _ (σ : Session S) (v : Inv w σ) (frame : Bytes) (rest : List Bytes)
      (e : σ.c2s ≡ frame ∷ rest) where
    -- The id of a request that arrives is not in flight.
    pub request_not_in_flight :
        (id : ℕ) → request_tag w frame ≡ some id → get_elem? σ.server.in_flight id ≡ some false
    unfolding count
    request_not_in_flight id tagged =
        let tag : hit id (request_tag w frame) ≡ 1 = ap (hit id) tagged ∙ hit_self id in
        let queue = ap (count (request_tag w) id) e in
        let (k, busy) =
          slot_of_occupied (get_elem? σ.client.active_rpc_calls id)
            (omega (arith, v.balance id, queue)) in
        let inside = get_elem?-lt-length σ.client.active_rpc_calls id busy in
        let (b, flag) =
          get_elem?_total σ.server.in_flight id (omega (arith, inside, v.slots, v.flags)) in
        let one : occupied (get_elem? σ.client.active_rpc_calls id) ≡ 1 = ap occupied busy in
        let down : raised (some b) ≡ 0 =
          sym (ap raised flag) ∙ omega (arith, v.balance id, v.flagged id, queue) in
        flag ∙ ap some (lowered b down)
      where
        lowered : (b : Bool) → raised (some b) ≡ 0 → b ≡ false
        lowered true h = absurd (omega arith)
        lowered false h = refl

    drop-Inv : request_tag w frame ≡ none → Inv w (record σ { c2s = rest })
    unfolding count
    drop-Inv untagged = record {
      slots = v.slots;
      flags = v.flags;
      balance = λ i.
          let tag : hit i (request_tag w frame) ≡ 0 = ap (hit i) untagged in
          omega (arith, v.balance i, ap (count (request_tag w) i) e);
      flagged = v.flagged;
      carries = λ i k h.
          let old = v.carries i k h in
          record {
            requests = (rw e at old.requests).1;
            tasks = old.tasks;
            done = old.done;
            responses = old.responses;
          };
    }

    module _ (id : ℕ) (internal : Bytes)
        (reads : decode_frame z client_codec frame ≡ some (rpc_request id internal)) where
      accept-Inv : Inv w (record σ {
        c2s = rest;
        server = record σ.server { in_flight = set σ.server.in_flight id true };
        tasks = σ.tasks ++ ((id, internal) ∷ []);
      })
      unfolding count
      accept-Inv = record {
        slots = v.slots;
        flags = length-set σ.server.in_flight id true ∙ v.flags;
        balance = λ i.
            let tag : hit i (request_tag w frame) ≡ hit i (some id) = rw reads refl in
            omega (
              arith,
              v.balance i,
              ap (count (request_tag w) i) e,
              count-append task_id i σ.tasks ((id, internal) ∷ []),
            );
        flagged = λ i. omega (
          arith,
          v.flagged i,
          count-append task_id i σ.tasks ((id, internal) ∷ []),
          raised-set-true σ.server.in_flight id i (request_not_in_flight id (rw reads refl)),
        );
        carries = λ i k h.
            let old = v.carries i k h in
            let (here, requests) = rw e at old.requests in
            record {
              requests = requests;
              tasks =
                  All-append _ σ.tasks ((id, internal) ∷ []) old.tasks
                    (λ same. rw reads at (here (rw reads same)), tt);
              done = old.done;
              responses = old.responses;
            };
      }

    request_read :
        (a : Answers) (c : Connection) (effects : List Effect) (msg : Option ClientMessage)
        → decode_frame z client_codec frame ≡ msg
        → a.worker_ok ≡ true
        → serve w tx a σ.server (message (binary frame)) ≡ some (c, effects)
        → Inv w (record σ { c2s = rest; server = c; tasks = σ.tasks ++ spawned effects })
    request_read a c effects none d ok h =
        let round = round_unread z client_codec server_codec a tx σ.server frame ok d in
        let here : σ.server ≡ c = ground (arith, h, round) in
        let quiet : [] ≡ effects = ground (arith, h, round) in
        rw (← here, ← quiet) (unfold spawned in rw append-nil (drop-Inv (rw d refl)))
    request_read a c effects (some (rpc_request id internal)) d ok h =
        let idle = request_not_in_flight id (rw d refl) in
        let round =
          round_accepts z client_codec server_codec a tx σ.server frame id internal ok d idle in
        let here : record σ.server { in_flight = set σ.server.in_flight id true } ≡ c =
          ground (arith, h, round) in
        let spawn : spawn_rpc id internal ∷ [] ≡ effects = ground (arith, h, round) in
        rw (← here, ← spawn) (unfold spawned in accept-Inv id internal d)

    pub request_arrives-Inv :
        (a : Answers) (c : Connection) (effects : List Effect)
        → a.worker_ok ≡ true
        → serve w tx a σ.server (message (binary frame)) ≡ some (c, effects)
        → Inv w (record σ { c2s = rest; server = c; tasks = σ.tasks ++ spawned effects })
    request_arrives-Inv a c effects =
        request_read a c effects (decode_frame z client_codec frame) refl
