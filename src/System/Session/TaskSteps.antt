-- ===== src/System/Session/TaskSteps.antt =====
-- The end of a task, its response and the other rounds of the server keep the invariant.
use hardlight.Prelude.{
  ℕ, ◌+◌, ◌≡◌, refl, ◌∙◌, ap, subst, true, false, none, some, List, [], ◌∷◌, ◌++◌, arith, get_elem?,
  set, length, hit, hit_self, count, count-append, All, All-append, length-set,
}
use hardlight.Wire.{Bytes, HandlerResult, ServerMessage, rpc_response, Event, StateUpdate}
use hardlight.Codec.{RoundTrips, Inflates, decode_frame}
use hardlight.Channels.{Sender, ProxiedSubscriptionNotification}
use hardlight.Server.Connection.{
  Connection, Answers, Effect, transmit, response, state_changes, event, subscription,
}
use hardlight.System.Session.{Setting, Session, serve}
use hardlight.System.Session.Queues.{task_id}
use hardlight.System.Session.Rounds.{
  round_responds, round_pushes_state, round_pushes_event, round_of_response, round_subscribes,
}
use hardlight.System.Session.Invariant.{
  raised-set-false, flag_of_raised, response_tag, done_tag, Inv,
}

All-split {ℓ κ} :
    {A : Type ℓ} (P : A → Type κ) (xs ys : List A) → All P (xs ++ ys) → All P xs × All P ys
All-split P [] ys a = (tt, a)
All-split P (x ∷ xs) ys a = let (l, r) = All-split P xs ys a.1 in ((a.0, l), r)

module _ {S : Type 0} (w : Setting S) (tx : Sender) (σ : Session S) (v : Inv w σ) where
  open w use {z, client_codec, server_codec, client_state, question, Replies}

  pub task_ends-Inv :
      (before after : List (ℕ × Bytes)) (id : ℕ) (internal : Bytes) (output : HandlerResult Bytes)
      → σ.tasks ≡ before ++ ((id, internal) ∷ after)
      → Replies internal output
      → Inv w
          (record σ { tasks = before ++ after; rpc_rx = σ.rpc_rx ++ (rpc_response id output ∷ []) })
  unfolding count
  task_ends-Inv before after id internal output e reply = record {
    slots = v.slots;
    flags = v.flags;
    balance = λ i. omega (arith, v.balance i, moved i);
    flagged = λ i. omega (arith, v.flagged i, moved i);
    carries = λ i k h.
        let old = v.carries i k h in
        let (left, (this, right)) =
          All-split _ before ((id, internal) ∷ after) (rw e at old.tasks) in
        record {
          requests = old.requests;
          tasks = All-append _ before after left right;
          done =
              All-append _ σ.rpc_rx (rpc_response id output ∷ []) old.done
                (λ same. subst (λ body. Replies body output) (this same) reply, tt);
          responses = old.responses;
        };
  }
    where
      moved :
          (i : ℕ)
          → count task_id i (before ++ after)
              + count (done_tag w) i (σ.rpc_rx ++ (rpc_response id output ∷ []))
            ≡ count task_id i σ.tasks + count (done_tag w) i σ.rpc_rx
      moved i = omega (
        arith,
        ap (count task_id i) e,
        count-append task_id i before after,
        count-append task_id i before ((id, internal) ∷ after),
        count-append (done_tag w) i σ.rpc_rx (rpc_response id output ∷ []),
      )

  module _ (trips : RoundTrips server_codec) (inflates : Inflates z) where
    -- A response that goes out.
    module _ (id : ℕ) (output : HandlerResult Bytes) (rest : List ServerMessage) (frame : Bytes)
        (e : σ.rpc_rx ≡ rpc_response id output ∷ rest)
        (reads : decode_frame z server_codec frame ≡ some (rpc_response id output)) where
      respond-Inv : Inv w (record σ {
        server = record σ.server { in_flight = set σ.server.in_flight id false };
        rpc_rx = rest;
        s2c = σ.s2c ++ (frame ∷ []);
      })
      unfolding count
      respond-Inv = record {
        slots = v.slots;
        flags = length-set σ.server.in_flight id false ∙ v.flags;
        balance = λ i.
            let tag : hit i (response_tag w frame) ≡ hit i (some id) = rw reads refl in
            omega (
              arith,
              v.balance i,
              ap (count (done_tag w) i) e,
              count-append (response_tag w) i σ.s2c (frame ∷ []),
            );
        flagged = λ i. omega (
          arith,
          v.flagged i,
          ap (count (done_tag w) i) e,
          raised-set-false σ.server.in_flight id i up,
        );
        carries = λ i k h.
            let old = v.carries i k h in
            let (here, done) = rw e at old.done in
            record {
              requests = old.requests;
              tasks = old.tasks;
              done = done;
              responses =
                  All-append _ σ.s2c (frame ∷ []) old.responses
                    (λ same. rw reads (here (rw reads at same)), tt);
            };
      }
        where
          up : get_elem? σ.server.in_flight id ≡ some true
          up =
              flag_of_raised (get_elem? σ.server.in_flight id)
                (omega (arith, v.flagged id, ap (count (done_tag w) id) e, hit_self id))

    pub responds-Inv :
        (a : Answers) (msg : ServerMessage) (rest : List ServerMessage) (c : Connection)
        (frame : Bytes)
        → σ.rpc_rx ≡ msg ∷ rest
        → serve w tx a σ.server (response msg) ≡ some (c, transmit frame ∷ [])
        → Inv w (record σ { server = c; rpc_rx = rest; s2c = σ.s2c ++ (frame ∷ []) })
    responds-Inv a msg rest c frame e h =
        let (id, output, is) = round_of_response z client_codec server_codec a tx σ.server msg h in
        let (lowered, reads) =
          round_responds z client_codec server_codec a tx σ.server trips inflates id output c frame
            (rw is at h) in
        rw lowered (respond-Inv id output rest frame (rw is at e) reads)

    -- A frame that goes out and holds no response.
    push-Inv :
        (frame : Bytes)
        → response_tag w frame ≡ none
        → Inv w (record σ { s2c = σ.s2c ++ (frame ∷ []) })
    unfolding count
    push-Inv frame untagged = record {
      slots = v.slots;
      flags = v.flags;
      balance = λ i.
          let tag : hit i (response_tag w frame) ≡ 0 = ap (hit i) untagged in
          omega (arith, v.balance i, count-append (response_tag w) i σ.s2c (frame ∷ []));
      flagged = v.flagged;
      carries = λ i k h.
          let old = v.carries i k h in
          record {
            requests = old.requests;
            tasks = old.tasks;
            done = old.done;
            responses =
                All-append _ σ.s2c (frame ∷ []) old.responses
                  (λ same. absurd (ground (arith, same, untagged)), tt);
          };
    }

    pub pushes_state-Inv :
        (a : Answers) (changes : List StateUpdate) (c : Connection) (frame : Bytes)
        → serve w tx a σ.server (state_changes changes) ≡ some (c, transmit frame ∷ [])
        → Inv w (record σ { server = c; s2c = σ.s2c ++ (frame ∷ []) })
    pushes_state-Inv a changes c frame h =
        let (same, reads) =
          round_pushes_state z client_codec server_codec a tx σ.server trips inflates changes c
            frame h in
        rw same (push-Inv frame (rw reads refl))

    pub pushes_event-Inv :
        (a : Answers) (ev : Event) (c : Connection) (frame : Bytes)
        → serve w tx a σ.server (event ev) ≡ some (c, transmit frame ∷ [])
        → Inv w (record σ { server = c; s2c = σ.s2c ++ (frame ∷ []) })
    pushes_event-Inv a ev c frame h =
        let (same, reads) =
          round_pushes_event z client_codec server_codec a tx σ.server trips inflates ev c frame
            h in
        rw same (push-Inv frame (rw reads refl))

  -- A round that leaves the flags alone.
  pub same_flags-Inv :
      (c : Connection) → c.in_flight ≡ σ.server.in_flight → Inv w (record σ { server = c })
  same_flags-Inv c same = record {
    slots = v.slots;
    flags = ap length same ∙ v.flags;
    balance = v.balance;
    flagged = λ i. rw same (v.flagged i);
    carries = λ i k e.
        let old = v.carries i k e in
        record {
          requests = old.requests;
          tasks = old.tasks;
          done = old.done;
          responses = old.responses;
        };
  }

  pub subscribes-Inv :
      (a : Answers) (n : ProxiedSubscriptionNotification) (c : Connection) (effects : List Effect)
      → serve w tx a σ.server (subscription n) ≡ some (c, effects)
      → Inv w (record σ { server = c })
  subscribes-Inv a n c effects h =
      same_flags-Inv c (round_subscribes z client_codec server_codec a tx σ.server n c effects h)
