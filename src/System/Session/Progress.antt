-- ===== src/System/Session/Progress.antt =====
-- While something is under way, a round that delivers it can be taken.
use hardlight.Prelude.{
  ℕ, ◌<◌, ◌≡◌, refl, ◌∙◌, ap, true, false, Option, none, some, inl, inr, List, [], ◌∷◌, arith, All,
  All-append, length, get_elem?, set, hit_self, count, List-cases,
}
use hardlight.Wire.{
  Bytes, HandlerResult, ServerMessage, rpc_request, rpc_response, ClientMessage, binary,
}
use hardlight.Codec.{encode_frame, decode_frame, ◌>>=◌}
use hardlight.Channels.{Sender}
use hardlight.Client
use hardlight.Server.Connection.{
  Connection, Answers, Effect, message, connection_round, on_response, forward, send_msg,
}
use hardlight.System.Session.{
  Setting, Session, Step, call, request_arrives, loses_request, task_ends, responds, loses_response,
  pushes_state, pushes_event, loses_state, loses_event, subscribes, response_arrives, serve, Reach,
  here, next, new_session,
}
use hardlight.System.Session.Rounds.{round_unread, round_accepts}
use hardlight.System.Session.Invariant.{flag_of_raised, done_tag, Inv}
use hardlight.System.Session.ServerSteps.{request_not_in_flight}
use hardlight.System.Session.Correct.{IsFaithful, Reach-Inv, new_session-Inv}
use hardlight.System.Session.Deliveries.{left, delivered}

-- A round in which no library fails.
abbrev pub no_failure : Answers
no_failure = record { worker_ok = true; socket_ok = true; switch_ok = true; random = [] }

module _ {S : Type 0} (w : Setting S) (tx : Sender) where
  open w use {z, client_codec, server_codec, client_state, question, Replies}

  -- What a task hands to the loop: a reply to a request.
  abbrev pub IsResponse : ServerMessage → Type 0
  IsResponse msg =
      (id : ℕ) × (output : HandlerResult Bytes) × (msg ≡ rpc_response id output)
      × (internal : Bytes) × Replies internal output

  -- The handler replies to every request, and the libraries write every reply.
  pub record IsResponsive : Type 0 where
    pub replies : (internal : Bytes) → (output : HandlerResult Bytes) × Replies internal output
    pub writes :
        (level id : ℕ) (internal : Bytes) (output : HandlerResult Bytes)
        → Replies internal output
        → (frame : Bytes) × (encode_frame z server_codec level (rpc_response id output)
            ≡ some frame)

  Step-responses :
      {σ τ : Session S} → Step w tx σ τ → All IsResponse σ.rpc_rx → All IsResponse τ.rpc_rx
  Step-responses (call socket_ok k e) all = rw e all
  Step-responses (request_arrives a frame rest c effects q ok h e) all = rw e all
  Step-responses (loses_request a frame rest c effects q fails h e) all = rw e all
  Step-responses {σ} (task_ends before after id internal output q reply e) all =
      rw e (All-append IsResponse σ.rpc_rx _ all ((id, output, refl, internal, reply), tt))
  Step-responses (responds a msg rest c frame q h e) all = rw e ((rw q at all).1)
  Step-responses (loses_response a msg rest c q h e) all = rw e ((rw q at all).1)
  Step-responses (pushes_state a changes c frame h e) all = rw e all
  Step-responses (pushes_event a ev c frame h e) all = rw e all
  Step-responses (loses_state a changes c h e) all = rw e all
  Step-responses (loses_event a ev c h e) all = rw e all
  Step-responses (subscribes a n c effects h e) all = rw e all
  Step-responses (response_arrives frame rest q e) all = rw e all

  pub Reach-responses :
      {σ τ : Session S} → All IsResponse σ.rpc_rx → Reach w tx σ τ → All IsResponse τ.rpc_rx
  Reach-responses all here = all
  Reach-responses all (next r s) = Step-responses s (Reach-responses all r)

  -- A round that delivers.
  abbrev pub Delivers : Session S → Type 0
  Delivers σ =
      (τ : Session S) × (s : Step w tx σ τ) × (effects : List Client.Effect) × (delivered w tx s
        ≡ some effects)

  module _ (σ : Session S) (v : Inv w σ) where
    deliver_request : (frame : Bytes) (rest : List Bytes) → σ.c2s ≡ frame ∷ rest → Delivers σ
    deliver_request frame rest q =
        let (c, effects, h) = served (decode_frame z client_codec frame) refl in
        (_, request_arrives no_failure frame rest c effects q refl h refl, [], refl)
      where
        served :
            (msg : Option ClientMessage)
            → decode_frame z client_codec frame ≡ msg
            → (c : Connection) × (effects : List Effect) × (serve w tx no_failure σ.server
                  (message (binary frame))
                ≡ some (c, effects))
        served none d =
            (_, _, round_unread z client_codec server_codec no_failure tx σ.server frame refl d)
        served (some (rpc_request id internal)) d = (
          _,
          _,
          round_accepts z client_codec server_codec no_failure tx σ.server frame id internal refl d
              (request_not_in_flight w tx σ v frame rest q id (rw d refl)),
        )

    module _ (live : IsResponsive) where
      deliver_task :
          (task : ℕ × Bytes) (rest : List (ℕ × Bytes)) → σ.tasks ≡ task ∷ rest → Delivers σ
      deliver_task (id, internal) rest q =
          let (output, reply) = live.replies internal in
          (_, task_ends [] rest id internal output q reply refl, [], refl)

      -- A response finds its flag up.
      deliver_response :
          (id : ℕ) (internal : Bytes) (output : HandlerResult Bytes) (rest : List ServerMessage)
          → Replies internal output
          → σ.rpc_rx ≡ rpc_response id output ∷ rest
          → Delivers σ
      unfolding count connection_round on_response forward send_msg
      deliver_response id internal output rest reply q =
          let up : get_elem? σ.server.in_flight id ≡ some true =
            flag_of_raised (get_elem? σ.server.in_flight id)
              (omega (arith, v.flagged id, ap (count (done_tag w) id) q, hit_self id)) in
          let (frame, wrote) = live.writes σ.server.compression id internal output reply in
          (
            _,
            responds no_failure (rpc_response id output) rest
                (record σ.server { in_flight = set σ.server.in_flight id false }) frame q
                (rw (up, wrote, ◌>>=◌) refl) refl,
            [],
            refl,
          )

      deliver_frame : (frame : Bytes) (rest : List Bytes) → σ.s2c ≡ frame ∷ rest → Delivers σ
      deliver_frame frame rest q = (_, response_arrives frame rest q refl, _, refl)

      deliver : All IsResponse σ.rpc_rx → 0 < left σ → Delivers σ
      deliver all busy = elim (List-cases σ.c2s) [
        | inr (frame, rest, q) ↦ deliver_request frame rest q
        | inl no_request ↦ elim (List-cases σ.tasks) [
          | inr (task, rest, q) ↦ deliver_task task rest q
          | inl no_task ↦ elim (List-cases σ.rpc_rx) [
            | inr (msg, rest, q) ↦
                let ((id, output, is, internal, reply), others) = rw q at all in
                deliver_response id internal output rest reply (q ∙ ap (λ m. m ∷ rest) is)
            | inl no_response ↦ elim (List-cases σ.s2c) [
              | inr (frame, rest, q) ↦ deliver_frame frame rest q
              | inl no_frame ↦ absurd (
                  omega (
                    arith,
                    busy,
                    ap length no_request,
                    ap length no_task,
                    ap length no_response,
                    ap length no_frame,
                  ))
            ]
          ]
        ]
      ]

  module _ (law : IsFaithful w tx) (live : IsResponsive) (level agreed : ℕ) (initial : S)
      {σ : Session S} (run : Reach w tx (new_session level agreed initial) σ) where
    -- If the libraries read back what they have written and write every reply, and the handler replies
    -- to every request, then in a run with whatever losses, a session in which something is under way
    -- is never stuck: a round that delivers can be taken.
    pub delivery_goes_on : 0 < left σ → Delivers σ
    unfolding new_session
    delivery_goes_on busy =
        deliver σ (Reach-Inv w tx law (new_session-Inv w tx level agreed initial) run) live
          (Reach-responses tt run) busy
