-- ===== src/System/Session/Mirror.antt =====
-- The client's copy of the state of the connection: what the server has pushed, applied in the order in
-- which it was pushed, up to what is still under way.
use hardlight.Prelude.{
  ◌≡◌, refl, sym, ◌∙◌, ap, Option, none, some, List, [], ◌∷◌, ◌++◌, ℕ, append-nil,
}
use hardlight.Wire.{
  Bytes, StateUpdate, ServerMessage, rpc_response, new_event, state_change, binary,
}
use hardlight.Codec.{decode_frame}
use hardlight.Channels.{Sender}
use hardlight.Client.{Client, ClientState, on_message, on_server_message, new_client}
use hardlight.Client.Reads.{on_message_read, on_message_unread, on_response-state}
use hardlight.Client.Sends.{on_call-state}
use hardlight.System.Session.{
  Setting, Session, Step, call, request_arrives, loses_request, task_ends, responds, loses_response,
  pushes_state, pushes_event, loses_state, loses_event, subscribes, response_arrives, Reach, here,
  next, new_session,
}
use hardlight.System.Session.Frames.{read_all, read_all-append}
use hardlight.System.Session.Rounds.{
  round_pushes_state, round_pushes_event, round_responds, round_of_response,
}
use hardlight.System.Session.Correct.{IsFaithful}
use hardlight.Macros.State
use hardlight.Macros.State.{Field, State}
use hardlight.Macros.State.Sync.{AllRoundTrip}
use hardlight.Macros.State.Order.{run_writes, final, receive_all, receive_all-run_writes}

-- The updates of several pushes, one push after the other.
abbrev pub apply_pushes : {S : Type 0} → ClientState S → List (List StateUpdate) → S → S
apply_pushes cs [] s = s
apply_pushes cs (changes ∷ more) s = apply_pushes cs more (cs.apply_changes changes s).0

apply_pushes-append :
    {S : Type 0} (cs : ClientState S) (xs ys : List (List StateUpdate)) (s : S)
    → apply_pushes cs (xs ++ ys) s ≡ apply_pushes cs ys (apply_pushes cs xs s)
apply_pushes-append cs [] ys s = refl
apply_pushes-append cs (x ∷ xs) ys s = apply_pushes-append cs xs ys (cs.apply_changes x s).0

-- The push that a message is, if it is one.
abbrev pub push_of : Option ServerMessage → List (List StateUpdate)
push_of none = []
push_of (some (rpc_response id output)) = []
push_of (some (new_event topic payload)) = []
push_of (some (state_change changes)) = changes ∷ []

module _ {S : Type 0} (w : Setting S) (tx : Sender) where
  open w use {z, client_codec, server_codec, client_state, question, Replies}

  abbrev pub pushes_in : List Bytes → List (List StateUpdate)
  pushes_in = read_all z server_codec push_of

  abbrev pub push_of_step : {σ τ : Session S} → Step w tx σ τ → List (List StateUpdate)
  push_of_step (call socket_ok k e) = []
  push_of_step (request_arrives a frame rest c effects q ok h e) = []
  push_of_step (loses_request a frame rest c effects q ok h e) = []
  push_of_step (task_ends before after id internal output q reply e) = []
  push_of_step (responds a msg rest c frame q h e) = []
  push_of_step (loses_response a msg rest c q h e) = []
  push_of_step (pushes_state a changes c frame h e) = changes ∷ []
  push_of_step (pushes_event a ev c frame h e) = []
  push_of_step (loses_state a changes c h e) = []
  push_of_step (loses_event a ev c h e) = []
  push_of_step (subscribes a n c effects h e) = []
  push_of_step (response_arrives frame rest q e) = []

  -- What the server has pushed in a run, without the pushes that it lost.
  unfoldable pub pushed : {σ τ : Session S} → Reach w tx σ τ → List (List StateUpdate)
  pushed here = []
  pushed (next r s) = pushed r ++ push_of_step s

  -- What the client's state becomes once it has taken what is under way.
  abbrev pub to_come : Session S → S
  to_come σ = apply_pushes client_state (pushes_in σ.s2c) σ.client.state

  -- A frame that goes out.
  to_come-sent :
      (σ : Session S) (frame : Bytes) (msg : ServerMessage)
      → decode_frame z server_codec frame ≡ some msg
      → apply_pushes client_state (pushes_in (σ.s2c ++ (frame ∷ []))) σ.client.state
        ≡ apply_pushes client_state (push_of (some msg)) (to_come σ)
  to_come-sent σ frame msg reads =
      ap (λ p. apply_pushes client_state p σ.client.state)
        (read_all-append z server_codec push_of σ.s2c (frame ∷ []))
      ∙ apply_pushes-append client_state (pushes_in σ.s2c) (pushes_in (frame ∷ [])) σ.client.state
      ∙ (rw (reads, append-nil) refl)

  -- A frame that the client takes.
  to_come-taken :
      (c : Client S) (frame : Bytes) (msg : Option ServerMessage)
      → decode_frame z server_codec frame ≡ msg
      → (on_message z server_codec client_state c (binary frame)).0.state
        ≡ apply_pushes client_state (push_of msg) c.state
  to_come-taken c frame none d = rw (on_message_unread z server_codec client_state c frame d) refl
  to_come-taken c frame (some msg) d =
      rw (on_message_read z server_codec client_state c frame msg d) (takes msg)
    where
      takes :
          (msg : ServerMessage)
          → (on_server_message client_state c msg).0.state
            ≡ apply_pushes client_state (push_of (some msg)) c.state
      takes (rpc_response id output) = on_response-state z server_codec client_state c id output
      takes (new_event topic payload) = unfold on_server_message in refl
      takes (state_change changes) = unfold on_server_message in refl

  to_come-Step :
      {σ τ : Session S}
      → IsFaithful w tx
      → (s : Step w tx σ τ) → to_come τ ≡ apply_pushes client_state (push_of_step s) (to_come σ)
  to_come-Step {σ} law (call socket_ok k e) = rw e (
      ap (apply_pushes client_state (pushes_in σ.s2c))
        (on_call-state z client_codec socket_ok σ.client (question k) k))
  to_come-Step law (request_arrives a frame rest c effects q ok h e) = rw e refl
  to_come-Step law (loses_request a frame rest c effects q ok h e) = rw e refl
  to_come-Step law (task_ends before after id internal output q reply e) = rw e refl
  to_come-Step {σ} law (responds a msg rest c frame q h e) =
      let (id, output, is) = round_of_response z client_codec server_codec a tx σ.server msg h in
      let (lowered, reads) =
        round_responds z client_codec server_codec a tx σ.server law.responses law.frames id output
          c frame (rw is at h) in
      rw e (to_come-sent σ frame (rpc_response id output) reads)
  to_come-Step law (loses_response a msg rest c q h e) = rw e refl
  to_come-Step {σ} law (pushes_state a changes c frame h e) =
      let (same, reads) =
        round_pushes_state z client_codec server_codec a tx σ.server law.responses law.frames
          changes c frame h in
      rw e (to_come-sent σ frame (state_change changes) reads)
  to_come-Step {σ} law (pushes_event a ev c frame h e) =
      let (same, reads) =
        round_pushes_event z client_codec server_codec a tx σ.server law.responses law.frames ev c
          frame h in
      rw e (to_come-sent σ frame (new_event ev.topic ev.payload) reads)
  to_come-Step law (loses_state a changes c h e) = rw e refl
  to_come-Step law (loses_event a ev c h e) = rw e refl
  to_come-Step law (subscribes a n c effects h e) = rw e refl
  to_come-Step {σ} law (response_arrives frame rest q e) =
      rw (e, q)
        (ap (apply_pushes client_state (pushes_in rest))
            (to_come-taken σ.client frame (decode_frame z server_codec frame) refl)
          ∙ sym (
              apply_pushes-append client_state (push_of (decode_frame z server_codec frame))
                (pushes_in rest) σ.client.state))

  -- If the libraries read back what they have written: at every moment of a run, the client's state is
  -- such that the state updates that are under way to it take it to what all updates that the server has
  -- sent, in the order in which it sent them, make of the initial state.
  pub client_follows_pushes :
      (law : IsFaithful w tx) (level agreed : ℕ) (initial : S) {σ : Session S}
      (run : Reach w tx (new_session level agreed initial) σ)
      → to_come σ ≡ apply_pushes client_state (pushed run) initial
  unfolding pushed new_session new_client
  client_follows_pushes law level agreed initial here = refl
  client_follows_pushes law level agreed initial (next r s) =
      to_come-Step law s
      ∙ ap (apply_pushes client_state (push_of_step s))
          (client_follows_pushes law level agreed initial r)
      ∙ sym (apply_pushes-append client_state (pushed r) (push_of_step s) initial)

-- What the guards have handed to the loop, of the guards that hand it anything.
abbrev pub handed : List (Option (List StateUpdate)) → List (List StateUpdate)
handed [] = []
handed (none ∷ more) = handed more
handed (some changes ∷ more) = changes ∷ handed more

module _ (fs : List Field) where
  -- The client of a state of the macro.
  abbrev pub generated_state : ClientState (State fs)
  generated_state = record { apply_changes = State.apply_changes fs }

  handed-receive_all :
      (sent : List (Option (List StateUpdate))) (s : State fs)
      → apply_pushes generated_state (handed sent) s ≡ receive_all fs sent s
  unfolding receive_all
  handed-receive_all [] s = refl
  handed-receive_all (none ∷ more) s = handed-receive_all more s
  handed-receive_all (some changes ∷ more) s =
      handed-receive_all more (State.apply_changes fs changes s).0

  -- The client's state is the generated one.
  module _ (w : Setting (State fs)) (tx : Sender) (law : IsFaithful w tx) (fields : AllRoundTrip fs)
      (is : w.client_state ≡ generated_state) where
    -- If the libraries read back what they have written, the client's state is one of the macro's, the
    -- server has sent what the guards of a run of writes handed to it, in the order of the writes and
    -- without a loss, no guard panicked, and no state update is under way: the client's state is the
    -- state after the last write.
    pub client_state_is_last_written :
        (level agreed : ℕ) (initial : State fs) {σ : Session (State fs)}
        (run : Reach w tx (new_session level agreed initial) σ) (states : List (State fs))
        (sent : List (Option (List StateUpdate)))
        → run_writes fs initial states ≡ some sent
        → pushed w tx run ≡ handed sent
        → pushes_in w tx σ.s2c ≡ []
        → σ.client.state ≡ final fs initial states
    client_state_is_last_written level agreed initial {σ} run states sent writes hands quiet =
        ap (λ p. apply_pushes w.client_state p σ.client.state) (sym quiet)
        ∙ client_follows_pushes w tx law level agreed initial run
        ∙ (rw (hands, is) (handed-receive_all sent initial))
        ∙ receive_all-run_writes fs fields initial states sent writes
