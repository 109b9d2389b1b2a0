-- ===== src/System/Session/Heard.antt =====
-- The events of a connection: what its client broadcasts to the application, and what its server has sent.
use hardlight.Prelude.{
  ◌≡◌, refl, sym, ◌∙◌, ap, Option, none, some, List, [], ◌∷◌, ◌++◌, ℕ, append-nil, append_assoc,
}
use hardlight.Wire.{Bytes, Event, ServerMessage, rpc_response, new_event, state_change, binary}
use hardlight.Codec.{decode_frame}
use hardlight.Channels.{Sender}
use hardlight.Client.{Client, on_message, on_call, on_server_message}
use hardlight.Client.Reads.{on_message_read, on_message_unread, on_response-broadcasts}
use hardlight.Client.Sends.{broadcasts, on_call-broadcasts}
use hardlight.System.Session.{
  Setting, Session, Step, call, request_arrives, loses_request, task_ends, responds, loses_response,
  pushes_state, pushes_event, loses_state, loses_event, subscribes, response_arrives, Reach, here,
  next, new_session,
}
use hardlight.System.Session.Frames.{read_all, read_all-append}
use hardlight.System.Session.Rounds.{
  round_pushes_state, round_pushes_event, round_responds, round_of_response,
}
use hardlight.System.Session.Correct.{IsFaithful}

-- The event that a message is, if it is one.
abbrev pub event_of : Option ServerMessage → List Event
event_of none = []
event_of (some (rpc_response id output)) = []
event_of (some (new_event topic payload)) = record { topic = topic; payload = payload } ∷ []
event_of (some (state_change changes)) = []

module _ {S : Type 0} (w : Setting S) (tx : Sender) where
  open w use {z, client_codec, server_codec, client_state, question}

  abbrev pub events_in : List Bytes → List Event
  events_in = read_all z server_codec event_of

  -- What the client broadcasts in a round.
  abbrev pub heard_in : {σ τ : Session S} → Step w tx σ τ → List Event
  heard_in {σ} (call socket_ok k e) =
      broadcasts (on_call z client_codec socket_ok σ.client (question k) k).1
  heard_in (request_arrives a frame rest c effects q ok h e) = []
  heard_in (loses_request a frame rest c effects q ok h e) = []
  heard_in (task_ends before after id internal output q reply e) = []
  heard_in (responds a msg rest c frame q h e) = []
  heard_in (loses_response a msg rest c q h e) = []
  heard_in (pushes_state a changes c frame h e) = []
  heard_in (pushes_event a ev c frame h e) = []
  heard_in (loses_state a changes c h e) = []
  heard_in (loses_event a ev c h e) = []
  heard_in (subscribes a n c effects h e) = []
  heard_in {σ} (response_arrives frame rest q e) =
      broadcasts (on_message z server_codec client_state σ.client (binary frame)).1

  unfoldable pub heard : {σ τ : Session S} → Reach w tx σ τ → List Event
  heard here = []
  heard (next r s) = heard r ++ heard_in s

  abbrev pub sent_in : {σ τ : Session S} → Step w tx σ τ → List Event
  sent_in (call socket_ok k e) = []
  sent_in (request_arrives a frame rest c effects q ok h e) = []
  sent_in (loses_request a frame rest c effects q ok h e) = []
  sent_in (task_ends before after id internal output q reply e) = []
  sent_in (responds a msg rest c frame q h e) = []
  sent_in (loses_response a msg rest c q h e) = []
  sent_in (pushes_state a changes c frame h e) = []
  sent_in (pushes_event a ev c frame h e) = ev ∷ []
  sent_in (loses_state a changes c h e) = []
  sent_in (loses_event a ev c h e) = []
  sent_in (subscribes a n c effects h e) = []
  sent_in (response_arrives frame rest q e) = []

  -- The events that the connection has taken from the switch and sent, without those that it lost.
  unfoldable pub sent_events : {σ τ : Session S} → Reach w tx σ τ → List Event
  sent_events here = []
  sent_events (next r s) = sent_events r ++ sent_in s

  -- A frame that goes out.
  events_in-sent :
      (frames : List Bytes) (frame : Bytes) (msg : ServerMessage)
      → decode_frame z server_codec frame ≡ some msg
      → events_in (frames ++ (frame ∷ [])) ≡ events_in frames ++ event_of (some msg)
  events_in-sent frames frame msg reads =
      read_all-append z server_codec event_of frames (frame ∷ []) ∙ (rw (reads, append-nil) refl)

  -- A frame that the client takes.
  broadcasts-taken :
      (c : Client S) (frame : Bytes) (msg : Option ServerMessage)
      → decode_frame z server_codec frame ≡ msg
      → broadcasts (on_message z server_codec client_state c (binary frame)).1 ≡ event_of msg
  unfolding broadcasts
  broadcasts-taken c frame none d =
      rw (on_message_unread z server_codec client_state c frame d) refl
  broadcasts-taken c frame (some msg) d =
      rw (on_message_read z server_codec client_state c frame msg d) (takes msg)
    where
      takes :
          (msg : ServerMessage)
          → broadcasts (on_server_message client_state c msg).1 ≡ event_of (some msg)
      takes (rpc_response id output) =
          on_response-broadcasts z server_codec client_state c id output
      takes (new_event topic payload) = unfold on_server_message in refl
      takes (state_change changes) = unfold on_server_message in refl

  -- What a step does to the events, heard and under way.
  pub Step-events :
      {σ τ : Session S}
      → IsFaithful w tx
      → (s : Step w tx σ τ) → heard_in s ++ events_in τ.s2c ≡ events_in σ.s2c ++ sent_in s
  Step-events {σ} law (call socket_ok k e) =
      rw (e, on_call-broadcasts z client_codec socket_ok σ.client (question k) k, append-nil) refl
  Step-events law (request_arrives a frame rest c effects q ok h e) = rw (e, append-nil) refl
  Step-events law (loses_request a frame rest c effects q ok h e) = rw (e, append-nil) refl
  Step-events law (task_ends before after id internal output q reply e) = rw (e, append-nil) refl
  Step-events {σ} law (responds a msg rest c frame q h e) =
      let (id, output, is) = round_of_response z client_codec server_codec a tx σ.server msg h in
      let (lowered, reads) =
        round_responds z client_codec server_codec a tx σ.server law.responses law.frames id output
          c frame (rw is at h) in
      rw e (events_in-sent σ.s2c frame (rpc_response id output) reads)
  Step-events law (loses_response a msg rest c q h e) = rw (e, append-nil) refl
  Step-events {σ} law (pushes_state a changes c frame h e) =
      let (same, reads) =
        round_pushes_state z client_codec server_codec a tx σ.server law.responses law.frames
          changes c frame h in
      rw e (events_in-sent σ.s2c frame (state_change changes) reads)
  Step-events {σ} law (pushes_event a ev c frame h e) =
      let (same, reads) =
        round_pushes_event z client_codec server_codec a tx σ.server law.responses law.frames ev c
          frame h in
      rw e (events_in-sent σ.s2c frame (new_event ev.topic ev.payload) reads)
  Step-events law (loses_state a changes c h e) = rw (e, append-nil) refl
  Step-events law (loses_event a ev c h e) = rw (e, append-nil) refl
  Step-events law (subscribes a n c effects h e) = rw (e, append-nil) refl
  Step-events {σ} law (response_arrives frame rest q e) =
      rw
        (e, q, broadcasts-taken σ.client frame (decode_frame z server_codec frame) refl, append-nil)
        refl

  -- If the libraries read back what they have written: at every moment of a run, the events that the
  -- client has broadcast to its application, followed by those that are under way to it, are the events
  -- that the server has sent, each once and in the order in which it sent them.
  pub client_hears_events :
      (law : IsFaithful w tx) (level agreed : ℕ) (initial : S) {σ : Session S}
      (run : Reach w tx (new_session level agreed initial) σ)
      → heard run ++ events_in σ.s2c ≡ sent_events run
  unfolding heard sent_events new_session
  client_hears_events law level agreed initial here = refl
  client_hears_events law level agreed initial {σ} (next r s) =
      append_assoc (heard r) (heard_in s) (events_in σ.s2c)
      ∙ ap (λ l. heard r ++ l) (Step-events law s)
      ∙ sym (append_assoc (heard r) _ (sent_in s))
      ∙ ap (λ l. l ++ sent_in s) (client_hears_events law level agreed initial r)
