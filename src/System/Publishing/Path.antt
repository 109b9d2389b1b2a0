-- ===== src/System/Publishing/Path.antt =====
-- The way of an event, from the application of the server to that of the client.
use hardlight.Prelude.{
  ℕ, ◌≡◌, refl, sym, ◌∙◌, ap, List, [], ◌∷◌, ◌++◌, append-nil, append_assoc, contains_key,
  if◌then◌else◌,
}
use hardlight.Topic.{topic_eq}
use hardlight.Wire.{Event}
use hardlight.Channels.{Sender}
use hardlight.System.Hub.Delivered.{received-subscriber}
use hardlight.System.Hub.Invariant.{Inv}
use hardlight.System.Session.{
  Setting, Session, Step, new_session, call, request_arrives, loses_request, task_ends, responds,
  loses_response, pushes_state, pushes_event, loses_state, loses_event, subscribes,
  response_arrives,
}
use hardlight.System.Session.Correct.{IsFaithful}
use hardlight.System.Session.Heard.{heard_in, events_in, sent_in, Step-events}
use hardlight.System.Publishing.{
  World, new_world, hub_of, IsApart, Move, goes_on, asks, other_asks, emits, learns, routes,
  takes_event, fails_event, Run, start, go,
}
use hardlight.System.Publishing.Invariant.{same_again, Run-Inv, new_world-Inv}

module _ {S : Type 0} (w : Setting S) (tx : Sender) where
  -- What the client broadcasts to its application in a run.
  abbrev heard_by : {v u : World S} → Move w tx v u → List Event
  heard_by (goes_on s q e) = heard_in w tx s
  heard_by (asks a n fresh e) = []
  heard_by (other_asks a rx n ne fresh e) = []
  heard_by (emits ev e) = []
  heard_by (learns n rest h e) = []
  heard_by (routes ev rest h e) = []
  heard_by (takes_event a ev rest c frame q h e) = []
  heard_by (fails_event a ev rest c q h e) = []

  unfoldable pub all_heard : {v u : World S} → Run w tx v u → List Event
  all_heard start = []
  all_heard (go r m) = all_heard r ++ heard_by m

  -- The events that the switch routes while the connection is subscribed to their topics.
  abbrev meant_by : {v u : World S} → Move w tx v u → List Event
  meant_by (goes_on s q e) = []
  meant_by (asks a n fresh e) = []
  meant_by (other_asks a rx n ne fresh e) = []
  meant_by (emits ev e) = []
  meant_by (learns n rest h e) = []
  meant_by {v} (routes ev rest h e) =
      if contains_key ev.topic v.session.server.subscriptions then ev ∷ [] else []
  meant_by (takes_event a ev rest c frame q h e) = []
  meant_by (fails_event a ev rest c q h e) = []

  unfoldable pub all_meant : {v u : World S} → Run w tx v u → List Event
  all_meant start = []
  all_meant (go r m) = all_meant r ++ meant_by m

  -- The switch has taken every notification before it routes an event, and no event fails to be sent.
  abbrev IsCalm : {v u : World S} → Move w tx v u → Type 0
  IsCalm (goes_on s q e) = Unit
  IsCalm (asks a n fresh e) = Unit
  IsCalm (other_asks a rx n ne fresh e) = Unit
  IsCalm (emits ev e) = Unit
  IsCalm (learns n rest h e) = Unit
  IsCalm {v} (routes ev rest h e) = v.inbox.subscription_notification_rx ≡ []
  IsCalm (takes_event a ev rest c frame q h e) = Unit
  IsCalm (fails_event a ev rest c q h e) = ⊥

  unfoldable pub AllCalm : {v u : World S} → Run w tx v u → Type 0
  AllCalm start = Unit
  AllCalm (go r m) = AllCalm r × IsCalm m

  -- What a session does apart sends no event.
  IsApart-sent_in : {σ τ : Session S} (s : Step w tx σ τ) → IsApart w tx s → sent_in w tx s ≡ []
  IsApart-sent_in (call socket_ok k e) q = refl
  IsApart-sent_in (request_arrives a frame rest c effects p ok h e) q = refl
  IsApart-sent_in (loses_request a frame rest c effects p ok h e) q = refl
  IsApart-sent_in (task_ends before after id internal output p reply e) q = refl
  IsApart-sent_in (responds a msg rest c frame p h e) q = refl
  IsApart-sent_in (loses_response a msg rest c p h e) q = refl
  IsApart-sent_in (pushes_state a changes c frame h e) q = refl
  IsApart-sent_in (pushes_event a ev c frame h e) q = absurd q
  IsApart-sent_in (loses_state a changes c h e) q = refl
  IsApart-sent_in (loses_event a ev c h e) q = absurd q
  IsApart-sent_in (subscribes a n c effects h e) q = absurd q
  IsApart-sent_in (response_arrives frame rest p e) q = refl

  abbrev under_way : World S → List Event
  under_way v = events_in w tx v.session.s2c ++ v.event_rx

  Move-events :
      {v u : World S}
      → IsFaithful w tx
      → Inv (hub_of w tx v)
      → (m : Move w tx v u) → IsCalm m
      → heard_by m ++ under_way u ≡ under_way v ++ meant_by m
  Move-events {v} {u} law i (goes_on s q e) calm =
      let before = events_in w tx v.session.s2c in
      let nothing = Step-events w tx law s ∙ ap (λ l. before ++ l) (IsApart-sent_in s q) in
      sym (append_assoc (heard_in w tx s) (events_in w tx u.session.s2c) u.event_rx)
      ∙ ap (λ l. l ++ u.event_rx) nothing
      ∙ (rw (append-nil, append-nil, ap World.event_rx e) refl)
  Move-events law i (asks a n fresh e) calm = rw (e, append-nil) refl
  Move-events law i (other_asks a rx n ne fresh e) calm = rw (e, append-nil) refl
  Move-events law i (emits ev e) calm = rw (e, append-nil) refl
  Move-events law i (learns n rest h e) calm = rw (e, append-nil) refl
  Move-events {v} law i (routes ev rest h e) calm =
      let reaches = received-subscriber (hub_of w tx v) i calm ev tx in
      rw (e, ← append_assoc) (ap (λ l. under_way v ++ l) (rw (same_again tx) at reaches))
  Move-events {v} law i (takes_event a ev rest c frame q h e) calm =
      let sends = Step-events w tx {σ = v.session} law (pushes_event a ev c frame h refl) in
      rw (e, q, append-nil)
        (ap (λ l. l ++ rest) sends ∙ append_assoc (events_in w tx v.session.s2c) (ev ∷ []) rest)
  Move-events law i (fails_event a ev rest c q h e) calm = absurd calm

  -- In a run of a server from its start, in which no random id comes twice for a topic, and the switch
  -- has taken every notification before it routes an event, and no event fails to be sent: the events
  -- that a client has broadcast to its application, followed by those that are on their way to it over
  -- the socket and in the channel of its connection, are the events that were routed while its
  -- connection was subscribed to their topics, each once and in the order of the routing, if the
  -- libraries read back what they have written.
  pub subscriber_hears_events :
      (law : IsFaithful w tx) (levels : Sender → ℕ) (level agreed : ℕ) (initial : S) {u : World S}
      (run : Run w tx (new_world levels level agreed initial) u)
      → AllCalm run
      → all_heard run ++ (events_in w tx u.session.s2c ++ u.event_rx) ≡ all_meant run
  unfolding all_heard all_meant AllCalm new_world new_session
  subscriber_hears_events law levels level agreed initial start calm = refl
  subscriber_hears_events law levels level agreed initial {u} (go {u = v} r m) calm =
      let tables = Run-Inv w tx r (new_world-Inv w tx levels level agreed initial) in
      append_assoc (all_heard r) (heard_by m) (under_way u)
      ∙ ap (λ l. all_heard r ++ l) (Move-events law tables m calm.1)
      ∙ sym (append_assoc (all_heard r) (under_way v) (meant_by m))
      ∙ ap (λ l. l ++ meant_by m) (subscriber_hears_events law levels level agreed initial r calm.0)
