-- ===== src/System/Session/Methods.antt =====
-- A method of the generated client, over a whole connection: its call goes through the client's loop,
-- the server's loop and the generated handler, and its result comes back.
use hardlight.Prelude.{ℕ, ◌≡◌, ◌≢◌, refl, sym, ◌∙◌, ap, Option, none, some, List, get_elem?}
use mathlib.Core.List.{Mem}
use hardlight.Wire.{Bytes, HandlerResult, ok, ClientMessage, ServerMessage}
use hardlight.Codec.{Codec, Flate, RoundTrips}
use hardlight.Channels.{Sender}
use hardlight.Client.{Caller, ClientState, Effect, complete}
use hardlight.Macros.Rpc.{
  Method, Variant, RpcCall, call_of, Implementation, method_of, handle_rpc_call, decoded,
  remote_call, remote_call_lem,
}
use hardlight.System.Session.{Setting, Session, Reach, new_session}
use hardlight.System.Session.Correct.{IsFaithful}
use hardlight.System.Session.Deliveries.{left, Delivery}
use hardlight.System.Session.Liveness.{IsSafe, caller_gets_reply}

-- A connection of a generated client and a generated handler. The handler's state is `H`, the client's
-- copy of the connection state `S`; a caller has asked for a method of the trait.
module _ {S H : Type 0} {ms : List Method} (z : Flate) (client_codec : Codec ClientMessage)
    (server_codec : Codec ServerMessage) (client_state : ClientState S) (calls : Codec (RpcCall ms))
    (methods : Implementation H ms) (question : Caller → Bytes) where
  -- What the handler answers in some state.
  abbrev pub HandlerReplies : Bytes → HandlerResult Bytes → Type 0
  HandlerReplies input output =
      (before : H) × (after : H) × (handle_rpc_call calls methods input before
        ≡ some (after, output))

  abbrev pub generated : Setting S
  generated = record {
    z = z;
    client_codec = client_codec;
    server_codec = server_codec;
    client_state = client_state;
    question = question;
    Replies = HandlerReplies;
  }

  -- The result of the method that a caller has called, in some state of the handler.
  abbrev pub GetsResult : {m : Method} → Variant ms m → m.Args → Caller → List Effect → Type 0
  GetsResult {m} v args k effects =
      (output : HandlerResult Bytes) × Mem (complete k output) effects
      × (state : H) × (decoded m output ≡ (method_of v methods args state).1)

  module _ (tx : Sender) (law : IsFaithful generated tx) (trips : RoundTrips calls) where
    abbrev result_or :
        {A : Type 0} → HandlerResult A → Option (H × HandlerResult A) → HandlerResult A
    result_or otherwise none = otherwise
    result_or otherwise (some r) = r.1

    -- What a caller makes of a reply.
    result_of_reply :
        {m : Method}
        → RoundTrips m.out_codec
        → (v : Variant ms m) (args : m.Args) (input : Bytes) (output : HandlerResult Bytes)
        → calls.to_bytes (call_of v args) ≡ some input
        → ((state : H) (out : m.Out)
            → ((method_of v methods args state).1 ≡ ok out)
            → m.out_codec.to_bytes out ≢ none)
        → HandlerReplies input output
        → (state : H) × (decoded m output ≡ (method_of v methods args state).1)
    unfolding remote_call
    result_of_reply {m} out_trips v args input output written writes (before, after, replied) =
        let whole =
          remote_call_lem calls methods trips out_trips v args before input written
            (writes before) in
        let through : remote_call calls methods v args before ≡ some (after, decoded m output) =
          rw (remote_call, written, replied) refl in
        (before, ap (result_or (decoded m output)) (sym through ∙ whole))

    -- If the libraries read back what they have written and write the call and the values of its method,
    -- and nothing of the call is lost: once the session has delivered all that is under way, a caller
    -- that has called a method of the generated client has what the server's method of the same name
    -- gave on the same arguments in some state of the handler, its value or its error.
    pub method_answers :
        {m : Method}
        → RoundTrips m.out_codec
        → (v : Variant ms m) (args : m.Args) (k : Caller)
        → calls.to_bytes (call_of v args) ≡ some (question k)
        → ((state : H) (out : m.Out)
            → ((method_of v methods args state).1 ≡ ok out)
            → m.out_codec.to_bytes out ≢ none)
        → (level agreed : ℕ) (initial : S) {σ : Session S}
        → Reach generated tx (new_session level agreed initial) σ
        → (i : ℕ) → get_elem? σ.client.active_rpc_calls i ≡ some (some k)
        → IsSafe generated tx i σ
        → {n : ℕ} {effects : List Effect} {τ : Session S} → Delivery generated tx n effects σ τ
        → left τ ≡ 0
        → GetsResult v args k effects
    method_answers out_trips v args k written writes level agreed initial run i busy safe r quiet =
        let (output, answered, reply) =
          caller_gets_reply generated tx law level agreed initial run i k busy safe r quiet in
        let (state, result) =
          result_of_reply out_trips v args (question k) output written writes reply in
        (output, answered, state, result)
