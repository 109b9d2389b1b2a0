-- ===== src/Client/Reads.antt =====
-- What a frame of the server does to the client, by the message that it holds.
use hardlight.Prelude.{
  ◌≡◌, refl, none, some, inl, inr, [], ◌∷◌, arith, Option-cases, ℕ, get_elem?, set,
}
use hardlight.Wire.{Bytes, ServerMessage, binary, HandlerResult, rpc_response}
use hardlight.Codec.{Codec, Flate, inflate, decode_frame}
use hardlight.Client.{
  Caller, Client, ClientState, on_message, on_server_message, handle_inflated, handle_parsed, taken,
  complete,
}
use hardlight.Client.Sends.{broadcasts}

module _ {S : Type 0} (z : Flate) (server : Codec ServerMessage) (cs : ClientState S)
    (c : Client S) where
  pub on_message_read :
      (frame : Bytes) (msg : ServerMessage)
      → decode_frame z server frame ≡ some msg
      → on_message z server cs c (binary frame) ≡ on_server_message cs c msg
  unfolding on_message decode_frame handle_inflated handle_parsed
  on_message_read frame msg h = elim (Option-cases (inflate z frame)) [
    | inl e ↦ absurd (ground (arith, h, e))
    | inr (bytes, e) ↦
        let read : server.from_bytes bytes ≡ some msg = ground (arith, h, e) in
        rw (e, on_message, handle_inflated) (rw (read, handle_parsed) refl)
  ]

  pub on_message_unread :
      (frame : Bytes)
      → decode_frame z server frame ≡ none
      → on_message z server cs c (binary frame) ≡ (c, [])
  unfolding on_message decode_frame handle_inflated handle_parsed
  on_message_unread frame h = elim (Option-cases (inflate z frame)) [
    | inl e ↦ rw (e, on_message, handle_inflated) refl
    | inr (bytes, e) ↦
        let read : server.from_bytes bytes ≡ none = ground (arith, h, e) in
        rw (e, on_message, handle_inflated) (rw (read, handle_parsed) refl)
  ]

  -- A response to a busy slot frees it and answers its caller.
  pub on_response_taken :
      (id : ℕ) (output : HandlerResult Bytes) (k : Caller)
      → get_elem? c.active_rpc_calls id ≡ some (some k)
      → on_server_message cs c (rpc_response id output)
        ≡ (record c { active_rpc_calls = set c.active_rpc_calls id none }, complete k output ∷ [])
  unfolding on_server_message taken
  on_response_taken id output k h = rw (h, taken) refl

  -- Only a state update changes the state.
  pub on_response-state :
      (id : ℕ) (output : HandlerResult Bytes)
      → (on_server_message cs c (rpc_response id output)).0.state ≡ c.state
  unfolding on_server_message taken
  on_response-state id output = ground arith

  pub on_response-broadcasts :
      (id : ℕ) (output : HandlerResult Bytes)
      → broadcasts (on_server_message cs c (rpc_response id output)).1 ≡ []
  unfolding on_server_message taken broadcasts
  on_response-broadcasts id output = ground arith
