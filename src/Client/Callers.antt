-- ===== src/Client/Callers.antt =====
-- What becomes of the calls that the application makes.
use hardlight.Prelude.{
  ℕ, ◌+◌, ◌≡◌, ◌↔◌, refl, Bool, true, false, Option, none, some, inl, inr, ◌≢◌, List, [], ◌∷◌, ◌++◌,
  arith, get_elem?, length, hit, Option-cases,
}
use hardlight.Wire.{
  Bytes, HandlerResult, err, ClientMessage, ServerMessage, rpc_response, new_event, state_change,
  WsMessage, binary, other, too_many_calls_in_flight,
}
use hardlight.Codec.{Codec, Flate, deflate, inflate}
use hardlight.Client.{
  Caller, Client, ClientState, Arm, rpc_request_received, message, receive_error, shutdown, Effect,
  transmit, complete, broadcast, position, client_round, run_client, on_call, on_message,
  on_server_message, handle_inflated, handle_parsed, refuse, send_call, serialize_call, taken,
}
use hardlight.Client.Slots.{busy, waiting, position-free, position-none_iff, waiting-set}

-- How often a caller is answered.
unfoldable pub answered : Caller → List Effect → ℕ
answered k [] = 0
answered k (transmit frame ∷ effects) = answered k effects
answered k (complete j output ∷ effects) = hit k (some j) + answered k effects
answered k (broadcast e ∷ effects) = answered k effects

answered-append :
    (k : Caller) (xs ys : List Effect) → answered k (xs ++ ys) ≡ answered k xs + answered k ys
unfolding answered
answered-append k [] ys = omega arith
answered-append k (transmit frame ∷ xs) ys = answered-append k xs ys
answered-append k (complete j output ∷ xs) ys = omega (arith, answered-append k xs ys)
answered-append k (broadcast e ∷ xs) ys = answered-append k xs ys

abbrev asks : Caller → Arm → ℕ
asks k (rpc_request_received internal j) = hit k (some j)
asks k (message msg) = 0
asks k receive_error = 0
asks k shutdown = 0

module _ {S : Type 0} (k : Caller) where
  -- A round loses no caller and answers none twice.
  abbrev Balanced : Client S → ℕ → Client S × List Effect → Type 0
  Balanced c asked (c', effects) =
      waiting k c'.active_rpc_calls + answered k effects ≡ waiting k c.active_rpc_calls + asked

  send_call-Balanced :
      (socket_ok : Bool) (c : Client S) (id : ℕ) (caller : Caller) (frame : Option Bytes)
      → get_elem? c.active_rpc_calls id ≡ some none
      → Balanced c (hit k (some caller)) (send_call socket_ok c id caller frame)
  unfolding send_call answered
  send_call-Balanced socket_ok c id caller none free = omega arith
  send_call-Balanced socket_ok c id caller (some frame) free =
      elim socket_ok
        as (λ b. Balanced c (hit k (some caller)) (send_call b c id caller (some frame))) [
          | true ↦ omega (arith, waiting-set k c.active_rpc_calls id none (some caller) free)
          | false ↦ omega arith
        ]

  module _ (z : Flate) (client : Codec ClientMessage) where
    serialize_call-Balanced :
        (socket_ok : Bool) (c : Client S) (id : ℕ) (caller : Caller) (bytes : Option Bytes)
        → get_elem? c.active_rpc_calls id ≡ some none
        → Balanced c (hit k (some caller)) (serialize_call z client socket_ok c id caller bytes)
    unfolding serialize_call answered
    serialize_call-Balanced socket_ok c id caller none free = omega arith
    serialize_call-Balanced socket_ok c id caller (some bytes) free =
        send_call-Balanced socket_ok c id caller (deflate z bytes c.compression) free

    on_call-Balanced :
        (socket_ok : Bool) (c : Client S) (internal : Bytes) (caller : Caller)
        → Balanced c (hit k (some caller)) (on_call z client socket_ok c internal caller)
    unfolding on_call
    on_call-Balanced socket_ok c internal caller =
        elim (Option-cases (position c.active_rpc_calls)) [
          | inl e ↦ rw (e, on_call) (unfold refuse answered in omega arith)
          | inr (id, e) ↦
              rw (e, on_call)
                (serialize_call-Balanced socket_ok c id caller _
                  (position-free c.active_rpc_calls id e))
        ]

  module _ (cs : ClientState S) where
    taken-Balanced :
        (c : Client S) (id : ℕ) (output : HandlerResult Bytes) (slot : Option (Option Caller))
        → get_elem? c.active_rpc_calls id ≡ slot
        → Balanced c 0 (taken cs c id output slot)
    unfolding taken answered
    taken-Balanced c id output none e = omega arith
    taken-Balanced c id output (some none) e = omega arith
    taken-Balanced c id output (some (some j)) e =
        omega (arith, waiting-set k c.active_rpc_calls id (some j) none e)

    on_server_message-Balanced :
        (c : Client S) (msg : ServerMessage) → Balanced c 0 (on_server_message cs c msg)
    unfolding on_server_message answered
    on_server_message-Balanced c (rpc_response id output) =
        taken-Balanced c id output (get_elem? c.active_rpc_calls id) refl
    on_server_message-Balanced c (state_change changes) = omega arith
    on_server_message-Balanced c (new_event topic payload) = omega arith

    module _ (z : Flate) (server : Codec ServerMessage) where
      handle_parsed-Balanced :
          (c : Client S) (msg : Option ServerMessage)
          → Balanced c 0 (handle_parsed z server cs c msg)
      unfolding handle_parsed answered
      handle_parsed-Balanced c none = omega arith
      handle_parsed-Balanced c (some msg) = on_server_message-Balanced c msg

      on_message-Balanced :
          (c : Client S) (msg : WsMessage) → Balanced c 0 (on_message z server cs c msg)
      unfolding on_message answered handle_inflated
      on_message-Balanced c (binary frame) = elim (Option-cases (inflate z frame)) [
        | inl e ↦ rw (e, on_message, handle_inflated) (omega arith)
        | inr (bytes, e) ↦
            rw (e, on_message, handle_inflated) (handle_parsed-Balanced c (server.from_bytes bytes))
      ]
      on_message-Balanced c other = omega arith

-- The calls of a caller before the shutdown.
unfoldable pub asked : Caller → List (Bool × Arm) → ℕ
asked k [] = 0
asked k ((b, shutdown) ∷ arms) = 0
asked k ((b, rpc_request_received internal j) ∷ arms) = hit k (some j) + asked k arms
asked k ((b, message msg) ∷ arms) = asked k arms
asked k ((b, receive_error) ∷ arms) = asked k arms

module _ {S : Type 0} (z : Flate) (client : Codec ClientMessage) (server : Codec ServerMessage)
    (cs : ClientState S) where
  -- Up to the shutdown every call of the application either waits in a slot or has been answered,
  -- and none is answered twice: for each caller, what waits and what was answered add up to what
  -- waited at the start and what was asked.
  pub waiting-run_client :
      (k : Caller) (arms : List (Bool × Arm)) (c : Client S)
      → waiting k (run_client z client server cs arms c).0.active_rpc_calls
          + answered k (run_client z client server cs arms c).1
        ≡ waiting k c.active_rpc_calls + asked k arms
  unfolding run_client client_round answered asked
  waiting-run_client k [] c = refl
  waiting-run_client k ((b, rpc_request_received internal j) ∷ arms) c =
      let now = on_call z client b c internal j in
      omega (
        arith,
        on_call-Balanced k z client b c internal j,
        answered-append k now.1 (run_client z client server cs arms now.0).1,
        waiting-run_client k arms now.0,
      )
  waiting-run_client k ((b, message msg) ∷ arms) c =
      let now = on_message z server cs c msg in
      omega (
        arith,
        on_message-Balanced k cs z server c msg,
        answered-append k now.1 (run_client z client server cs arms now.0).1,
        waiting-run_client k arms now.0,
      )
  waiting-run_client k ((b, receive_error) ∷ arms) c = waiting-run_client k arms c
  waiting-run_client k ((b, shutdown) ∷ arms) c = omega arith

  serialize_call-ne-too_many :
      (b : Bool) (c : Client S) (id : ℕ) (caller : Caller) (bytes : Option Bytes)
      → (serialize_call z client b c id caller bytes).1
        ≢ complete caller (err too_many_calls_in_flight) ∷ []
  unfolding serialize_call send_call
  serialize_call-ne-too_many b c id caller none h = ground (arith, h)
  serialize_call-ne-too_many b c id caller (some bytes) h =
      ground (arith, h, Option-cases (deflate z bytes c.compression))

  -- A call is refused with `TooManyCallsInFlight` when all slots are busy, and only then.
  pub on_call-too_many_iff :
      (socket_ok : Bool) (c : Client S) (internal : Bytes) (caller : Caller)
      → ((on_call z client socket_ok c internal caller).1
          ≡ complete caller (err too_many_calls_in_flight) ∷ [])
        ↔ (busy c.active_rpc_calls ≡ length c.active_rpc_calls)
  unfolding on_call
  on_call-too_many_iff socket_ok c internal caller =
      elim (Option-cases (position c.active_rpc_calls)) [
        | inl e ↦ (
          (λ h. (position-none_iff c.active_rpc_calls).0 e),
          λ h. rw (e, on_call) (unfold refuse in refl),
        )
        | inr (id, e) ↦ (
          λ h. absurd (serialize_call-ne-too_many socket_ok c id caller _ (rw (e, on_call) at h)),
          λ h. absurd (ground (arith, e, (position-none_iff c.active_rpc_calls).1 h)),
        )
      ]
