-- ===== src/Client/Sends.antt =====
-- A call of the application that goes out, seen from the wire.
use hardlight.Prelude.{
  Bool, Bool-cases, ℕ, ◌%◌, ◌≡◌, refl, Option, none, some, inl, inr, ◌⊎◌, List, [], ◌∷◌, arith,
  get_elem?, get_elem?-lt-length, set, length, Option-cases,
}
use hardlight.Wire.{Bytes, Event, ClientMessage, rpc_request}
use hardlight.Codec.{
  Codec, Flate, RoundTrips, Inflates, deflate, encode_frame, decode_frame,
  decode_frame-encode_frame,
}
use hardlight.Client.{
  Caller, Client, Effect, transmit, complete, broadcast, position, on_call, refuse, send_call,
  serialize_call,
}
use hardlight.Client.Slots.{position-free}

-- The frames among the effects of a round.
unfoldable pub frames : List Effect → List Bytes
frames [] = []
frames (transmit frame ∷ effects) = frame ∷ frames effects
frames (complete k output ∷ effects) = frames effects
frames (broadcast e ∷ effects) = frames effects

-- The events among the effects of a round.
unfoldable pub broadcasts : List Effect → List Event
broadcasts [] = []
broadcasts (transmit frame ∷ effects) = broadcasts effects
broadcasts (complete k output ∷ effects) = broadcasts effects
broadcasts (broadcast e ∷ effects) = e ∷ broadcasts effects

module _ {S : Type 0} (z : Flate) (client : Codec ClientMessage) (trips : RoundTrips client)
    (inflates : Inflates z) (c : Client S) (internal : Bytes) (k : Caller) (socket_ok : Bool) where
  -- The call waits in a slot that was free, and the frame that went out carries the slot's number.
  pub record Sent (r : Client S × List Effect) : Type 0 where
    pub id : ℕ
    pub frame : Bytes
    pub was_free : get_elem? c.active_rpc_calls id ≡ some none
    pub waits : r.0 ≡ record c { active_rpc_calls = set c.active_rpc_calls id (some k) }
    pub goes_out : frames r.1 ≡ frame ∷ []
    pub reads : decode_frame z client frame ≡ some (rpc_request id internal)

  -- Or the client is as before, and nothing went out.
  abbrev pub Kept : Client S × List Effect → Type 0
  Kept r = (r.0 ≡ c) × (frames r.1 ≡ [])

  serialize_call-Sent :
      (id : ℕ) (bytes : Option Bytes)
      → length c.active_rpc_calls ≡ 256
      → get_elem? c.active_rpc_calls id ≡ some none
      → client.to_bytes (rpc_request (id % 256) internal) ≡ bytes
      → Kept (serialize_call z client socket_ok c id k bytes)
        ⊎ Sent (serialize_call z client socket_ok c id k bytes)
  unfolding serialize_call send_call refuse frames
  serialize_call-Sent id none size free e = inl (refl, refl)
  serialize_call-Sent id (some bytes) size free e =
      elim (Option-cases (deflate z bytes c.compression)) [
        | inl f ↦ rw (f, send_call) (inl (refl, refl))
        | inr (frame, f) ↦
            let small : id % 256 ≡ id =
              omega (arith, get_elem?-lt-length c.active_rpc_calls id free, size) in
            elim (Bool-cases socket_ok) [
              | inl ok ↦
                  rw (f, send_call, ok)
                    (inr (record {
                      id = id;
                      frame = frame;
                      was_free = free;
                      waits = refl;
                      goes_out = refl;
                      reads =
                          decode_frame-encode_frame z client trips inflates c.compression
                            (rpc_request id internal) frame
                            (unfold encode_frame in ground (arith, e, f, small));
                    }))
              | inr broken ↦ rw (f, send_call, broken) (inl (refl, refl))
            ]
      ]

  pub on_call-Sent :
      length c.active_rpc_calls ≡ 256
      → Kept (on_call z client socket_ok c internal k)
        ⊎ Sent (on_call z client socket_ok c internal k)
  unfolding on_call
  on_call-Sent size = elim (Option-cases (position c.active_rpc_calls)) [
    | inl e ↦ rw (e, on_call) (inl (unfold refuse frames in (refl, refl)))
    | inr (id, e) ↦
        rw (e, on_call) (serialize_call-Sent id _ size (position-free c.active_rpc_calls id e) refl)
  ]

-- A call leaves the state alone.
pub on_call-state :
    {S : Type 0} (z : Flate) (client : Codec ClientMessage) (socket_ok : Bool) (c : Client S)
    (internal : Bytes) (k : Caller)
    → (on_call z client socket_ok c internal k).0.state ≡ c.state
unfolding on_call serialize_call send_call refuse
on_call-state z client socket_ok c internal k = ground arith

-- A call broadcasts nothing.
pub on_call-broadcasts :
    {S : Type 0} (z : Flate) (client : Codec ClientMessage) (socket_ok : Bool) (c : Client S)
    (internal : Bytes) (k : Caller)
    → broadcasts (on_call z client socket_ok c internal k).1 ≡ []
unfolding on_call serialize_call send_call refuse broadcasts
on_call-broadcasts z client socket_ok c internal k = ground arith
