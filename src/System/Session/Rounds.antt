-- ===== src/System/Session/Rounds.antt =====
-- What a round of the handler's loop does to the flags of the ids.
use hardlight.Prelude.{ℕ, ◌≡◌, refl, true, false, none, some, List, [], ◌∷◌, arith, get_elem?, set}
use hardlight.Wire.{
  Bytes, HandlerResult, ClientMessage, rpc_request, ServerMessage, rpc_response, new_event,
  state_change, binary, Event, StateUpdate,
}
use hardlight.Codec.{
  Codec, Flate, RoundTrips, Inflates, encode_frame, decode_frame, decode_frame-encode_frame, ◌>>=◌,
}
use hardlight.Channels.{Sender, ProxiedSubscriptionNotification}
use hardlight.Server.Connection.{
  Connection, Answers, Effect, transmit, spawn_rpc, connection_round, message, response,
  state_changes, event, subscription, on_subscription, on_message, on_request, on_response, forward,
  send_msg,
}

module _ (z : Flate) (client : Codec ClientMessage) (server : Codec ServerMessage) (a : Answers)
    (tx : Sender) (c : Connection) where
  -- A frame that is no request changes nothing.
  pub round_unread :
      (frame : Bytes)
      → a.worker_ok ≡ true
      → decode_frame z client frame ≡ none
      → connection_round z client server a tx c (message (binary frame)) ≡ some (c, [])
  unfolding connection_round on_message
  round_unread frame w e = rw (w, e) refl

  -- A request under an id that is not in flight spawns a task and raises the flag.
  pub round_accepts :
      (frame : Bytes) (id : ℕ) (internal : Bytes)
      → a.worker_ok ≡ true
      → decode_frame z client frame ≡ some (rpc_request id internal)
      → get_elem? c.in_flight id ≡ some false
      → connection_round z client server a tx c (message (binary frame))
        ≡ some (record c { in_flight = set c.in_flight id true }, spawn_rpc id internal ∷ [])
  unfolding connection_round on_message on_request
  round_accepts frame id internal w e f = rw (w, e) (rw (f, ◌>>=◌) refl)

  -- A request under an id that is in flight is ignored.
  pub round_ignores :
      (frame : Bytes) (id : ℕ) (internal : Bytes)
      → a.worker_ok ≡ true
      → decode_frame z client frame ≡ some (rpc_request id internal)
      → get_elem? c.in_flight id ≡ some true
      → connection_round z client server a tx c (message (binary frame)) ≡ some (c, [])
  unfolding connection_round on_message on_request
  round_ignores frame id internal w e f = rw (w, e) (rw (f, ◌>>=◌) refl)

  -- A response lowers the flag, and the frame that goes out holds the response.
  pub round_responds :
      RoundTrips server
      → Inflates z
      → (id : ℕ) (output : HandlerResult Bytes) (c' : Connection) (frame : Bytes)
      → connection_round z client server a tx c (response (rpc_response id output))
        ≡ some (c', transmit frame ∷ [])
      → (c' ≡ record c { in_flight = set c.in_flight id false })
        × (decode_frame z server frame ≡ some (rpc_response id output))
  unfolding connection_round on_response forward send_msg
  round_responds trips inflates id output c' frame h =
      let encoded : encode_frame z server c.compression (rpc_response id output) ≡ some frame =
        ground (arith, h) in
      (
        ground (arith, h),
        decode_frame-encode_frame z server trips inflates c.compression (rpc_response id output)
            frame encoded,
      )

  pub round_pushes_state :
      RoundTrips server
      → Inflates z
      → (changes : List StateUpdate) (c' : Connection) (frame : Bytes)
      → connection_round z client server a tx c (state_changes changes)
        ≡ some (c', transmit frame ∷ [])
      → (c' ≡ c) × (decode_frame z server frame ≡ some (state_change changes))
  unfolding connection_round forward send_msg
  round_pushes_state trips inflates changes c' frame h =
      let encoded : encode_frame z server c.compression (state_change changes) ≡ some frame =
        ground (arith, h) in
      (
        ground (arith, h),
        decode_frame-encode_frame z server trips inflates c.compression (state_change changes) frame
            encoded,
      )

  pub round_pushes_event :
      RoundTrips server
      → Inflates z
      → (e : Event) (c' : Connection) (frame : Bytes)
      → connection_round z client server a tx c (event e) ≡ some (c', transmit frame ∷ [])
      → (c' ≡ c) × (decode_frame z server frame ≡ some (new_event e.topic e.payload))
  unfolding connection_round forward send_msg
  round_pushes_event trips inflates e c' frame h =
      let encoded : encode_frame z server c.compression (new_event e.topic e.payload) ≡ some frame =
        ground (arith, h) in
      (
        ground (arith, h),
        decode_frame-encode_frame z server trips inflates c.compression
            (new_event e.topic e.payload) frame encoded,
      )

  -- Only a response can come to the arm of the responses.
  pub round_of_response :
      (msg : ServerMessage) {r : Connection × List Effect}
      → connection_round z client server a tx c (response msg) ≡ some r
      → (id : ℕ) × (output : HandlerResult Bytes) × (msg ≡ rpc_response id output)
  unfolding connection_round on_response
  round_of_response (rpc_response id output) h = (id, output, refl)
  round_of_response (new_event topic payload) h = absurd (ground (arith, h))
  round_of_response (state_change changes) h = absurd (ground (arith, h))

  -- A subscription leaves the flags alone.
  pub round_subscribes :
      (n : ProxiedSubscriptionNotification) (c' : Connection) (effects : List Effect)
      → connection_round z client server a tx c (subscription n) ≡ some (c', effects)
      → c'.in_flight ≡ c.in_flight
  unfolding connection_round on_subscription
  round_subscribes (ProxiedSubscriptionNotification.subscribe t) c' effects h = ground (arith, h)
  round_subscribes (ProxiedSubscriptionNotification.unsubscribe t) c' effects h = ground (arith, h)

  -- A frame whose worker fails is gone, and nothing else happens.
  pub round_undecoded :
      (frame : Bytes)
      → a.worker_ok ≡ false
      → connection_round z client server a tx c (message (binary frame)) ≡ some (c, [])
  unfolding connection_round on_message
  round_undecoded frame w = rw w refl

  -- A response that does not go out lowers the flag all the same.
  pub round_loses :
      (id : ℕ) (output : HandlerResult Bytes) (c' : Connection)
      → connection_round z client server a tx c (response (rpc_response id output)) ≡ some (c', [])
      → c' ≡ record c { in_flight = set c.in_flight id false }
  unfolding connection_round on_response forward send_msg
  round_loses id output c' h = ground (arith, h)

  pub round_loses_state :
      (changes : List StateUpdate) (c' : Connection)
      → connection_round z client server a tx c (state_changes changes) ≡ some (c', [])
      → c'.in_flight ≡ c.in_flight
  unfolding connection_round forward
  round_loses_state changes c' h = ground (arith, h)

  pub round_loses_event :
      (e : Event) (c' : Connection)
      → connection_round z client server a tx c (event e) ≡ some (c', [])
      → c'.in_flight ≡ c.in_flight
  unfolding connection_round forward
  round_loses_event e c' h = ground (arith, h)
