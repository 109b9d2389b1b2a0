-- ===== src/Server/Connection/Rounds.antt =====
-- Any sequence of rounds of a connection's loop, whatever the peer sends: that no round panics, and
-- how many tasks run.
use hardlight.Prelude.{
  ℕ, ◌+◌, ◌≤◌, ◌<◌, ◌≡◌, refl, ap, ◌∙◌, true, false, Option, some, inl, inr, List, [], ◌∷◌, ◌++◌,
  arith, count, count-append, length-replicate, get_elem?, set, length-set, get_elem?_total,
  Bool-cases, Option-cases, hit,
}
use hardlight.Wire.{
  Bytes, WsMessage, binary, other, ClientMessage, rpc_request, ServerMessage, rpc_response,
  new_event, state_change,
}
use hardlight.Codec.{Codec, Flate, decode_frame, ◌>>=◌}
use hardlight.Topic.{topic_eq}
use hardlight.Channels.{Sender, ProxiedSubscriptionNotification}
use hardlight.Server.Connection.{
  Connection, new_connection, Answers, Arm, response, state_changes, event, subscription, message,
  receive_error, Effect, spawn_rpc, connection_round, on_response, on_subscription, on_message,
  on_request, forward, send_msg, run_connection,
}
use hardlight.Server.Connection.Flags.{
  IsValid, flag, spawn_tag, response_tag, raised-le-one, spawn_raises, response_lowers,
  subscription_spawns_none,
}

module _ (z : Flate) (client : Codec ClientMessage) (server : Codec ServerMessage) where
  -- The types of the source: an id is a `u8`, and the tasks send nothing but responses.
  abbrev pub ReadsFit : Type 0
  ReadsFit =
      (frame : Bytes) (id : ℕ) (internal : Bytes)
      → decode_frame z client frame ≡ some (rpc_request id internal)
      → id < 256

  abbrev pub ArmFits : Arm → Type 0
  ArmFits (response (rpc_response id output)) = id < 256
  ArmFits (response (new_event topic payload)) = ⊥
  ArmFits (response (state_change changes)) = ⊥
  ArmFits (state_changes changes) = Unit {0}
  ArmFits (event e) = Unit {0}
  ArmFits (subscription n) = Unit {0}
  ArmFits (message msg) = Unit {0}
  ArmFits receive_error = Unit {0}

  -- A round goes through, and spawns a task only where the flag of its id was down.
  abbrev Goes : Connection → Answers × Arm → Option (Connection × List Effect) → Type 0
  Goes c arm r =
      (c' : Connection) × (effects : List Effect) × (r ≡ some (c', effects))
      × IsValid c'
      × ((i : ℕ) → count spawn_tag i effects + flag i c ≤ flag i c' + hit i (response_tag arm))

  on_request-Goes :
      (a : Answers) (c : Connection) (msg : WsMessage) (id : ℕ) (internal : Bytes)
      → id < 256
      → IsValid c
      → Goes c (a, message msg) (on_request c (rpc_request id internal))
  unfolding IsValid on_request count
  on_request-Goes a c msg id internal fits v =
      let (busy, e) = get_elem?_total c.in_flight id (omega (arith, v)) in
      elim (Bool-cases busy) [
        | inl b ↦ (c, [], rw (on_request, e) (rw b refl), v, λ i. omega arith)
        | inr b ↦ (
          record c { in_flight = set c.in_flight id true },
          spawn_rpc id internal ∷ [],
          rw (on_request, e) (rw b refl),
          length-set c.in_flight id true ∙ v,
          λ i. spawn_raises c id i (omega (arith, v)) (e ∙ ap some b),
        )
      ]

  forward_spawns_none :
      (a : Answers) (c : Connection) (msg : ServerMessage) (i : ℕ)
      → count spawn_tag i (forward z server a c msg).1 ≡ 0
  unfolding forward count
  forward_spawns_none a c msg i = elim (Option-cases (send_msg z server a msg c.compression)) [
    | inl e ↦ rw e refl
    | inr (frame, e) ↦ rw e refl
  ]

  on_subscription-Goes :
      (a : Answers) (tx : Sender) (c : Connection) (n : ProxiedSubscriptionNotification)
      → (on_subscription a tx c n).0.in_flight ≡ c.in_flight
  unfolding on_subscription
  on_subscription-Goes a tx c (ProxiedSubscriptionNotification.subscribe t) = ground arith
  on_subscription-Goes a tx c (ProxiedSubscriptionNotification.unsubscribe t) = ground arith

  -- No round panics: every index is in bounds, nothing unreachable is reached, and the flags stay.
  connection_round-Goes :
      (a : Answers) (tx : Sender) (c : Connection) (arm : Arm)
      → ReadsFit
      → ArmFits arm
      → IsValid c
      → Goes c (a, arm) (connection_round z client server a tx c arm)
  unfolding connection_round on_response forward on_message IsValid count
  connection_round-Goes a tx c (response (rpc_response id output)) reads fits v =
      let (old, e) = get_elem?_total c.in_flight id (omega (arith, v)) in
      let lowered = record c { in_flight = set c.in_flight id false } in
      (
        lowered,
        (forward z server a lowered (rpc_response id output)).1,
        rw (e, ◌>>=◌) refl,
        length-set c.in_flight id false ∙ v,
        λ i.
            rw (forward_spawns_none a lowered (rpc_response id output) i)
              (response_lowers c id i (omega (arith, v))),
      )
  connection_round-Goes a tx c (response (new_event topic payload)) reads fits v = elim fits [ ]
  connection_round-Goes a tx c (response (state_change changes)) reads fits v = elim fits [ ]
  connection_round-Goes a tx c (state_changes changes) reads fits v =
      (c, _, refl, v, λ i. omega (arith, forward_spawns_none a c (state_change changes) i))
  connection_round-Goes a tx c (event e) reads fits v =
      (c, _, refl, v, λ i. omega (arith, forward_spawns_none a c (new_event e.topic e.payload) i))
  connection_round-Goes a tx c (subscription n) reads fits v = (
    _,
    _,
    refl,
    rw (on_subscription-Goes a tx c n) v,
    λ i. rw (on_subscription-Goes a tx c n, subscription_spawns_none a tx c n i) (omega arith),
  )
  connection_round-Goes a tx c (message (binary frame)) reads fits v =
      elim (Bool-cases a.worker_ok) [
        | inl w ↦ elim (Option-cases (decode_frame z client frame)) [
          | inl e ↦ (c, [], rw (w, e) refl, v, λ i. omega arith)
          | inr (rpc_request id internal, e) ↦
              rw (w, e)
                (on_request-Goes a c (binary frame) id internal (reads frame id internal e) v)
        ]
        | inr w ↦ (c, [], rw w refl, v, λ i. omega arith)
      ]
  connection_round-Goes a tx c (message other) reads fits v = (c, [], refl, v, λ i. omega arith)
  connection_round-Goes a tx c receive_error reads fits v = (c, [], refl, v, λ i. omega arith)

  abbrev pub AllFit : List (Answers × Arm) → Type 0
  AllFit [] = Unit {0}
  AllFit ((a, arm) ∷ arms) = ArmFits arm × AllFit arms

  run_connection-Goes :
      (tx : Sender) (arms : List (Answers × Arm)) (c : Connection)
      → ReadsFit
      → AllFit arms
      → IsValid c
      → (c' : Connection) × (effects : List Effect) × (run_connection z client server tx arms c
          ≡ some (c', effects))
        × ((i : ℕ) → count spawn_tag i effects + flag i c ≤ flag i c' + count response_tag i arms)
  unfolding run_connection count
  run_connection-Goes tx [] c reads fits v = (c, [], refl, λ i. omega arith)
  run_connection-Goes tx ((a, arm) ∷ arms) c reads fits v =
      let (c1, effects, e, v1, step) = connection_round-Goes a tx c arm reads fits.0 v in
      let (c2, more, e2, steps) = run_connection-Goes tx arms c1 reads fits.1 v1 in
      (
        c2,
        effects ++ more,
        rw (e, ◌>>=◌) (rw (e2, ◌>>=◌) refl),
        λ i. omega (arith, step i, steps i, count-append spawn_tag i effects more),
      )

  flag-le-one : (i : ℕ) (c : Connection) → flag i c ≤ 1
  flag-le-one i c = raised-le-one (get_elem? c.in_flight i)

  -- Whatever the client sends, and however the socket and the tasks answer, a connection's loop never
  -- panics, and for each id it has spawned at most one task more than it has taken responses: two
  -- tasks never run under one id. What is assumed is what the types say: an id that is read is a `u8`,
  -- and the tasks send nothing but responses.
  pub one_task_per_id :
      (tx : Sender) (level : ℕ) (arms : List (Answers × Arm))
      → ReadsFit
      → AllFit arms
      → (c : Connection) × (effects : List Effect) × (run_connection z client server tx arms
            (new_connection level)
          ≡ some (c, effects))
        × ((i : ℕ) → count spawn_tag i effects ≤ count response_tag i arms + 1)
  unfolding IsValid new_connection
  one_task_per_id tx level arms reads fits =
      let (c, effects, e, bound) =
        run_connection-Goes tx arms (new_connection level) reads fits
          (length-replicate 256 false) in
      (c, effects, e, λ i. omega (arith, bound i, flag-le-one i c))
