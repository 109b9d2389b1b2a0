-- ===== src/System/Session/Liveness.antt =====
-- A caller that waits gets its answer once what is under way is delivered.
use hardlight.Prelude.{
  ℕ, zero, suc, ◌+◌, ◌≤◌, ◌≡◌, refl, ◌∙◌, ap, Option, none, some, ◌⊎◌, inl, inr, List, [], ◌∷◌,
  ◌++◌, arith, get_elem?, nat_beq, nat_beq_iff, get_elem?-set_ne, count, Bool-cases, nil_of_length,
}
use mathlib.Core.List.{Mem, mem-append_left, mem-append_right, mem-cons_self}
use hardlight.Wire.{
  Bytes, HandlerResult, ServerMessage, rpc_response, new_event, state_change, binary,
}
use hardlight.Codec.{decode_frame}
use hardlight.Channels.{Sender}
use hardlight.Client.{Caller, Effect, complete, on_message, on_server_message}
use hardlight.Client.Reads.{on_message_read, on_message_unread, on_response_taken}
use hardlight.System.Session.{
  Setting, Session, Step, call, request_arrives, loses_request, task_ends, responds, loses_response,
  pushes_state, pushes_event, loses_state, loses_event, subscribes, response_arrives, Reach, next,
  new_session,
}
use hardlight.System.Session.Invariant.{occupied, request_tag, response_tag, done_tag, Inv}
use hardlight.System.Session.Queues.{task_id}
use hardlight.System.Session.ClientReads.{response_finds_slot}
use hardlight.System.Session.Correct.{IsFaithful, Step-Inv, Reach-Inv, new_session-Inv}
use hardlight.System.Session.Deliveries.{left, delivered, deliveries_end, Delivery, settled, round}
use hardlight.System.Session.Progress.{IsResponsive, delivery_goes_on}

module _ {S : Type 0} (w : Setting S) (tx : Sender) where
  open w use {z, server_codec, client_state, question, Replies}

  -- The caller gets a reply to what it asked.
  abbrev pub IsAnswered : Caller → List Effect → Type 0
  IsAnswered k effects =
      (output : HandlerResult Bytes) × Mem (complete k output) effects × Replies (question k) output

  -- Of the id, nothing was lost.
  abbrev pub IsSafe : ℕ → Session S → Type 0
  IsSafe i σ = count (request_tag w) i σ.lost_requests + count (done_tag w) i σ.lost_responses ≡ 0

  -- A frame that the client takes leaves the caller in its slot, or answers it.
  module _ (σ : Session S) (v : Inv w σ) (frame : Bytes) (rest : List Bytes)
      (q : σ.s2c ≡ frame ∷ rest) (i : ℕ) (k : Caller)
      (busy : get_elem? σ.client.active_rpc_calls i ≡ some (some k)) where
    taken_or_kept :
        (msg : Option ServerMessage)
        → decode_frame z server_codec frame ≡ msg
        → (let r = on_message z server_codec client_state σ.client (binary frame) in
            (get_elem? r.0.active_rpc_calls i ≡ some (some k)) ⊎ IsAnswered k r.1)
    taken_or_kept none d =
        inl (rw (on_message_unread z server_codec client_state σ.client frame d) busy)
    taken_or_kept (some (new_event topic payload)) d =
        rw (on_message_read z server_codec client_state σ.client frame _ d)
          (unfold on_server_message in inl busy)
    taken_or_kept (some (state_change changes)) d =
        rw (on_message_read z server_codec client_state σ.client frame _ d)
          (unfold on_server_message in inl busy)
    taken_or_kept (some (rpc_response id output)) d =
        let (j, waits) = response_finds_slot w σ v frame rest q id (rw d refl) in
        rw (on_message_read z server_codec client_state σ.client frame _ d) (
          rw (on_response_taken z server_codec client_state σ.client id output j waits)
            (elim (Bool-cases (nat_beq id i)) [
              | inl same ↦
                  let this : id ≡ i = (nat_beq_iff id i).0 same in
                  let asker : j ≡ k = ground (arith, waits, busy, this) in
                  let carried = rw q at ((v.carries i k busy).responses) in
                  inr (output, rw asker mem-cons_self, rw d at (carried.0 (rw d (ap some this))))
              | inr other ↦ inl (
                  get_elem?-set_ne σ.client.active_rpc_calls id i none
                    (λ p. ground (arith, other, p))
                  ∙ busy)
            ]))

  -- A round that delivers loses nothing, and leaves the caller in its slot or answers it.
  kept_or_freed :
      {σ τ : Session S} {effects : List Effect} (s : Step w tx σ τ)
      → delivered w tx s ≡ some effects
      → Inv w σ
      → (i : ℕ) (k : Caller) → get_elem? σ.client.active_rpc_calls i ≡ some (some k)
      → (IsSafe i σ → IsSafe i τ)
        × ((get_elem? τ.client.active_rpc_calls i ≡ some (some k)) ⊎ IsAnswered k effects)
  kept_or_freed (request_arrives a frame rest c effects q ok h e) d v i k busy =
      rw e (λ safe. safe, inl busy)
  kept_or_freed (task_ends before after id internal output q reply e) d v i k busy =
      rw e (λ safe. safe, inl busy)
  kept_or_freed (responds a msg rest c frame q h e) d v i k busy = rw e (λ safe. safe, inl busy)
  kept_or_freed {σ} {τ} {effects} (response_arrives frame rest q e) d v i k busy =
      let does : (on_message z server_codec client_state σ.client (binary frame)).1 ≡ effects =
        ground (arith, d) in
      rw (e, ← does)
        (
          λ safe. safe,
          taken_or_kept σ v frame rest q i k busy (decode_frame z server_codec frame) refl,
        )
  kept_or_freed (call socket_ok k' e) d v i k busy = absurd (ground (arith, d))
  kept_or_freed (loses_request a frame rest c effects q ok h e) d v i k busy =
      absurd (ground (arith, d))
  kept_or_freed (loses_response a msg rest c q h e) d v i k busy = absurd (ground (arith, d))
  kept_or_freed (pushes_state a changes c frame h e) d v i k busy = absurd (ground (arith, d))
  kept_or_freed (pushes_event a ev c frame h e) d v i k busy = absurd (ground (arith, d))
  kept_or_freed (loses_state a changes c h e) d v i k busy = absurd (ground (arith, d))
  kept_or_freed (loses_event a ev c h e) d v i k busy = absurd (ground (arith, d))
  kept_or_freed (subscribes a n c effects h e) d v i k busy = absurd (ground (arith, d))

  -- Where nothing is under way and nothing was lost, no caller waits.
  quiet_is_free :
      (σ : Session S)
      → Inv w σ
      → (i : ℕ) → IsSafe i σ
      → left σ ≡ 0
      → occupied (get_elem? σ.client.active_rpc_calls i) ≡ 0
  unfolding count
  quiet_is_free σ v i safe quiet =
      let requests = ap (count (request_tag w) i) (nil_of_length σ.c2s (omega (arith, quiet))) in
      let tasks = ap (count task_id i) (nil_of_length σ.tasks (omega (arith, quiet))) in
      let done = ap (count (done_tag w) i) (nil_of_length σ.rpc_rx (omega (arith, quiet))) in
      let responses = ap (count (response_tag w) i) (nil_of_length σ.s2c (omega (arith, quiet))) in
      omega (arith, v.balance i, safe, requests, tasks, done, responses)

  module _ (law : IsFaithful w tx) where
    reply_when_quiet :
        {n : ℕ} {effects : List Effect} {σ τ : Session S}
        → Delivery w tx n effects σ τ
        → Inv w σ
        → (i : ℕ) (k : Caller) → get_elem? σ.client.active_rpc_calls i ≡ some (some k)
        → IsSafe i σ
        → left τ ≡ 0
        → IsAnswered k effects
    reply_when_quiet {σ = σ} settled v i k busy safe quiet =
        absurd (omega (arith, quiet_is_free σ v i safe quiet, ap occupied busy))
    reply_when_quiet (round {effects = effects} {more = more} s d r) v i k busy safe quiet =
        let (still, outcome) = kept_or_freed s d v i k busy in
        elim outcome [
          | inl kept ↦
              let (output, mem, reply) =
                reply_when_quiet r (Step-Inv w tx law s v) i k kept (still safe) quiet in
              (output, mem-append_right effects mem, reply)
          | inr (output, mem, reply) ↦ (output, mem-append_left more mem, reply)
        ]

    module _ (level agreed : ℕ) (initial : S) where
      -- Enough rounds deliver everything.
      deliver_all :
          (live : IsResponsive w tx) (fuel : ℕ) {σ : Session S}
          → Reach w tx (new_session level agreed initial) σ
          → left σ ≤ fuel
          → (n : ℕ) × (effects : List Effect) × (τ : Session S) × Delivery w tx n effects σ τ
            × (left τ ≡ 0)
      deliver_all live zero {σ} run enough = (0, [], σ, settled, omega arith)
      deliver_all live (suc fuel) {σ} run enough = elim (Bool-cases (nat_beq (left σ) 0)) [
        | inl none_left ↦ (0, [], σ, settled, (nat_beq_iff (left σ) 0).0 none_left)
        | inr some_left ↦
            let (τ, s, effects, d) =
              delivery_goes_on w tx law live level agreed initial run (ground (arith, some_left)) in
            let fall = deliveries_end w tx (round s d settled) in
            let (n, more, υ, r, quiet) =
              deliver_all live fuel (next run s) (omega (arith, fall, enough)) in
            (suc n, effects ++ more, υ, round s d r, quiet)
      ]

      module _ {σ : Session S} (run : Reach w tx (new_session level agreed initial) σ) (i : ℕ)
          (k : Caller) (busy : get_elem? σ.client.active_rpc_calls i ≡ some (some k))
          (safe : IsSafe i σ) where
        -- If the libraries read back what they have written: a caller that waits in a slot whose request
        -- and response were not lost has a reply to what it asked once the session has delivered all
        -- that is under way, in whatever order its rounds do so.
        pub caller_gets_reply :
            {n : ℕ} {effects : List Effect} {τ : Session S}
            → Delivery w tx n effects σ τ
            → left τ ≡ 0
            → IsAnswered k effects
        caller_gets_reply r quiet =
            reply_when_quiet r (Reach-Inv w tx law (new_session-Inv w tx level agreed initial) run)
              i k busy safe quiet

        -- If the libraries read back what they have written and write every reply, and the handler replies
        -- to every request: a caller that waits in a slot whose request and response were not lost can
        -- be answered in `left σ` rounds that deliver, by a reply to what it asked.
        pub caller_can_get_reply :
            IsResponsive w tx
            → (n : ℕ) × (effects : List Effect) × (τ : Session S) × Delivery w tx n effects σ τ
              × (n ≤ left σ)
              × IsAnswered k effects
        caller_can_get_reply live =
            let (n, effects, τ, r, quiet) = deliver_all live (left σ) run (omega arith) in
            (n, effects, τ, r, omega (arith, deliveries_end w tx r), caller_gets_reply r quiet)
