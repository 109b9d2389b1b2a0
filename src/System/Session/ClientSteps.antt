-- ===== src/System/Session/ClientSteps.antt =====
-- The calls of the application keep the invariant.
use hardlight.Prelude.{
  Bool, Bool-cases, ℕ, ◌≡◌, refl, sym, ◌∙◌, ap, none, some, inl, inr, [], ◌∷◌, ◌++◌, append-nil,
  arith, nat_beq, nat_beq_iff, get_elem?, set, hit, count, count-append, AllTagged-of_count,
  All-append, length-set, get_elem?-set_self, get_elem?-set_ne, get_elem?-lt-length,
}
use hardlight.Wire.{Bytes, rpc_request}
use hardlight.Codec.{RoundTrips, Inflates, decode_frame}
use hardlight.Client.{Caller, on_call}
use hardlight.Client.Sends.{frames, on_call-Sent}
use hardlight.System.Session.{Setting, Session}
use hardlight.System.Session.Queues.{request_body, task_id}
use hardlight.System.Session.Invariant.{
  occupied, occupied-set-some, request_tag, response_tag, done_tag, Carries, Inv,
}

module _ {S : Type 0} (w : Setting S) where
  open w use {z, client_codec, server_codec, client_state, question, Replies}

  -- No entry carries an id whose slot is free, so anything holds of those that do.
  nothing_under_way :
      (σ : Session S) (i : ℕ) (k : Caller)
      → Inv w σ
      → get_elem? σ.client.active_rpc_calls i ≡ some none
      → Carries w i k σ
  nothing_under_way σ i k v free =
      let none_left = v.balance i in
      let zero : occupied (get_elem? σ.client.active_rpc_calls i) ≡ 0 = ap occupied free in
      record {
        requests = AllTagged-of_count (request_tag w) i _ σ.c2s (omega arith);
        tasks = AllTagged-of_count task_id i _ σ.tasks (omega arith);
        done = AllTagged-of_count (done_tag w) i _ σ.rpc_rx (omega arith);
        responses = AllTagged-of_count (response_tag w) i _ σ.s2c (omega arith);
      }

  module _ (σ : Session S) (v : Inv w σ) (k : Caller) (id : ℕ) (frame : Bytes) where
    sent_session : Session S
    sent_session = record σ {
      client = record σ.client { active_rpc_calls = set σ.client.active_rpc_calls id (some k) };
      c2s = σ.c2s ++ (frame ∷ []);
    }

    module _ (free : get_elem? σ.client.active_rpc_calls id ≡ some none)
        (reads : decode_frame z client_codec frame ≡ some (rpc_request id (question k))) where
      extend :
          (i : ℕ) (j : Caller)
          → Carries w i j σ
          → (request_tag w frame ≡ some i
              → request_body (decode_frame z client_codec frame) ≡ question j)
          → Carries w i j sent_session
      unfolding sent_session
      extend i j old new = record {
        requests = All-append _ σ.c2s (frame ∷ []) old.requests (new, tt);
        tasks = old.tasks;
        done = old.done;
        responses = old.responses;
      }

      sent-Carries :
          (i : ℕ) (j : Caller)
          → get_elem? (set σ.client.active_rpc_calls id (some k)) i ≡ some (some j)
          → Carries w i j sent_session
      unfolding sent_session
      sent-Carries i j h = elim (Bool-cases (nat_beq id i)) [
        | inl hit ↦
            let same : id ≡ i = (nat_beq_iff id i).0 hit in
            let stored =
              get_elem?-set_self σ.client.active_rpc_calls id (some k)
                (get_elem?-lt-length σ.client.active_rpc_calls id free) in
            let caller : j ≡ k = ground (arith, h, stored, same) in
            let old = nothing_under_way σ i j v (rw same at free) in
            extend i j old (λ _. rw reads (ap question (sym caller)))
        | inr miss ↦
            let untouched =
              get_elem?-set_ne σ.client.active_rpc_calls id i (some k)
                (λ p. ground (arith, miss, p)) in
            extend i j (v.carries i j (sym untouched ∙ h))
              (λ e. absurd (ground (arith, miss, e, reads)))
      ]

      sent-Inv : Inv w sent_session
      unfolding sent_session count
      sent-Inv = record {
        slots = length-set σ.client.active_rpc_calls id (some k) ∙ v.slots;
        flags = v.flags;
        balance = λ i.
            let tag : hit i (request_tag w frame) ≡ hit i (some id) = rw reads refl in
            omega (
              arith,
              count-append (request_tag w) i σ.c2s (frame ∷ []),
              occupied-set-some k σ.client.active_rpc_calls id i free,
              v.balance i,
            );
        flagged = v.flagged;
        carries = sent-Carries;
      }

  module _ (trips : RoundTrips client_codec) (inflates : Inflates z) where
    pub call-Inv :
        (socket_ok : Bool) (σ : Session S) (k : Caller)
        → Inv w σ
        → (let r = on_call z client_codec socket_ok σ.client (question k) k in
            Inv w (record σ { client = r.0; c2s = σ.c2s ++ frames r.1 }))
    call-Inv socket_ok σ k v =
        elim (on_call-Sent z client_codec trips inflates σ.client (question k) k socket_ok
          v.slots) [
            | inl kept ↦ rw (kept.0, kept.1) (rw append-nil v)
            | inr sent ↦
                rw (sent.waits, sent.goes_out)
                  (unfold sent_session in
                    sent-Inv σ v k sent.id sent.frame sent.was_free sent.reads)
          ]
