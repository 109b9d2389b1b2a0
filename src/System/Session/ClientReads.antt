-- ===== src/System/Session/ClientReads.antt =====
-- What the client reads keeps the invariant.
use hardlight.Prelude.{
  Bool-cases, ℕ, ◌≡◌, refl, sym, ◌∙◌, ap, Option, none, some, inl, inr, List, ◌∷◌, arith, nat_beq,
  nat_beq_iff, get_elem?, set, length, hit, hit_self, count, length-set, get_elem?-set_self,
  get_elem?-set_ne, get_elem?-lt-length,
}
use hardlight.Wire.{Bytes, ServerMessage, rpc_response, new_event, state_change, binary}
use hardlight.Codec.{decode_frame}
use hardlight.Client.{Caller, Client, on_message, on_server_message}
use hardlight.Client.Reads.{on_message_read, on_message_unread, on_response_taken}
use hardlight.System.Session.{Setting, Session}
use hardlight.System.Session.Invariant.{occupied-set-none, slot_of_occupied, response_tag, Inv}

module _ {S : Type 0} (w : Setting S) where
  open w use {z, client_codec, server_codec, client_state, question, Replies}

  module _ (σ : Session S) (v : Inv w σ) (frame : Bytes) (rest : List Bytes)
      (e : σ.s2c ≡ frame ∷ rest) where
    -- A frame that holds no response.
    skip-Inv :
        (c : Client S)
        → c.active_rpc_calls ≡ σ.client.active_rpc_calls
        → response_tag w frame ≡ none
        → Inv w (record σ { client = c; s2c = rest })
    unfolding count
    skip-Inv c same untagged = record {
      slots = ap length same ∙ v.slots;
      flags = v.flags;
      balance = λ i.
          let before = v.balance i in
          let tag : hit i (response_tag w frame) ≡ 0 = ap (hit i) untagged in
          rw same (omega (arith, ap (count (response_tag w) i) e));
      flagged = v.flagged;
      carries = λ i k h.
          let old = v.carries i k (rw same at h) in
          record {
            requests = old.requests;
            tasks = old.tasks;
            done = old.done;
            responses = (rw e at old.responses).1;
          };
    }

    module _ (id : ℕ) (k : Caller) (busy : get_elem? σ.client.active_rpc_calls id ≡ some (some k))
        (tagged : response_tag w frame ≡ some id) where
      free-Inv : Inv w (record σ {
        client = record σ.client { active_rpc_calls = set σ.client.active_rpc_calls id none };
        s2c = rest;
      })
      unfolding count
      free-Inv = record {
        slots = length-set σ.client.active_rpc_calls id none ∙ v.slots;
        flags = v.flags;
        balance = λ i.
            let tag : hit i (response_tag w frame) ≡ hit i (some id) = ap (hit i) tagged in
            omega (
              arith,
              v.balance i,
              ap (count (response_tag w) i) e,
              occupied-set-none k σ.client.active_rpc_calls id i busy,
            );
        flagged = v.flagged;
        carries = λ i j h.
            let old = v.carries i j (kept i j h) in
            record {
              requests = old.requests;
              tasks = old.tasks;
              done = old.done;
              responses = (rw e at old.responses).1;
            };
      }
        where
          kept :
              (i : ℕ) (j : Caller)
              → get_elem? (set σ.client.active_rpc_calls id none) i ≡ some (some j)
              → get_elem? σ.client.active_rpc_calls i ≡ some (some j)
          kept i j h = elim (Bool-cases (nat_beq id i)) [
            | inl hit ↦
                let same : id ≡ i = (nat_beq_iff id i).0 hit in
                let stored =
                  get_elem?-set_self σ.client.active_rpc_calls id none
                    (get_elem?-lt-length σ.client.active_rpc_calls id busy) in
                absurd (ground (arith, h, stored, same))
            | inr miss ↦
                sym (
                  get_elem?-set_ne σ.client.active_rpc_calls id i none
                    (λ p. ground (arith, miss, p)))
                ∙ h
          ]

    -- The slot of a response that arrives is busy.
    pub response_finds_slot :
        (id : ℕ)
        → response_tag w frame ≡ some id
        → (k : Caller) × (get_elem? σ.client.active_rpc_calls id ≡ some (some k))
    unfolding count
    response_finds_slot id tagged =
        let tag : hit id (response_tag w frame) ≡ 1 = ap (hit id) tagged ∙ hit_self id in
        slot_of_occupied (get_elem? σ.client.active_rpc_calls id)
          (omega (arith, v.balance id, ap (count (response_tag w) id) e))

    receive_message :
        (msg : Option ServerMessage)
        → decode_frame z server_codec frame ≡ msg
        → Inv w (record σ {
          client = (on_message z server_codec client_state σ.client (binary frame)).0;
          s2c = rest;
        })
    receive_message none d =
        rw (on_message_unread z server_codec client_state σ.client frame d)
          (skip-Inv σ.client refl (rw d refl))
    receive_message (some (rpc_response id output)) d =
        let (k, busy) = response_finds_slot id (rw d refl) in
        rw (on_message_read z server_codec client_state σ.client frame _ d) (
          rw (on_response_taken z server_codec client_state σ.client id output k busy)
            (free-Inv id k busy (rw d refl)))
    receive_message (some (new_event topic payload)) d =
        rw (on_message_read z server_codec client_state σ.client frame _ d)
          (unfold on_server_message in skip-Inv σ.client refl (rw d refl))
    receive_message (some (state_change changes)) d =
        rw (on_message_read z server_codec client_state σ.client frame _ d) (
          unfold on_server_message in
          skip-Inv
            (record σ.client { state = (client_state.apply_changes changes σ.client.state).0 }) refl
            (rw d refl))

    pub response_arrives-Inv : Inv w (record σ {
      client = (on_message z server_codec client_state σ.client (binary frame)).0;
      s2c = rest;
    })
    response_arrives-Inv = receive_message (decode_frame z server_codec frame) refl
