-- ===== src/System/Session/Invariant.antt =====
-- What holds of a session between two steps: an id is under way at one place at most.
use hardlight.Prelude.{
  ℕ, ◌+◌, ◌<◌, ◌≡◌, refl, ap, Bool, true, false, Option, none, some, List, arith, nat_beq,
  nat_beq_iff, get_elem?, set, length, hit, count, AllTagged, get_elem?-set_self, get_elem?-set_ne,
  get_elem?-lt-length,
}
use hardlight.Wire.{Bytes, ServerMessage}
use hardlight.Codec.{decode_frame}
use hardlight.Client.{Caller}
use hardlight.System.Session.{Setting, Session}
use hardlight.System.Session.Queues.{
  request_id, request_body, response_id, response_output, task_id,
}

-- 1 if a caller waits there.
abbrev pub occupied : Option (Option Caller) → ℕ
occupied none = 0
occupied (some none) = 0
occupied (some (some k)) = 1

-- 1 if the flag is up.
abbrev pub raised : Option Bool → ℕ
raised none = 0
raised (some false) = 0
raised (some true) = 1

-- A write to one place, seen from every place.
module _ {A : Type 0} (weight : Option A → ℕ) (xs : List A) (j i : ℕ) (old new : A) where
  set-weight :
      get_elem? xs j ≡ some old
      → (nat_beq i j ≡ true → weight (get_elem? (set xs j new) i) ≡ weight (some new))
        × (nat_beq i j ≡ true → weight (get_elem? xs i) ≡ weight (some old))
        × (nat_beq i j ≡ false → weight (get_elem? (set xs j new) i) ≡ weight (get_elem? xs i))
  set-weight h = (
    λ e.
        let same : i ≡ j = (nat_beq_iff i j).0 e in
        rw same (ap weight (get_elem?-set_self xs j new (get_elem?-lt-length xs j h))),
    λ e. let same : i ≡ j = (nat_beq_iff i j).0 e in rw same (ap weight h),
    λ e. ap weight (get_elem?-set_ne xs j i new (λ p. ground (arith, e, p))),
  )

pub occupied-set-some :
    (k : Caller) (slots : List (Option Caller)) (j i : ℕ)
    → get_elem? slots j ≡ some none
    → occupied (get_elem? (set slots j (some k)) i) ≡ occupied (get_elem? slots i) + hit i (some j)
occupied-set-some k slots j i h = ground (arith, set-weight occupied slots j i none (some k) h)

pub occupied-set-none :
    (k : Caller) (slots : List (Option Caller)) (j i : ℕ)
    → get_elem? slots j ≡ some (some k)
    → occupied (get_elem? (set slots j none) i) + hit i (some j) ≡ occupied (get_elem? slots i)
occupied-set-none k slots j i h = ground (arith, set-weight occupied slots j i (some k) none h)

pub raised-set-true :
    (flags : List Bool) (j i : ℕ)
    → get_elem? flags j ≡ some false
    → raised (get_elem? (set flags j true) i) ≡ raised (get_elem? flags i) + hit i (some j)
raised-set-true flags j i h = ground (arith, set-weight raised flags j i false true h)

pub raised-set-false :
    (flags : List Bool) (j i : ℕ)
    → get_elem? flags j ≡ some true
    → raised (get_elem? (set flags j false) i) + hit i (some j) ≡ raised (get_elem? flags i)
raised-set-false flags j i h = ground (arith, set-weight raised flags j i true false h)

pub slot_of_occupied :
    (slot : Option (Option Caller)) → 0 < occupied slot → (k : Caller) × (slot ≡ some (some k))
slot_of_occupied none h = absurd (omega arith)
slot_of_occupied (some none) h = absurd (omega arith)
slot_of_occupied (some (some k)) h = (k, refl)

pub flag_of_raised : (flag : Option Bool) → 0 < raised flag → flag ≡ some true
flag_of_raised none h = absurd (omega arith)
flag_of_raised (some false) h = absurd (omega arith)
flag_of_raised (some true) h = refl

module _ {S : Type 0} (w : Setting S) where
  open w use {z, client_codec, server_codec, question, Replies}

  abbrev pub request_tag : Bytes → Option ℕ
  request_tag frame = request_id (decode_frame z client_codec frame)

  abbrev pub response_tag : Bytes → Option ℕ
  response_tag frame = response_id (decode_frame z server_codec frame)

  abbrev pub done_tag : ServerMessage → Option ℕ
  done_tag msg = response_id (some msg)

  -- What is under way for the call of `k` under the id `i` is its question, or a reply to it.
  pub record Carries (i : ℕ) (k : Caller) (σ : Session S) : Type 0 where
    pub requests :
        AllTagged request_tag i
          (λ frame. request_body (decode_frame z client_codec frame) ≡ question k)
          σ.c2s
    pub tasks : AllTagged task_id i (λ task. task.1 ≡ question k) σ.tasks
    pub done :
        AllTagged done_tag i (λ msg. Replies (question k) (response_output (some msg))) σ.rpc_rx
    pub responses :
        AllTagged response_tag i
          (λ frame. Replies (question k) (response_output (decode_frame z server_codec frame)))
          σ.s2c

  pub record Inv (σ : Session S) : Type 0 where
    pub slots : length σ.client.active_rpc_calls ≡ 256
    pub flags : length σ.server.in_flight ≡ 256
    -- A busy slot has one request, task, or response, under way or lost, and a free slot none.
    pub balance :
        (i : ℕ)
        → count request_tag i σ.c2s
            + count task_id i σ.tasks
            + count done_tag i σ.rpc_rx
            + count response_tag i σ.s2c
            + count request_tag i σ.lost_requests
            + count done_tag i σ.lost_responses
          ≡ occupied (get_elem? σ.client.active_rpc_calls i)
    -- A flag is up while the server holds a task or a response.
    pub flagged :
        (i : ℕ)
        → count task_id i σ.tasks + count done_tag i σ.rpc_rx
          ≡ raised (get_elem? σ.server.in_flight i)
    pub carries :
        (i : ℕ) (k : Caller) → get_elem? σ.client.active_rpc_calls i ≡ some (some k) → Carries i k σ
