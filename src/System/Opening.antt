-- ===== src/System/Opening.antt =====
-- How a connection starts: `Server::spawn_connection_handler` of src/server.rs up to its loop, and
-- `Client::connect` of src/client.rs up to its loop.
use hardlight.Prelude.{
  ℕ, ◌≤◌, ◌<◌, ◌^◌, ◌≡◌, ◌≢◌, refl, ◌∙◌, ap, Bool, true, false, Option, none, some, inl, inr, ◌⊎◌,
  [], arith, if◌then◌else◌, nat_beq, nat_beq_iff,
}
use hardlight.Wire.{Bytes}
use hardlight.Handshake.{
  Headers, Response, ReadsVisible, hl_version_string, callback, client_request, client_accepts,
}
use hardlight.Handshake.Agreement.{handshake_agrees}
use hardlight.Server.Connection.{Connection, new_connection}
use hardlight.Client.{Client, new_client}

-- The response that tungstenite hands to the callback.
abbrev pub switching_protocols : Response
switching_protocols = record { status = 101; headers = [] }

module _ (to_str : Bytes → Option Bytes) (default_level : ℕ) where
  -- The state in which the loop starts, and the response that went out; `none` is a `return`, where
  -- rustls or tungstenite gives an error.
  unfoldable pub accept_connection : Bool → Bool → Bytes → Headers → Option (Connection × Response)
  unfolding callback
  accept_connection tls_ok ws_ok version request =
      let (level, response) = callback to_str default_level version request switching_protocols in
      if tls_ok then (if ws_ok then some (new_connection level, response) else none) else none

-- How `connect` goes on: with an error of the transport, with `HandshakeIncomplete`, or into its loop.
pub data Start (S : Type 0) : Type 0 where
  transport_error handshake_incomplete : Start S
  started : Client S → Start S

abbrev checked : {S : Type 0} → Bool → Client S → Start S
checked true c = started c
checked false c = handshake_incomplete

-- On what tungstenite gives for the response.
unfoldable pub open_client : {S : Type 0} → Bytes → ℕ → S → Option Response → Start S
unfolding client_accepts
open_client version level initial none = transport_error
open_client version level initial (some response) =
    checked (client_accepts version response.headers) (new_client level initial)

-- What tungstenite documents: a client is given the response as it was sent, or an error, and no
-- error if the status is 101 and the transport works.
pub record Delivers (deliver : Response → Option Response) : Type 0 where
  pub unchanged : (r : Response) → (deliver r ≡ none) ⊎ (deliver r ≡ some r)
  pub switches : (r : Response) → r.status ≡ 101 → deliver r ≡ some r

not_beq : (a b : ℕ) → a ≢ b → nat_beq a b ≡ false
not_beq a b differ = ground arith

module _ {S : Type 0} (deliver : Response → Option Response) (delivers : Delivers deliver)
    (version : Bytes) (level : ℕ) (initial : S) (r : Response) where
  client_starts :
      client_accepts version r.headers ≡ true
      → r.status ≡ 101
      → open_client version level initial (deliver r) ≡ started (new_client level initial)
  unfolding open_client
  client_starts accepts status = rw (delivers.switches r status, open_client, accepts) refl

  client_stays_out :
      (c : Client S)
      → client_accepts version r.headers ≡ false
      → open_client version level initial (deliver r) ≢ started c
  unfolding open_client
  client_stays_out c refuses h = elim (delivers.unchanged r) [
    | inl e ↦ ground (arith, h, e)
    | inr e ↦ ground (arith, h, e, refuses)
  ]

-- If header values of visible characters can be read, the versions fit 32 bits, the level is at most 9
-- and the transport works: the server starts its loop at the level that the client asked for,
-- whatever the client's version; the client starts its loop at that level if the two major versions
-- agree, and does not start it if they differ.
pub connection_opens :
    {S : Type 0} (to_str : Bytes → Option Bytes) (default_level : ℕ)
    (deliver : Response → Option Response)
    → ReadsVisible to_str
    → Delivers deliver
    → (client_major server_major level : ℕ) (initial : S) → client_major < 2 ^ 32
    → server_major < 2 ^ 32
    → level ≤ 9
    → let version = hl_version_string client_major in
      (response : Response) × (accept_connection to_str default_level true true
          (hl_version_string server_major)
          (client_request version level)
        ≡ some (new_connection level, response))
      × ((client_major ≡ server_major)
          → open_client version level initial (deliver response)
            ≡ started (new_client level initial))
      × ((client_major ≢ server_major)
          → (c : Client S) → open_client version level initial (deliver response) ≢ started c)
unfolding accept_connection
connection_opens to_str default_level deliver reads delivers client_major server_major level initial
      small_c small_s small_l =
    let version = hl_version_string client_major in
    let r =
      callback to_str default_level (hl_version_string server_major) (client_request version level)
        switching_protocols in
    let (leveled, accepts, status) =
      handshake_agrees to_str default_level reads client_major server_major level small_c small_s
        small_l in
    (
      r.1,
      ap (λ l. some (new_connection l, r.1)) leveled,
      λ same.
          let equal = (nat_beq_iff client_major server_major).1 same in
          client_starts deliver delivers version level initial r.1 (accepts ∙ equal)
            (status ∙ ap (λ b. if b then 101 else 400) equal),
      λ differ c.
          client_stays_out deliver delivers version level initial r.1 c
            (accepts ∙ not_beq client_major server_major differ),
    )
