-- ===== src/Handshake.antt =====
-- The HardLight handshake, on top of the WebSocket's: the callback of `spawn_connection_handler`
-- (src/server.rs), and the request and the check of `Client::connect` (src/client.rs).
pub mod Agreement
use hardlight.Prelude.{
  ℕ, ◌≡◌, ◌≤◌, ◌<◌, Bool, true, false, Option, none, some, List, [], ◌∷◌, ◌++◌, leb, if◌then◌else◌,
  ◌==◌, list_eq, nat_eq, All, lookup, Map, PartialEq,
}
use hardlight.Wire.{Bytes}
use hardlight.Codec.{◌>>=◌}
use hardlight.Decimal.{decimal, parse_uint}

-- The headers that the program reads or writes.
pub data HeaderName : Type 0 where
  sec_websocket_protocol x_hl_compress : HeaderName

abbrev pub name_beq : HeaderName → HeaderName → Bool
name_beq sec_websocket_protocol sec_websocket_protocol = true
name_beq sec_websocket_protocol x_hl_compress = false
name_beq x_hl_compress sec_websocket_protocol = false
name_beq x_hl_compress x_hl_compress = true

abbrev pub Headers : Type 0
Headers = List (HeaderName × Bytes)

-- `HeaderMap::get`: the first value of the name.
unfoldable pub get : HeaderName → Headers → Option Bytes
get name [] = none
get name ((other, value) ∷ headers) = if name_beq other name then some value else get name headers

pub record Response : Type 0 where
  pub status : ℕ
  pub headers : Headers

-- `format!("hl/{}", version.major)`
unfoldable pub hl_version_string : ℕ → Bytes
hl_version_string major = b'h' ∷ b'l' ∷ b'/' ∷ decimal major

-- `HeaderValue::to_str` of the http crate: it reads what has visible ASCII characters only.
abbrev pub ReadsVisible : (Bytes → Option Bytes) → Type 0
ReadsVisible to_str =
    (value : Bytes) → All (λ c. (32 ≤ c) × (c < 127)) value → to_str value ≡ some value

abbrev or_default : Option ℕ → ℕ → ℕ
or_default none d = d
or_default (some n) d = n

abbrev pub at_most_nine : ℕ → Option ℕ
at_most_nine c = if leb c 9 then some c else none

-- `default_level` is the level of `Compression::default()`.
module _ (to_str : Bytes → Option Bytes) (default_level : ℕ) where
  unfoldable pub requested_level : Headers → Option ℕ
  requested_level headers = do
    value ← get x_hl_compress headers
    text ← to_str value
    level ← parse_uint 255 text
    at_most_nine level

  -- The server's callback: the level of the connection, and the response. Every branch accepts.
  unfoldable pub callback : Bytes → Headers → Response → ℕ × Response
  unfolding requested_level
  callback version request response =
      let level = or_default (requested_level request) default_level in
      let checked : Response = elim (get sec_websocket_protocol request) [
        | none ↦ record response { status = 400 }
        | some req_version ↦
            if req_version == version
            then record response {
              headers = response.headers ++ ((sec_websocket_protocol, version) ∷ []);
            }
            else record response { status = 400 }
      ] in
      (level, record checked { headers = checked.headers ++ ((x_hl_compress, decimal level) ∷ []) })

-- The headers of the client's request that the server reads.
unfoldable pub client_request : Bytes → ℕ → Headers
client_request version level =
    (sec_websocket_protocol, version) ∷ (x_hl_compress, decimal level) ∷ []

-- The client's check of the response: `false` is `HandshakeIncomplete`.
unfoldable pub client_accepts : Bytes → Headers → Bool
client_accepts version headers = elim (get sec_websocket_protocol headers) [
  | none ↦ false
  | some protocol ↦ protocol == version
]
