-- ===== src/Handshake/Agreement.antt =====
-- What the two peers agree on.
use hardlight.Prelude.{
  ℕ, ◌≡◌, ◌≤◌, ◌<◌, ◌^◌, refl, ap, Option, inl, inr, [], if◌then◌else◌, ◌==◌, nat_beq, nat_beq_iff,
  list_eq, nat_eq, list_beq, list_beq_iff, arith, Bool-cases, Option-cases,
}
use hardlight.Wire.{Bytes}
use hardlight.Codec.{◌>>=◌}
use hardlight.Decimal.{decimal, parse_uint, parse_uint-decimal, decimal-injective, decimal-visible}
use hardlight.Handshake.{
  Headers, Response, x_hl_compress, get, hl_version_string, ReadsVisible, callback, client_request,
  client_accepts,
}

-- Versions are compared by their major numbers.
pub hl_version_string-beq :
    (a b : ℕ) → a < 2 ^ 32 → b < 2 ^ 32 → (hl_version_string a == hl_version_string b) ≡ nat_beq a b
unfolding hl_version_string
hl_version_string-beq a b small_a small_b = elim (Bool-cases (nat_beq a b)) [
  | inl same ↦
      let e : a ≡ b = (nat_beq_iff a b).0 same in
      rw same ((list_beq_iff (decimal a) (decimal b)).1 (ap decimal e))
  | inr differ ↦ elim (Bool-cases (list_beq (decimal a) (decimal b))) [
    | inl texts ↦ absurd (
        ground (
          arith,
          differ,
          decimal-injective a b (omega arith) (omega arith)
              ((list_beq_iff (decimal a) (decimal b)).0 texts),
        ))
    | inr texts ↦ rw (differ, texts) refl
  ]
]

module _ (to_str : Bytes → Option Bytes) (default_level : ℕ) where
  -- If the default level is at most 9, then whatever the request says, the server compresses at a level that flate2 has.
  pub callback_level_bound :
      (version : Bytes) (request : Headers) (response : Response)
      → default_level ≤ 9
      → (callback to_str default_level version request response).0 ≤ 9
  unfolding callback
  callback_level_bound version request response fits =
      elim (Option-cases (get x_hl_compress request)) [
        | inl e ↦ ground (arith, e)
        | inr (value, e) ↦ elim (Option-cases (to_str value)) [
          | inl f ↦ ground (arith, e, f)
          | inr (text, f) ↦ ground (arith, e, f, Option-cases (parse_uint 255 text))
        ]
      ]

  -- If header values of visible characters can be read, the major versions fit 32 bits, and the level
  -- is at most 9: a client and a server settle on the client's compression level, and the client goes on exactly if
  -- the two have the same major version; otherwise the status is 400.
  pub handshake_agrees :
      (reads : ReadsVisible to_str) (client_major server_major level : ℕ)
      → client_major < 2 ^ 32
      → server_major < 2 ^ 32
      → level ≤ 9
      → let version = hl_version_string client_major in
        let r =
          callback to_str default_level
            (hl_version_string server_major)
            (client_request version level)
            (record { status = 101; headers = [] }) in
        (r.0 ≡ level)
        × (client_accepts version r.1.headers ≡ nat_beq client_major server_major)
        × (r.1.status ≡ (if nat_beq client_major server_major then 101 else 400))
  unfolding callback client_request client_accepts get
  handshake_agrees reads client_major server_major level small_c small_s small_l =
      rw (reads (decimal level) (decimal-visible level), ◌>>=◌)
        (rw (parse_uint-decimal 255 level (omega arith) (omega arith), ◌>>=◌)
          (ground (
            arith,
            hl_version_string-beq client_major server_major small_c small_s,
            hl_version_string-beq server_major client_major small_s small_c,
          )))
