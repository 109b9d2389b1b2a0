-- ===== src/Serialize.antt =====
-- `ser` and `de` of src/lib.rs, for handlers that are written by hand, and the conversions that
-- `#[codable]` of macros/src/lib.rs adds to a type.
use hardlight.Prelude.{◌≡◌, refl, inl, inr, Option, none, some, arith, Option-cases}
use hardlight.Wire.{Bytes, HandlerResult, ok, err, server_encode_error, server_decode_error}
use hardlight.Codec.{Codec, RoundTrips}

module _ {ℓ} {A : Type ℓ} (c : Codec A) where
  -- Where `to_bytes` fails, the thread panics and its sender is dropped.
  unfoldable pub ser : A → HandlerResult Bytes
  ser output = elim (c.to_bytes output) [ none ↦ err server_encode_error | some bytes ↦ ok bytes ]

  unfoldable pub de : Bytes → HandlerResult A
  de bytes = elim (c.from_bytes bytes) [ none ↦ err server_decode_error | some value ↦ ok value ]

  -- `Into<Vec<u8>>` and `From<Vec<u8>>`; `none` is the panic of `unwrap`.
  unfoldable pub codable_into : A → Option Bytes
  codable_into value = c.to_bytes value

  unfoldable pub codable_from : Bytes → Option A
  codable_from bytes = c.from_bytes bytes

  -- If rkyv reads back what it has written: what `ser` has serialized, `de` reads back, and so does the conversion of a codable type, which
  -- does not panic on it.
  pub de-ser :
      RoundTrips c
      → (value : A) (bytes : Bytes) → ser value ≡ ok bytes
      → (codable_into value ≡ some bytes)
        × (de bytes ≡ ok value)
        × (codable_from bytes ≡ some value)
  unfolding ser de codable_into codable_from
  de-ser trips value bytes h = elim (Option-cases (c.to_bytes value)) [
    | inl e ↦ absurd (ground (arith, h, e))
    | inr (bs, e) ↦
        let same : c.to_bytes value ≡ some bytes = ground (arith, h, e) in
        let back = trips value bytes same in (same, rw (de, back) refl, back)
  ]
