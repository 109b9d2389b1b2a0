-- ===== src/Codec.antt =====
-- rkyv and flate2, which the program calls, as interfaces; `deflate` and `inflate` of src/lib.rs;
-- and the frames that the two peers exchange, `to_bytes` then `deflate`, `inflate` then `from_bytes`.
use hardlight.Prelude.{ℕ, ◌≡◌, inl, inr, Option, none, some, List, arith, Option-cases}

-- `rkyv::to_bytes` and `rkyv::from_bytes` at one type.
pub record Codec {ℓ} (A : Type ℓ) : Type ℓ where
  pub to_bytes : A → Option (List ℕ)
  pub from_bytes : List ℕ → Option A

-- What rkyv documents: bytes that were written are read back as the same value.
abbrev pub RoundTrips {ℓ} : {A : Type ℓ} → Codec A → Type ℓ
RoundTrips {A} c = (a : A) (bs : List ℕ) → c.to_bytes a ≡ some bs → c.from_bytes bs ≡ some a

-- flate2's `DeflateEncoder` and `DeflateDecoder` over a vector.
pub record Flate : Type 1 where
  pub Compressor : Type 0
  pub Decompressor : Type 0
  pub new_compressor : ℕ → Compressor
  pub compressor_write : Compressor → List ℕ → Option Compressor
  pub compressor_finish : Compressor → Option (List ℕ)
  pub new_decompressor : Decompressor
  pub decompressor_write : Decompressor → List ℕ → Option Decompressor
  pub decompressor_finish : Decompressor → Option (List ℕ)

infixl 5 ◌>>=◌
abbrev pub ◌>>=◌ {ℓ κ} : {A : Type ℓ} {B : Type κ} → Option A → (A → Option B) → Option B
none >>= f = none
some a >>= f = f a

module _ (z : Flate) where
  unfoldable pub deflate : List ℕ → ℕ → Option (List ℕ)
  deflate msg level = do
    compressor ← z.compressor_write (z.new_compressor level) msg
    z.compressor_finish compressor

  unfoldable pub inflate : List ℕ → Option (List ℕ)
  inflate msg = do
    decompressor ← z.decompressor_write z.new_decompressor msg
    z.decompressor_finish decompressor

  -- What flate2 documents: the decoder gives back what the encoder was given, at every level.
  abbrev pub Inflates : Type 0
  Inflates =
      (level : ℕ) (msg bs : List ℕ) (c : z.Compressor)
      → z.compressor_write (z.new_compressor level) msg ≡ some c
      → z.compressor_finish c ≡ some bs
      → (d : z.Decompressor) × (z.decompressor_write z.new_decompressor bs ≡ some d)
        × (z.decompressor_finish d ≡ some msg)

  pub inflate-deflate :
      (law : Inflates) (msg bs : List ℕ) (level : ℕ)
      → deflate msg level ≡ some bs
      → inflate bs ≡ some msg
  unfolding deflate inflate
  inflate-deflate law msg bs level h =
      elim (Option-cases (z.compressor_write (z.new_compressor level) msg)) [
        | inl e ↦ ground (arith, e)
        | inr (c, e) ↦
            let (d, wrote, done) = law level msg bs c e (ground (arith, e)) in
            rw (wrote, ◌>>=◌) done
      ]

module _ {ℓ} {A : Type ℓ} (z : Flate) (c : Codec A) where
  -- The bytes of one binary WebSocket message.
  unfoldable pub encode_frame : ℕ → A → Option (List ℕ)
  unfolding deflate
  encode_frame level msg = do bytes ← c.to_bytes msg; deflate z bytes level

  unfoldable pub decode_frame : List ℕ → Option A
  unfolding inflate
  decode_frame frame = do bytes ← inflate z frame; c.from_bytes bytes

  -- If rkyv and flate2 read back what they have written, a frame that was made at any compression level
  -- is read back as the message that it was made of.
  pub decode_frame-encode_frame :
      RoundTrips c
      → Inflates z
      → (level : ℕ) (msg : A) (frame : List ℕ) → encode_frame level msg ≡ some frame
      → decode_frame frame ≡ some msg
  unfolding encode_frame decode_frame
  decode_frame-encode_frame trips inflates level msg frame h =
      elim (Option-cases (c.to_bytes msg)) [
        | inl e ↦ ground (arith, e)
        | inr (bs, e) ↦
            rw (inflate-deflate z inflates bs frame level (ground (arith, e)), ◌>>=◌)
              (trips msg bs e)
      ]
