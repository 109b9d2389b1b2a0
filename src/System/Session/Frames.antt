-- ===== src/System/Session/Frames.antt =====
-- What the frames to a client hold, read in order.
use hardlight.Prelude.{◌≡◌, refl, sym, ◌∙◌, ap, Option, List, [], ◌∷◌, ◌++◌, append_assoc}
use hardlight.Wire.{Bytes, ServerMessage}
use hardlight.Codec.{Codec, Flate, decode_frame}

module _ {A : Type 0} (z : Flate) (server : Codec ServerMessage)
    (held : Option ServerMessage → List A) where
  abbrev pub read_all : List Bytes → List A
  read_all [] = []
  read_all (frame ∷ frames) = held (decode_frame z server frame) ++ read_all frames

  pub read_all-append : (xs ys : List Bytes) → read_all (xs ++ ys) ≡ read_all xs ++ read_all ys
  read_all-append [] ys = refl
  read_all-append (x ∷ xs) ys =
      ap (λ p. held (decode_frame z server x) ++ p) (read_all-append xs ys)
      ∙ sym (append_assoc (held (decode_frame z server x)) (read_all xs) (read_all ys))
