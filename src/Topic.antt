-- ===== src/Topic.antt =====
-- `Topic` of src/server.rs: bytes with a mark that says whether they came from a string. A string
-- is the list of its UTF-8 bytes.
pub mod Shown
use hardlight.Prelude.{
  ℕ, zero, suc, ◌≡◌, ◌↔◌, refl, Bool, true, false, ◌&&◌, List, [], ◌∷◌, arith, PartialEq, ◌==◌, leb,
  if◌then◌else◌, list_beq, list_beq_iff, nat_eq,
}

pub record Topic : Type 0 where
  pub inner : List ℕ
  pub is_string : Bool

abbrev pub bool_beq : Bool → Bool → Bool
bool_beq true b = b
bool_beq false true = false
bool_beq false false = true

-- The derived `PartialEq`: both fields are compared.
abbrev pub topic_beq : Topic → Topic → Bool
topic_beq a b = list_beq a.inner b.inner && bool_beq a.is_string b.is_string

pub topic_beq_iff : (a b : Topic) → (topic_beq a b ≡ true) ↔ (a ≡ b)
topic_beq_iff a b = ground (arith, list_beq_iff a.inner b.inner)

instance abbrev pub topic_eq : PartialEq Topic
topic_eq = record { eq = topic_beq; eq_iff = topic_beq_iff }

-- `Default` of the derive.
abbrev pub default_topic : Topic
default_topic = record { inner = []; is_string = false }

unfoldable pub into_bytes : Topic → List ℕ
into_bytes t = t.inner

unfoldable pub from_bytes : List ℕ → Topic
from_bytes bytes = record { inner = bytes; is_string = false }

-- `Into<Topic>` for `&str` and for `String`.
unfoldable pub from_str : List ℕ → Topic
from_str s = record { inner = s; is_string = true }

-- The bytes that may follow: how many more, and the range of the next one.
record Expect : Type 0 where
  valid : Bool
  need : ℕ
  lo : ℕ
  hi : ℕ

-- What the first byte of a character asks for (RFC 3629).
lead : ℕ → Expect
lead b =
    if leb b 0x7F
    then record { valid = true; need = 0; lo = 0; hi = 0 }
    else if leb 0xC2 b && leb b 0xDF
    then record { valid = true; need = 1; lo = 0x80; hi = 0xBF }
    else if leb 0xE0 b && leb b 0xEF
    then record {
      valid = true;
      need = 2;
      lo = if b == 0xE0 then 0xA0 else 0x80;
      hi = if b == 0xED then 0x9F else 0xBF;
    }
    else record {
      valid = leb 0xF0 b && leb b 0xF4;
      need = 3;
      lo = if b == 0xF0 then 0x90 else 0x80;
      hi = if b == 0xF4 then 0x8F else 0xBF;
    }

utf8_from : ℕ → ℕ → ℕ → List ℕ → Bool
unfolding lead
utf8_from zero lo hi [] = true
utf8_from zero lo hi (b ∷ rest) = let e = lead b in e.valid && utf8_from e.need e.lo e.hi rest
utf8_from (suc n) lo hi [] = false
utf8_from (suc n) lo hi (b ∷ rest) = leb lo b && leb b hi && utf8_from n 0x80 0xBF rest

-- The test of `String::from_utf8`.
unfoldable pub is_utf8 : List ℕ → Bool
unfolding utf8_from
is_utf8 = utf8_from 0 0 0

unfoldable pub as_string : Topic → List ℕ
unfolding is_utf8
as_string t = if is_utf8 t.inner then t.inner else []

unfoldable pub as_bytes : Topic → List ℕ
as_bytes t = t.inner

pub topic_beq_refl : (a : Topic) → (a == a) ≡ true
topic_beq_refl a = (topic_beq_iff a a).1 refl
