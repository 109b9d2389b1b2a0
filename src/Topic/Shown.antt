-- ===== src/Topic/Shown.antt =====
-- `Debug` of a topic (src/server.rs): a string as it is, bytes as the list of their numbers.
use hardlight.Prelude.{
  ℕ, ◌≤◌, ◌<◌, ◌≡◌, ◌≢◌, refl, sym, ◌∙◌, ap, ap₂, subst, true, false, inl, inr, List, [], ◌∷◌, ◌++◌,
  arith, if◌then◌else◌, All, Bool-cases,
}
use mathlib.Core.List.{tail}
use hardlight.Decimal.{decimal, decimal-digits, decimal-cons, decimal-injective}
use hardlight.Topic.{Topic, is_utf8, as_string}

-- What follows a number, up to the bracket.
abbrev pub more_shown : List ℕ → List ℕ
more_shown [] = b']' ∷ []
more_shown (b ∷ bs) = b',' ∷ b' ' ∷ decimal b ++ more_shown bs

abbrev pub bytes_shown : List ℕ → List ℕ
bytes_shown [] = b'[' ∷ b']' ∷ []
bytes_shown (b ∷ bs) = b'[' ∷ decimal b ++ more_shown bs

unfoldable pub fmt : Topic → List ℕ
fmt t = if t.is_string then as_string t else bytes_shown t.inner

abbrev IsDigit : ℕ → Type 0
IsDigit c = (b'0' ≤ c) × (c ≤ b'9')

-- The text does not go on with a digit.
abbrev IsStop : List ℕ → Type 0
IsStop [] = Unit
IsStop (c ∷ cs) = ¬ IsDigit c

-- Digits end where something else begins.
digits_end :
    (xs ys rs ss : List ℕ)
    → All IsDigit xs
    → All IsDigit ys
    → IsStop rs
    → IsStop ss
    → xs ++ rs ≡ ys ++ ss
    → (xs ≡ ys) × (rs ≡ ss)
digits_end [] [] rs ss dx dy sr st e = (refl, e)
digits_end [] (y ∷ ys) rs ss dx dy sr st e = absurd (subst IsStop e sr dy.0)
digits_end (x ∷ xs) [] rs ss dx dy sr st e = absurd (subst IsStop (sym e) st dx.0)
digits_end (x ∷ xs) (y ∷ ys) rs ss dx dy sr st e =
    let (same, rest) = digits_end xs ys rs ss dx.1 dy.1 sr st (ap tail e) in
    let first : x ≡ y = cc in (ap₂ (λ c cs. c ∷ cs) first same, rest)

more_shown-IsStop : (bs : List ℕ) → IsStop (more_shown bs)
more_shown-IsStop [] = λ d. omega (arith, d.1)
more_shown-IsStop (b ∷ bs) = λ d. omega (arith, d.0)

abbrev IsByte : ℕ → Type 0
IsByte b = b < 256

-- The next number and what follows it.
next_shown :
    (a b : ℕ) (rs ss : List ℕ)
    → IsByte a
    → IsByte b
    → decimal a ++ more_shown rs ≡ decimal b ++ more_shown ss
    → (a ≡ b) × (more_shown rs ≡ more_shown ss)
next_shown a b rs ss byte_a byte_b e =
    let (same, rest) =
      digits_end (decimal a) (decimal b) (more_shown rs) (more_shown ss) (decimal-digits a)
        (decimal-digits b) (more_shown-IsStop rs) (more_shown-IsStop ss) e in
    (decimal-injective a b (omega (arith, byte_a)) (omega (arith, byte_b)) same, rest)

more_shown-injective :
    (rs ss : List ℕ) → All IsByte rs → All IsByte ss → more_shown rs ≡ more_shown ss → rs ≡ ss
more_shown-injective [] [] br bs e = refl
more_shown-injective [] (s ∷ ss) br bs e = absurd (ground (arith, e))
more_shown-injective (r ∷ rs) [] br bs e = absurd (ground (arith, e))
more_shown-injective (r ∷ rs) (s ∷ ss) br bs e =
    let (same, rest) = next_shown r s rs ss br.0 bs.0 (ap (λ t. tail (tail t)) e) in
    ap₂ (λ c cs. c ∷ cs) same (more_shown-injective rs ss br.1 bs.1 rest)

-- A number does not start with a bracket.
number_not_bracket : (n : ℕ) (rest : List ℕ) → b']' ∷ [] ≢ decimal n ++ rest
number_not_bracket n rest e =
    let (c, more, first) = decimal-cons n in
    let digit : IsDigit c = (rw first at (decimal-digits n)).0 in
    let bracket : b']' ∷ [] ≡ c ∷ (more ++ rest) = e ∙ ap (λ t. t ++ rest) first in
    ground (arith, bracket, digit)

bytes_shown-injective :
    (rs ss : List ℕ) → All IsByte rs → All IsByte ss → bytes_shown rs ≡ bytes_shown ss → rs ≡ ss
bytes_shown-injective [] [] br bs e = refl
bytes_shown-injective [] (s ∷ ss) br bs e =
    absurd (number_not_bracket s (more_shown ss) (ap tail e))
bytes_shown-injective (r ∷ rs) [] br bs e =
    absurd (number_not_bracket r (more_shown rs) (ap tail (sym e)))
bytes_shown-injective (r ∷ rs) (s ∷ ss) br bs e =
    let (same, rest) = next_shown r s rs ss br.0 bs.0 (ap tail e) in
    ap₂ (λ c cs. c ∷ cs) same (more_shown-injective rs ss br.1 bs.1 rest)

-- A topic as the source can make it: bytes, and of a string UTF-8.
pub record IsProper (t : Topic) : Type 0 where
  pub bytes : All IsByte t.inner
  pub text : t.is_string ≡ true → is_utf8 t.inner ≡ true

-- Two topics of the same kind, both strings or both bytes, are shown alike only if they are the same.
pub fmt-injective :
    (s t : Topic) → IsProper s → IsProper t → s.is_string ≡ t.is_string → fmt s ≡ fmt t → s ≡ t
unfolding fmt as_string
fmt-injective s t ps pt kind e = elim (Bool-cases s.is_string) [
  | inl string ↦
      let other : t.is_string ≡ true = sym kind ∙ string in
      ground (arith, e, string, other, ps.text string, pt.text other)
  | inr bytes ↦
      let other : t.is_string ≡ false = sym kind ∙ bytes in
      let shown : bytes_shown s.inner ≡ bytes_shown t.inner = ground (arith, e, bytes, other) in
      let same = bytes_shown-injective s.inner t.inner ps.bytes pt.bytes shown in
      ground (arith, same, kind)
]
