-- ===== src/Decimal.antt =====
-- Decimal numbers as bytes: `Display` and `str::parse` of Rust's unsigned integers.
use native.Mathlib.Nat.{pow-suc}
use hardlight.Prelude.{
  ℕ, zero, suc, ◌+◌, ◌-◌, ◌*◌, ◌/◌, ◌%◌, ◌^◌, ◌≤◌, ◌<◌, ◌≡◌, refl, sym, ◌∙◌, ap, ◌&&◌, Option, none,
  some, inl, inr, List, [], ◌∷◌, arith, ltb, leb, if◌then◌else◌, Bool-cases, nat_beq, All,
}

-- The digits of a number below 10 ^ f, in front of `rest`.
digits_before : ℕ → ℕ → List ℕ → List ℕ
digits_before zero n rest = rest
digits_before (suc f) n rest =
    let more = digits_before f (n / 10) ((b'0' + n % 10) ∷ rest) in
    if ltb n 10 then (b'0' + n) ∷ rest else more

-- A `u32` has ten digits at most.
unfoldable pub decimal : ℕ → List ℕ
unfolding digits_before
decimal n = digits_before 10 n []

-- The loop of `from_str_radix`: `none` is an invalid digit or an overflow of the type's `max`.
unfoldable pub parse_digits : ℕ → ℕ → List ℕ → Option ℕ
parse_digits max acc [] = some acc
parse_digits max acc (c ∷ rest) =
    let more = parse_digits max (acc * 10 + (c - b'0')) rest in
    if leb b'0' c && leb c b'9' && leb (acc * 10 + (c - b'0')) max then more else none

-- `parse::<uN>()`: empty text and a lone sign are errors, and one `+` may lead.
unfoldable pub parse_uint : ℕ → List ℕ → Option ℕ
unfolding parse_digits
parse_uint max [] = none
parse_uint max (c ∷ []) = parse_digits max 0 (c ∷ [])
parse_uint max (c ∷ d ∷ rest) =
    if nat_beq c b'+' then parse_digits max 0 (d ∷ rest) else parse_digits max 0 (c ∷ d ∷ rest)

parse_digits_step :
    (max acc d : ℕ) (rest : List ℕ)
    → d < 10
    → acc * 10 + d ≤ max
    → parse_digits max acc ((b'0' + d) ∷ rest) ≡ parse_digits max (acc * 10 + d) rest
unfolding parse_digits
parse_digits_step max acc d rest small fits =
    let back : b'0' + d - b'0' ≡ d = omega arith in rw back (ground arith)

parse_digits-digits_before :
    (f max n : ℕ) (rest : List ℕ)
    → n < 10 ^ f
    → n ≤ max
    → parse_digits max 0 (digits_before f n rest) ≡ parse_digits max n rest
unfolding digits_before
parse_digits-digits_before zero max n rest small fits =
    let none_left : n ≡ 0 = omega arith in rw none_left refl
parse_digits-digits_before (suc f) max n rest small fits = elim (Bool-cases (ltb n 10)) [
  | inl one ↦ rw one (
      parse_digits_step max 0 n rest (ground arith) (omega arith)
      ∙ ap (λ m. parse_digits max m rest) (omega arith))
  | inr more ↦
      let parts : n / 10 * 10 + n % 10 ≡ n = omega arith in
      rw more (
        parse_digits-digits_before f max (n / 10) ((b'0' + n % 10) ∷ rest)
          (omega (arith, pow-suc 10 f)) (omega arith)
        ∙ parse_digits_step max (n / 10) (n % 10) rest (omega arith) (omega arith)
        ∙ ap (λ m. parse_digits max m rest) parts)
]

-- The first digit is no sign.
digits_before-head :
    (f n : ℕ) (rest : List ℕ)
    → (c : ℕ) × (more : List ℕ) × (digits_before (suc f) n rest ≡ c ∷ more) × (b'0' ≤ c)
unfolding digits_before
digits_before-head zero n rest = elim (Bool-cases (ltb n 10)) [
  | inl one ↦ (b'0' + n, rest, rw one refl, omega arith)
  | inr more ↦ (b'0' + n % 10, rest, rw more refl, omega arith)
]
digits_before-head (suc f) n rest = elim (Bool-cases (ltb n 10)) [
  | inl one ↦ (b'0' + n, rest, rw one refl, omega arith)
  | inr more ↦
      let (c, tail, e, digit) = digits_before-head f (n / 10) ((b'0' + n % 10) ∷ rest) in
      (c, tail, rw more e, digit)
]

parse_uint_unsigned :
    (max c : ℕ) (more : List ℕ)
    → b'0' ≤ c
    → parse_uint max (c ∷ more) ≡ parse_digits max 0 (c ∷ more)
unfolding parse_uint
parse_uint_unsigned max c [] digit = refl
parse_uint_unsigned max c (d ∷ more) digit = ground arith

-- A number that is printed and parsed comes back, if it fits the type.
pub parse_uint-decimal : (max n : ℕ) → n < 10 ^ 10 → n ≤ max → parse_uint max (decimal n) ≡ some n
unfolding decimal
parse_uint-decimal max n small fits =
    let (c, more, e, digit) = digits_before-head 9 n [] in
    ap (parse_uint max) e
    ∙ parse_uint_unsigned max c more digit
    ∙ ap (parse_digits max 0) (sym e)
    ∙ parse_digits-digits_before 10 max n [] small fits
    ∙ (unfold parse_digits in refl)

pub decimal-injective : (a b : ℕ) → a < 10 ^ 10 → b < 10 ^ 10 → decimal a ≡ decimal b → a ≡ b
decimal-injective a b small_a small_b e = ground (
  arith,
  parse_uint-decimal (10 ^ 10) a small_a (omega arith),
  parse_uint-decimal (10 ^ 10) b small_b (omega arith),
  ap (parse_uint (10 ^ 10)) e,
)

digits_before-All :
    (P : ℕ → Type 0)
    → ((d : ℕ) → d < 10 → P (b'0' + d))
    → (f m : ℕ) (rest : List ℕ) → All P rest
    → All P (digits_before f m rest)
unfolding digits_before
digits_before-All P each zero m rest all = all
digits_before-All P each (suc f) m rest all = elim (Bool-cases (ltb m 10)) [
  | inl one ↦ rw one (each m (ground arith), all)
  | inr more ↦ rw more (
      digits_before-All P each f (m / 10) ((b'0' + m % 10) ∷ rest)
        (each (m % 10) (omega arith), all))
]

-- Digits are visible characters.
pub decimal-visible : (n : ℕ) → All (λ c. (32 ≤ c) × (c < 127)) (decimal n)
unfolding decimal
decimal-visible n =
    digits_before-All (λ c. (32 ≤ c) × (c < 127)) (λ d small. (omega arith, omega arith)) 10 n [] tt

pub decimal-digits : (n : ℕ) → All (λ c. (b'0' ≤ c) × (c ≤ b'9')) (decimal n)
unfolding decimal
decimal-digits n =
    digits_before-All (λ c. (b'0' ≤ c) × (c ≤ b'9')) (λ d small. (omega arith, omega arith)) 10 n []
      tt

pub decimal-cons : (n : ℕ) → (c : ℕ) × (more : List ℕ) × (decimal n ≡ c ∷ more)
unfolding decimal
decimal-cons n = let (c, more, e, digit) = digits_before-head 9 n [] in (c, more, e)
