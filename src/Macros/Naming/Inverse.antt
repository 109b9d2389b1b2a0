-- ===== src/Macros/Naming/Inverse.antt =====
-- The name of a variant determines the method, of methods that are named in snake case.
use hardlight.Prelude.{
  ℕ, ◌+◌, ◌-◌, ◌≤◌, ◌≡◌, refl, sym, ◌∙◌, ap, Bool, true, false, ◌&&◌, inl, inr, List, [], ◌∷◌, ◌++◌,
  arith, nat_beq, nat_beq_iff, leb, Bool-cases, if◌then◌else◌,
}
use hardlight.Macros.Naming.{pascal_from, snake_to_pascal_case}

-- `A` to `Z`
abbrev pub is_capital : ℕ → Bool
is_capital c = leb b'A' c && leb c b'Z'

-- A word starts with a letter from `a` to `z` and has no capital, and words stand between single
-- underscores. `start` says that a word starts.
abbrev pub IsSnake : (start : Bool) → List ℕ → Type 0
IsSnake start [] = start ≡ false
IsSnake start (c ∷ cs) = elim (nat_beq c b'_') [
  | true ↦ (start ≡ false) × IsSnake true cs
  | false ↦ elim start [
    | true ↦ (b'a' ≤ c) × (c ≤ b'z') × IsSnake false cs
    | false ↦ (is_capital c ≡ false) × IsSnake false cs
  ]
]

-- What `char::to_uppercase` documents of the letters of ASCII.
abbrev pub UpperCases : (ℕ → List ℕ) → Type 0
UpperCases upper = (c : ℕ) → b'a' ≤ c → c ≤ b'z' → upper c ≡ (c - 32) ∷ []

-- The way back: an underscore before each capital but the first, and small letters.
unfoldable pub snake_from : Bool → List ℕ → List ℕ
snake_from first [] = []
snake_from first (c ∷ cs) =
    let rest = snake_from false cs in
    if is_capital c then (if first then (c + 32) ∷ rest else b'_' ∷ (c + 32) ∷ rest) else (c ∷ rest)

snake_from-capital :
    (first : Bool) (c : ℕ) (cs : List ℕ)
    → b'a' ≤ c
    → c ≤ b'z'
    → snake_from first ((c - 32) ∷ cs)
      ≡ (if first then c ∷ snake_from false cs else b'_' ∷ c ∷ snake_from false cs)
unfolding snake_from
snake_from-capital first c cs low high =
    let capital : is_capital (c - 32) ≡ true = ground arith in
    let back : (c - 32) + 32 ≡ c = omega arith in rw (capital, back) refl

-- Where the loop stands: at the start of the name, after an underscore, or within a word.
data Place : Type 0 where
  beginning after_underscore within : Place

abbrev starts : Place → Bool
starts beginning = true
starts after_underscore = true
starts within = false

abbrev is_first : Place → Bool
is_first beginning = true
is_first after_underscore = false
is_first within = false

-- The underscore that was passed last, if no letter has come since.
abbrev passed : Place → List ℕ
passed beginning = []
passed after_underscore = b'_' ∷ []
passed within = []

module _ (upper : ℕ → List ℕ) (law : UpperCases upper) where
  snake_from-pascal_from :
      (p : Place) (s : List ℕ)
      → IsSnake (starts p) s
      → snake_from (is_first p) (pascal_from upper (starts p) s) ≡ passed p ++ s
  unfolding pascal_from snake_from
  snake_from-pascal_from beginning [] h = refl
  snake_from-pascal_from after_underscore [] h = absurd (ground (arith, h))
  snake_from-pascal_from within [] h = refl
  snake_from-pascal_from beginning (c ∷ cs) h = elim (Bool-cases (nat_beq c b'_')) [
    | inl sep ↦ absurd (ground (arith, (rw (sep, IsSnake) at h).0))
    | inr letter ↦
        let (low, high, rest) = rw (letter, IsSnake) at h in
        rw (pascal_from, letter, law c low high)
          (snake_from-capital true c (pascal_from upper false cs) low high
            ∙ ap (λ x. c ∷ x) (snake_from-pascal_from within cs rest))
  ]
  snake_from-pascal_from after_underscore (c ∷ cs) h = elim (Bool-cases (nat_beq c b'_')) [
    | inl sep ↦ absurd (ground (arith, (rw (sep, IsSnake) at h).0))
    | inr letter ↦
        let (low, high, rest) = rw (letter, IsSnake) at h in
        rw (pascal_from, letter, law c low high)
          (snake_from-capital false c (pascal_from upper false cs) low high
            ∙ ap (λ x. b'_' ∷ c ∷ x) (snake_from-pascal_from within cs rest))
  ]
  snake_from-pascal_from within (c ∷ cs) h = elim (Bool-cases (nat_beq c b'_')) [
    | inl sep ↦
        let same : c ≡ b'_' = (nat_beq_iff c b'_').0 sep in
        rw (pascal_from, sep)
          (snake_from-pascal_from after_underscore cs (rw (sep, IsSnake) at h).1
            ∙ ap (λ x. x ∷ cs) (sym same))
    | inr letter ↦
        let (small, rest) = rw (letter, IsSnake) at h in
        rw (pascal_from, letter, snake_from, small)
          (ap (λ x. c ∷ x) (snake_from-pascal_from within cs rest))
  ]

  -- Of a name in snake case (words that start with a letter from `a` to `z`, hold no capital and stand
  -- between single underscores), the way back from the name of the variant gives the name again, if
  -- `char::to_uppercase` gives the capitals of the letters of ASCII.
  pub snake_from-snake_to_pascal_case :
      (s : List ℕ) → IsSnake true s → snake_from true (snake_to_pascal_case upper s) ≡ s
  unfolding snake_to_pascal_case
  snake_from-snake_to_pascal_case s h = snake_from-pascal_from beginning s h

  pub snake_to_pascal_case_injective :
      (s t : List ℕ)
      → IsSnake true s
      → IsSnake true t
      → snake_to_pascal_case upper s ≡ snake_to_pascal_case upper t
      → s ≡ t
  snake_to_pascal_case_injective s t hs ht same =
      sym (snake_from-snake_to_pascal_case s hs)
      ∙ ap (snake_from true) same
      ∙ snake_from-snake_to_pascal_case t ht
