-- ===== src/Macros/Naming.antt =====
-- `snake_to_pascal_case` of macros/src/lib.rs: the name of the variant that stands for a method. A
-- text is the list of its characters' code points; `upper` is `char::to_uppercase`.
pub mod Inverse
use hardlight.Prelude.{
  ℕ, ◌≡◌, refl, sym, ◌∙◌, Bool, true, false, inl, inr, List, [], ◌∷◌, ◌++◌, append_assoc, map,
  nat_beq, Bool-cases,
}

module _ (upper : ℕ → List ℕ) where
  -- The loop, with the flag `capitalize_next`; what `result` gains.
  unfoldable pub pascal_from : Bool → List ℕ → List ℕ
  pascal_from next [] = []
  pascal_from next (c ∷ cs) = elim (nat_beq c b'_') [
    | true ↦ pascal_from true cs
    | false ↦ elim next [
      | true ↦ upper c ++ pascal_from false cs
      | false ↦ c ∷ pascal_from false cs
    ]
  ]

  unfoldable pub snake_to_pascal_case : List ℕ → List ℕ
  unfolding pascal_from
  snake_to_pascal_case = pascal_from true

  -- A word with its first letter in upper case.
  unfoldable pub capitalize : List ℕ → List ℕ
  capitalize [] = []
  capitalize (c ∷ cs) = upper c ++ cs

abbrev cons_head : ℕ → List (List ℕ) → List (List ℕ)
cons_head c [] = (c ∷ []) ∷ []
cons_head c (w ∷ ws) = (c ∷ w) ∷ ws

-- The pieces between the underscores.
unfoldable pub words : List ℕ → List (List ℕ)
words [] = [] ∷ []
words (c ∷ cs) =
    let rest = words cs in elim (nat_beq c b'_') [ true ↦ [] ∷ rest | false ↦ cons_head c rest ]

unfoldable pub concat : List (List ℕ) → List ℕ
concat [] = []
concat (w ∷ ws) = w ++ concat ws

words-cons : (s : List ℕ) → (w : List ℕ) × (ws : List (List ℕ)) × (words s ≡ w ∷ ws)
unfolding words
words-cons [] = ([], [], refl)
words-cons (c ∷ cs) = elim (Bool-cases (nat_beq c b'_')) [
  | inl sep ↦ ([], words cs, rw (sep, words) refl)
  | inr letter ↦ let (w, ws, e) = words-cons cs in (c ∷ w, ws, rw (letter, words) (rw e refl))
]

module _ (upper : ℕ → List ℕ) where
  -- The words as `pascal_from` leaves them: the first as it is, unless the flag is set.
  abbrev spell : Bool → List (List ℕ) → List ℕ
  spell next [] = []
  spell true (w ∷ ws) = concat (map (capitalize upper) (w ∷ ws))
  spell false (w ∷ ws) = w ++ concat (map (capitalize upper) ws)

  pascal_from-eq-spell :
      (next : Bool) (s : List ℕ) → pascal_from upper next s ≡ spell next (words s)
  unfolding pascal_from words concat capitalize
  pascal_from-eq-spell true [] = refl
  pascal_from-eq-spell false [] = refl
  pascal_from-eq-spell true (c ∷ cs) =
      let (w, ws, e) = words-cons cs in
      elim (Bool-cases (nat_beq c b'_')) [
        | inl sep ↦ rw (words, pascal_from, sep, pascal_from-eq-spell true cs, e) refl
        | inr letter ↦
            rw (words, pascal_from, letter, pascal_from-eq-spell false cs, e)
              (sym (append_assoc (upper c) w (concat (map (capitalize upper) ws))))
      ]
  pascal_from-eq-spell false (c ∷ cs) =
      let (w, ws, e) = words-cons cs in
      elim (Bool-cases (nat_beq c b'_')) [
        | inl sep ↦ rw (words, pascal_from, sep, pascal_from-eq-spell true cs, e) refl
        | inr letter ↦ rw (words, pascal_from, letter, pascal_from-eq-spell false cs, e) refl
      ]

  -- A method's variant is named by the method's words, the pieces between its underscores, each
  -- with its first character in upper case, put together without the underscores.
  pub snake_to_pascal_case_lem :
      (s : List ℕ) → snake_to_pascal_case upper s ≡ concat (map (capitalize upper) (words s))
  unfolding snake_to_pascal_case
  snake_to_pascal_case_lem s =
      let (w, ws, e) = words-cons s in pascal_from-eq-spell true s ∙ rw e refl
