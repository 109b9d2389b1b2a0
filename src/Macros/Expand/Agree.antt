-- ===== src/Macros/Expand/Agree.antt =====
-- The variants, the arms and the calls that one trait expands to fit together.
use hardlight.Prelude.{
  ℕ, ◌≤◌, ◌≡◌, ◌≢◌, ◌↔◌, refl, ap, true, List, [], ◌∷◌, map, arith, length, length-map, All,
}
use mathlib.Core.List.{tail}
use hardlight.Macros.Naming.{snake_to_pascal_case}
use hardlight.Macros.Naming.Inverse.{IsSnake, UpperCases, snake_to_pascal_case_injective}
use hardlight.Macros.Expand.{
  Text, Pat, other_pat, FnArg, receiver, typed, TraitMethod, TraitItem, method, other_item,
  RpcVariant, ServerMethod, ClientMethod, fields_of, patterns_of, rpc_variants, server_methods,
  client_methods,
}

-- The methods of a trait, without its other items.
abbrev pub methods : List TraitItem → List TraitMethod
methods [] = []
methods (method m ∷ items) = m ∷ methods items
methods (other_item text ∷ items) = methods items

-- A pattern of `match` lists the fields of its variant, each by its name.
abbrev pub Lists : List Pat → List (Text × Text) → Type 0
Lists bindings fields = bindings ≡ map (λ (f : Text × Text). Pat.ident f.0) fields

-- Every argument but the receiver is written with an identifier.
abbrev pub IsNamed : List FnArg → Type 0
IsNamed [] = Unit
IsNamed (receiver ∷ inputs) = IsNamed inputs
IsNamed (typed (Pat.ident name) ty ∷ inputs) = IsNamed inputs
IsNamed (typed (other_pat text) ty ∷ inputs) = ⊥

-- No more fields than patterns.
fields_of-length : (inputs : List FnArg) → length (fields_of inputs) ≤ length (patterns_of inputs)
unfolding fields_of patterns_of
fields_of-length [] = omega arith
fields_of-length (receiver ∷ inputs) = fields_of-length inputs
fields_of-length (typed (Pat.ident name) ty ∷ inputs) = omega (arith, fields_of-length inputs)
fields_of-length (typed (other_pat text) ty ∷ inputs) = omega (arith, fields_of-length inputs)

bindings_iff :
    (inputs : List FnArg) → Lists (patterns_of inputs) (fields_of inputs) ↔ IsNamed inputs
unfolding fields_of patterns_of
bindings_iff [] = (λ e. tt, λ n. refl)
bindings_iff (receiver ∷ inputs) = bindings_iff inputs
bindings_iff (typed (Pat.ident name) ty ∷ inputs) =
    let (only, enough) = bindings_iff inputs in
    (λ e. only (ap tail e), λ n. ap (λ ps. Pat.ident name ∷ ps) (enough n))
bindings_iff (typed (other_pat text) ty ∷ inputs) = (
  λ e.
      let long = ap length e in
      absurd (
        omega (
          arith,
          long,
          fields_of-length inputs,
          length-map (λ (f : Text × Text). Pat.ident f.0) (fields_of inputs),
        )),
  λ n. elim n [ ],
)

module _ (upper : ℕ → List ℕ) where
  -- The arms of the handler against the variants of the enum.
  abbrev pub Exhausts : List ServerMethod → List RpcVariant → Type 0
  Exhausts [] [] = Unit
  Exhausts [] (v ∷ vs) = ⊥
  Exhausts (a ∷ as') [] = ⊥
  Exhausts (a ∷ as') (v ∷ vs) = (a.variant ≡ v.ident) × Lists a.bindings v.fields × Exhausts as' vs

  -- The arms of the handler are the variants of the enum, in order and with exactly the fields of the
  -- variant, if and only if every argument of every method is written with an identifier.
  pub arms_fit_iff :
      (items : List TraitItem)
      → Exhausts (server_methods upper items) (rpc_variants upper items)
        ↔ All (λ m. IsNamed m.inputs) (methods items)
  unfolding server_methods rpc_variants
  arms_fit_iff [] = (λ e. tt, λ n. tt)
  arms_fit_iff (other_item text ∷ items) = arms_fit_iff items
  arms_fit_iff (method m ∷ items) =
      let (only, enough) = bindings_iff m.inputs in
      let (others_only, others_enough) = arms_fit_iff items in
      (λ e. (only e.1, others_only e.2), λ n. (refl, enough n.0, others_enough n.1))

  -- What an arm of the handler serves, and what a method of the client calls.
  abbrev pub served : ServerMethod → Text × Text × List Pat
  served a = (a.method_ident, a.variant, a.arguments)

  abbrev pub called : ClientMethod → Text × Text × List Pat
  called c = (c.method_ident, c.rpc_call_variant, c.rpc_call_params)

  -- The client has a method for each arm of the handler, in the same order, and it makes the call that
  -- this arm serves by the server's method of the same name, with the same arguments in the same order;
  -- and the enum has a variant of this name.
  pub client_calls_served :
      (items : List TraitItem)
      → (map called (client_methods upper items) ≡ map served (server_methods upper items))
        × (map (λ (c : ClientMethod). c.rpc_call_variant) (client_methods upper items)
            ≡ map (λ (v : RpcVariant). v.ident) (rpc_variants upper items))
  unfolding server_methods rpc_variants client_methods
  client_calls_served [] = (refl, refl)
  client_calls_served (other_item text ∷ items) = client_calls_served items
  client_calls_served (method m ∷ items) =
      let (same, named) = client_calls_served items in
      (
        ap (λ r. (m.ident, snake_to_pascal_case upper m.ident, patterns_of m.inputs) ∷ r) same,
        ap (λ r. snake_to_pascal_case upper m.ident ∷ r) named,
      )

-- No two entries are the same.
abbrev pub AreDistinct : List Text → Type 0
AreDistinct [] = Unit
AreDistinct (x ∷ xs) = All (λ y. x ≢ y) xs × AreDistinct xs

module _ (upper : ℕ → List ℕ) (law : UpperCases upper) where
  -- A name that differs from the methods' has a variant that differs from theirs.
  others_differ :
      (name : Text) (items : List TraitItem)
      → IsSnake true name
      → All (λ m. IsSnake true m.ident) (methods items)
      → All (λ y. name ≢ y) (map (λ (m : TraitMethod). m.ident) (methods items))
      → All
          (λ y. snake_to_pascal_case upper name ≢ y)
          (map (λ (v : RpcVariant). v.ident) (rpc_variants upper items))
  unfolding rpc_variants
  others_differ name [] snake snakes differ = tt
  others_differ name (other_item text ∷ items) snake snakes differ =
      others_differ name items snake snakes differ
  others_differ name (method m ∷ items) snake snakes differ = (
    λ e. differ.0 (snake_to_pascal_case_injective upper law name m.ident snake snakes.0 e),
    others_differ name items snake snakes.1 differ.1,
  )

  -- Methods with different names have variants with different names, so that `RpcCall` is an enum, if
  -- the names are in snake case (words that start with a letter from `a` to `z`, hold no capital and
  -- stand between single underscores) and `char::to_uppercase` gives the capitals of the letters of
  -- ASCII.
  pub variant_names_differ :
      (items : List TraitItem)
      → All (λ m. IsSnake true m.ident) (methods items)
      → AreDistinct (map (λ (m : TraitMethod). m.ident) (methods items))
      → AreDistinct (map (λ (v : RpcVariant). v.ident) (rpc_variants upper items))
  unfolding rpc_variants
  variant_names_differ [] snakes distinct = tt
  variant_names_differ (other_item text ∷ items) snakes distinct =
      variant_names_differ items snakes distinct
  variant_names_differ (method m ∷ items) snakes distinct = (
    others_differ m.ident items snakes.0 snakes.1 distinct.0,
    variant_names_differ items snakes.1 distinct.1,
  )
