-- ===== src/Tests/Expand.antt =====
-- The trait of examples/counter.rs, cut down, and a trait with an argument that has no name.
use hardlight.Prelude.{
  ℕ, ◌-◌, ◌≡◌, ◌↔◌, refl, true, List, none, [], ◌∷◌, ◌&&◌, map, arith, leb, All, if◌then◌else◌,
}
use hardlight.Macros.Naming.{snake_to_pascal_case, pascal_from}
use hardlight.Macros.Naming.Inverse.{IsSnake, UpperCases}
use hardlight.Macros.Expand.{
  Pat, other_pat, FnArg, receiver, typed, TraitMethod, TraitItem, method, other_item, RpcVariant,
  ClientMethod, rpc, rpc_variants, server_methods, client_methods, contains, no_server_handler,
  fields_of, patterns_of,
}
use hardlight.Macros.Expand.Agree.{
  methods, IsNamed, Exhausts, arms_fit_iff, served, called, client_calls_served, AreDistinct,
  variant_names_differ,
}

abbrev ascii_upper : ℕ → List ℕ
ascii_upper c = if leb b'a' c && leb c b'z' then (c - 32) ∷ [] else c ∷ []

ascii_upper-UpperCases : UpperCases ascii_upper
ascii_upper-UpperCases c low high = ground arith

-- `go_up(&self, by: u32)`
abbrev go_up : TraitMethod
go_up = record {
  ident = b'g' ∷ b'o' ∷ b'_' ∷ b'u' ∷ b'p' ∷ [];
  inputs = receiver ∷ typed (Pat.ident (b'b' ∷ b'y' ∷ [])) (b'u' ∷ b'3' ∷ b'2' ∷ []) ∷ [];
  output = b'u' ∷ b'3' ∷ b'2' ∷ [];
  attrs = [];
}

-- `get(&self)`
abbrev get : TraitMethod
get = record {
  ident = b'g' ∷ b'e' ∷ b't' ∷ [];
  inputs = receiver ∷ [];
  output = b'u' ∷ b'3' ∷ b'2' ∷ [];
  attrs = [];
}

abbrev counter : List TraitItem
counter = method go_up ∷ other_item [] ∷ method get ∷ []

go_up-IsSnake : IsSnake true go_up.ident
go_up-IsSnake = (omega arith, omega arith, (refl, (refl, (omega arith, omega arith, (refl, refl)))))

get-IsSnake : IsSnake true get.ident
get-IsSnake = (omega arith, omega arith, (refl, (refl, refl)))

arms_fit_iff_example :
    Exhausts ascii_upper (server_methods ascii_upper counter) (rpc_variants ascii_upper counter)
    ↔ All (λ m. IsNamed m.inputs) (methods counter)
arms_fit_iff_example = arms_fit_iff ascii_upper counter

client_calls_served_example :
    (map (called ascii_upper) (client_methods ascii_upper counter)
      ≡ map (served ascii_upper) (server_methods ascii_upper counter))
    × (map (λ (c : ClientMethod). c.rpc_call_variant) (client_methods ascii_upper counter)
        ≡ map (λ (v : RpcVariant). v.ident) (rpc_variants ascii_upper counter))
client_calls_served_example = client_calls_served ascii_upper counter

variant_names_differ_example :
    AreDistinct (map (λ (v : RpcVariant). v.ident) (rpc_variants ascii_upper counter))
variant_names_differ_example =
    variant_names_differ ascii_upper ascii_upper-UpperCases counter
      (go_up-IsSnake, (get-IsSnake, tt)) ((λ e. ground (arith, e), tt), (tt, tt))

-- `go_up` becomes `GoUp`, and the trait of a user that handles it has no handler.
go_up_named : snake_to_pascal_case ascii_upper go_up.ident ≡ b'G' ∷ b'o' ∷ b'U' ∷ b'p' ∷ []
unfolding snake_to_pascal_case pascal_from
go_up_named = refl

no_handler : (rpc ascii_upper no_server_handler [] counter).server_handler ≡ none
unfolding rpc contains
no_handler = refl

-- `foo_1` and `foo1` have the same variant.
same_variant :
    snake_to_pascal_case ascii_upper (b'f' ∷ b'o' ∷ b'o' ∷ b'_' ∷ b'1' ∷ [])
    ≡ snake_to_pascal_case ascii_upper (b'f' ∷ b'o' ∷ b'o' ∷ b'1' ∷ [])
unfolding snake_to_pascal_case pascal_from
same_variant = refl

-- The method `f(&self, _: u32)`: its variant has no field, its arm lists the pattern.
abbrev unnamed : List FnArg
unnamed = receiver ∷ typed (other_pat (b'_' ∷ [])) (b'u' ∷ b'3' ∷ b'2' ∷ []) ∷ []

unnamed_fields : fields_of unnamed ≡ []
unfolding fields_of
unnamed_fields = refl

unnamed_patterns : patterns_of unnamed ≡ other_pat (b'_' ∷ []) ∷ []
unfolding patterns_of
unnamed_patterns = refl
