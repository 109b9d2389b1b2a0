-- ===== src/Macros/Expand.antt =====
-- `rpc` of macros/src/lib.rs, from the trait that it is written on to the code that it gives out: the
-- variants of `RpcCall`, the arms of the handler's `match`, and the methods of the client. The parser
-- is syn's; a type, an attribute or a pattern that is no identifier is the text that it stands for.
pub mod Agree
use hardlight.Prelude.{
  ℕ, Bool, true, false, ◌&&◌, ◌||◌, not, Option, none, some, List, [], ◌∷◌, ◌++◌, if◌then◌else◌,
  nat_beq,
}
use hardlight.Macros.Naming.{snake_to_pascal_case}

abbrev pub Text : Type 0
Text = List ℕ

-- `syn::Pat`
pub data Pat : Type 0 where
  ident : Text → Pat
  other_pat : Text → Pat

-- `syn::FnArg`
pub data FnArg : Type 0 where
  receiver : FnArg
  typed : (pat : Pat) → (ty : Text) → FnArg

-- `syn::TraitItemMethod`: its signature, and its attributes.
pub record TraitMethod : Type 0 where
  pub ident : Text
  pub inputs : List FnArg
  pub output : Text
  pub attrs : List Text

-- `syn::TraitItem`
pub data TraitItem : Type 0 where
  method : TraitMethod → TraitItem
  other_item : Text → TraitItem

-- `#variant_ident { #(#ident: #ty),* }`
pub record RpcVariant : Type 0 where
  pub ident : Text
  pub fields : List (Text × Text)

-- `RpcCall::#variant_ident { #(#inputs),* } => { self.#method_ident(#(#inputs),*) ... }`
pub record ServerMethod : Type 0 where
  pub variant : Text
  pub bindings : List Pat
  pub method_ident : Text
  pub arguments : List Pat

-- `async fn #method_ident(#method_inputs) #method_output`, and the call in its body.
pub record ClientMethod : Type 0 where
  pub attrs : List Text
  pub method_ident : Text
  pub method_inputs : List FnArg
  pub method_output : Text
  pub rpc_call_variant : Text
  pub rpc_call_params : List Pat

-- The fields of a variant: an argument whose pattern is no identifier has none.
unfoldable pub fields_of : List FnArg → List (Text × Text)
fields_of [] = []
fields_of (receiver ∷ inputs) = fields_of inputs
fields_of (typed (Pat.ident name) ty ∷ inputs) = (name, ty) ∷ fields_of inputs
fields_of (typed (other_pat text) ty ∷ inputs) = fields_of inputs

-- The patterns of the arguments, whatever they are.
unfoldable pub patterns_of : List FnArg → List Pat
patterns_of [] = []
patterns_of (receiver ∷ inputs) = patterns_of inputs
patterns_of (typed pat ty ∷ inputs) = pat ∷ patterns_of inputs

abbrev pub starts_with : Text → Text → Bool
starts_with [] text = true
starts_with (p ∷ ps) [] = false
starts_with (p ∷ ps) (c ∷ cs) = nat_beq p c && starts_with ps cs

-- `str::contains`
unfoldable pub contains : Text → Text → Bool
contains [] part = starts_with part []
contains (c ∷ cs) part = starts_with part (c ∷ cs) || contains cs part

abbrev pub no_server_handler : Text
no_server_handler =
    b'n' ∷ b'o' ∷ b'_' ∷ b's' ∷ b'e' ∷ b'r' ∷ b'v' ∷ b'e' ∷ b'r' ∷ b'_' ∷ b'h' ∷ b'a' ∷ b'n' ∷ b'd'
    ∷ b'l' ∷ b'e' ∷ b'r' ∷ []

module _ (upper : ℕ → List ℕ) where
  unfoldable pub rpc_variants : List TraitItem → List RpcVariant
  unfolding fields_of
  rpc_variants [] = []
  rpc_variants (method m ∷ items) =
      record { ident = snake_to_pascal_case upper m.ident; fields = fields_of m.inputs }
      ∷ rpc_variants items
  rpc_variants (other_item text ∷ items) = rpc_variants items

  unfoldable pub server_methods : List TraitItem → List ServerMethod
  unfolding patterns_of
  server_methods [] = []
  server_methods (method m ∷ items) =
      record {
        variant = snake_to_pascal_case upper m.ident;
        bindings = patterns_of m.inputs;
        method_ident = m.ident;
        arguments = patterns_of m.inputs;
      }
      ∷ server_methods items
  server_methods (other_item text ∷ items) = server_methods items

  unfoldable pub client_methods : List TraitItem → List ClientMethod
  unfolding patterns_of
  client_methods [] = []
  client_methods (method m ∷ items) =
      record {
        attrs = m.attrs;
        method_ident = m.ident;
        method_inputs = m.inputs;
        method_output = m.output;
        rpc_call_variant = snake_to_pascal_case upper m.ident;
        rpc_call_params = patterns_of m.inputs;
      }
      ∷ client_methods items
  client_methods (other_item text ∷ items) = client_methods items

  pub record Expansion : Type 0 where
    pub rpc_call : List RpcVariant
    -- None of a trait that its user handles.
    pub server_handler : Option (List ServerMethod)
    pub client_name : Text
    pub client_impl : List ClientMethod

  abbrev pub client_suffix : Text
  client_suffix = b'C' ∷ b'l' ∷ b'i' ∷ b'e' ∷ b'n' ∷ b't' ∷ []

  unfoldable pub rpc : Text → Text → List TraitItem → Expansion
  unfolding contains rpc_variants server_methods client_methods
  rpc args trait_ident items = record {
    rpc_call = rpc_variants items;
    server_handler = if contains args no_server_handler then none else some (server_methods items);
    client_name = trait_ident ++ client_suffix;
    client_impl = client_methods items;
  }
