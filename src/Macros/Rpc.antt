-- ===== src/Macros/Rpc.antt =====
-- `#[rpc]`: the enum `RpcCall`, the handler that the server runs, and the methods of the client. A
-- trait is the list of its methods.
use hardlight.Prelude.{◌≡◌, ◌≢◌, refl, inl, inr, Option, none, some, List, [], ◌∷◌, Option-cases}
use hardlight.Wire.{
  Bytes, HandlerResult, ok, err, client_decode_error, client_encode_error, server_decode_error,
}
use hardlight.Codec.{Codec, RoundTrips}

-- A method of the trait: its arguments, the type of its value, and rkyv at that type.
pub record Method : Type 1 where
  pub Args : Type 0
  pub Out : Type 0
  pub out_codec : Codec Out

-- The method that a call names, by its place in the trait.
pub data Variant : List Method → Method → Type 1 where
  first : {m : Method} {ms : List Method} → Variant (m ∷ ms) m
  later : {m n : Method} {ms : List Method} → Variant ms m → Variant (n ∷ ms) m

-- `enum RpcCall`: a variant for each method, which holds the arguments.
pub data RpcCall : List Method → Type 1 where
  this : {m : Method} {ms : List Method} → m.Args → RpcCall (m ∷ ms)
  that : {m : Method} {ms : List Method} → RpcCall ms → RpcCall (m ∷ ms)

unfoldable pub call_of : {ms : List Method} {m : Method} → Variant ms m → m.Args → RpcCall ms
call_of first args = this args
call_of (later v) args = that (call_of v args)

-- The server's implementation of the trait, over the state `S` that its methods change.
pub data Implementation (S : Type 0) : List Method → Type 1 where
  no_methods : Implementation S []
  method :
      {m : Method} {ms : List Method}
      → (m.Args → S → S × HandlerResult m.Out)
      → Implementation S ms
      → Implementation S (m ∷ ms)

unfoldable pub method_of :
    {S : Type 0} {ms : List Method} {m : Method}
    → Variant ms m
    → Implementation S ms
    → m.Args
    → S
    → S × HandlerResult m.Out
method_of first (method f fs) = f
method_of (later v) (method f fs) = method_of v fs

-- A method's result, as the handler returns it; `none` is the panic of `unwrap`.
unfoldable pub encoded :
    (m : Method) {S : Type 0} → S × HandlerResult m.Out → Option (S × HandlerResult Bytes)
encoded m (state, err e) = some (state, err e)
encoded m (state, ok out) = elim (m.out_codec.to_bytes out) [
  | none ↦ none
  | some bytes ↦ some (state, ok bytes)
]

unfoldable pub dispatch :
    {S : Type 0} {ms : List Method}
    → RpcCall ms
    → Implementation S ms
    → S
    → Option (S × HandlerResult Bytes)
unfolding encoded
dispatch (this {m = m} args) (method f fs) state = encoded m (f args state)
dispatch (that call) (method f fs) state = dispatch call fs state

module _ {S : Type 0} {ms : List Method} (calls : Codec (RpcCall ms)) where
  -- `Handler::handle_rpc_call`
  unfoldable pub handle_rpc_call :
      Implementation S ms → Bytes → S → Option (S × HandlerResult Bytes)
  unfolding dispatch
  handle_rpc_call methods input state = elim (calls.from_bytes input) [
    | none ↦ some (state, err server_decode_error)
    | some call ↦ dispatch call methods state
  ]

-- What a client's method does with the bytes that `make_rpc_call` gives.
unfoldable pub decoded : (m : Method) → HandlerResult Bytes → HandlerResult m.Out
decoded m (err e) = err e
decoded m (ok bytes) = elim (m.out_codec.from_bytes bytes) [
  | none ↦ err client_decode_error
  | some out ↦ ok out
]

-- A whole call, with nothing but the two peers between the client's method and the server's: the
-- client encodes the call, the server's handler answers, the client decodes. `none` is a panic.
module _ {S : Type 0} {ms : List Method} (calls : Codec (RpcCall ms))
    (methods : Implementation S ms) where
  abbrev answered :
      (m : Method) → Option (S × HandlerResult Bytes) → Option (S × HandlerResult m.Out)
  answered m none = none
  answered m (some (state, result)) = some (state, decoded m result)

  unfoldable pub remote_call :
      {m : Method} → Variant ms m → m.Args → S → Option (S × HandlerResult m.Out)
  unfolding call_of handle_rpc_call decoded
  remote_call {m} v args state = elim (calls.to_bytes (call_of v args)) [
    | none ↦ some (state, err client_encode_error)
    | some input ↦ answered m (handle_rpc_call calls methods input state)
  ]

  dispatch-call_of :
      {m : Method} {ns : List Method} (v : Variant ns m) (fs : Implementation S ns) (args : m.Args)
      (state : S)
      → dispatch (call_of v args) fs state ≡ encoded m (method_of v fs args state)
  unfolding dispatch call_of method_of
  dispatch-call_of first (method f fs) args state = refl
  dispatch-call_of (later v) (method f fs) args state = dispatch-call_of v fs args state

  answered-encoded :
      (m : Method)
      → RoundTrips m.out_codec
      → (r : S × HandlerResult m.Out)
      → ((out : m.Out) → (r.1 ≡ ok out) → m.out_codec.to_bytes out ≢ none)
      → answered m (encoded m r) ≡ some r
  unfolding encoded decoded
  answered-encoded m trips (state, err e) writes = refl
  answered-encoded m trips (state, ok out) writes = elim (Option-cases (m.out_codec.to_bytes out)) [
    | inl unwritten ↦ absurd (writes out refl unwritten)
    | inr (bytes, e) ↦ rw (encoded, e, decoded, trips out bytes e) refl
  ]

  -- A client's method gives what the server's method of the same name gives on the same arguments,
  -- its error too, and leaves the server's state as that leaves it, when rkyv reads back what it
  -- has written, can write the call, and can write the value, if the method gives one.
  pub remote_call_lem :
      RoundTrips calls
      → {m : Method} → RoundTrips m.out_codec
      → (v : Variant ms m) (args : m.Args) (state : S) (input : Bytes)
      → calls.to_bytes (call_of v args) ≡ some input
      → ((out : m.Out)
          → ((method_of v methods args state).1 ≡ ok out)
          → m.out_codec.to_bytes out ≢ none)
      → remote_call v args state ≡ some (method_of v methods args state)
  unfolding remote_call handle_rpc_call
  remote_call_lem trips {m} out_trips v args state input written writes =
      rw
        (
          remote_call,
          written,
          handle_rpc_call,
          trips (call_of v args) input written,
          dispatch-call_of v methods args state,
        )
        (answered-encoded m out_trips (method_of v methods args state) writes)
