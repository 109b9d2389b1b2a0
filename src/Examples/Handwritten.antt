-- ===== src/Examples/Handwritten.antt =====
-- The handler of testing-project, which is written by hand over `de` and `ser`, beside the handler that
-- `#[rpc]` would generate for the same trait. Its state is the counter.
use hardlight.Prelude.{
  ℕ, ◌+◌, ◌-◌, ◌%◌, ◌^◌, ◌<◌, ◌≡◌, refl, Bool, false, Option, some, inl, inr, List, [], ◌∷◌, arith,
  Option-cases,
}
use hardlight.Wire.{Bytes, HandlerResult, ok, err}
use hardlight.Codec.{Codec, ◌>>=◌}
use hardlight.Serialize.{ser, de}
use hardlight.Examples.{add_u32, sub_u32}
use hardlight.Macros.Rpc
use hardlight.Macros.Rpc.{
  Method, RpcCall, this, that, Implementation, method, no_methods, encoded, dispatch,
}

add_wraps : (a b : ℕ) → add_u32 false a b ≡ some ((a + b) % 2 ^ 32)
unfolding add_u32
add_wraps a b = ground arith

sub_wraps : (a b : ℕ) → a < 2 ^ 32 → sub_u32 false a b ≡ some ((a + 2 ^ 32 - b) % 2 ^ 32)
unfolding sub_u32
sub_wraps a b small = ground (arith, small)

module _ (u32 : Codec ℕ) (unit : Codec (Unit {0})) where
  -- `trait Counter` of testing-project/src/service.rs.
  abbrev pub increment_method : Method
  increment_method = record { Args = ℕ; Out = ℕ; out_codec = u32 }

  abbrev pub decrement_method : Method
  decrement_method = record { Args = ℕ; Out = ℕ; out_codec = u32 }

  abbrev pub get_method : Method
  get_method = record { Args = Unit; Out = ℕ; out_codec = u32 }

  abbrev pub test_overhead_method : Method
  test_overhead_method = record { Args = Unit; Out = Unit; out_codec = unit }

  abbrev pub counter_methods : List Method
  counter_methods = increment_method ∷ decrement_method ∷ get_method ∷ test_overhead_method ∷ []

  module _ (calls : Codec (RpcCall counter_methods)) (overflow_checks : Bool) where
    answer_call : RpcCall counter_methods → ℕ → Option (ℕ × HandlerResult Bytes)
    answer_call (this amount) counter = do
      new ← add_u32 overflow_checks counter amount
      some (new, ser u32 new)
    answer_call (that (this amount)) counter = do
      new ← sub_u32 overflow_checks counter amount
      some (new, ser u32 new)
    answer_call (that (that (this u))) counter = some (counter, ser u32 counter)
    answer_call (that (that (that (this u)))) counter = some (counter, ok [])
    answer_call (that (that (that (that none_left)))) counter = elim none_left [ ]

    abbrev handle_decoded :
        HandlerResult (RpcCall counter_methods) → ℕ → Option (ℕ × HandlerResult Bytes)
    handle_decoded (err e) counter = some (counter, err e)
    handle_decoded (ok call) counter = answer_call call counter

    -- `Handler::handle_rpc_call`; `none` is the panic of an overflow.
    unfoldable pub handle_rpc_call : Bytes → ℕ → Option (ℕ × HandlerResult Bytes)
    unfolding answer_call
    handle_rpc_call input counter = handle_decoded (de calls input) counter

  -- The methods of the trait in a release build, as an implementation for the generated handler.
  abbrev pub counter_implementation : Implementation ℕ counter_methods
  counter_implementation =
      method (λ amount counter. let new = (counter + amount) % 2 ^ 32 in (new, ok new))
        (method (λ amount counter. let new = (counter + 2 ^ 32 - amount) % 2 ^ 32 in (new, ok new))
          (method (λ u counter. (counter, ok counter))
            (method (λ u counter. (counter, ok tt)) no_methods)))

  module _ (calls : Codec (RpcCall counter_methods))
      (writes : (n : ℕ) → (bytes : Bytes) × (u32.to_bytes n ≡ some bytes))
      (empty : unit.to_bytes tt ≡ some []) where
    answer_call-dispatch :
        (call : RpcCall counter_methods) (counter : ℕ)
        → counter < 2 ^ 32
        → answer_call calls false call counter ≡ dispatch call counter_implementation counter
    unfolding answer_call dispatch encoded ser add_u32 sub_u32
    answer_call-dispatch (this amount) counter small =
        let (bytes, e) = writes ((counter + amount) % 2 ^ 32) in
        rw (add_wraps counter amount, ◌>>=◌, ser, encoded, e) refl
    answer_call-dispatch (that (this amount)) counter small =
        let (bytes, e) = writes ((counter + 2 ^ 32 - amount) % 2 ^ 32) in
        rw (sub_wraps counter amount small, ◌>>=◌, ser, encoded, e) refl
    answer_call-dispatch (that (that (this u))) counter small =
        let (bytes, e) = writes counter in rw (ser, encoded, e) refl
    answer_call-dispatch (that (that (that (this u)))) counter small = rw empty refl
    answer_call-dispatch (that (that (that (that none_left)))) counter small = elim none_left [ ]

    -- In a release build, the handler that is written by hand gives on every input, be it a call or not,
    -- the counter and the bytes or error that the generated handler gives over the same methods, if the
    -- counter is a `u32`, rkyv can write every number and writes `()` as no bytes.
    pub handwritten_is_generated :
        (input : Bytes) (counter : ℕ)
        → counter < 2 ^ 32
        → handle_rpc_call calls false input counter
          ≡ Rpc.handle_rpc_call calls counter_implementation input counter
    unfolding handle_rpc_call Rpc.handle_rpc_call de
    handwritten_is_generated input counter small = elim (Option-cases (calls.from_bytes input)) [
      | inl e ↦ rw (handle_rpc_call, Rpc.handle_rpc_call, de, e) refl
      | inr (call, e) ↦
          rw (handle_rpc_call, Rpc.handle_rpc_call, de, e) (answer_call-dispatch call counter small)
    ]
