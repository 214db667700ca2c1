-- ===== src/Stubs/Specs.antt =====
-- cmd/protoc-gen-nproto2/gen.go: the specs that the generated code makes, and the values that its
-- functions pass through interfaces.
use nproto.Prelude.{Text, true, ◌≡◌, refl, ◌↔◌, Option, none, some, ℕ, text_eq}
use nproto.Go.{
  message, GoType, user, Value, nil, raw, val, user_beq_iff, type_of, Result, ok, err, Printer,
}
use nproto.Md.{Context}
use nproto.Rpc.{RpcSpec, must, Outcome, output, failed, panicked}
use nproto.Rpc.Laws.{new_rpc_spec_iff, MakesPointer, built}
use nproto.Names.{matches_name}
use nproto.Stubs.{
  Method, new_message, assert_message, new_method_spec, TypedMethod, to_outcome, from_outcome,
  stub_handler,
}
use nproto.Natsrpc.Typed.{WellTyped}

-- A value of a message's type is content that the type assertion finds.
pub assert_message_of_type :
    (n : ℕ) (v : Value)
    → type_of v ≡ some (user (message n))
    → (c : ℕ) × (v ≡ val (message n) c) × (assert_message n v ≡ some c)
unfolding assert_message
assert_message_of_type n nil h = absurd (cc)
assert_message_of_type n (raw f b) h = absurd (cc)
assert_message_of_type n (val t c) h =
    let same : t ≡ message n = cc in
    (c, rw same refl, rw ((user_beq_iff t (message n)).1 same) refl)

-- The spec of a method, with its names and types.
abbrev pub method_spec : Text → Method → RpcSpec
method_spec svc m =
    built svc m.go_name (val (message m.input) 0) (user (message m.input))
      (val (message m.output_) 0) (user (message m.output_))

must_iff : (r : Result RpcSpec) (spec : RpcSpec) → (must r ≡ some spec) ↔ (r ≡ ok spec)
unfolding must
must_iff (ok s) spec = (λ h. cc, λ h. cc)
must_iff (err e) spec = (λ h. cc, λ h. cc)

made_message :
    (n : ℕ) (v : Value) (t : GoType)
    → MakesPointer (some (new_message n)) v t
    → (v ≡ val (message n) 0) × (t ≡ user (message n))
unfolding new_message
made_message n v t (made, typed_, p) =
    let same : v ≡ val (message n) 0 = cc in
    let k : ◌≡◌ {A = Option GoType} (some (user (message n))) (some t) = rw same at typed_ in
    (same, cc)

-- A field of the generated New<Service>Spec is the spec with the method's names and types if both
-- names match their format; else MustRPCSpec panics.
pub new_method_spec_lem :
    (fmt : Printer) (svc : Text) (m : Method) (spec : RpcSpec)
    → (new_method_spec fmt svc m ≡ some spec)
      ↔ ((matches_name svc ≡ true) × (matches_name m.go_name ≡ true) × (spec ≡ method_spec svc m))
unfolding new_method_spec
new_method_spec_lem fmt svc m spec =
    let made =
      new_rpc_spec_iff fmt svc m.go_name (some (new_message m.input)) (some (new_message m.output_))
        spec in
    (
      λ h.
          let (i, ti, o, to, s, n, made_in, made_out, e) = made.0 ((must_iff _ spec).0 h) in
          let (hi, hti) = made_message m.input i ti made_in in
          let (ho, hto) = made_message m.output_ o to made_out in (s, n, cc),
      λ (s, n, e). (must_iff _ spec).1 (
          made.1 (
            val (message m.input) 0,
            user (message m.input),
            val (message m.output_) 0,
            user (message m.output_),
            s,
            n,
            unfold new_message in (refl, refl, refl),
            unfold new_message in (refl, refl, refl),
            e,
          )),
    )

-- The client's type assertion fails on nothing that is well typed.
pub from_outcome-none :
    (n : ℕ) (o : Outcome)
    → WellTyped (user (message n)) o
    → (from_outcome n o ≡ none) ↔ (o ≡ panicked)
unfolding from_outcome
from_outcome-none n (output v) h =
    let (c, e, a) = assert_message_of_type n v h in rw (a, from_outcome) (λ q. cc, λ q. cc)
from_outcome-none n (failed e) h = (λ q. cc, λ q. cc)
from_outcome-none n panicked h = (λ q. refl, λ q. refl)

pub to_outcome_typed :
    (n : ℕ) (r : Option (Result ℕ)) → WellTyped (user (message n)) (to_outcome n r)
unfolding to_outcome
to_outcome_typed n none = tt
to_outcome_typed n (some (ok c)) = refl
to_outcome_typed n (some (err e)) = tt

pub from_outcome-to_outcome : (n : ℕ) (r : Option (Result ℕ)) → from_outcome n (to_outcome n r) ≡ r
unfolding from_outcome to_outcome assert_message
from_outcome-to_outcome n none = refl
from_outcome-to_outcome n (some (ok c)) =
    rw ((user_beq_iff (message n) (message n)).1 refl, from_outcome) refl
from_outcome-to_outcome n (some (err e)) = refl

pub stub_handler_of_message :
    {W : Type 0} (m : Method) (impl : TypedMethod W) (ctx : Context) (c : ℕ) (w : W)
    → stub_handler m impl ctx (val (message m.input) c) w
      ≡ (to_outcome m.output_ (impl ctx c w).0, (impl ctx c w).1)
unfolding stub_handler assert_message
stub_handler_of_message m impl ctx c w =
    rw ((user_beq_iff (message m.input) (message m.input)).1 refl) refl
