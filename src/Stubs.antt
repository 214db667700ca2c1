-- ===== src/Stubs.antt =====
-- cmd/protoc-gen-nproto2/gen.go: the code that the plugin generates for a service and for a message,
-- by its templates. examples/sendmail/pb.nproto.go is what it generates for one file.
pub mod Serve
pub mod Specs
pub mod Typed
pub mod Remote
pub mod Messages
pub mod Files
mod Tests
use nproto.Prelude.{
  Text, Map, if◌then◌else◌, Option, none, some, List, [], ◌∷◌, map, ℕ, text_eq, insert,
}
use nproto.Go.{
  UserType, message, GoType, user, Value, nil, raw, val, user_beq, Error, Result, ok, err, Printer,
}
use nproto.Md.{Context}
use nproto.Rpc.{
  RpcSpec, svc_name, method_name, new_rpc_spec, must, Outcome, output, failed, panicked, RpcHandler,
  RpcClient, make_handler, RpcServer, regist_handler,
}
use nproto.Msg.{MsgSpec, typed_msg, MsgHandler, MsgSubscriber, subscribe, MsgPublisher}

-- protogen.Method, with the numbers of its input and output messages.
pub record Method : Type 0 where
  pub go_name : Text
  pub input : ℕ
  pub output_ : ℕ

-- new(T) for a message, as an interface value.
unfoldable pub new_message : ℕ → Value
new_message n = val (message n) 0

-- v.(*T) for a message; `none` is the panic.
unfoldable pub assert_message : ℕ → Value → Option ℕ
assert_message n nil = none
assert_message n (raw f b) = none
assert_message n (val t c) = if user_beq t (message n) then some c else none

-- A method of the generated interface, on the contents of its messages; `none` is a panic.
abbrev pub TypedMethod : Type 0 → Type 0
TypedMethod W = Context → ℕ → W → Option (Result ℕ) × W

-- One method with its field in the generated spec and the service's implementation.
pub record Stub (W : Type 0) : Type 0 where
  pub method : Method
  pub spec : RpcSpec
  pub impl : TypedMethod W

-- MustRPCSpec for one method in New{{ .GoName }}Spec.
unfoldable pub new_method_spec : Printer → Text → Method → Option RpcSpec
unfolding must new_rpc_spec new_message
new_method_spec fmt svc m =
    must
      (new_rpc_spec fmt svc m.go_name (some (new_message m.input)) (some (new_message m.output_)))

-- New{{ .GoName }}Spec: the fields in the order of the methods, or the panic of MustRPCSpec.
unfoldable pub new_spec : Printer → Text → List Method → Option (List RpcSpec)
unfolding new_method_spec
new_spec fmt svc [] = some []
new_spec fmt svc (m ∷ ms) = elim (new_method_spec fmt svc m) [
  | none ↦ none
  | some spec ↦ elim (new_spec fmt svc ms) [ none ↦ none | some specs ↦ some (spec ∷ specs) ]
]

-- SpecMap
unfoldable pub spec_map : List (Method × RpcSpec) → Map Text RpcSpec
unfolding insert
spec_map [] = []
spec_map ((m, spec) ∷ ms) = insert m.go_name spec (spec_map ms)

-- What the registered function literal and the client's method make of each other's results.
unfoldable pub to_outcome : ℕ → Option (Result ℕ) → Outcome
to_outcome n none = panicked
to_outcome n (some (ok c)) = output (val (message n) c)
to_outcome n (some (err e)) = failed e

unfoldable pub from_outcome : ℕ → Outcome → Option (Result ℕ)
unfolding assert_message
from_outcome n (output v) = elim (assert_message n v) [ none ↦ none | some c ↦ some (ok c) ]
from_outcome n (failed e) = some (err e)
from_outcome n panicked = none

module _ {W : Type 0} where
  -- From the asserted input on.
  unfoldable pub call_impl : ℕ → TypedMethod W → Context → Option ℕ → W → Outcome × W
  unfolding to_outcome
  call_impl n impl ctx none w = (panicked, w)
  call_impl n impl ctx (some c) w = let (r, w') = impl ctx c w in (to_outcome n r, w')

  -- The function literal that Serve{{ .GoName }} registers for a method.
  unfoldable pub stub_handler : Method → TypedMethod W → RpcHandler W
  unfolding call_impl assert_message
  stub_handler m impl ctx input w = call_impl m.output_ impl ctx (assert_message m.input input) w

  -- A method of client{{ .GoName }} on its handler; calling a nil handler panics.
  unfoldable pub client_method : Method → Option (RpcHandler W) → TypedMethod W
  unfolding from_outcome
  client_method m none ctx c w = (none, w)
  client_method m (some h) ctx c w =
      let (o, w') = h ctx (val (message m.input) c) w in (from_outcome m.output_ o, w')

  -- Invoke{{ .GoName }}
  unfoldable pub invoke : RpcClient W → List (Method × RpcSpec) → List (TypedMethod W)
  unfolding make_handler client_method
  invoke client ms = map (λ p. client_method p.0 (make_handler client p.1)) ms

  module _ {S : Type 0} (server : RpcServer W S) where
    -- The deferred function of one method.
    unfoldable pub deregister : RpcSpec → Option Error × S → Option Error × S
    unfolding regist_handler
    deregister spec (none, s) = (none, s)
    deregister spec (some e, s) = (some e, (regist_handler server spec none s).1)

    -- Serve{{ .GoName }} from a method on: the functions deferred by the later ones run first.
    unfoldable pub serve : List (Stub W) → S → Option Error × S
    unfolding regist_handler stub_handler deregister
    serve [] s = (none, s)
    serve (x ∷ xs) s =
        let (e, s1) = regist_handler server x.spec (some (stub_handler x.method x.impl)) s in
        elim e [ some f ↦ (some f, s1) | none ↦ deregister x.spec (serve xs s1) ]
