-- ===== src/Stubs/Typed.antt =====
-- cmd/protoc-gen-nproto2/gen.go: the type assertions in the generated code, over natsrpc.
use nproto.Prelude.{Text, ◌≡◌, refl, ◌↔◌, none, some, ℕ, text_eq}
use nproto.Go.{message, val, Printer}
use nproto.Md.{Context}
use nproto.Enc.{Encoder, Decoder}
use nproto.Rpc.{RpcSpec, input_type, output_type, new_input, new_output, panicked}
use nproto.Natsrpc.{Wire}
use nproto.Natsrpc.Client.{ClientConn, Net, make_handler}
use nproto.Stubs.{Method, new_method_spec, TypedMethod, to_outcome, stub_handler, client_method}
use nproto.Enc.Laws.{KeepsType}
use nproto.Natsrpc.Typed.{WellTyped, make_handler_typed}
use nproto.Stubs.Specs.{
  assert_message_of_type, method_spec, new_method_spec_lem, from_outcome-none, to_outcome_typed,
  stub_handler_of_message,
}

module _ {W : Type 0} (fmt : Printer) (wire : Wire) (net : Net W) (cc : ClientConn) (svc : Text)
    (m : Method) (spec : RpcSpec) (encoder : Encoder) (decoder : Decoder) where
  -- The type assertions in the generated code do not fail over natsrpc, for a spec that the
  -- generated code made and decoders whose target keeps its type. On the server, whatever was
  -- decoded into the spec's new input is content on which the registered function calls the
  -- service, and its outcome has the spec's output type. On the client, a method panics exactly
  -- where the handler below it does.
  pub stubs_WellTyped :
      new_method_spec fmt svc m ≡ some spec
      → KeepsType decoder
      → ((impl : TypedMethod W) (f b : Text) (ctx : Context) (w : W)
          → (c : ℕ) × (stub_handler m impl ctx (decoder f b (new_input spec)).1 w
              ≡ (to_outcome m.output_ (impl ctx c w).0, (impl ctx c w).1))
            × WellTyped
                (output_type spec)
                (stub_handler m impl ctx (decoder f b (new_input spec)).1 w).0)
        × ((ctx : Context) (c : ℕ) (w : W)
            → ((client_method m
                  (some (make_handler fmt wire net cc spec encoder decoder))
                  ctx
                  c
                  w).0
                ≡ none)
              ↔ ((make_handler fmt wire net cc spec encoder decoder ctx
                    (val (message m.input) c)
                    w).0
                  ≡ panicked))
  unfolding client_method input_type output_type new_input new_output
  stubs_WellTyped made keeps =
      let is_spec : spec ≡ method_spec svc m = ((new_method_spec_lem fmt svc m spec).0 made).2 in
      rw is_spec (
        λ impl f b ctx w.
            let (c, e, a) =
              assert_message_of_type m.input (decoder f b (val (message m.input) 0)).1
                (keeps f b (val (message m.input) 0)) in
            (
              c,
              rw e (stub_handler_of_message m impl ctx c w),
              rw e (
                  rw (stub_handler_of_message m impl ctx c w)
                    (to_outcome_typed m.output_ (impl ctx c w).0)),
            ),
        λ ctx c w. from_outcome-none m.output_ _ (
            make_handler_typed fmt wire (method_spec svc m) decoder keeps refl net cc encoder ctx
              (val (message m.input) c) w),
      )
