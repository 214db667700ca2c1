-- ===== src/Stubs/Remote.antt =====
-- cmd/protoc-gen-nproto2/gen.go over natsrpc/pj.go: a generated client and a service that is served
-- with the generated code, with protobuf in between.
use nproto.Prelude.{Text, ℕ, ◌+◌, ◌<◌, ◌≡◌, refl, sym, ap, none, some, []}
use nproto.Prelude.Int.{IsInt16}
use nproto.Go.{Packed, message, val, rpc_error, plain_error, Result, ok, err, Printer}
use nproto.Md.{Context, new_pb_meta_data}
use nproto.Enc.{
  Codecs, encoded, pb_format, default_pb_encoder, default_pj_encoder, default_pj_decoder,
}
use nproto.Enc.Laws.{
  Restores, is_message_type, default_pb_encoder_lem, default_pj_encoder_lem, default_pj_decoder_lem,
}
use nproto.Rpc
use nproto.Rpc.{
  Outcome, output, failed, panicked, passes, assert_output_type, input_value, output_value,
  new_input, new_output, input_type, output_type, method_name,
}
use nproto.Rpc.Laws.{assert_output_type_cases}
use nproto.Natsrpc.{Request, Response, Wire}
use nproto.Natsrpc.Server.{MethodInfo, MethodMap, find_method}
use nproto.Natsrpc.Server.Requests.{request_context, error_response, output_response, answer}
use nproto.Natsrpc.Client.{ClientConn, Net, remaining, make_handler}
use nproto.Natsrpc.Defaults.{new_client, new_pb_json_client}
use nproto.Natsrpc.EndToEnd.{remote_call, loopback, Carried}
use nproto.Stubs.{Method, TypedMethod, to_outcome, stub_handler, client_method}
use nproto.Stubs.Specs.{method_spec, from_outcome-to_outcome, stub_handler_of_message}

module _ (fmt : Printer) (lib : Codecs) (wire : Wire) where
  -- A service's result that can be sent: the output can be marshalled, the response is restored by
  -- package proto, and an RPC error's code is an int16.
  abbrev pub Sendable : ℕ → Result ℕ → Type 0
  Sendable n (ok c) =
      (packed b : Text) × (lib.pb_marshal (val (message n) c) ≡ ok packed)
      × Packed wire.marshal_response wire.unmarshal_response
          (output_response (encoded pb_format packed)) b
  Sendable n (err (rpc_error code text)) =
      (b : Text) × Packed wire.marshal_response wire.unmarshal_response
        (error_response (rpc_error code text)) b
      × IsInt16 code
  Sendable n (err (plain_error text)) =
      (b : Text) × Packed wire.marshal_response wire.unmarshal_response
        (error_response (plain_error text)) b

  module _ {W : Type 0} (svc : Text) (m : Method) (impl : TypedMethod W) where
    -- How NewPbJsonServer stores the method.
    abbrev pub stub_info : MethodInfo W
    stub_info = record {
      spec = method_spec svc m;
      handler = stub_handler m impl;
      decoder = default_pj_decoder fmt lib;
      encoder = default_pj_encoder fmt lib;
    }

    -- The response to a sendable result, and that the client gets the result back.
    abbrev Responds : Request → Result ℕ → Type 0
    Responds req r =
        (resp : Response) × (b : Text) × (answer fmt wire svc m.go_name stub_info req
            (to_outcome m.output_ (some r))
          ≡ some resp)
        × Packed wire.marshal_response wire.unmarshal_response resp b
        × Carried (method_spec svc m) stub_info (default_pj_decoder fmt lib) req.input_format
            (to_outcome m.output_ (some r))

    responds :
        Restores is_message_type lib.pb_marshal lib.pb_unmarshal
        → (req : Request) (r : Result ℕ) → req.input_format ≡ pb_format
        → Sendable m.output_ r
        → Responds req r
    unfolding to_outcome answer output_type new_output
    responds restores req (err (rpc_error code text)) f (b, packed, int16) =
        (error_response (rpc_error code text), b, refl, packed, int16)
    responds restores req (err (plain_error text)) f (b, packed) =
        (error_response (plain_error text), b, refl, packed, tt)
    responds restores req (ok c) f (bytes, b, packed, sent) =
        let made : default_pj_encoder fmt lib (val (message m.output_) c) req.input_format []
            ≡ encoded pb_format bytes =
          rw f (default_pj_encoder_lem fmt lib m.output_ c bytes packed) in
        let p : assert_output_type fmt (method_spec svc m) (val (message m.output_) c) ≡ passes =
          (assert_output_type_cases fmt (method_spec svc m) (val (message m.output_) c)).0.1 refl in
        (
          output_response (encoded pb_format bytes),
          b,
          rw (p, answer) (rw made (ap (λ e. some (output_response e)) made)),
          sent,
          rw made (
            refl,
            refl,
            sym f,
            rw f (default_pj_decoder_lem fmt lib m.output_ c bytes packed 0 restores),
          ),
        )

    module _ (server_ctx : Context) (prefix : Text) (server_now : ℕ) (clock : W → ℕ × W)
        (mm : MethodMap W) (cc : ClientConn) where
      abbrev pub client_net : Net W
      client_net = loopback fmt wire server_ctx prefix server_now clock (method_spec svc m) mm

      abbrev pub request : Context → Text → ℕ → ℕ → Request
      request ctx bytes t1 t2 = record {
        meta_data = new_pb_meta_data ctx.outgoing;
        input_format = pb_format;
        input_bytes = bytes;
        timeout = remaining (t1 + cc.timeout) t2;
      }

      -- A call of a generated client's method over NewPbJsonClient returns what the service's
      -- method returns, where the service is served by the generated code over NewPbJsonServer:
      -- the same message, the same RPC error or the same error message; the service runs once.
      -- The client has no deadline in its context, and its clock does not reach the default timeout
      -- between its two readings; the input, the request, the output and the response can be
      -- marshalled, and package proto restores them.
      pub client_method-stub_handler :
          (ctx : Context) (c : ℕ) (bytes data_ : Text) (r : Result ℕ) (t1 t2 : ℕ) (w w1 w2 w' : W)
          → Restores is_message_type lib.pb_marshal lib.pb_unmarshal
          → cc.subject_prefix ≡ prefix
          → find_method mm m.go_name ≡ some stub_info
          → ctx.deadline ≡ none
          → clock w ≡ (t1, w1)
          → clock w1 ≡ (t2, w2)
          → t2 < t1 + cc.timeout
          → lib.pb_marshal (val (message m.input) c) ≡ ok bytes
          → Packed wire.marshal_request wire.unmarshal_request (request ctx bytes t1 t2) data_
          → impl (request_context server_ctx server_now (request ctx bytes t1 t2)) c w2
            ≡ (some r, w')
          → Sendable m.output_ r
          → client_method m
              (Rpc.make_handler (new_pb_json_client fmt lib wire client_net cc) (method_spec svc m))
              ctx
              c
              w
            ≡ (some r, w')
      unfolding method_name input_type new_input client_method new_pb_json_client new_client
          Rpc.make_handler input_value output_value
      client_method-stub_handler ctx c bytes data_ r t1 t2 w w1 w2 w' restores pre found no_dl
            clock1 clock2 in_time packed sent ran sendable =
          let (resp, b, answered, replied, carried) =
            responds restores (request ctx bytes t1 t2) r refl sendable in
          let pb = default_pb_encoder_lem fmt lib m.input c bytes packed in
          let req = request ctx bytes t1 t2 in
          let call : make_handler fmt wire client_net cc (method_spec svc m)
                (default_pb_encoder fmt lib) (default_pj_decoder fmt lib) ctx
                (val (message m.input) c) w
              ≡ (to_outcome m.output_ (some r), w') =
            remote_call fmt wire server_ctx prefix server_now clock (method_spec svc m) mm stub_info
              refl (default_pj_decoder fmt lib) req cc (default_pb_encoder fmt lib) ctx
              (val (message m.input) c) data_ b (to_outcome m.output_ (some r)) resp t1 t2 w w1 w2
              w' pre found refl (rw pb refl) no_dl clock1 clock2 in_time (rw pb refl) sent.0 sent.1
              (default_pj_decoder_lem fmt lib m.input c bytes packed 0 restores)
              (rw (stub_handler_of_message m impl (request_context server_ctx server_now req) c w2)
                (rw ran refl))
              carried answered replied.0 replied.1 in
          rw call (ap (λ o. (o, w')) (from_outcome-to_outcome m.output_ (some r)))
