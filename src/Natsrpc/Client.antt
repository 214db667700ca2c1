-- ===== src/Natsrpc/Client.antt =====
-- natsrpc/client.go: the handler that a client makes for a method.
use nproto.Prelude.{
  Text, codes, ◌==◌, if◌then◌else◌, not, none, some, [], ◌++◌, text_eq, ℕ, leb, ◌+◌, ◌-◌,
}
use nproto.Prelude.Int.{ℤ, to_int16}
use nproto.Go.{Error, rpc_error, plain_error, Result, ok, err, Printer}
use nproto.Md.{Context, new_pb_meta_data, md_from_outgoing_context}
use nproto.Enc.{Encoder, Decoder, Encoded}
use nproto.Rpc.{
  RpcSpec, svc_name, method_name, new_output, passes, fails, crashes, assert_input_type, Outcome,
  output, failed, panicked, RpcHandler, encode_request_error, decode_response_error, error_text,
}
use nproto.Natsrpc.{
  subject_format, Request, Response, resp_output, resp_rpc_err, resp_err, resp_other, Wire,
  side_error,
}
use nproto.Natsrpc.Server.Requests.{int64_max}

-- ClientConn; the timeout is in nanoseconds.
pub record ClientConn : Type 0 where
  pub subject_prefix : Text
  pub timeout : ℕ

-- What the client uses of the world: time.Now, and nc.RequestWithContext with its context, subject
-- and data.
pub record Net (W : Type 0) : Type 0 where
  pub now : W → ℕ × W
  pub request : Context → Text → Text → W → Result Text × W

-- context.DeadlineExceeded
abbrev pub deadline_exceeded : Error
deadline_exceeded = plain_error (codes "context deadline exceeded")

-- errorf of makeHandler
client_error : RpcSpec → ℤ → Text → Error
unfolding side_error svc_name method_name
client_error spec code detail =
    side_error (codes "client") (svc_name spec) (method_name spec) code detail

-- dl.Sub(now), which stops at the largest Duration, for a deadline that is not past.
unfoldable pub remaining : ℕ → ℕ → ℕ
remaining dl now = if leb (dl - now) int64_max then dl - now else int64_max

module _ (fmt : Printer) (wire : Wire) where
  -- The switch on the response's type.
  unfoldable pub read_response : RpcSpec → Decoder → Text → Response → Outcome
  unfolding client_error new_output error_text to_int16
  read_response spec decoder input_format resp = elim resp.kind [
    | resp_output ↦
        if not (resp.output_format == input_format)
        then failed (
            client_error spec decode_response_error (
              codes "expect output format "
              ++ (input_format ++ (codes ", but got " ++ resp.output_format))))
        else (let r = decoder resp.output_format resp.output_bytes (new_output spec) in
            elim (r.0) [
              | some e ↦ failed (
                  client_error spec decode_response_error
                    (codes "decode output error: " ++ error_text fmt e))
              | none ↦ output r.1
            ])
    | resp_rpc_err ↦ failed (rpc_error (to_int16 resp.err_code) resp.err_message)
    | resp_err ↦ failed (plain_error resp.err_message)
    | resp_other n ↦ panicked
  ]

  -- The answer of RequestWithContext.
  unfoldable pub read_reply : RpcSpec → Decoder → Text → Result Text → Outcome
  unfolding client_error read_response error_text
  read_reply spec decoder input_format (err e) = failed e
  read_reply spec decoder input_format (ok b) = elim (wire.unmarshal_response b) [
    | err e ↦ failed (
        client_error spec decode_response_error
          (codes "unmarshal response error " ++ error_text fmt e))
    | ok resp ↦ read_response spec decoder input_format resp
  ]

  module _ {W : Type 0} (net : Net W) where
    -- Marshalling the request and sending it.
    unfoldable pub send : ClientConn → RpcSpec → Decoder → Context → Request → W → Outcome × W
    unfolding client_error read_reply subject_format svc_name method_name error_text
    send cc spec decoder ctx req w = elim (wire.marshal_request req) [
      | err e ↦ (
        failed (
            client_error spec encode_request_error
              (codes "marshal request error " ++ error_text fmt e)),
        w,
      )
      | ok data_ ↦
          let (answer, w') =
            net.request ctx (subject_format cc.subject_prefix (svc_name spec) (method_name spec))
              data_ w in
          (read_reply spec decoder req.input_format answer, w')
    ]

    -- The context's deadline, set to the default timeout from now if it has none.
    unfoldable pub ensure_deadline : ClientConn → Context → W → ℕ × Context × W
    ensure_deadline cc ctx w = elim ctx.deadline [
      | some dl ↦ (dl, ctx, w)
      | none ↦
          let (t, w') = net.now w in
          (t + cc.timeout, record ctx { deadline = some (t + cc.timeout) }, w')
    ]

    -- From the encoded input on.
    unfoldable pub send_in_time :
        ClientConn → RpcSpec → Decoder → Context → Encoded → W → Outcome × W
    unfolding ensure_deadline send remaining new_pb_meta_data md_from_outgoing_context
    send_in_time cc spec decoder ctx r w =
        let (dl, ctx', w1) = ensure_deadline cc ctx w in
        let (t, w2) = net.now w1 in
        if leb dl t
        then (failed deadline_exceeded, w2)
        else send cc spec decoder ctx'
            (record {
              meta_data = new_pb_meta_data (md_from_outgoing_context ctx);
              input_format = r.format;
              input_bytes = r.bytes;
              timeout = remaining dl t;
            })
            w2

    -- ClientConn.makeHandler
    unfoldable pub make_handler : ClientConn → RpcSpec → Encoder → Decoder → RpcHandler W
    unfolding client_error assert_input_type send_in_time error_text
    make_handler cc spec encoder decoder ctx input w = elim (assert_input_type fmt spec input) [
      | crashes ↦ (panicked, w)
      | fails e ↦ (
        failed (
            client_error spec encode_request_error
              (codes "assert input type error " ++ error_text fmt e)),
        w,
      )
      | passes ↦
          let r = encoder input [] [] in
          elim r.error [
            | some e ↦ (
              failed (
                  client_error spec encode_request_error
                    (codes "encode input error " ++ error_text fmt e)),
              w,
            )
            | none ↦ send_in_time cc spec decoder ctx r w
          ]
    ]
