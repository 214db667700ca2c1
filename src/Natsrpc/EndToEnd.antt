-- ===== src/Natsrpc/EndToEnd.antt =====
-- natsrpc/client.go against natsrpc/server.go: a call through both, over a NATS that delivers each
-- request to the service's message handler and the published reply to the client.
use nproto.Prelude.{
  Text, ◌==◌, nat_eq, leb, ℕ, ◌+◌, ◌<◌, ◌≡◌, ap, true, false, Option, none, some, [], arith,
  text_eq, pair_eq, beq_refl,
}
use mathlib.Core.Path.{subst}
use nproto.Prelude.Int.{IsInt16, to_int16-eq_of_IsInt16}
use nproto.Go.{Value, Error, rpc_error, plain_error, Result, ok, err, Printer, type_of}
use nproto.Md.{Context, new_pb_meta_data, md_from_outgoing_context}
use nproto.Enc.{Encoder, Decoder}
use nproto.Rpc.{
  RpcSpec, svc_name, method_name, new_input, new_output, input_type, output_type, passes,
  assert_input_type, assert_output_type, Outcome, output, failed, panicked,
}
use nproto.Rpc.Laws.{assert_input_type_cases, assert_output_type_cases}
use nproto.Natsrpc.{subject_format, Request, Response, Wire}
use nproto.Natsrpc.Subject.{subject_parser-subject_format}
use nproto.Natsrpc.Server.{MethodInfo, MethodMap, find_method}
use nproto.Natsrpc.Server.Requests.{
  request_context, error_response, output_response, answer, call_handler, run_task, reply, Handling,
  unexpected_subject, handled, handle_msg,
}
use nproto.Natsrpc.Client.{
  ClientConn, Net, deadline_exceeded, remaining, read_response, read_reply, send, ensure_deadline,
  send_in_time, make_handler,
}

-- What a handler's outcome needs to reach the client as it is: an output of the spec's type that is
-- encoded in the request's format and decoded again; an RPC error whose code is an int16.
abbrev pub Carried : {W : Type 0} → RpcSpec → MethodInfo W → Decoder → Text → Outcome → Type 0
Carried spec info decoder format (output v) =
    (type_of v ≡ some (output_type spec))
    × ((info.encoder v format []).error ≡ none)
    × ((info.encoder v format []).format ≡ format)
    × (decoder format (info.encoder v format []).bytes (new_output spec) ≡ (none, v))
Carried spec info decoder format (failed (rpc_error code message)) = IsInt16 code
Carried spec info decoder format (failed (plain_error message)) = Unit
Carried spec info decoder format panicked = ⊥

-- The reply that a message handler published, as nc.RequestWithContext returns it; without one the
-- client waits until its deadline.
abbrev pub received : {W : Type 0} → W → Handling W → Result Text × W
received w unexpected_subject = (err deadline_exceeded, w)
received w (handled none w') = (err deadline_exceeded, w')
received w (handled (some b) w') = (ok b, w')

module _ {W : Type 0} (fmt : Printer) (wire : Wire) (server_ctx : Context) (prefix : Text)
    (server_now : ℕ) (clock : W → ℕ × W) (spec : RpcSpec) (mm : MethodMap W) where
  abbrev pub loopback : Net W
  loopback = record {
    now = clock;
    request = λ ctx subject data_ w.
        received w (
          handle_msg fmt wire server_ctx prefix server_now (svc_name spec) mm none subject data_ w);
  }

  module _ (info : MethodInfo W) (same : info.spec ≡ spec) (decoder : Decoder) (req : Request) where
    read_answer :
        (out : Outcome) (resp : Response)
        → Carried spec info decoder req.input_format out
        → answer fmt wire (svc_name spec) (method_name spec) info req out ≡ some resp
        → read_response fmt wire spec decoder req.input_format resp ≡ out
    unfolding answer read_response error_response output_response
    read_answer panicked resp c h = absurd c
    read_answer (failed (rpc_error code message)) resp c h =
        ground (arith, to_int16-eq_of_IsInt16 code c)
    read_answer (failed (plain_error message)) resp c h = ground arith
    read_answer (output v) resp c h =
        let p : assert_output_type fmt info.spec v ≡ passes =
          (assert_output_type_cases fmt info.spec v).0.1 (rw same c.0) in
        let k = rw (p, c.1, answer) at h in
        let this : output_response (info.encoder v req.input_format []) ≡ resp = cc in
        let r = info.encoder v req.input_format [] in
        let restored : decoder r.format r.bytes (new_output spec) ≡ (none, v) = rw c.2 c.3 in
        let kept : (r.format == req.input_format) ≡ true = rw c.2 (beq_refl req.input_format) in
        rw (← this) (
          rw (kept, restored, read_response)
            (ap (λ (p : Option Error × Value). output p.1) restored))

    -- The server's side: the reply, and the handler's new world.
    served :
        (input : Value) (data_ b : Text) (out : Outcome) (resp : Response) (ctx : Context)
        (w w' : W)
        → find_method mm (method_name spec) ≡ some info
        → wire.unmarshal_request data_ ≡ ok req
        → info.decoder req.input_format req.input_bytes (new_input spec) ≡ (none, input)
        → info.handler (request_context server_ctx server_now req) input w ≡ (out, w')
        → answer fmt wire (svc_name spec) (method_name spec) info req out ≡ some resp
        → wire.marshal_response resp ≡ ok b
        → loopback.request ctx (subject_format prefix (svc_name spec) (method_name spec)) data_ w
          ≡ (ok b, w')
    unfolding handle_msg run_task call_handler reply
    served input data_ b out resp ctx w w' found parsed decoded ran answered packed =
        let decoded' : info.decoder req.input_format req.input_bytes (new_input info.spec)
            ≡ (none, input) =
          rw same decoded in
        rw (subject_parser-subject_format prefix (svc_name spec) (method_name spec), handle_msg)
          (rw (found, parsed, run_task) (rw (decoded', ran, answered) (rw (packed, reply))))

    exchanged :
        (cc : ClientConn) (ctx : Context) (input : Value) (data_ b : Text) (out : Outcome)
        (resp : Response) (w w' : W)
        → cc.subject_prefix ≡ prefix
        → find_method mm (method_name spec) ≡ some info
        → wire.marshal_request req ≡ ok data_
        → wire.unmarshal_request data_ ≡ ok req
        → info.decoder req.input_format req.input_bytes (new_input spec) ≡ (none, input)
        → info.handler (request_context server_ctx server_now req) input w ≡ (out, w')
        → Carried spec info decoder req.input_format out
        → answer fmt wire (svc_name spec) (method_name spec) info req out ≡ some resp
        → wire.marshal_response resp ≡ ok b
        → wire.unmarshal_response b ≡ ok resp
        → send fmt wire loopback cc spec decoder ctx req w ≡ (out, w')
    unfolding send read_reply
    exchanged cc ctx input data_ b out resp w w' pre found packed parsed decoded ran carried
          answered sent got =
        let back : loopback.request ctx
              (subject_format cc.subject_prefix (svc_name spec) (method_name spec)) data_ w
            ≡ (ok b, w') =
          rw pre (served input data_ b out resp ctx w w' found parsed decoded ran answered sent) in
        rw (packed, send)
          (rw back (rw (got, read_reply) (rw (read_answer out resp carried answered))))

    -- A call through client and server has the handler's own outcome, for a client without a
    -- deadline in its context whose clock does not reach the default timeout between its two
    -- readings. The method is registered with the client's spec; the input has the spec's type, and
    -- codecs and messages restore what they encoded. The handler runs once, in the server's context
    -- with the client's meta data and the rest of the timeout, and what it returns is received as
    -- it is: an output, an RPC error with its code and message, or another error with its message.
    pub remote_call :
        (cc : ClientConn) (encoder : Encoder) (ctx : Context) (input : Value) (data_ b : Text)
        (out : Outcome) (resp : Response) (t1 t2 : ℕ) (w w1 w2 w' : W)
        → cc.subject_prefix ≡ prefix
        → find_method mm (method_name spec) ≡ some info
        → type_of input ≡ some (input_type spec)
        → (encoder input [] []).error ≡ none
        → ctx.deadline ≡ none
        → clock w ≡ (t1, w1)
        → clock w1 ≡ (t2, w2)
        → t2 < t1 + cc.timeout
        → req ≡ record {
          meta_data = new_pb_meta_data ctx.outgoing;
          input_format = (encoder input [] []).format;
          input_bytes = (encoder input [] []).bytes;
          timeout = remaining (t1 + cc.timeout) t2;
        }
        → wire.marshal_request req ≡ ok data_
        → wire.unmarshal_request data_ ≡ ok req
        → info.decoder req.input_format req.input_bytes (new_input spec) ≡ (none, input)
        → info.handler (request_context server_ctx server_now req) input w2 ≡ (out, w')
        → Carried spec info decoder req.input_format out
        → answer fmt wire (svc_name spec) (method_name spec) info req out ≡ some resp
        → wire.marshal_response resp ≡ ok b
        → wire.unmarshal_response b ≡ ok resp
        → make_handler fmt wire loopback cc spec encoder decoder ctx input w ≡ (out, w')
    unfolding make_handler send_in_time ensure_deadline send read_reply md_from_outgoing_context
    remote_call cc encoder ctx input data_ b out resp t1 t2 w w1 w2 w' pre found typed encoded no_dl
          clock1 clock2 in_time made packed parsed decoded ran carried answered sent got =
        let passed : assert_input_type fmt spec input ≡ passes =
          (assert_input_type_cases fmt spec input).0.1 typed in
        let early : leb (t1 + cc.timeout) t2 ≡ false = ground arith in
        rw (passed, encoded, make_handler)
          (rw (no_dl, clock1, clock2, early, send_in_time)
            (subst
              (λ r.
                send fmt wire loopback cc spec decoder
                  (record ctx { deadline = some (t1 + cc.timeout) }) r w2
                ≡ (out, w'))
              made
              (exchanged cc (record ctx { deadline = some (t1 + cc.timeout) }) input data_ b out
                resp w2 w' pre found packed parsed decoded ran carried answered sent got)))
