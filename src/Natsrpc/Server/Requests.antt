-- ===== src/Natsrpc/Server/Requests.antt =====
-- natsrpc/server.go: msgHandler, from a message to the reply.
use nproto.Prelude.{
  Text, codes, if◌then◌else◌, Option, none, some, [], ◌++◌, text_eq, ℕ, ltb, leb, ◌+◌, ◌-◌,
}
use nproto.Prelude.Int.{ℤ, pos}
use nproto.Go.{Value, Error, rpc_error, plain_error, ok, err, Printer}
use nproto.Md.{Context, pb, new_incoming_context_with_md}
use nproto.Enc.{Encoded}
use nproto.Rpc.{
  new_input, passes, fails, crashes, assert_output_type, Outcome, output, failed, panicked,
  method_not_found, decode_request_error, encode_response_error, error_text,
}
use nproto.Natsrpc.{
  subject_parser, Request, Response, resp_output, resp_rpc_err, resp_err, Wire, side_error,
}
use nproto.Natsrpc.Server.{MethodInfo, MethodMap, find_method}

-- replyError: the response for an error.
unfoldable pub error_response : Error → Response
error_response (rpc_error code message) = record {
  kind = resp_rpc_err;
  output_format = [];
  output_bytes = [];
  err_code = code;
  err_message = message;
}
error_response (plain_error message) = record {
  kind = resp_err;
  output_format = [];
  output_bytes = [];
  err_code = pos 0;
  err_message = message;
}

unfoldable pub output_response : Encoded → Response
output_response r = record {
  kind = resp_output;
  output_format = r.format;
  output_bytes = r.bytes;
  err_code = pos 0;
  err_message = [];
}

abbrev pub int64_max : ℕ
int64_max = 9223372036854775807

-- context.WithTimeout(ctx, time.Duration(t)) at time `now`, for a uint64 t: an int64 that reads as
-- negative from 2 ^ 63 on. The earlier of two deadlines holds. Times are nanoseconds from an epoch
-- long past, so that no deadline falls before it.
unfoldable pub duration_deadline : ℕ → ℕ → ℕ
duration_deadline now t = if leb t int64_max then now + t else now + t - 18446744073709551616

unfoldable pub with_deadline : Context → ℕ → Context
with_deadline ctx d = elim ctx.deadline [
  | none ↦ record ctx { deadline = some d }
  | some e ↦ if ltb e d then ctx else record ctx { deadline = some d }
]

-- The context that the handler gets.
unfoldable pub request_context : Context → ℕ → Request → Context
unfolding duration_deadline with_deadline new_incoming_context_with_md
request_context ctx now req =
    let with_md : Context = elim req.meta_data [
      | [] ↦ ctx
      | _ ↦ new_incoming_context_with_md ctx (some (pb req.meta_data))
    ] in
    if ltb 0 req.timeout then with_deadline with_md (duration_deadline now req.timeout) else with_md

-- errorf of msgHandler
server_error : Text → Text → ℤ → Text → Error
unfolding side_error
server_error svc method code detail = side_error (codes "server") svc method code detail

-- reply: the bytes published to msg.Reply; errors of Marshal and Publish are only logged.
unfoldable pub reply : Wire → Option Response → Option Text
reply wire none = none
reply wire (some r) = elim (wire.marshal_response r) [ ok b ↦ some b | err e ↦ none ]

-- What msgHandler does with a message: it panics on a subject of another service; else it may
-- publish one reply. `submit_err` is the answer of runner.Submit.
pub data Handling (W : Type 0) : Type 0 where
  unexpected_subject : Handling W
  handled : Option Text → W → Handling W

module _ {W : Type 0} (fmt : Printer) (wire : Wire) where
  -- After the handler: the response, or `none` where the deferred recover ends the task without one.
  unfoldable pub answer : Text → Text → MethodInfo W → Request → Outcome → Option Response
  unfolding server_error error_response output_response assert_output_type error_text
  answer svc method info req panicked = none
  answer svc method info req (failed e) = some (error_response e)
  answer svc method info req (output v) = elim (assert_output_type fmt info.spec v) [
    | crashes ↦ none
    | fails e ↦ some (
        error_response (
          server_error svc method encode_response_error
            (codes "assert output error " ++ error_text fmt e)))
    | passes ↦
        let r = info.encoder v req.input_format [] in
        elim r.error [
          | some e ↦ some (
              error_response (
                server_error svc method encode_response_error
                  (codes "encode output error " ++ error_text fmt e)))
          | none ↦ some (output_response r)
        ]
  ]

  -- From the decoded input on.
  unfoldable pub call_handler :
      Context
      → ℕ
      → Text
      → Text
      → MethodInfo W
      → Request
      → Option Error × Value
      → W
      → Option Response × W
  unfolding server_error error_response answer request_context error_text
  call_handler ctx now svc method info req (some e, input) w = (
    some (
        error_response (
          server_error svc method decode_request_error
            (codes "decode input error " ++ error_text fmt e))),
    w,
  )
  call_handler ctx now svc method info req (none, input) w =
      let (result, w') = info.handler (request_context ctx now req) input w in
      (answer svc method info req result, w')

  -- The task that msgHandler submits.
  unfoldable pub run_task : Context → ℕ → Text → Text → MethodMap W → Text → W → Option Response × W
  unfolding server_error error_response find_method call_handler error_text
  run_task ctx now svc method mm data_ w = elim (find_method mm method) [
    | none ↦ (
      some (error_response (server_error svc method method_not_found (codes "method not found"))),
      w,
    )
    | some info ↦ elim (wire.unmarshal_request data_) [
      | err e ↦ (
        some (
            error_response (
              server_error svc method decode_request_error
                (codes "unmarshal reqeust error " ++ error_text fmt e))),
        w,
      )
      | ok req ↦
          call_handler ctx now svc method info req
            (info.decoder req.input_format req.input_bytes (new_input info.spec)) w
    ]
  ]

  unfoldable pub handle_msg :
      Context → Text → ℕ → Text → MethodMap W → Option Error → Text → Text → W → Handling W
  unfolding subject_parser reply run_task error_response error_text
  handle_msg ctx prefix now svc mm submit_err subject data_ w =
      elim (subject_parser prefix svc subject) [
        | none ↦ unexpected_subject
        | some method ↦ elim submit_err [
          | some e ↦
              handled
                (reply wire (
                  some (
                    error_response (
                      plain_error
                        (codes "natsrpc.Server submit task error: " ++ error_text fmt e)))))
                w
          | none ↦ let (r, w') = run_task ctx now svc method mm data_ w in handled (reply wire r) w'
        ]
      ]
