-- ===== src/Natsrpc/Typed.antt =====
-- natsrpc/client.go: the types of what a client's handler returns.
use nproto.Prelude.{
  Text, if_cases, Bool-cases, not, ◌==◌, ◌≡◌, refl, ◌∙◌, ◌⊎◌, inl, inr, Option-cases, Option, none,
  some, [], text_eq, leb,
}
use nproto.Go.{GoType, Value, type_of, Error, Result, Result-cases, ok, err, Printer}
use nproto.Md.{Context, new_pb_meta_data, md_from_outgoing_context}
use nproto.Enc.Laws.{KeepsType}
use nproto.Enc.{Encoder, Decoder, Encoded}
use nproto.Rpc.{
  RpcSpec, output_type, new_output, Outcome, output, failed, panicked, Assertion, passes, fails,
  crashes, assert_input_type,
}
use nproto.Natsrpc.{
  Request, Response, ResponseType, resp_output, resp_rpc_err, resp_err, resp_other, Wire,
}
use nproto.Natsrpc.Client.{
  ClientConn, Net, read_response, read_reply, send, remaining, ensure_deadline, send_in_time,
  make_handler,
}

-- An output has the type of the spec.
abbrev pub WellTyped : GoType → Outcome → Type 0
WellTyped t (output v) = type_of v ≡ some t
WellTyped t (failed e) = Unit
WellTyped t panicked = Unit

Assertion-cases : (a : Assertion) → (a ≡ passes) ⊎ (a ≡ crashes) ⊎ ((e : Error) × (a ≡ fails e))
Assertion-cases passes = inl refl
Assertion-cases crashes = inr (inl refl)
Assertion-cases (fails e) = inr (inr (e, refl))

module _ (fmt : Printer) (wire : Wire) (spec : RpcSpec) (decoder : Decoder)
    (keeps : KeepsType decoder)
    (new_typed : type_of (new_output spec) ≡ some (output_type spec)) where
  decoded_typed :
      (r : Option Error × Value) (e : Error → Error)
      → type_of r.1 ≡ some (output_type spec)
      → WellTyped (output_type spec) (elim (r.0) [ some f ↦ failed (e f) | none ↦ output r.1 ])
  decoded_typed (some f, v) e h = tt
  decoded_typed (none, v) e h = h

  response_typed :
      (format : Text) (resp : Response) (kind : ResponseType)
      → resp.kind ≡ kind
      → WellTyped (output_type spec) (read_response fmt wire spec decoder format resp)
  unfolding read_response
  response_typed format resp resp_output h =
      rw (h, read_response)
        (if_cases (WellTyped (output_type spec)) (not (resp.output_format == format)) _ _ (λ c. tt)
          (λ c.
            decoded_typed (decoder resp.output_format resp.output_bytes (new_output spec)) _
              (keeps resp.output_format resp.output_bytes (new_output spec) ∙ new_typed)))
  response_typed format resp resp_rpc_err h = rw (h, read_response) tt
  response_typed format resp resp_err h = rw (h, read_response) tt
  response_typed format resp (resp_other n) h = rw (h, read_response) tt

  read_reply_typed :
      (format : Text) (r : Result Text)
      → WellTyped (output_type spec) (read_reply fmt wire spec decoder format r)
  unfolding read_reply
  read_reply_typed format (err e) = tt
  read_reply_typed format (ok b) = elim (Result-cases (wire.unmarshal_response b)) [
    | inl (resp, h) ↦ rw (h, read_reply) (response_typed format resp resp.kind refl)
    | inr (e, h) ↦ rw (h, read_reply) tt
  ]

  module _ {W : Type 0} (net : Net W) (cc : ClientConn) where
    send_typed :
        (ctx : Context) (req : Request) (w : W)
        → WellTyped (output_type spec) (send fmt wire net cc spec decoder ctx req w).0
    unfolding send
    send_typed ctx req w = elim (Result-cases (wire.marshal_request req)) [
      | inl (data_, h) ↦ rw (h, send) (read_reply_typed req.input_format _)
      | inr (e, h) ↦ rw (h, send) tt
    ]

    send_in_time_typed :
        (ctx : Context) (r : Encoded) (w : W)
        → WellTyped (output_type spec) (send_in_time fmt wire net cc spec decoder ctx r w).0
    unfolding send_in_time
    send_in_time_typed ctx r w =
        let d = ensure_deadline fmt wire net cc ctx w in
        elim (Bool-cases (leb d.0 (net.now d.2).0)) [
          | inl c ↦ rw (c, send_in_time) tt
          | inr c ↦
              rw (c, send_in_time)
                (send_typed d.1
                  (record {
                    meta_data = new_pb_meta_data (md_from_outgoing_context ctx);
                    input_format = r.format;
                    input_bytes = r.bytes;
                    timeout = remaining d.0 (net.now d.2).0;
                  })
                  (net.now d.2).1)
        ]

    -- What a natsrpc client's handler returns without an error has the output type of its spec.
    pub make_handler_typed :
        (encoder : Encoder) (ctx : Context) (input : Value) (w : W)
        → WellTyped
            (output_type spec)
            (make_handler fmt wire net cc spec encoder decoder ctx input w).0
    unfolding make_handler
    make_handler_typed encoder ctx input w =
        elim (Assertion-cases (assert_input_type fmt spec input)) [
          | inl h ↦
              rw (h, make_handler)
                (elim (Option-cases (encoder input [] []).error) [
                  | inl e ↦ rw e (send_in_time_typed ctx (encoder input [] []) w)
                  | inr (f, e) ↦ rw e tt
                ])
          | inr (inl h) ↦ rw (h, make_handler) tt
          | inr (inr (e, h)) ↦ rw (h, make_handler) tt
        ]
