-- ===== src/Stanmsg/Messages/Laws.antt =====
-- stanmsg/durconn.go: when a message is published, and when it is acknowledged.
use nproto.Prelude.{
  Text, nat_eq, ℕ, ◌≡◌, ◌↔◌, inl, inr, refl, sym, Bool, true, false, Option, none, some, [],
  text_eq, pair_eq, Option-cases,
}
use nproto.Go.{Value, Error, Result-cases, ok, Printer, type_of}
use nproto.Md.{Context, new_pb_meta_data, md_from_outgoing_context}
use nproto.Enc.{Encoder, Decoder}
use nproto.Msg.{MsgSpec, subject_name, new_msg, msg_type, assert_msg_type, MessageWithMd, MsgWire}
use nproto.Msg.Laws.{assert_msg_type_cases, MsgAssertion-cases}
use nproto.Stanmsg.{DurConn, subject_format}
use nproto.Stanmsg.Messages.{
  published, publish_data, publish_async, Handled, returns, panics, message_context, ack_after,
  run_handler, handle_msg,
}

ack_after_iff : (r : Handled) → (ack_after r ≡ true) ↔ (r ≡ returns none)
unfolding ack_after
ack_after_iff (returns none) = (λ h. refl, λ h. refl)
ack_after_iff (returns (some e)) = (λ h. cc, λ h. cc)
ack_after_iff panics = (λ h. cc, λ h. cc)

module _ {W : Type 0} (wire : MsgWire) (ctx : Context)
    (run : Context → Value → W → Handled × W) where
  run_handler_acks :
      (m : MessageWithMd) (decoded : Option Error × Value) (w : W)
      → ((run_handler wire ctx run m decoded w).0 ≡ true)
        ↔ ((decoded.0 ≡ none) × ((run (message_context ctx m) decoded.1 w).0 ≡ returns none))
  unfolding run_handler
  run_handler_acks m (some e, msg) w = (λ h. absurd (cc), λ h. absurd (cc))
  run_handler_acks m (none, msg) w =
      let both = ack_after_iff (run (message_context ctx m) msg w).0 in
      (λ h. (refl, both.0 h), λ h. both.1 h.1)

  abbrev IsAcked : MsgSpec → Decoder → Text → W → Type 0
  IsAcked spec decoder data_ w =
      (m : MessageWithMd) × (v : Value) × (wire.unmarshal_message data_ ≡ ok m)
      × (decoder m.msg_format m.msg_bytes (new_msg spec) ≡ (none, v))
      × ((run (message_context ctx m) v w).0 ≡ returns none)

  handle_msg_sound :
      (spec : MsgSpec) (decoder : Decoder) (data_ : Text) (w : W)
      → (handle_msg wire ctx run spec decoder data_ w).0 ≡ true
      → IsAcked spec decoder data_ w
  unfolding handle_msg
  handle_msg_sound spec decoder data_ w h = elim (Result-cases (wire.unmarshal_message data_)) [
    | inl (m, u) ↦
        let decoded = decoder m.msg_format m.msg_bytes (new_msg spec) in
        let (d, q) = (run_handler_acks m decoded w).0 (rw (u, handle_msg) at h) in
        (m, decoded.1, u, λ i. (d i, decoded.1), q)
    | inr (e, u) ↦ absurd (let k = rw (u, handle_msg) at h in cc)
  ]

  handle_msg_complete :
      (spec : MsgSpec) (decoder : Decoder) (data_ : Text) (w : W)
      → IsAcked spec decoder data_ w
      → (handle_msg wire ctx run spec decoder data_ w).0 ≡ true
  unfolding handle_msg
  handle_msg_complete spec decoder data_ w (m, v, u, d, q) =
      rw (u, handle_msg) (rw d ((run_handler_acks m (none, v) w).1 (refl, q)))

  -- The task that msgHandler submits acknowledges its message exactly when the message unmarshals,
  -- its content decodes, and the handler returns nil in the context with the message's meta data:
  -- not on an error, and not on a panic.
  pub handle_msg_acks :
      (spec : MsgSpec) (decoder : Decoder) (data_ : Text) (w : W)
      → ((handle_msg wire ctx run spec decoder data_ w).0 ≡ true) ↔ (
          (m : MessageWithMd) × (v : Value) × (wire.unmarshal_message data_ ≡ ok m)
          × (decoder m.msg_format m.msg_bytes (new_msg spec) ≡ (none, v))
          × ((run (message_context ctx m) v w).0 ≡ returns none))
  handle_msg_acks spec decoder data_ w =
      (handle_msg_sound spec decoder data_ w, handle_msg_complete spec decoder data_ w)

publish_data_iff :
    (closed : Bool) (sc : Option ℕ) (subject data_ : Text) (c : ℕ) (subject' data' : Text)
    → (publish_data closed sc subject data_ ≡ published c subject' data')
      ↔ ((closed ≡ false) × (sc ≡ some c) × (subject ≡ subject') × (data_ ≡ data'))
unfolding publish_data
publish_data_iff true sc subject data_ c subject' data' = (λ h. absurd (cc), λ h. absurd (cc))
publish_data_iff false none subject data_ c subject' data' = (λ h. absurd (cc), λ h. absurd (cc))
publish_data_iff false (some d) subject data_ c subject' data' =
    (λ h. (refl, cc, cc, cc), λ (p, q, r, s). cc)

module _ {W : Type 0} (fmt : Printer) (wire : MsgWire) (prefix : Text) (dc : DurConn W)
    (encoder : Encoder) (ctx : Context) (spec : MsgSpec) (msg : Value) where
  abbrev message : MessageWithMd
  message = record {
    meta_data = new_pb_meta_data ctx.outgoing;
    msg_format = (encoder msg [] []).format;
    msg_bytes = (encoder msg [] []).bytes;
  }

  abbrev IsPublished : ℕ → Text → Text → Type 0
  IsPublished c subject data_ =
      (type_of msg ≡ some (msg_type spec))
      × ((encoder msg [] []).error ≡ none)
      × (wire.marshal_message message ≡ ok data_)
      × (dc.closed ≡ false)
      × (dc.sc ≡ some c)
      × (subject_format prefix (subject_name spec) ≡ subject)

  publish_async_complete :
      (c : ℕ) (subject data_ : Text)
      → IsPublished c subject data_
      → publish_async fmt wire prefix dc encoder ctx spec msg ≡ published c subject data_
  unfolding publish_async md_from_outgoing_context
  publish_async_complete c subject data_ (t, e, m, o, s, q) =
      rw ((assert_msg_type_cases fmt spec msg).0.1 t, e, publish_async)
        (rw m ((publish_data_iff dc.closed dc.sc _ data_ c subject data_).1 (o, s, q, refl)))

  publish_async_sound :
      (c : ℕ) (subject data_ : Text)
      → publish_async fmt wire prefix dc encoder ctx spec msg ≡ published c subject data_
      → IsPublished c subject data_
  unfolding publish_async md_from_outgoing_context
  publish_async_sound c subject data_ h = elim (MsgAssertion-cases (assert_msg_type fmt spec msg)) [
    | inl p ↦ elim (Option-cases (encoder msg [] []).error) [
      | inl e ↦ elim (Result-cases (wire.marshal_message message)) [
        | inl (d, m) ↦
            let (o, s, q, same) =
              (publish_data_iff dc.closed dc.sc (subject_format prefix (subject_name spec)) d c
                  subject data_).0
                (rw (p, e, m, publish_async) at h) in
            ((assert_msg_type_cases fmt spec msg).0.0 p, e, rw (sym same) m, o, s, q)
        | inr (f, m) ↦ absurd (let k = rw (p, e, m, publish_async) at h in cc)
      ]
      | inr (f, e) ↦ absurd (let k = rw (p, e, publish_async) at h in cc)
    ]
    | inr (inl p) ↦ absurd (let k = rw (p, publish_async) at h in cc)
    | inr (inr (f, p)) ↦ absurd (let k = rw (p, publish_async) at h in cc)
  ]

  -- publishAsync hands a message to nats-streaming exactly when its type is the spec's, its content
  -- encodes, the message marshals, and the DurConn is not closed and has a connection; it then goes
  -- to that connection under the prefixed subject, with the meta data of the outgoing context.
  pub publish_async_iff :
      (c : ℕ) (subject data_ : Text)
      → (publish_async fmt wire prefix dc encoder ctx spec msg ≡ published c subject data_) ↔ (
          (type_of msg ≡ some (msg_type spec))
          × ((encoder msg [] []).error ≡ none)
          × (wire.marshal_message (record {
            meta_data = new_pb_meta_data ctx.outgoing;
            msg_format = (encoder msg [] []).format;
            msg_bytes = (encoder msg [] []).bytes;
          })
              ≡ ok data_)
          × (dc.closed ≡ false)
          × (dc.sc ≡ some c)
          × (subject_format prefix (subject_name spec) ≡ subject))
  publish_async_iff c subject data_ =
      (publish_async_sound c subject data_, publish_async_complete c subject data_)
