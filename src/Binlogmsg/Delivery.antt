-- ===== src/Binlogmsg/Delivery.antt =====
-- binlogmsg/binlogmsg.go: from NewMsgPublisher through a row of a msg table to the downstream.
use nproto.Prelude.{Text, true, none, some, [], ◌≡◌, ◌↔◌, inl, inr, refl}
use nproto.Go.{Value, raw, ok, Result-cases, Printer, type_of}
use nproto.Md.{Context, new_pb_meta_data, md_from_outgoing_context}
use nproto.Enc.{Encoder}
use nproto.Names.{matches_subject}
use nproto.Msg.{
  MsgSpec, raw_msg, subject_name, msg_type, new_raw_data_msg_spec, MessageWithMd, MsgWire,
}
use nproto.Msg.Laws.{assert_msg_type_cases}
use nproto.Binlogmsg.{
  MsgEntry, Downstream, entry_context, call_downstream, flush_msg_entry, inserted, store_msg,
}
use nproto.Binlogmsg.Dump.{flush_panics}

raw_spec_of :
    (subject : Text)
    → matches_subject subject ≡ true
    → new_raw_data_msg_spec subject ≡ ok (raw_msg subject)
unfolding new_raw_data_msg_spec
raw_spec_of subject h = rw (h, new_raw_data_msg_spec) refl

module _ (fmt : Printer) (wire : MsgWire) (encoder : Encoder) (ctx : Context) (spec : MsgSpec)
    (msg : Value) where
  abbrev message : MessageWithMd
  message = record {
    meta_data = new_pb_meta_data ctx.outgoing;
    msg_format = (encoder msg [] []).format;
    msg_bytes = (encoder msg [] []).bytes;
  }

  stored :
      (data_ : Text)
      → type_of msg ≡ some (msg_type spec)
      → (encoder msg [] []).error ≡ none
      → wire.marshal_message message ≡ ok data_
      → store_msg fmt wire encoder ctx spec msg ≡ inserted (subject_name spec) data_
  unfolding store_msg md_from_outgoing_context
  stored data_ t e m = rw ((assert_msg_type_cases fmt spec msg).0.1 t, e, store_msg) (rw m refl)

  -- A message that NewMsgPublisher stores, with a type and an encoding as they should be and a valid
  -- subject, is handed on by the pipe as it is, if the wire format restores it: any row with the stored
  -- subject and data is flushed by one call of the downstream, with the same subject, the raw
  -- data of the encoding, and the meta data of the publisher's context.
  pub flush_msg_entry-store_msg :
      {W : Type 0} (data_ : Text) (downstream : Downstream W) (pipe_ctx : Context)
      (entry : MsgEntry) (w : W)
      → type_of msg ≡ some (msg_type spec)
      → matches_subject (subject_name spec) ≡ true
      → (encoder msg [] []).error ≡ none
      → wire.marshal_message message ≡ ok data_
      → wire.unmarshal_message data_ ≡ ok message
      → entry.subject ≡ subject_name spec
      → entry.data_ ≡ data_
      → (store_msg fmt wire encoder ctx spec msg ≡ inserted (subject_name spec) data_)
        × (flush_msg_entry wire downstream pipe_ctx entry w
            ≡ some (
                call_downstream wire downstream
                  (entry_context pipe_ctx (new_pb_meta_data ctx.outgoing))
                  (raw_msg (subject_name spec))
                  (raw (encoder msg [] []).format (encoder msg [] []).bytes)
                  w))
  unfolding flush_msg_entry
  flush_msg_entry-store_msg data_ downstream pipe_ctx entry w t s e m u same_subject same_data = (
    stored data_ t e m,
    rw (same_subject, same_data)
        (rw (raw_spec_of (subject_name spec) s, flush_msg_entry) (rw u refl)),
  )

-- flushMsgEntry panics, whatever the downstream is, exactly on the entries for which the dumps count
-- with a panic.
pub flush_msg_entry_panics :
    {W : Type 0} (wire : MsgWire) (downstream : Downstream W) (ctx : Context) (entry : MsgEntry)
    (w : W)
    → (flush_msg_entry wire downstream ctx entry w ≡ none) ↔ (flush_panics wire entry ≡ true)
unfolding flush_msg_entry flush_panics
flush_msg_entry_panics wire downstream ctx entry w =
    elim (Result-cases (new_raw_data_msg_spec entry.subject)) [
      | inr (e, s) ↦ rw (s, flush_msg_entry, flush_panics) (λ h. refl, λ h. refl)
      | inl (spec, s) ↦ elim (Result-cases (wire.unmarshal_message entry.data_)) [
        | inr (e, u) ↦ rw (s, flush_msg_entry, flush_panics) (rw u (λ h. refl, λ h. refl))
        | inl (m, u) ↦
            rw (s, flush_msg_entry, flush_panics) (rw u (λ h. absurd (cc), λ h. absurd (cc)))
      ]
    ]
