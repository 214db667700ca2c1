-- ===== src/Stubs/Messages.antt =====
-- cmd/protoc-gen-nproto2/gen.go: the code that is generated for a message, and its way from a
-- generated publish function through a msg table, the pipe and nats-streaming to a
-- generated subscribe function.
use nproto.Prelude.{
  Text, ℕ, ◌≡◌, refl, true, false, Option, none, some, List, ◌∷◌, codes, ap, list_beq,
}
use nproto.Go.{Packed, Value, message, raw, val, Error, plain_error, ok, Printer}
use nproto.Md.{Context, new_pb_meta_data}
use nproto.Enc.{Codecs, pb_format, raw_encode, default_pb_encoder, default_pj_decoder}
use nproto.Enc.Laws.{Restores, is_message_type, default_pb_encoder_lem, default_pj_decoder_lem}
use nproto.Names.{matches_subject}
use nproto.Msg.{
  MsgSpec, stub_msg, raw_msg, subject_name, msg_type, new_msg, MsgPublisher, MessageWithMd, MsgWire,
}
use nproto.Stanmsg.{DurConn, subject_format}
use nproto.Stanmsg.Messages.{
  Handled, panics, ack_after, published, publish_async, message_context, run_handler, handle_msg,
}
use nproto.Stanmsg.Messages.Laws.{publish_async_iff}
use nproto.Binlogmsg.{
  MsgEntry, Downstream, entry_context, call_downstream, Storing, crashed, rejected, inserted,
  store_msg, flush_msg_entry,
}
use nproto.Binlogmsg.Delivery.{flush_msg_entry-store_msg}
use nproto.Stubs.{assert_message}
use nproto.Stubs.Specs.{assert_message_of_type}

-- Publish{{ $goName }}
unfoldable pub publish_message :
    {W : Type 0} → MsgPublisher W → Context → Text → ℕ → ℕ → W → Option Error × W
publish_message publisher ctx subject n c w =
    publisher ctx (stub_msg subject n) (val (message n) c) w

module _ {W : Type 0} where
  -- From the asserted message on.
  unfoldable pub call_typed : (Context → ℕ → W → Handled × W) → Context → Option ℕ → W → Handled × W
  call_typed handler ctx none w = (panics, w)
  call_typed handler ctx (some c) w = handler ctx c w

  -- The function literal of Subscribe{{ $goName }}.
  unfoldable pub message_handler :
      ℕ → (Context → ℕ → W → Handled × W) → Context → Value → W → Handled × W
  unfolding call_typed assert_message
  message_handler n handler ctx msg w = call_typed handler ctx (assert_message n msg) w

  -- Subscribe{{ $goName }}; O are the options.
  unfoldable pub subscribe_message :
      {S O : Type 0}
      → (MsgSpec → Text → (Context → Value → W → Handled × W) → List O → S → Option Error × S)
      → Text
      → ℕ
      → Text
      → (Context → ℕ → W → Handled × W)
      → List O
      → S
      → Option Error × S
  unfolding message_handler
  subscribe_message subscriber subject n queue handler opts s =
      subscriber (stub_msg subject n) queue (message_handler n handler) opts s

-- A row that NewMsgPublisher's function adds to a msg table, by its subject and data.
abbrev pub add_row : Storing → List (Text × Text) → Option Error × List (Text × Text)
add_row crashed rows = (some (plain_error (codes "panic")), rows)
add_row (rejected e) rows = (some e, rows)
add_row (inserted subject data_) rows = (none, (subject, data_) ∷ rows)

-- NewMsgPublisher's function with the default protobuf encoder, on a table that takes every row.
abbrev pub table_publisher : Printer → Codecs → MsgWire → MsgPublisher (List (Text × Text))
table_publisher fmt lib wire ctx spec msg rows =
    add_row (store_msg fmt wire (default_pb_encoder fmt lib) ctx spec msg) rows

-- The message with its content encoded by protobuf, in the outgoing context.
abbrev pub packed_message : Context → Text → MessageWithMd
packed_message ctx bytes = record {
  meta_data = new_pb_meta_data ctx.outgoing;
  msg_format = pb_format;
  msg_bytes = bytes;
}

module _ (fmt : Printer) (lib : Codecs) (wire : MsgWire) (subject : Text) (n c : ℕ)
    (ctx pipe_ctx : Context) (bytes stored_data sent_data : Text) where
  -- The context that the pipe publishes in.
  abbrev pub middle : Context
  middle = entry_context pipe_ctx (new_pb_meta_data ctx.outgoing)

  handled :
      {W : Type 0} (sub_ctx : Context) (handler : Context → ℕ → W → Handled × W) (w : W)
      → Restores is_message_type lib.pb_marshal lib.pb_unmarshal
      → lib.pb_marshal (val (message n) c) ≡ ok bytes
      → wire.unmarshal_message sent_data ≡ ok (packed_message middle bytes)
      → handle_msg wire sub_ctx
          (message_handler n handler)
          (stub_msg subject n)
          (default_pj_decoder fmt lib)
          sent_data
          w
        ≡ (
          ack_after (handler (message_context sub_ctx (packed_message middle bytes)) c w).0,
          (handler (message_context sub_ctx (packed_message middle bytes)) c w).1,
        )
  unfolding handle_msg run_handler message_handler call_typed new_msg
  handled sub_ctx handler w restores packed got =
      let (d, e, a) = assert_message_of_type n (val (message n) c) refl in
      let same : d ≡ c = cc in
      rw (got, handle_msg)
        (rw (default_pj_decoder_lem fmt lib n c bytes packed 0 restores) (rw a (rw same refl)))

  -- A message goes from a generated publish function to a generated handler as it is: publishing
  -- it succeeds and adds one row with its subject and the packed message; a row with what was stored is handed on as raw data under the same
  -- subject; a DurConn that is connected sends that with the raw encoder; and the message handler of
  -- a generated subscription calls its handler once, with the same content and the meta data of
  -- the pipe's context, and acknowledges if that returns nil. The subject has its format; the
  -- content and both messages can be marshalled, and package proto restores them.
  pub message_handler-publish_message :
      {V W X : Type 0} (prefix : Text) (dc : DurConn V) (conn : ℕ) (downstream : Downstream W)
      (entry : MsgEntry) (w : W) (sub_ctx : Context) (handler : Context → ℕ → X → Handled × X)
      (x : X) (rows : List (Text × Text))
      → matches_subject subject ≡ true
      → lib.pb_marshal (val (message n) c) ≡ ok bytes
      → Restores is_message_type lib.pb_marshal lib.pb_unmarshal
      → Packed wire.marshal_message wire.unmarshal_message (packed_message ctx bytes) stored_data
      → Packed wire.marshal_message wire.unmarshal_message (packed_message middle bytes) sent_data
      → entry.subject ≡ subject
      → entry.data_ ≡ stored_data
      → dc.closed ≡ false
      → dc.sc ≡ some conn
      → (publish_message (table_publisher fmt lib wire) ctx subject n c rows
          ≡ (none, (subject, stored_data) ∷ rows))
        × (flush_msg_entry wire downstream pipe_ctx entry w
            ≡ some
                (call_downstream wire downstream middle (raw_msg subject) (raw pb_format bytes) w))
        × (publish_async fmt wire prefix dc
              (raw_encode fmt none)
              middle
              (raw_msg subject)
              (raw pb_format bytes)
            ≡ published conn (subject_format prefix subject) sent_data)
        × (handle_msg wire sub_ctx
              (message_handler n handler)
              (stub_msg subject n)
              (default_pj_decoder fmt lib)
              sent_data
              x
            ≡ (
              ack_after (handler (message_context sub_ctx (packed_message middle bytes)) c x).0,
              (handler (message_context sub_ctx (packed_message middle bytes)) c x).1,
            ))
  unfolding publish_message subject_name msg_type raw_encode list_beq
  message_handler-publish_message prefix dc conn downstream entry w sub_ctx handler x rows valid
        packed restores stored sent same_subject same_data opened connected =
      let e = default_pb_encoder_lem fmt lib n c bytes packed in
      let (put, handed) =
        flush_msg_entry-store_msg fmt wire (default_pb_encoder fmt lib) ctx (stub_msg subject n)
          (val (message n) c) stored_data downstream pipe_ctx entry w refl valid (rw e refl)
          (rw e stored.0) (rw e stored.1) same_subject same_data in
      (
        ap (λ r. add_row r rows) put,
        rw e at handed,
        (publish_async_iff fmt wire prefix dc (raw_encode fmt none) middle (raw_msg subject)
              (raw pb_format bytes) conn (subject_format prefix subject) sent_data).1
            (refl, refl, sent.0, opened, connected, refl),
        handled sub_ctx handler x restores packed sent.1,
      )
