-- ===== src/Stanmsg/Messages.antt =====
-- stanmsg/durconn.go: publishAsync, the request of subscribe, and the message handler.
pub mod Laws
use nproto.Prelude.{
  Text, codes, Bool, true, false, if◌then◌else◌, Option, none, some, List, [], ◌∷◌, ◌++◌, ℕ,
}
use nproto.Go.{Value, Error, plain_error, Result, ok, err, Printer}
use nproto.Md.{
  Context, pb, new_pb_meta_data, md_from_outgoing_context, new_incoming_context_with_md,
}
use nproto.Enc.{Encoder, Decoder}
use nproto.Msg.{
  MsgSpec, subject_name, new_msg, MsgAssertion, msg_passes, msg_fails, msg_crashes, assert_msg_type,
  MessageWithMd, MsgWire,
}
use nproto.Stanmsg.{Subscription, DurConn, subject_format, err_closed, err_not_connected}

-- What publishAsync comes to: a panic of AssertMsgType, an error, or a call of sc.PublishAsync on a
-- connection with a subject and data.
pub data Publication : Type 0 where
  crashed : Publication
  rejected : Error → Publication
  published : ℕ → Text → Text → Publication

-- From the marshalled message on: the two fields read under the lock.
unfoldable pub publish_data : Bool → Option ℕ → Text → Text → Publication
publish_data true sc subject data_ = rejected err_closed
publish_data false none subject data_ = rejected err_not_connected
publish_data false (some c) subject data_ = published c subject data_

module _ {W : Type 0} (fmt : Printer) (wire : MsgWire) (prefix : Text) where
  -- publishAsync
  unfoldable pub publish_async : DurConn W → Encoder → Context → MsgSpec → Value → Publication
  unfolding assert_msg_type publish_data subject_format subject_name new_pb_meta_data
      md_from_outgoing_context
  publish_async dc encoder ctx spec msg = elim (assert_msg_type fmt spec msg) [
    | msg_crashes ↦ crashed
    | msg_fails e ↦ rejected e
    | msg_passes ↦
        let r = encoder msg [] [] in
        elim r.error [
          | some e ↦ rejected e
          | none ↦
              elim (wire.marshal_message (record {
                meta_data = new_pb_meta_data (md_from_outgoing_context ctx);
                msg_format = r.format;
                msg_bytes = r.bytes;
              })) [
                | err e ↦ rejected e
                | ok data_ ↦
                    publish_data dc.closed dc.sc (subject_format prefix (subject_name spec)) data_
              ]
        ]
  ]

-- The arguments of sc.QueueSubscribe: the AckWait options of the caller come first.
pub record StanSubscribe : Type 0 where
  pub subject : Text
  pub queue : Text
  pub ack_waits : List ℕ
  pub manual_ack : Bool
  pub durable_name : Text

-- subscribe
unfoldable pub subscribe_args : {W : Type 0} → Text → Subscription W → StanSubscribe
unfolding subject_format subject_name
subscribe_args prefix sub = record {
  subject = subject_format prefix (subject_name sub.spec);
  queue = sub.queue;
  ack_waits = sub.stan_options;
  manual_ack = true;
  durable_name = sub.queue;
}

-- What a message handler returns, or a panic.
pub data Handled : Type 0 where
  returns : Option Error → Handled
  panics : Handled

-- The handler's context.
unfoldable pub message_context : Context → MessageWithMd → Context
unfolding new_incoming_context_with_md
message_context ctx m = elim m.meta_data [
  | [] ↦ ctx
  | _ ↦ new_incoming_context_with_md ctx (some (pb m.meta_data))
]

-- Whether stanMsg.Ack is called after the handler.
unfoldable pub ack_after : Handled → Bool
ack_after (returns none) = true
ack_after (returns (some e)) = false
ack_after panics = false

module _ {W : Type 0} (wire : MsgWire) (ctx : Context)
    (run : Context → Value → W → Handled × W) where
  -- From the decoded message on.
  unfoldable pub run_handler : MessageWithMd → Option Error × Value → W → Bool × W
  unfolding message_context ack_after
  run_handler m (some e, msg) w = (false, w)
  run_handler m (none, msg) w =
      let (result, w') = run (message_context ctx m) msg w in (ack_after result, w')

  -- The task that msgHandler submits, with whether it acknowledges the message. The subscription's handler is `run`, panics included.
  unfoldable pub handle_msg : MsgSpec → Decoder → Text → W → Bool × W
  unfolding run_handler new_msg
  handle_msg spec decoder data_ w = elim (wire.unmarshal_message data_) [
    | err e ↦ (false, w)
    | ok m ↦ run_handler m (decoder m.msg_format m.msg_bytes (new_msg spec)) w
  ]
