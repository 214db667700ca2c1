-- ===== src/Binlogmsg.antt =====
-- binlogmsg/entry.go and binlogmsg/binlogmsg.go: the rows of msg tables, the publisher that stores
-- messages in them, and flushMsgEntry, which hands one row to the downstream.
pub mod Pipe
pub mod Tables
pub mod Dump
pub mod Settled
pub mod Delivery
pub mod Options
mod Tests
use nproto.Prelude.{Text, Bool, true, false, Option, none, some, List, [], ◌∷◌, ◌++◌, ℕ}
use nproto.Go.{Value, raw, Error, Result, ok, err, Printer}
use nproto.Md.{
  Context, PbMetaData, pb, new_pb_meta_data, md_from_outgoing_context, new_outgoing_context_with_md,
}
use nproto.Enc.{Encoder}
use nproto.Msg.{
  MsgSpec, subject_name, new_raw_data_msg_spec, MsgAssertion, msg_passes, msg_fails, msg_crashes,
  assert_msg_type, MsgPublisher, MsgAsyncPublisher, Async, MessageWithMd, MsgWire,
}

-- What SetPublishErr stores: the placeholder noErr for nil, or the error.
pub data PublishErr : Type 0 where
  no_err : PublishErr
  an_err : Error → PublishErr

-- msgEntry, with the fields that the pipe reads; `publish_err` is absent before SetPublishErr.
pub record MsgEntry : Type 0 where
  pub id : ℕ
  pub subject : Text
  pub data_ : Text
  pub schema : Text
  pub table : Text
  pub publish_err : Option PublishErr

-- SetPublishErr
unfoldable pub set_publish_err : Option Error → MsgEntry → MsgEntry
set_publish_err none entry = record entry { publish_err = some no_err }
set_publish_err (some e) entry = record entry { publish_err = some (an_err e) }

-- GetPublishErr; `none` is the panic of its type assertion on an absent field.
unfoldable pub get_publish_err : MsgEntry → Option (Option Error)
get_publish_err entry = elim entry.publish_err [
  | none ↦ none
  | some no_err ↦ some none
  | some (an_err e) ↦ some (some e)
]

-- MsgPipe's downstream, which NewMsgPipe has checked to be one of the two.
pub data Downstream (W : Type 0) : Type 0 where
  async_downstream : MsgAsyncPublisher W → Downstream W
  sync_downstream : MsgPublisher W → Downstream W

-- The context for a message.
unfoldable pub entry_context : Context → PbMetaData → Context
unfolding new_outgoing_context_with_md
entry_context ctx [] = ctx
entry_context ctx (kv ∷ kvs) = new_outgoing_context_with_md ctx (some (pb (kv ∷ kvs)))

-- The errors with which cb is called: an error that PublishAsync returns comes as one more.
unfoldable pub with_returned : Async → List (Option Error)
with_returned r = elim r.returned [ none ↦ r.calls | some e ↦ r.calls ++ some e ∷ [] ]

module _ {W : Type 0} (wire : MsgWire) where
  -- The switch on the downstream.
  unfoldable pub call_downstream :
      Downstream W → Context → MsgSpec → Value → W → List (Option Error) × W
  unfolding with_returned
  call_downstream (async_downstream publisher) ctx spec msg w =
      let (r, w') = publisher ctx spec msg w in (with_returned r, w')
  call_downstream (sync_downstream publisher) ctx spec msg w =
      let (e, w') = publisher ctx spec msg w in (e ∷ [], w')

  -- flushMsgEntry: the errors with which cb is called, or `none` for a panic, which an invalid subject
  -- or data that does not unmarshal causes.
  unfoldable pub flush_msg_entry :
      Downstream W → Context → MsgEntry → W → Option (List (Option Error) × W)
  unfolding call_downstream new_raw_data_msg_spec entry_context
  flush_msg_entry downstream ctx entry w = elim (new_raw_data_msg_spec entry.subject) [
    | err e ↦ none
    | ok spec ↦ elim (wire.unmarshal_message entry.data_) [
      | err e ↦ none
      | ok m ↦ some (
          call_downstream downstream (entry_context ctx m.meta_data) spec
            (raw m.msg_format m.msg_bytes) w)
    ]
  ]

-- What NewMsgPublisher's function comes to: a panic of AssertMsgType, an error, or addMsg with a
-- subject and data.
pub data Storing : Type 0 where
  crashed : Storing
  rejected : Error → Storing
  inserted : Text → Text → Storing

-- NewMsgPublisher
unfoldable pub store_msg : Printer → MsgWire → Encoder → Context → MsgSpec → Value → Storing
unfolding assert_msg_type subject_name new_pb_meta_data md_from_outgoing_context
store_msg fmt wire encoder ctx spec msg = elim (assert_msg_type fmt spec msg) [
  | msg_crashes ↦ crashed
  | msg_fails e ↦ rejected e
  | msg_passes ↦
      let r = encoder msg [] [] in
      elim r.error [
        | some e ↦ rejected e
        | none ↦
            elim (wire.marshal_message (record {
              meta_data = new_pb_meta_data (md_from_outgoing_context ctx);
              msg_format = r.format;
              msg_bytes = r.bytes;
            })) [ err e ↦ rejected e | ok data_ ↦ inserted (subject_name spec) data_ ]
      ]
]
