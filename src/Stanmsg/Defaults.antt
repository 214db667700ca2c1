-- ===== src/Stanmsg/Defaults.antt =====
-- stanmsg/pj.go: the publisher with protobuf or json, and DurConn.NewPublisher.
use nproto.Prelude.{Text, if◌then◌else◌, Option}
use nproto.Go.{Value, Error, Printer}
use nproto.Md.{Context}
use nproto.Enc.{Encoder, Codecs, is_message, default_json_encoder, default_pb_encoder}
use nproto.Stanmsg.Options.{AnyOption, subscribe_with}
use nproto.Prelude.Int.{ℤ}
use nproto.Prelude.{List}
use nproto.Enc.{default_pj_decoder}
use nproto.Msg.{MsgSpec, MsgHandler, msg_value, MsgWire}
use nproto.Stanmsg.{DurConn}
use nproto.Stanmsg.Messages.{Publication, publish_async}

module _ {W : Type 0} (fmt : Printer) (wire : MsgWire) (prefix : Text) where
  -- DurConn.NewPublisher
  unfoldable pub new_publisher : DurConn W → Encoder → Context → MsgSpec → Value → Publication
  unfolding publish_async
  new_publisher dc encoder ctx spec msg = publish_async fmt wire prefix dc encoder ctx spec msg

  -- NewPbJsonPublisher
  unfoldable pub new_pb_json_publisher :
      Codecs → DurConn W → Context → MsgSpec → Value → Publication
  unfolding new_publisher msg_value
  new_pb_json_publisher lib dc ctx spec msg =
      let pb_publisher = new_publisher dc (default_pb_encoder fmt lib) in
      let json_publisher = new_publisher dc (default_json_encoder fmt lib) in
      if is_message (msg_value spec) then pb_publisher ctx spec msg else json_publisher ctx spec msg

-- NewPbJsonSubscriber
unfoldable pub new_pb_json_subscriber :
    {W : Type 0}
    → Printer
    → (ℤ → Text)
    → Codecs
    → DurConn W
    → MsgSpec
    → Text
    → MsgHandler W
    → List AnyOption
    → Option Error
    → Option Error × DurConn W
unfolding subscribe_with
new_pb_json_subscriber fmt duration_string lib dc spec queue handler opts sub_err =
    subscribe_with fmt duration_string dc (default_pj_decoder fmt lib) spec queue handler opts
      sub_err
