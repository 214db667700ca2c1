-- ===== src/Msg.antt =====
-- msg/common.go, msg/publisher.go, msg/async_publisher.go and msg/subscriber.go: the contract
-- between publishers and subscribers, and their middlewares.
pub mod Laws
use nproto.Prelude.{
  Text, codes, Bool, true, false, if◌then◌else◌, not, Option, none, some, List, [], ◌∷◌, ◌++◌, ℕ,
}
use nproto.Go.{
  GoType, raw_data, Value, nil, raw, Error, plain_error, Result, ok, err, Printer, type_of, is_ptr,
  type_beq, val, user, message,
}
use nproto.Md.{Context, PbMetaData}
use nproto.Names.{matches_subject}
use nproto.Middleware.{wrap_mws}

-- msgSpec. The constructor function is the value that it returns.
pub record TypedMsgSpec : Type 0 where
  pub subject : Text
  pub make_msg : Value
  pub msg_t : GoType
  pub msg_v : Value

-- MsgSpec, by its implementations: *msgSpec, rawDataMsgSpec, and the string types that
-- protoc-gen-nproto2 generates, with their subject and the number of their message.
pub data MsgSpec : Type 0 where
  typed_msg : TypedMsgSpec → MsgSpec
  raw_msg : Text → MsgSpec
  stub_msg : Text → ℕ → MsgSpec

unfoldable pub subject_name : MsgSpec → Text
subject_name (typed_msg s) = s.subject
subject_name (raw_msg subject) = subject
subject_name (stub_msg subject n) = subject

unfoldable pub new_msg : MsgSpec → Value
new_msg (typed_msg s) = s.make_msg
new_msg (raw_msg subject) = raw [] []
new_msg (stub_msg subject n) = val (message n) 0

unfoldable pub msg_type : MsgSpec → GoType
msg_type (typed_msg s) = s.msg_t
msg_type (raw_msg subject) = raw_data
msg_type (stub_msg subject n) = user (message n)

-- MsgValue
unfoldable pub msg_value : MsgSpec → Value
msg_value (typed_msg s) = s.msg_v
msg_value (raw_msg subject) = raw [] []
msg_value (stub_msg subject n) = val (message n) 0

-- What AssertMsgType does: String is called on the type of a nil interface, which is nil.
pub data MsgAssertion : Type 0 where
  msg_passes : MsgAssertion
  msg_fails : Error → MsgAssertion
  msg_crashes : MsgAssertion

module _ (fmt : Printer) where
  -- NewMsgSpec; `none` is a nil constructor function.
  unfoldable pub new_msg_spec : Text → Option Value → Result MsgSpec
  new_msg_spec subject make =
      if not (matches_subject subject)
      then err (plain_error (codes "SubjectName format invalid"))
      else elim make [
        | none ↦ err (plain_error (codes "NewMsg is empty"))
        | some v ↦ elim (type_of v) [
          | none ↦ err (plain_error (codes "NewMsg() returns nil"))
          | some t ↦
              if is_ptr t
              then ok (typed_msg (record { subject = subject; make_msg = v; msg_t = t; msg_v = v }))
              else err (
                  plain_error (
                    codes "NewMsg() returns "
                    ++ fmt.type_string t
                    ++ codes " which is not a pointer"))
        ]
      ]

  -- How a spec prints with %s: by its String method, or as the string that it is.
  pub msg_spec_string : MsgSpec → Text
  msg_spec_string (typed_msg s) =
      codes "MsgSpec(" ++ s.subject ++ codes " " ++ fmt.type_string s.msg_t ++ codes ")"
  msg_spec_string (raw_msg subject) = codes "RawDataMsgSpec(" ++ subject ++ codes ")"
  msg_spec_string (stub_msg subject n) = subject

  -- AssertMsgType
  unfoldable pub assert_msg_type : MsgSpec → Value → MsgAssertion
  unfolding msg_type
  assert_msg_type spec msg = elim (type_of msg) [
    | none ↦ msg_crashes
    | some t ↦
        if type_beq t (msg_type spec)
        then msg_passes
        else msg_fails (
            plain_error
              (msg_spec_string spec ++ codes " got unexpected msg type " ++ fmt.type_string t))
  ]

-- NewRawDataMsgSpec
unfoldable pub new_raw_data_msg_spec : Text → Result MsgSpec
new_raw_data_msg_spec subject =
    if not (matches_subject subject)
    then err (plain_error (codes "SubjectName format invalid"))
    else ok (raw_msg subject)

-- MsgHandler and MsgMiddleware; W is the state of the world.
abbrev pub MsgHandler : Type 0 → Type 0
MsgHandler W = Context → Value → W → Option Error × W

abbrev pub MsgMiddleware : Type 0 → Type 0
MsgMiddleware W = MsgSpec → Text → MsgHandler W → MsgHandler W

-- MsgSubscriber, by its implementations MsgSubscriberFunc and *MsgSubscriberWithMWs; O are the
-- options, which every layer passes on.
pub data MsgSubscriber (W O : Type 0) : Type 0 where
  subscriber_func :
      (MsgSpec → Text → MsgHandler W → List O → W → Option Error × W) → MsgSubscriber W O
  subscriber_with_mws : MsgSubscriber W O → List (MsgMiddleware W) → MsgSubscriber W O

module _ {W O : Type 0} where
  -- Subscribe
  unfoldable pub subscribe :
      MsgSubscriber W O → MsgSpec → Text → MsgHandler W → List O → W → Option Error × W
  subscribe (subscriber_func f) spec queue handler opts w = f spec queue handler opts w
  subscribe (subscriber_with_mws s mws) spec queue handler opts w =
      subscribe s spec queue (wrap_mws (λ mw. mw spec queue) mws handler) opts w

-- MsgPublisherFunc
abbrev pub MsgPublisher : Type 0 → Type 0
MsgPublisher W = Context → MsgSpec → Value → W → Option Error × W

-- NewMsgPublisherWithMWs
unfoldable pub new_msg_publisher_with_mws :
    {W : Type 0} → MsgPublisher W → List (MsgPublisher W → MsgPublisher W) → MsgPublisher W
new_msg_publisher_with_mws publisher mws = wrap_mws (λ mw. mw) mws publisher

-- What a call of PublishAsync comes to: the error that it returns, and the errors with which the
-- callback is called, then or later.
pub record Async : Type 0 where
  pub returned : Option Error
  pub calls : List (Option Error)

-- MsgAsyncPublisherFunc; the world is left as it is found once the callbacks have run.
abbrev pub MsgAsyncPublisher : Type 0 → Type 0
MsgAsyncPublisher W = Context → MsgSpec → Value → W → Async × W

-- NewMsgAsyncPublisherWithMWs
unfoldable pub new_msg_async_publisher_with_mws :
    {W : Type 0}
    → MsgAsyncPublisher W
    → List (MsgAsyncPublisher W → MsgAsyncPublisher W)
    → MsgAsyncPublisher W
new_msg_async_publisher_with_mws publisher mws = wrap_mws (λ mw. mw) mws publisher

-- What the select of MsgAsyncPublisherFunc.Publish finds first.
pub data FirstEvent : Type 0 where
  ctx_done : Error → FirstEvent
  cb_called : FirstEvent

-- What a call of Publish comes to: it returns, it waits for ever, or there is a second call of the
-- callback, which panics on the closed channel where it is made. An Async does not say when the
-- calls are made, so the last case leaves open whether Publish has returned by then.
pub data Publishing : Type 0 where
  done : Option Error → Publishing
  waits : Publishing
  double_close : Publishing

-- The select, for all the calls of the callback.
pub select_result : FirstEvent → List (Option Error) → Publishing
select_result (ctx_done e) [] = done (some e)
select_result (ctx_done e) (x ∷ []) = done (some e)
select_result (ctx_done e) (x ∷ y ∷ ys) = double_close
select_result cb_called [] = waits
select_result cb_called (x ∷ []) = done x
select_result cb_called (x ∷ y ∷ ys) = double_close

-- An error that fn returned.
pub returned_result : Error → List (Option Error) → Publishing
returned_result e [] = done (some e)
returned_result e (x ∷ []) = done (some e)
returned_result e (x ∷ y ∷ ys) = double_close

-- MsgAsyncPublisherFunc.Publish, for the call of fn that gave `r`.
unfoldable pub publish : Async → FirstEvent → Publishing
unfolding select_result returned_result
publish r first = elim r.returned [
  | some e ↦ returned_result e r.calls
  | none ↦ select_result first r.calls
]

-- nppbmsg.MessageWithMD of pb/msg/msg.proto, and proto.Marshal and proto.Unmarshal on it.
pub record MessageWithMd : Type 0 where
  pub meta_data : PbMetaData
  pub msg_format : Text
  pub msg_bytes : Text

pub record MsgWire : Type 0 where
  pub marshal_message : MessageWithMd → Result Text
  pub unmarshal_message : Text → Result MessageWithMd
