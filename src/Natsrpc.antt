-- ===== src/Natsrpc.antt =====
-- natsrpc/utils.go and natsrpc/errors.go, and the messages of pb/natsrpc/natsrpc.proto. The children
-- model natsrpc/server.go, natsrpc/client.go and natsrpc/options.go.
pub mod Subject
pub mod Options
pub mod Server
pub mod Client
pub mod Defaults
pub mod Typed
pub mod EndToEnd
mod Tests
use nproto.Prelude.{
  Text, codes, Bool, true, false, ◌==◌, if◌then◌else◌, Option, none, some, List, [], ◌∷◌, ◌++◌,
  text_eq, ℕ, trim_prefix,
}
use nproto.Prelude.Int.{ℤ}
use nproto.Go.{Error, rpc_error, plain_error, Result}
use nproto.Md.{PbMetaData}

-- subjectFormat
unfoldable pub subject_format : Text → Text → Text → Text
subject_format prefix svc method = prefix ++ b'.' ∷ (svc ++ b'.' ∷ method)

-- subjectParser; `none` stands for false.
unfoldable pub subject_parser : Text → Text → Text → Option Text
unfolding trim_prefix
subject_parser prefix svc subject =
    let method = trim_prefix subject (prefix ++ b'.' ∷ (svc ++ b'.' ∷ [])) in
    if method == subject then none else some method

-- ErrNCMaxReconnect and ErrClosed
abbrev pub err_nc_max_reconnect : Error
err_nc_max_reconnect =
    plain_error (codes "natsrpc.ServerConn nats.Conn should have MaxReconnects < 0")

abbrev pub err_closed : Error
err_closed = plain_error (codes "natsrpc.ServerConn closed")

-- nppbnatsrpc.Request. The timeout is a uint64 in nanoseconds.
pub record Request : Type 0 where
  pub meta_data : PbMetaData
  pub input_format : Text
  pub input_bytes : Text
  pub timeout : ℕ

-- Response_ResponseType; proto3 enums are open, so other numbers can arrive.
pub data ResponseType : Type 0 where
  resp_output : ResponseType
  resp_rpc_err : ResponseType
  resp_err : ResponseType
  resp_other : ℕ → ResponseType

-- nppbnatsrpc.Response. The code is an int32.
pub record Response : Type 0 where
  pub kind : ResponseType
  pub output_format : Text
  pub output_bytes : Text
  pub err_code : ℤ
  pub err_message : Text

-- proto.Marshal and proto.Unmarshal on the two messages.
pub record Wire : Type 0 where
  pub marshal_request : Request → Result Text
  pub unmarshal_request : Text → Result Request
  pub marshal_response : Response → Result Text
  pub unmarshal_response : Text → Result Response

-- errorf of the server and of the client; `side` is server or client.
unfoldable pub side_error : Text → Text → Text → ℤ → Text → Error
side_error side svc method code detail = rpc_error code (
    codes "natsrpc::"
    ++ (side ++ (codes "[" ++ (svc ++ (codes "::" ++ (method ++ (codes "] " ++ detail)))))))
