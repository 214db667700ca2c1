-- ===== src/Rpc.antt =====
-- rpc/common.go, rpc/error.go, rpc/rpcerrorcode_string.go, rpc/client.go and rpc/server.go: the
-- contract between client and server, the predefined error codes, handlers and middlewares.
pub mod Laws
pub mod Codes
pub mod Registry
mod Tests
use Codes.{error_string}
use nproto.Prelude.{
  Text, codes, Bool, true, false, ◌==◌, if◌then◌else◌, not, ◌&&◌, Option, none, some, List, [], ◌∷◌,
  ◌++◌, text_eq, ℕ, leb, take, drop, get_elem?, ◌+◌, ◌-◌,
}
use nproto.Prelude.Int.{ℤ, pos, negsuc, to_int16, ◌+ℤ◌}
use nproto.Go.{
  GoType, raw_data, Value, nil, raw, Error, rpc_error, plain_error, Result, ok, err, ◌>>=◌, Printer,
  type_of, is_ptr, type_beq,
}
use nproto.Md.{Context}
use nproto.Names.{matches_name}
use nproto.Middleware.{wrap_mws}

-- rpcSpec. A constructor function that is not nil is the value that it returns.
pub record TypedSpec : Type 0 where
  pub svc : Text
  pub method : Text
  pub make_input : Value
  pub make_output : Value
  pub input_t : GoType
  pub output_t : GoType
  pub input_v : Value
  pub output_v : Value

-- RPCSpec, by its implementations *rpcSpec and *rawDataRPCSpec.
pub data RpcSpec : Type 0 where
  typed : TypedSpec → RpcSpec
  raw_spec : Text → Text → RpcSpec

abbrev pub raw_data_value : Value
raw_data_value = raw [] []

unfoldable pub svc_name : RpcSpec → Text
svc_name (typed s) = s.svc
svc_name (raw_spec svc method) = svc

unfoldable pub method_name : RpcSpec → Text
method_name (typed s) = s.method
method_name (raw_spec svc method) = method

unfoldable pub new_input : RpcSpec → Value
new_input (typed s) = s.make_input
new_input (raw_spec svc method) = raw_data_value

unfoldable pub new_output : RpcSpec → Value
new_output (typed s) = s.make_output
new_output (raw_spec svc method) = raw_data_value

unfoldable pub input_type : RpcSpec → GoType
input_type (typed s) = s.input_t
input_type (raw_spec svc method) = raw_data

unfoldable pub output_type : RpcSpec → GoType
output_type (typed s) = s.output_t
output_type (raw_spec svc method) = raw_data

-- InputValue and OutputValue
unfoldable pub input_value : RpcSpec → Value
input_value (typed s) = s.input_v
input_value (raw_spec svc method) = raw_data_value

unfoldable pub output_value : RpcSpec → Value
output_value (typed s) = s.output_v
output_value (raw_spec svc method) = raw_data_value

-- What an assertion does: it may panic on the nil interface.
pub data Assertion : Type 0 where
  passes : Assertion
  fails : Error → Assertion
  crashes : Assertion

module _ (fmt : Printer) where
  -- The checks of NewRPCSpec on one constructor function: it is there, its value is not nil and is
  -- a pointer. `what` is NewInput or NewOutput.
  unfoldable pub check_constructor : Text → Option Value → Result (Value × GoType)
  check_constructor what none = err (plain_error (what ++ codes " is empty"))
  check_constructor what (some v) = elim (type_of v) [
    | none ↦ err (plain_error (what ++ codes "() returns nil"))
    | some t ↦
        if is_ptr t
        then ok (v, t)
        else err (
            plain_error
              (what ++ codes "() returns " ++ fmt.type_string t ++ codes " which is not a pointer"))
  ]

  unfoldable pub check_names : Text → Text → Result (Unit {0})
  check_names svc method =
      if not (matches_name svc)
      then err (plain_error (codes "SvcName format invalid"))
      else (if not (matches_name method)
          then err (plain_error (codes "MethodName format invalid"))
          else ok tt)

  -- NewRPCSpec
  unfoldable pub new_rpc_spec : Text → Text → Option Value → Option Value → Result RpcSpec
  unfolding check_names check_constructor
  new_rpc_spec svc method make_in make_out = do
    named ← check_names svc method
    i ← check_constructor (codes "NewInput") make_in
    o ← check_constructor (codes "NewOutput") make_out
    ok (
        typed (record {
          svc = svc;
          method = method;
          make_input = i.0;
          make_output = o.0;
          input_t = i.1;
          output_t = o.1;
          input_v = i.0;
          output_v = o.0;
        }))

  -- NewRawDataRPCSpec
  unfoldable pub new_raw_data_rpc_spec : Text → Text → Result RpcSpec
  unfolding check_names
  new_raw_data_rpc_spec svc method = do named ← check_names svc method; ok (raw_spec svc method)

  -- The String methods.
  pub spec_string : RpcSpec → Text
  spec_string (typed s) =
      codes "RPCSpec("
      ++ s.svc
      ++ codes "::"
      ++ s.method
      ++ codes " "
      ++ fmt.type_string s.input_t
      ++ codes "=>"
      ++ fmt.type_string s.output_t
      ++ codes ")"
  spec_string (raw_spec svc method) =
      codes "RawDataRPCSpec(" ++ svc ++ codes "::" ++ method ++ codes ")"

  -- AssertInputType: String is called on the type of a nil interface, which is nil.
  unfoldable pub assert_input_type : RpcSpec → Value → Assertion
  assert_input_type spec input = elim (type_of input) [
    | none ↦ crashes
    | some t ↦
        if type_beq t (input_type spec)
        then passes
        else fails (
            plain_error
              (spec_string spec ++ codes " got unexpected input type " ++ fmt.type_string t))
  ]

  -- AssertOutputType
  unfoldable pub assert_output_type : RpcSpec → Value → Assertion
  assert_output_type spec output = elim (type_of output) [
    | none ↦ crashes
    | some t ↦
        if type_beq t (output_type spec)
        then passes
        else fails (
            plain_error
              (spec_string spec ++ codes " got unexpected output type " ++ fmt.type_string t))
  ]

-- MustRPCSpec and MustRawDataRPCSpec; `none` is the panic.
unfoldable pub must : Result RpcSpec → Option RpcSpec
must (ok spec) = some spec
must (err e) = none

-- RPCErrorCode, an int16: -32600 - iota.
abbrev pub unknown_error : ℤ
unknown_error = negsuc 32599

abbrev pub svc_not_found : ℤ
svc_not_found = negsuc 32600

abbrev pub method_not_found : ℤ
method_not_found = negsuc 32601

abbrev pub encode_request_error : ℤ
encode_request_error = negsuc 32602

abbrev pub decode_request_error : ℤ
decode_request_error = negsuc 32603

abbrev pub encode_response_error : ℤ
encode_response_error = negsuc 32604

abbrev pub decode_response_error : ℤ
decode_response_error = negsuc 32605

-- What a call of a handler gives: a value with a nil error, an error, or a panic.
pub data Outcome : Type 0 where
  output : Value → Outcome
  failed : Error → Outcome
  panicked : Outcome

-- RPCHandler; W is the state of the world that handlers read and change.
abbrev pub RpcHandler : Type 0 → Type 0
RpcHandler W = Context → Value → W → Outcome × W

-- RPCMiddleware. It may be handed a nil handler, and may return one.
abbrev pub RpcMiddleware : Type 0 → Type 0
RpcMiddleware W = RpcSpec → Option (RpcHandler W) → Option (RpcHandler W)

-- RPCClient, by its implementations RPCClientFunc and *RPCClientWithMWs.
pub data RpcClient (W : Type 0) : Type 0 where
  client_func : (RpcSpec → Option (RpcHandler W)) → RpcClient W
  client_with_mws : RpcClient W → List (RpcMiddleware W) → RpcClient W

-- RPCServer, by its implementations RPCServerFunc and *RPCServerWithMWs. A nil handler deregisters.
-- S is the state that a registration changes.
pub data RpcServer (W S : Type 0) : Type 0 where
  server_func : (RpcSpec → Option (RpcHandler W) → S → Option Error × S) → RpcServer W S
  server_with_mws : RpcServer W S → List (RpcMiddleware W) → RpcServer W S

module _ {W : Type 0} where
  -- MakeHandler
  unfoldable pub make_handler : RpcClient W → RpcSpec → Option (RpcHandler W)
  make_handler (client_func f) spec = f spec
  make_handler (client_with_mws c mws) spec = wrap_mws (λ mw. mw spec) mws (make_handler c spec)

  -- RegistHandler
  unfoldable pub regist_handler :
      {S : Type 0} → RpcServer W S → RpcSpec → Option (RpcHandler W) → S → Option Error × S
  regist_handler (server_func f) spec handler s = f spec handler s
  regist_handler (server_with_mws server mws) spec handler s =
      regist_handler server spec (wrap_mws (λ mw. mw spec) mws handler) s

-- err.Error()
unfoldable pub error_text : Printer → Error → Text
error_text fmt (rpc_error code message) = error_string fmt.format_int code message
error_text fmt (plain_error message) = message
