-- ===== src/Natsrpc/Tests.antt =====
-- natsrpc: the theorems at concrete inputs.
use nproto.Prelude.{
  Text, codes, ◌≡◌, refl, [], ◌∷◌, true, false, ◌↔◌, Option, none, some, ℕ, ◌+◌, ◌⊎◌, arith,
  if◌then◌else◌, ◌==◌, text_eq, list_beq,
}
use nproto.Go.{err, Value, nil, raw, ok, Error}
use nproto.Md.{new_pb_meta_data}
use nproto.Enc.{Encoder, Decoder, encoded}
use nproto.Names.{matches_name}
use nproto.Rpc.{
  RpcSpec, RpcHandler, output, panicked, raw_spec, new_input, input_type, output_type,
  assert_output_type, method_name, svc_name,
}
use nproto.Natsrpc.{subject_format, err_closed, Request, Response, Wire}
use nproto.Natsrpc.Subject.{subject_parser-subject_format, subject_parser_same_service}
use nproto.Natsrpc.Server.{ServerConn, MethodInfo, MethodMap, find_method, regist_handler, new_sub}
use nproto.Natsrpc.Server.Requests.{
  handle_msg, handled, request_context, run_task, output_response, answer,
}
use nproto.Natsrpc.Server.Registry.{IsValid, regist_handler-IsValid}
use nproto.Natsrpc.Server.Lookup.{registered, entry, regist_handler-registered}
use nproto.Natsrpc.Server.Replies.{handle_msg_silent}
use nproto.Natsrpc.Client.{remaining, ClientConn, make_handler}
use nproto.Natsrpc.EndToEnd.{remote_call, loopback}
use nproto.Samples.{printer, background}

abbrev svc : Text
svc = codes "svc"

abbrev ping : RpcSpec
ping = raw_spec svc (codes "ping")

subject_parser_same_service_example : (svc ≡ svc) × (codes "ping" ≡ codes "ping")
unfolding matches_name
subject_parser_same_service_example =
    subject_parser_same_service (codes "natsrpc") svc svc (codes "ping") (codes "ping") refl refl
      (subject_parser-subject_format (codes "natsrpc") svc (codes "ping"))

abbrev fresh_conn : ServerConn ℕ
fresh_conn = record {
  ctx = background;
  subject_prefix = codes "natsrpc";
  group = codes "def";
  runner_open = true;
  closed = false;
  subs = [];
  method_maps = [];
  active = [];
  next_id = 0;
}

fresh_conn-IsValid : IsValid fresh_conn
fresh_conn-IsValid = record { same_keys = refl; served = refl; fresh = tt; subjects = tt }

abbrev echo : RpcHandler ℕ
echo ctx input w = (output input, w + 1)

abbrev pass_encoder : Encoder
pass_encoder (raw f b) format bytes = encoded f b
pass_encoder v format bytes = encoded format []

abbrev pass_decoder : Decoder
pass_decoder format bytes v = (none, raw format bytes)

regist_handler-IsValid_example :
    (e : Option Error) × (sc' : ServerConn ℕ) × (regist_handler fresh_conn ping
        (some echo)
        pass_decoder
        pass_encoder
        none
        (some err_closed)
      ≡ some (e, sc'))
    × IsValid sc'
regist_handler-IsValid_example =
    regist_handler-IsValid ping (some echo) pass_decoder pass_encoder none (some err_closed)
      fresh_conn fresh_conn-IsValid

abbrev ping_info : MethodInfo ℕ
ping_info = record { spec = ping; handler = echo; decoder = pass_decoder; encoder = pass_encoder }

abbrev ping_map : MethodMap ℕ
ping_map = (codes "ping", ping_info) ∷ []

abbrev serving : ServerConn ℕ
serving = record fresh_conn {
  subs = (svc, new_sub fresh_conn svc) ∷ [];
  method_maps = (svc, ping_map) ∷ [];
  active = new_sub fresh_conn svc ∷ [];
  next_id = 1;
}

regist_handler-registered_example : registered serving svc (codes "ping") ≡ (
    if svc_name ping == svc
    then (if method_name ping == codes "ping"
        then entry ping (some echo) pass_decoder pass_encoder
        else registered fresh_conn svc (codes "ping"))
    else registered fresh_conn svc (codes "ping"))
unfolding regist_handler svc_name method_name list_beq
regist_handler-registered_example =
    regist_handler-registered ping (some echo) pass_decoder pass_encoder svc (codes "ping")
      fresh_conn serving none none fresh_conn-IsValid refl

abbrev request : Request
request = record {
  meta_data = new_pb_meta_data none;
  input_format = codes "json";
  input_bytes = 7 ∷ [];
  timeout = remaining 5 0;
}

abbrev response : Response
response = output_response (encoded (codes "json") (7 ∷ []))

-- A wire on which every message is one byte.
abbrev wire : Wire
wire = record {
  marshal_request = λ r. ok (1 ∷ []);
  unmarshal_request = λ b. ok request;
  marshal_response = λ r. ok (2 ∷ []);
  unmarshal_response = λ b. ok response;
}

handle_msg_silent_example :
    ((w' : ℕ) × (handle_msg printer wire background
          (codes "natsrpc")
          0
          svc
          ping_map
          none
          (subject_format (codes "natsrpc") svc (codes "ping"))
          (1 ∷ [])
          5
        ≡ handled none w'))
    ↔ (((info : MethodInfo ℕ) × (req : Request) × (input : Value) × (find_method ping_map
              (codes "ping")
            ≡ some info)
          × (wire.unmarshal_request (1 ∷ []) ≡ ok req)
          × (info.decoder req.input_format req.input_bytes (new_input info.spec) ≡ (none, input))
          × (((info.handler (request_context background 0 req) input 5).0 ≡ panicked)
              ⊎ ((info.handler (request_context background 0 req) input 5).0 ≡ output nil)))
        ⊎ ((resp : Response) × (e : Error) × ((run_task printer wire background 0 svc
                (codes "ping")
                ping_map
                (1 ∷ [])
                5).0
              ≡ some resp)
            × (wire.marshal_response resp ≡ err e)))
handle_msg_silent_example =
    handle_msg_silent printer wire background (codes "natsrpc") 0 svc (codes "ping") ping_map
      (subject_format (codes "natsrpc") svc (codes "ping")) (1 ∷ []) 5
      (subject_parser-subject_format (codes "natsrpc") svc (codes "ping"))

abbrev client_conn : ClientConn
client_conn = record { subject_prefix = codes "natsrpc"; timeout = 5 }

abbrev still : ℕ → ℕ × ℕ
still w = (0, w)

remote_call_example :
    make_handler printer wire
      (loopback printer wire background (codes "natsrpc") 0 still ping ping_map)
      client_conn
      ping
      pass_encoder
      pass_decoder
      background
      (raw (codes "json") (7 ∷ []))
      41
    ≡ (output (raw (codes "json") (7 ∷ [])), 42)
unfolding find_method method_name svc_name input_type output_type answer assert_output_type
    output_response list_beq
remote_call_example =
    remote_call printer wire background (codes "natsrpc") 0 still ping ping_map ping_info refl
      pass_decoder request client_conn pass_encoder background (raw (codes "json") (7 ∷ []))
      (1 ∷ []) (2 ∷ []) (output (raw (codes "json") (7 ∷ []))) response 0 0 41 41 41 42 refl refl
      refl refl refl refl refl (omega arith) refl refl refl refl refl (refl, refl, refl, refl) refl
      refl refl
