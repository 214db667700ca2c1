-- ===== src/Stubs/Tests.antt =====
-- cmd/protoc-gen-nproto2: the theorems at concrete inputs.
use nproto.Prelude.{
  ◌↔◌, Text, codes, ◌≡◌, refl, [], ◌∷◌, true, false, ◌↔◌, Option, none, some, List, ℕ, ◌+◌, arith,
  list_beq,
}
use nproto.Go.{Value, message, val, raw, nil, type_of, Error, ok}
use nproto.Md.{Context, new_pb_meta_data}
use nproto.Enc.{Encoder, Decoder, encoded, pb_format}
use nproto.Enc.Laws.{pj_decode-KeepsType, Restores, is_message_type}
use nproto.Natsrpc.{Request, Response, Wire}
use nproto.Natsrpc.Client.{ClientConn, Net, remaining, make_handler}
use nproto.Natsrpc.Typed.{WellTyped}
use nproto.Natsrpc.Server.Requests.{output_response}
use nproto.Rpc.{panicked, new_input, output_type}
use nproto.Stubs.Typed.{stubs_WellTyped}
use nproto.Names.{matches_name}
use nproto.Rpc.{RpcSpec, RpcServer, svc_name, method_name}
use nproto.Natsrpc.Server.{MethodInfo, MethodMap, find_method}
use nproto.Rpc
use nproto.Natsrpc.Defaults.{new_pb_json_client}
use nproto.Stubs.Remote.{client_method-stub_handler, client_net, stub_info}
use nproto.Natsrpc.Server.Serving.{Serving, new_server}
use nproto.Natsrpc.Server.Serving.Laws.{methods}
use nproto.Stubs.{
  Method, TypedMethod, Stub, serve, new_method_spec, stub_handler, client_method, to_outcome,
}
use nproto.Stubs.Specs.{method_spec, new_method_spec_lem}
use nproto.Stubs.Serve.{serve-AllOrNothing, AllOrNothing}
use nproto.Enc.{default_pj_decoder, default_pj_encoder, raw_encode}
use nproto.Names.{matches_subject}
use nproto.Msg.{stub_msg, raw_msg, MsgPublisher, MessageWithMd, MsgWire}
use nproto.Stanmsg
use nproto.Stanmsg.{DurConn, idle}
use nproto.Stanmsg.Messages.{Handled, returns, ack_after, publish_async, published, handle_msg}
use nproto.Binlogmsg.{MsgEntry, sync_downstream, entry_context, call_downstream, flush_msg_entry}
use nproto.Stubs.Files.{
  Service, File, rpc_stub, gen_file, gen_rpc_stub_label, Occurs, Contains, gen_file_iff,
}
use nproto.Stubs.Messages.{
  publish_message, table_publisher, message_handler, packed_message,
  message_handler-publish_message,
}
use nproto.Samples.{printer, background, codecs, read_content}

abbrev svc : Text
svc = codes "mail"

abbrev send_method : Method
send_method = record { go_name = codes "Send"; input = 1; output_ = 2 }

abbrev list_method : Method
list_method = record { go_name = codes "List"; input = 3; output_ = 4 }

abbrev add_one : TypedMethod ℕ
add_one ctx c w = (some (ok (c + 1)), w + 1)

abbrev stub_of : Method → Stub ℕ
stub_of m = record { method = m; spec = method_spec svc m; impl = add_one }

abbrev both : List (Stub ℕ)
both = stub_of send_method ∷ stub_of list_method ∷ []

abbrev nats : ℕ → Option Error × Option Error
nats n = (none, none)

abbrev decoder : Decoder
decoder = default_pj_decoder printer codecs

abbrev encoder : Encoder
encoder = default_pj_encoder printer codecs

abbrev fresh : Serving ℕ
fresh = record {
  conn = record {
    ctx = background;
    subject_prefix = codes "natsrpc";
    group = codes "def";
    runner_open = true;
    closed = false;
    subs = [];
    method_maps = [];
    active = [];
    next_id = 0;
  };
  calls = 0;
  crashed = false;
}

serve-AllOrNothing_example :
    (methods nats decoder encoder).Holds (serve (new_server nats decoder encoder) both fresh).1
    × AllOrNothing
        (new_server nats decoder encoder)
        (methods nats decoder encoder)
        both
        fresh
        (serve (new_server nats decoder encoder) both fresh)
unfolding methods svc_name method_name list_beq
serve-AllOrNothing_example =
    serve-AllOrNothing (new_server nats decoder encoder) (methods nats decoder encoder) both fresh
      ((refl, tt), (tt, tt))
      (record { same_keys = refl; served = refl; fresh = tt; subjects = tt }, refl)

abbrev request : Request
request = record {
  meta_data = new_pb_meta_data none;
  input_format = pb_format;
  input_bytes = 7 ∷ [];
  timeout = remaining 5 0;
}

abbrev response : Response
response = output_response (encoded pb_format (8 ∷ []))

abbrev client_conn : ClientConn
client_conn = record { subject_prefix = codes "natsrpc"; timeout = 5 }

abbrev net : Net ℕ
net = record { now = λ w. (0, w); request = λ ctx subject data_ w. (ok (2 ∷ []), w) }

abbrev wire : Wire
wire = record {
  marshal_request = λ r. ok (1 ∷ []);
  unmarshal_request = λ b. ok request;
  marshal_response = λ r. ok (2 ∷ []);
  unmarshal_response = λ b. ok response;
}

abbrev send_spec : RpcSpec
send_spec = method_spec svc send_method

send_spec-made : new_method_spec printer svc send_method ≡ some send_spec
unfolding matches_name
send_spec-made = (new_method_spec_lem printer svc send_method send_spec).1 (refl, refl, refl)

reads-Keeps : (b : Text) (v : Value) → type_of (read_content b v).1 ≡ type_of v
reads-Keeps [] v = refl
reads-Keeps (c ∷ []) nil = refl
reads-Keeps (c ∷ []) (raw f b) = refl
reads-Keeps (c ∷ []) (val t old) = refl
reads-Keeps (c ∷ d ∷ b) v = refl

stubs_WellTyped_example :
    ((impl : TypedMethod ℕ) (f b : Text) (ctx : Context) (w : ℕ)
      → (c : ℕ) × (stub_handler send_method impl ctx (decoder f b (new_input send_spec)).1 w
          ≡ (to_outcome 2 (impl ctx c w).0, (impl ctx c w).1))
        × WellTyped
            (output_type send_spec)
            (stub_handler send_method impl ctx (decoder f b (new_input send_spec)).1 w).0)
    × ((ctx : Context) (c : ℕ) (w : ℕ)
        → ((client_method send_method
              (some (make_handler printer wire net client_conn send_spec encoder decoder))
              ctx
              c
              w).0
            ≡ none)
          ↔ ((make_handler printer wire net client_conn send_spec encoder decoder ctx
                (val (message 1) c)
                w).0
              ≡ panicked))
stubs_WellTyped_example =
    stubs_WellTyped printer wire net client_conn svc send_method send_spec encoder decoder
      send_spec-made (pj_decode-KeepsType printer codecs reads-Keeps reads-Keeps reads-Keeps)

restores : Restores is_message_type codecs.pb_marshal codecs.pb_unmarshal
restores t c c' (d ∷ []) p h = cc
restores t c c' [] p h = absurd (cc)
restores t c c' (d ∷ e ∷ b) p h = absurd (cc)

-- A call that takes Send through client and server.
abbrev send_info : MethodInfo ℕ
send_info = stub_info printer codecs wire svc send_method add_one

abbrev send_map : MethodMap ℕ
send_map = (codes "Send", send_info) ∷ []

abbrev still : ℕ → ℕ × ℕ
still w = (0, w)

client_method-stub_handler_example :
    client_method send_method
      (Rpc.make_handler
        (new_pb_json_client printer codecs wire
          (client_net printer codecs wire svc send_method add_one background
            (codes "natsrpc")
            0
            still
            send_map
            client_conn)
          client_conn)
        send_spec)
      background
      7
      41
    ≡ (some (ok 8), 42)
unfolding find_method output_response list_beq
client_method-stub_handler_example =
    client_method-stub_handler printer codecs wire svc send_method add_one background
      (codes "natsrpc") 0 still send_map client_conn background 7 (7 ∷ []) (1 ∷ []) (ok 8) 0 0 41 41
      41 42 restores refl refl refl refl refl (omega arith) refl (refl, refl) refl
      ((8 ∷ []), (2 ∷ []), refl, (refl, refl))

abbrev note : MessageWithMd
note = packed_message background (7 ∷ [])

abbrev msg_wire : MsgWire
msg_wire = record { marshal_message = λ m. ok (1 ∷ []); unmarshal_message = λ b. ok note }

abbrev conn : DurConn ℕ
conn = record {
  closed = false;
  subs = [];
  sc = some 4;
  phase = idle;
  waiting = 0;
  next_conn = 5;
  opened = 4 ∷ [];
  lost = [];
  closing = none;
  pending = [];
  made = [];
}

abbrev stored_row : MsgEntry
stored_row = record {
  id = 1;
  subject = codes "queue";
  data_ = 1 ∷ [];
  schema = codes "db";
  table = codes "msgs";
  publish_err = none;
}

abbrev count_calls : MsgPublisher ℕ
count_calls ctx spec msg w = (none, w + 1)

abbrev note_content : Context → ℕ → ℕ → Handled × ℕ
note_content ctx c w = (returns none, c)

message_handler-publish_message_example :
    (publish_message (table_publisher printer codecs msg_wire) background (codes "queue") 2 7 []
      ≡ (none, (codes "queue", 1 ∷ []) ∷ []))
    × (flush_msg_entry msg_wire (sync_downstream count_calls) background stored_row 41
        ≡ some (
            call_downstream msg_wire
              (sync_downstream count_calls)
              background
              (raw_msg (codes "queue"))
              (raw pb_format (7 ∷ []))
              41))
    × (publish_async printer msg_wire
          (codes "stanmsg")
          conn
          (raw_encode printer none)
          background
          (raw_msg (codes "queue"))
          (raw pb_format (7 ∷ []))
        ≡ published 4 (Stanmsg.subject_format (codes "stanmsg") (codes "queue")) (1 ∷ []))
    × (handle_msg msg_wire background
          (message_handler 2 note_content)
          (stub_msg (codes "queue") 2)
          (default_pj_decoder printer codecs)
          (1 ∷ [])
          0
        ≡ (true, 7))
unfolding matches_subject entry_context new_pb_meta_data ack_after
message_handler-publish_message_example =
    message_handler-publish_message printer codecs msg_wire (codes "queue") 2 7 background
      background (7 ∷ []) (1 ∷ []) (1 ∷ []) (codes "stanmsg") conn 4 (sync_downstream count_calls)
      stored_row 41 background note_content 0 [] refl refl restores (refl, refl) (refl, refl) refl
      refl refl refl

abbrev mail_service : Service
mail_service = record {
  service_name = codes "Mail";
  service_comment = codes " Mails. @@nprpc@@";
  methods = [];
}

abbrev mail_file : File
mail_file = record {
  package_name = codes "mail";
  generate = true;
  services = mail_service ∷ [];
  messages = record { message_number = 2; message_comment = codes "@@npmsg@@" } ∷ [];
}

gen_file_iff_example : Occurs (rpc_stub mail_service) (gen_file mail_file) ↔ (
    Occurs mail_service mail_file.services
    × Contains mail_service.service_comment gen_rpc_stub_label)
gen_file_iff_example = gen_file_iff mail_file mail_service
