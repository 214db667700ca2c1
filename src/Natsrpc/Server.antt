-- ===== src/Natsrpc/Server.antt =====
-- natsrpc/server.go: the server's registry of services and methods, with its closing.
pub mod Registry
pub mod Lookup
pub mod Requests
pub mod Replies
pub mod Serving
use nproto.Prelude.{
  Text, codes, Map, Bool, true, false, ◌==◌, if◌then◌else◌, not, Option, none, some, List, [], ◌∷◌,
  ◌++◌, text_eq, ℕ, ltb, leb, nat_beq, ◌+◌, ◌-◌, ◌^◌, lookup, insert, erase,
}
use nproto.Prelude.Int.{ℤ, pos}
use nproto.Go.{Value, Error, rpc_error, plain_error, Result, ok, err, Printer}
use nproto.Md.{Context, PbMetaData, Md, pb, new_incoming_context_with_md}
use nproto.Enc.{Encoder, Decoder, Encoded}
use nproto.Rpc.{
  RpcSpec, svc_name, method_name, new_input, Assertion, passes, fails, crashes, assert_output_type,
  Outcome, output, failed, panicked, RpcHandler, method_not_found, decode_request_error,
  encode_response_error, error_text,
}
use nproto.Natsrpc.{
  subject_format, subject_parser, err_closed, Request, Response, resp_output, resp_rpc_err,
  resp_err, Wire, side_error,
}

-- methodInfo, and methodMap with its lock left out: each of its operations is one locked section.
pub record MethodInfo (W : Type 0) : Type 0 where
  pub spec : RpcSpec
  pub handler : RpcHandler W
  pub decoder : Decoder
  pub encoder : Encoder

abbrev pub MethodMap : Type 0 → Type 0
MethodMap W = Map Text (MethodInfo W)

-- A subscription that QueueSubscribe made: its number, subject and group.
pub record Subscription : Type 0 where
  pub id : ℕ
  pub subject : Text
  pub group : Text

-- ServerConn. `active` is what the NATS server delivers to, of this connection's subscriptions, and
-- `next_id` numbers them; runner_open is false once the runner is closed.
pub record ServerConn (W : Type 0) : Type 0 where
  pub ctx : Context
  pub subject_prefix : Text
  pub group : Text
  pub runner_open : Bool
  pub closed : Bool
  pub subs : Map Text Subscription
  pub method_maps : Map Text (MethodMap W)
  pub active : List Subscription
  pub next_id : ℕ

-- sub.Unsubscribe()
pub unsubscribe : ℕ → List Subscription → List Subscription
unsubscribe n [] = []
unsubscribe n (s ∷ ss) = let rest = unsubscribe n ss in if nat_beq s.id n then rest else s ∷ rest

pub unsubscribe_all : Map Text Subscription → List Subscription → List Subscription
unfolding unsubscribe
unsubscribe_all [] active = active
unsubscribe_all ((k, s) ∷ m) active = unsubscribe_all m (unsubscribe s.id active)

module _ {W : Type 0} where
  -- methodMap.Lookup
  unfoldable pub find_method : MethodMap W → Text → Option (MethodInfo W)
  unfolding lookup
  find_method mm method = lookup method mm

  -- methodMap.Regist; a nil handler deletes the entry.
  unfoldable pub regist :
      MethodMap W → RpcSpec → Option (RpcHandler W) → Decoder → Encoder → MethodMap W
  unfolding insert erase
  regist mm spec none decoder encoder = erase (method_name spec) mm
  regist mm spec (some h) decoder encoder =
      insert (method_name spec)
        (record { spec = spec; handler = h; decoder = decoder; encoder = encoder }) mm

  -- The last statement of registHandler: `none` is the panic on a service without a method map.
  unfoldable pub regist_method :
      ServerConn W
      → RpcSpec
      → Option (RpcHandler W)
      → Decoder
      → Encoder
      → Option (Option Error × ServerConn W)
  unfolding regist lookup insert
  regist_method sc spec handler decoder encoder = elim (lookup (svc_name spec) sc.method_maps) [
    | none ↦ none
    | some mm ↦ some (
      none,
      record sc {
        method_maps =
            insert (svc_name spec) (regist mm spec handler decoder encoder) sc.method_maps;
      },
    )
  ]

  abbrev pub new_sub : ServerConn W → Text → Subscription
  new_sub sc svc = record {
    id = sc.next_id;
    subject = subject_format sc.subject_prefix svc (b'>' ∷ []);
    group = sc.group;
  }

  -- The first method of a service: QueueSubscribe and Flush answer with the two given errors.
  unfoldable pub subscribe_service :
      ServerConn W → Text → Option Error → Option Error → Option Error × ServerConn W
  unfolding insert unsubscribe
  subscribe_service sc svc (some e) flush_err = (some e, sc)
  subscribe_service sc svc none (some e) = (
    some e,
    record sc {
      active = unsubscribe sc.next_id (sc.active ++ new_sub sc svc ∷ []);
      next_id = sc.next_id + 1;
    },
  )
  subscribe_service sc svc none none = (
    none,
    record sc {
      subs = insert svc (new_sub sc svc) sc.subs;
      method_maps = insert svc [] sc.method_maps;
      active = sc.active ++ new_sub sc svc ∷ [];
      next_id = sc.next_id + 1;
    },
  )

  after_subscribe :
      Option Error × ServerConn W
      → RpcSpec
      → Option (RpcHandler W)
      → Decoder
      → Encoder
      → Option (Option Error × ServerConn W)
  unfolding regist_method
  after_subscribe (some e, sc) spec handler decoder encoder = some (some e, sc)
  after_subscribe (none, sc) spec handler decoder encoder =
      regist_method sc spec handler decoder encoder

  -- ServerConn.registHandler
  unfoldable pub regist_handler :
      ServerConn W
      → RpcSpec
      → Option (RpcHandler W)
      → Decoder
      → Encoder
      → Option Error
      → Option Error
      → Option (Option Error × ServerConn W)
  unfolding regist_method subscribe_service after_subscribe lookup
  regist_handler sc spec handler decoder encoder sub_err flush_err =
      if sc.closed then some (some err_closed, sc) else elim (lookup (svc_name spec) sc.subs) [
        | some s ↦ regist_method sc spec handler decoder encoder
        | none ↦
            after_subscribe (subscribe_service sc (svc_name spec) sub_err flush_err) spec handler
              decoder encoder
      ]

  -- ServerConn.Close
  unfoldable pub close : ServerConn W → Option Error × ServerConn W
  unfolding unsubscribe_all
  close sc = if sc.closed then (some err_closed, sc) else (
    none,
    record sc { closed = true; runner_open = false; active = unsubscribe_all sc.subs sc.active },
  )
