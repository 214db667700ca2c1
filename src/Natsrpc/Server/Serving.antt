-- ===== src/Natsrpc/Server/Serving.antt =====
-- natsrpc/server.go: NewServer, on the state that its registrations change.
pub mod Laws
use nproto.Prelude.{
  Text, ◌==◌, ◌&&◌, if◌then◌else◌, lookup, Bool, true, false, ◌≡◌, refl, sym, ap, ◌∙◌, ◌⊎◌, inl,
  inr, ℕ, ◌+◌, Option, none, some, [], arith, text_eq, pair_eq, list_beq_iff, list_beq, beq_refl,
  Bool-cases, Option-cases,
}
use nproto.Prelude.{lookup-none_of_keys}
use nproto.Go.{Error}
use nproto.Enc.{Encoder, Decoder}
use nproto.Rpc
use nproto.Rpc.{RpcSpec, svc_name, method_name, RpcHandler, RpcServer, server_func}
use nproto.Rpc.Registry.{key_of, Registry}
use nproto.Natsrpc.{err_closed}
use nproto.Natsrpc.Server.{
  MethodInfo, ServerConn, find_method, regist_method, subscribe_service, after_subscribe,
  regist_handler,
}
use nproto.Natsrpc.Server.Registry.{IsValid, regist_handler-IsValid}
use nproto.Natsrpc.Server.Lookup.{registered, entry, regist_handler-registered}

-- A connection with the number of registrations so far; `crashed` records a panic.
pub record Serving (W : Type 0) : Type 0 where
  pub conn : ServerConn W
  pub calls : ℕ
  pub crashed : Bool

module _ {W : Type 0} where
  unfoldable pub after_regist :
      Serving W → Option (Option Error × ServerConn W) → Option Error × Serving W
  after_regist s none = (none, record s { crashed = true })
  after_regist s (some (e, sc)) = (e, record s { conn = sc; calls = s.calls + 1 })

  -- ServerConn.NewServer; `nats` are the answers of QueueSubscribe and Flush at each registration.
  unfoldable pub new_server :
      (ℕ → Option Error × Option Error) → Decoder → Encoder → RpcServer W (Serving W)
  unfolding after_regist regist_handler
  new_server nats decoder encoder = server_func (λ spec h s.
      after_regist s
        (regist_handler s.conn spec h decoder encoder (nats s.calls).0 (nats s.calls).1))
