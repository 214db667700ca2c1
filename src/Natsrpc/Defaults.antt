-- ===== src/Natsrpc/Defaults.antt =====
-- natsrpc/pj.go: the client and the server with protobuf or json, and ClientConn.NewClient.
use nproto.Prelude.{if◌then◌else◌, ◌&&◌, Option, some, ℕ}
use nproto.Go.{Error, Printer}
use nproto.Enc.{
  Encoder, Decoder, Codecs, is_message, default_json_encoder, default_pb_encoder,
  default_pj_encoder, default_pj_decoder,
}
use nproto.Rpc
use nproto.Rpc.{RpcSpec, input_value, output_value, RpcClient, client_func, RpcServer}
use nproto.Natsrpc.{Wire}
use nproto.Natsrpc.Client.{ClientConn, Net, make_handler}
use nproto.Natsrpc.Server.Serving.{Serving, new_server}

module _ {W : Type 0} (fmt : Printer) where
  -- ClientConn.NewClient
  unfoldable pub new_client : Wire → Net W → ClientConn → Encoder → Decoder → RpcClient W
  unfolding make_handler
  new_client wire net cc encoder decoder =
      client_func (λ spec. some (make_handler fmt wire net cc spec encoder decoder))

  -- NewPbJsonClient
  unfoldable pub new_pb_json_client : Codecs → Wire → Net W → ClientConn → RpcClient W
  unfolding new_client Rpc.make_handler input_value output_value
  new_pb_json_client lib wire net cc =
      let pb_client =
        new_client wire net cc (default_pb_encoder fmt lib) (default_pj_decoder fmt lib) in
      let json_client =
        new_client wire net cc (default_json_encoder fmt lib) (default_pj_decoder fmt lib) in
      client_func (λ spec.
        if is_message (input_value spec) && is_message (output_value spec)
        then Rpc.make_handler pb_client spec
        else Rpc.make_handler json_client spec)

  -- NewPbJsonServer
  unfoldable pub new_pb_json_server :
      Codecs → (ℕ → Option Error × Option Error) → RpcServer W (Serving W)
  unfolding new_server
  new_pb_json_server lib nats =
      new_server nats (default_pj_decoder fmt lib) (default_pj_encoder fmt lib)
