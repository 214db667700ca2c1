-- ===== src/Rpc/Tests.antt =====
-- rpc: tests, and the theorems at concrete inputs.
use nproto.Prelude.{codes, ◌≡◌, ◌≢◌, refl, [], ◌∷◌, true, ◌↔◌, Option, none, some, ℕ}
use nproto.Go.{message, pointer, user, GoType, Value, val, ok, Error}
use nproto.Names.{matches_name}
use nproto.Rpc.{
  RpcSpec, new_rpc_spec, server_func, server_with_mws, regist_handler, RpcMiddleware, RpcHandler,
  output,
}
use nproto.Rpc.Laws.{new_rpc_spec_iff, built, MakesPointer, regist_handler-nil}
use nproto.Samples.{printer}

abbrev ping : RpcSpec
ping =
    built (codes "svc") (codes "ping") (val (message 1) 0) (user (message 1)) (val (message 2) 0)
      (user (message 2))

new_rpc_spec_iff_example :
    (new_rpc_spec printer
        (codes "svc")
        (codes "ping")
        (some (val (message 1) 0))
        (some (val (message 2) 0))
      ≡ ok ping)
    ↔ ((i : Value) × (ti : GoType) × (o : Value) × (to : GoType) × (matches_name (codes "svc")
          ≡ true)
        × (matches_name (codes "ping") ≡ true)
        × MakesPointer (some (val (message 1) 0)) i ti
        × MakesPointer (some (val (message 2) 0)) o to
        × (ping ≡ built (codes "svc") (codes "ping") i ti o to))
new_rpc_spec_iff_example =
    new_rpc_spec_iff printer (codes "svc") (codes "ping") (some (val (message 1) 0))
      (some (val (message 2) 0)) ping

new_rpc_spec_runs :
    new_rpc_spec printer
      (codes "svc")
      (codes "ping")
      (some (val (message 1) 0))
      (some (val (message 2) 0))
    ≡ ok ping
unfolding new_rpc_spec matches_name
new_rpc_spec_runs = refl

abbrev echo : RpcHandler ℕ
echo ctx input w = (output input, w)

-- A middleware that wraps every handler, also the nil one.
abbrev tag : ℕ → RpcMiddleware ℕ
tag n spec h = some (λ ctx input w. (output (val (pointer n) 0), w))

abbrev accept : RpcSpec → Option (RpcHandler ℕ) → ℕ → Option Error × ℕ
accept spec h w = (none, w)

tag_wraps : (g : Option (RpcHandler ℕ)) → tag 1 ping g ≢ none
tag_wraps g = cc

regist_handler-nil_example :
    (h : Option (RpcHandler ℕ)) × (h ≢ none)
    × (regist_handler (server_with_mws (server_func accept) (tag 1 ∷ [])) ping none 5
        ≡ accept ping h 5)
regist_handler-nil_example = regist_handler-nil accept (tag 1 ∷ []) ping 5 (tag_wraps, tt) (λ e. cc)
