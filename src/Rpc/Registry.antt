-- ===== src/Rpc/Registry.antt =====
-- rpc/server.go: what the users of an RPCServer rely on in RegistHandler.
use nproto.Prelude.{Text, ◌==◌, ◌≡◌, false, Option, none, some, text_eq, pair_eq}
use nproto.Go.{Error}
use nproto.Rpc.{RpcSpec, svc_name, method_name, RpcHandler, RpcServer, regist_handler}

-- The service and the method of a spec.
abbrev pub key_of : RpcSpec → Text × Text
key_of spec = (svc_name spec, method_name spec)

-- What a server promises of RegistHandler: `found` is the handler that a request for a service and
-- a method reaches.
pub record Registry {W S : Type 0} (server : RpcServer W S) : Type 1 where
  pub Holds : S → Type 0
  pub found : S → Text × Text → Option (RpcHandler W)
  pub keeps :
      (spec : RpcSpec) (h : Option (RpcHandler W)) (s : S)
      → Holds s
      → Holds (regist_handler server spec h s).1
  pub others :
      (spec : RpcSpec) (h : Option (RpcHandler W)) (s : S) (k : Text × Text)
      → Holds s
      → (key_of spec == k) ≡ false
      → found (regist_handler server spec h s).1 k ≡ found s k
  pub accepted :
      (spec : RpcSpec) (h : Option (RpcHandler W)) (s : S)
      → Holds s
      → (regist_handler server spec h s).0 ≡ none
      → found (regist_handler server spec h s).1 (key_of spec) ≡ h
  pub rejected :
      (spec : RpcSpec) (h : Option (RpcHandler W)) (s : S) (e : Error)
      → Holds s
      → (regist_handler server spec h s).0 ≡ some e
      → found (regist_handler server spec h s).1 (key_of spec) ≡ found s (key_of spec)
  pub withdrawn :
      (spec : RpcSpec) (s : S)
      → Holds s
      → found (regist_handler server spec none s).1 (key_of spec) ≡ none
