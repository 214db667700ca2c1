-- ===== src/Natsrpc/Server/Serving/Laws.antt =====
-- natsrpc/server.go: the RPCServer that NewServer makes keeps what RPCServer promises.
use nproto.Prelude.{
  Text, ◌==◌, ◌&&◌, if◌then◌else◌, lookup, Bool, true, false, ◌≡◌, refl, ap, ◌∙◌, ◌⊎◌, inl, inr, ℕ,
  ◌+◌, Option, none, some, text_eq, pair_eq, beq_refl, Bool-cases, Option-cases,
}
use nproto.Prelude.{lookup-none_of_keys}
use nproto.Go.{Error}
use nproto.Enc.{Encoder, Decoder}
use nproto.Rpc
use nproto.Rpc.{RpcSpec, svc_name, method_name, RpcHandler, RpcServer, server_func}
use nproto.Rpc.Registry.{key_of, Registry}
use nproto.Natsrpc.{err_closed}
use nproto.Natsrpc.Server.{
  MethodInfo, ServerConn, regist_method, subscribe_service, after_subscribe, regist_handler,
}
use nproto.Natsrpc.Server.Registry.{IsValid, regist_handler-IsValid}
use nproto.Natsrpc.Server.Lookup.{registered, entry, regist_handler-registered}
use nproto.Natsrpc.Server.Serving.{Serving, after_regist, new_server}

untouched {ℓ} :
    {A : Type ℓ} (a b : Bool) (x y : A)
    → (a && b) ≡ false
    → (if a then (if b then x else y) else y) ≡ y
untouched true false x y h = refl
untouched false b x y h = refl
untouched true true x y h = absurd (cc)

module _ {W : Type 0} where
  -- What a request for a service and a method reaches, none once the connection is closed.
  abbrev pub handler_in : Option (MethodInfo W) → Option (RpcHandler W)
  handler_in none = none
  handler_in (some info) = some info.handler

  abbrev pub found_in : ServerConn W → Text × Text → Option (RpcHandler W)
  found_in sc k = if sc.closed then none else handler_in (registered sc k.0 k.1)

  handler_in-entry :
      (spec : RpcSpec) (decoder : Decoder) (encoder : Encoder) (h : Option (RpcHandler W))
      → handler_in (entry spec h decoder encoder) ≡ h
  handler_in-entry spec decoder encoder none = refl
  handler_in-entry spec decoder encoder (some g) = refl

  -- A registration that fails leaves the methods and the closing as they were.
  abbrev Same : ServerConn W → ServerConn W → Type 0
  Same sc sc' = (sc'.method_maps ≡ sc.method_maps) × (sc'.closed ≡ sc.closed)

  regist_method_open :
      (sc : ServerConn W) (spec : RpcSpec) (h : Option (RpcHandler W)) (decoder : Decoder)
      (encoder : Encoder) (e : Option Error) (sc' : ServerConn W)
      → regist_method sc spec h decoder encoder ≡ some (e, sc')
      → (e ≡ none) × (sc'.closed ≡ sc.closed)
  unfolding regist_method
  regist_method_open sc spec h decoder encoder e sc' q =
      elim (Option-cases (lookup (svc_name spec) sc.method_maps)) [
        | inl m ↦ absurd (let k = rw (m, regist_method) at q in cc)
        | inr (mm, m) ↦ let k = rw (m, regist_method) at q in (cc, cc)
      ]

  abbrev Outcomes : ServerConn W → Option Error → ServerConn W → Type 0
  Outcomes sc e sc' =
      ((e ≡ none) × (sc.closed ≡ false) × (sc'.closed ≡ false))
      ⊎ ((f : Error) × (e ≡ some f) × Same sc sc')

  module _ (spec : RpcSpec) (h : Option (RpcHandler W)) (decoder : Decoder)
      (encoder : Encoder) where
    first_method-Outcomes :
        (sc : ServerConn W) (sub_err flush_err : Option Error) (e : Option Error)
        (sc' : ServerConn W)
        → sc.closed ≡ false
        → after_subscribe
            (subscribe_service sc (svc_name spec) sub_err flush_err)
            spec
            h
            decoder
            encoder
          ≡ some (e, sc')
        → Outcomes sc e sc'
    unfolding subscribe_service after_subscribe
    first_method-Outcomes sc (some f) flush_err e sc' c q = inr (f, cc, (cc, cc))
    first_method-Outcomes sc none (some f) e sc' c q = inr (f, cc, (cc, cc))
    first_method-Outcomes sc none none e sc' c q =
        let (no_err, opened) =
          regist_method_open (subscribe_service sc (svc_name spec) none none).1 spec h decoder
            encoder e sc' q in
        inl (no_err, c, opened ∙ c)

    regist_handler-Outcomes :
        (sc : ServerConn W) (sub_err flush_err : Option Error) (e : Option Error)
        (sc' : ServerConn W)
        → regist_handler sc spec h decoder encoder sub_err flush_err ≡ some (e, sc')
        → Outcomes sc e sc'
    unfolding regist_handler
    regist_handler-Outcomes sc sub_err flush_err e sc' q = elim (Bool-cases sc.closed) [
      | inl c ↦ let k = rw (c, regist_handler) at q in inr (err_closed, cc, (cc, cc))
      | inr c ↦ elim (Option-cases (lookup (svc_name spec) sc.subs)) [
        | inl absent ↦
            first_method-Outcomes sc sub_err flush_err e sc' c (rw (c, absent, regist_handler) at q)
        | inr (sub, there) ↦
            let (no_err, opened) =
              regist_method_open sc spec h decoder encoder e sc'
                (rw (c, there, regist_handler) at q) in
            inl (no_err, c, opened ∙ c)
      ]
    ]

    -- What is found after a registration, by its answer.
    module _ (sc sc' : ServerConn W) (sub_err flush_err : Option Error) (v : IsValid sc) where
      abbrev Answers : Option Error → Type 0
      Answers e = regist_handler sc spec h decoder encoder sub_err flush_err ≡ some (e, sc')

      pub found_accepted : Answers none → found_in sc' (key_of spec) ≡ h
      found_accepted q = elim (regist_handler-Outcomes sc sub_err flush_err none sc' q) [
        | inl (no_err, c, c') ↦ rw c' (
            rw
              (regist_handler-registered spec h decoder encoder (svc_name spec) (method_name spec)
                sc sc' sub_err flush_err v q)
              (rw (beq_refl (svc_name spec), beq_refl (method_name spec))
                (handler_in-entry spec decoder encoder h)))
        | inr (f, some_err, same) ↦ absurd (cc)
      ]

      pub found_other :
          (e : Option Error) (k : Text × Text)
          → Answers e
          → (key_of spec == k) ≡ false
          → found_in sc' k ≡ found_in sc k
      found_other e k q other = elim (regist_handler-Outcomes sc sub_err flush_err e sc' q) [
        | inl (no_err, c, c') ↦
            rw (c, c')
              (ap handler_in (
                regist_handler-registered spec h decoder encoder k.0 k.1 sc sc' sub_err flush_err v
                  (rw no_err at q)
                ∙ untouched (svc_name spec == k.0) (method_name spec == k.1) _ _ other))
        | inr (f, some_err, same) ↦ rw (same.0, same.1) refl
      ]

      pub found_rejected :
          (f : Error) → Answers (some f) → found_in sc' (key_of spec) ≡ found_in sc (key_of spec)
      found_rejected f q = elim (regist_handler-Outcomes sc sub_err flush_err (some f) sc' q) [
        | inl (no_err, c, c') ↦ absurd (cc)
        | inr (g, some_err, same) ↦ rw (same.0, same.1) refl
      ]

  no_service :
      (sc : ServerConn W) (svc m : Text)
      → lookup svc sc.method_maps ≡ none
      → registered sc svc m ≡ none
  no_service sc svc m h = rw (h, registered) refl

  -- A registration is rejected only where nothing is found for its method.
  rejected_none :
      (spec : RpcSpec) (h : Option (RpcHandler W)) (decoder : Decoder) (encoder : Encoder)
      (sc sc' : ServerConn W) (sub_err flush_err : Option Error) (f : Error)
      → IsValid sc
      → regist_handler sc spec h decoder encoder sub_err flush_err ≡ some (some f, sc')
      → found_in sc (key_of spec) ≡ none
  unfolding regist_handler
  rejected_none spec h decoder encoder sc sc' sub_err flush_err f v q =
      elim (Bool-cases sc.closed) [
        | inl c ↦ rw c refl
        | inr c ↦ elim (Option-cases (lookup (svc_name spec) sc.subs)) [
          | inl absent ↦ rw c (
              ap handler_in (
                no_service sc (svc_name spec) (method_name spec)
                  (lookup-none_of_keys (svc_name spec) sc.subs sc.method_maps v.same_keys absent)))
          | inr (sub, there) ↦ absurd (
              let none_err =
                (regist_method_open sc spec h decoder encoder (some f) sc'
                  (rw (c, there, regist_handler) at q)).0 in
              cc)
        ]
      ]

  pub found_withdrawn :
      (spec : RpcSpec) (decoder : Decoder) (encoder : Encoder) (sc sc' : ServerConn W)
      (sub_err flush_err : Option Error) (v : IsValid sc) (e : Option Error)
      → regist_handler sc spec none decoder encoder sub_err flush_err ≡ some (e, sc')
      → found_in sc' (key_of spec) ≡ none
  found_withdrawn spec decoder encoder sc sc' sub_err flush_err v none q =
      found_accepted spec none decoder encoder sc sc' sub_err flush_err v q
  found_withdrawn spec decoder encoder sc sc' sub_err flush_err v (some f) q =
      found_rejected spec none decoder encoder sc sc' sub_err flush_err v f q
      ∙ rejected_none spec none decoder encoder sc sc' sub_err flush_err f v q

  module _ (nats : ℕ → Option Error × Option Error) (decoder : Decoder) (encoder : Encoder) where
    abbrev pub server : RpcServer W (Serving W)
    server = new_server nats decoder encoder

    abbrev pub Holds : Serving W → Type 0
    Holds s = IsValid s.conn × (s.crashed ≡ false)

    -- A registration is one call of registHandler that does not panic.
    pub served :
        (spec : RpcSpec) (h : Option (RpcHandler W)) (s : Serving W)
        → Holds s
        → (e : Option Error) × (sc : ServerConn W) × (Rpc.regist_handler server spec h s
            ≡ (e, record s { conn = sc; calls = s.calls + 1 }))
          × IsValid sc
          × (regist_handler s.conn spec h decoder encoder (nats s.calls).0 (nats s.calls).1
              ≡ some (e, sc))
    unfolding new_server after_regist Rpc.regist_handler
    served spec h s v =
        let (e, sc, q, v') =
          regist_handler-IsValid spec h decoder encoder (nats s.calls).0 (nats s.calls).1 s.conn
            v.0 in
        (e, sc, rw q refl, v', q)

    -- The methods of the server are a registry of handlers.
    unfoldable pub methods : Registry server
    methods = record {
      Holds = Holds;
      found = λ s k. found_in s.conn k;
      keeps = λ spec h s v. let (e, sc, q, v', p) = served spec h s v in rw q (v', v.1);
      others = λ spec h s k v other.
          let (e, sc, q, v', p) = served spec h s v in
          rw q (
            found_other spec h decoder encoder s.conn sc (nats s.calls).0 (nats s.calls).1 v.0 e k p
              other);
      accepted = λ spec h s v no_err.
          let (e, sc, q, v', p) = served spec h s v in
          rw q (
            found_accepted spec h decoder encoder s.conn sc (nats s.calls).0 (nats s.calls).1 v.0
              (let k = rw q at no_err in rw k at p));
      rejected = λ spec h s f v is_err.
          let (e, sc, q, v', p) = served spec h s v in
          rw q (
            found_rejected spec h decoder encoder s.conn sc (nats s.calls).0 (nats s.calls).1 v.0 f
              (let k = rw q at is_err in rw k at p));
      withdrawn = λ spec s v.
          let (e, sc, q, v', p) = served spec none s v in
          rw q (
            found_withdrawn spec decoder encoder s.conn sc (nats s.calls).0 (nats s.calls).1 v.0 e
              p);
    }
