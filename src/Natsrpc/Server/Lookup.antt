-- ===== src/Natsrpc/Server/Lookup.antt =====
-- natsrpc/server.go: what a registration changes of the methods that requests are served from.
use nproto.Prelude.{
  Text, ◌==◌, if◌then◌else◌, lookup, insert, nat_eq, ◌≡◌, inl, inr, ◌∙◌, Option, none, some, [],
  arith, text_eq, list_beq_iff, pair_eq, Bool-cases, Option-cases, lookup-insert, lookup-erase,
}
use nproto.Prelude.{lookup-none_of_keys}
use nproto.Go.{Error}
use nproto.Enc.{Encoder, Decoder}
use nproto.Rpc.{RpcSpec, svc_name, method_name, RpcHandler}
use nproto.Natsrpc.Server.{
  MethodInfo, MethodMap, ServerConn, find_method, regist, regist_method, subscribe_service,
  after_subscribe, regist_handler,
}
use nproto.Natsrpc.Server.Registry.{IsValid}

module _ {W : Type 0} where
  -- What Lookup finds for a service and a method.
  abbrev pub registered : ServerConn W → Text → Text → Option (MethodInfo W)
  registered sc svc method = elim (lookup svc sc.method_maps) [
    | none ↦ none
    | some mm ↦ find_method mm method
  ]

  abbrev pub entry : RpcSpec → Option (RpcHandler W) → Decoder → Encoder → Option (MethodInfo W)
  entry spec none decoder encoder = none
  entry spec (some h) decoder encoder =
      some (record { spec = spec; handler = h; decoder = decoder; encoder = encoder })

  find_method-regist :
      (mm : MethodMap W) (spec : RpcSpec) (handler : Option (RpcHandler W)) (decoder : Decoder)
      (encoder : Encoder) (m : Text)
      → find_method (regist mm spec handler decoder encoder) m
        ≡ (if method_name spec == m then entry spec handler decoder encoder else find_method mm m)
  unfolding find_method regist
  find_method-regist mm spec none decoder encoder m = lookup-erase (method_name spec) m mm
  find_method-regist mm spec (some h) decoder encoder m =
      lookup-insert (method_name spec) m
        (record { spec = spec; handler = h; decoder = decoder; encoder = encoder }) mm

  abbrev updated :
      ServerConn W
      → RpcSpec
      → Option (RpcHandler W)
      → Decoder
      → Encoder
      → Text
      → Text
      → Option (MethodInfo W)
  updated sc spec handler decoder encoder svc m =
      if svc_name spec == svc
      then (if method_name spec == m
          then entry spec handler decoder encoder
          else registered sc svc m)
      else registered sc svc m

  module _ (spec : RpcSpec) (handler : Option (RpcHandler W)) (decoder : Decoder)
      (encoder : Encoder) (svc m : Text) where
    regist_method-registered :
        (sc sc' : ServerConn W)
        → regist_method sc spec handler decoder encoder ≡ some (none, sc')
        → registered sc' svc m ≡ updated sc spec handler decoder encoder svc m
    unfolding regist_method
    regist_method-registered sc sc' h =
        elim (Option-cases (lookup (svc_name spec) sc.method_maps)) [
          | inl e ↦ absurd (let k = rw (e, regist_method) at h in cc)
          | inr (mm, e) ↦
              let k = rw (e, regist_method) at h in
              let maps : sc'.method_maps
                  ≡ insert (svc_name spec) (regist mm spec handler decoder encoder) sc.method_maps =
                cc in
              ground (
                arith,
                maps,
                lookup-insert (svc_name spec) svc (regist mm spec handler decoder encoder)
                    sc.method_maps,
                list_beq_iff (svc_name spec) svc,
                find_method-regist mm spec handler decoder encoder m,
              )
        ]

    subscribe_service-registered :
        (sc : ServerConn W)
        → lookup (svc_name spec) sc.method_maps ≡ none
        → registered (subscribe_service sc (svc_name spec) none none).1 svc m ≡ registered sc svc m
    unfolding subscribe_service find_method lookup
    subscribe_service-registered sc absent = ground (
      arith,
      lookup-insert (svc_name spec) svc [] sc.method_maps,
      list_beq_iff (svc_name spec) svc,
    )

    first_method-registered :
        (sc sc' : ServerConn W) (sub_err flush_err : Option Error)
        → lookup (svc_name spec) sc.method_maps ≡ none
        → after_subscribe
            (subscribe_service sc (svc_name spec) sub_err flush_err)
            spec
            handler
            decoder
            encoder
          ≡ some (none, sc')
        → registered sc' svc m ≡ updated sc spec handler decoder encoder svc m
    unfolding subscribe_service after_subscribe
    first_method-registered sc sc' (some e) flush_err absent h = absurd (cc)
    first_method-registered sc sc' none (some e) absent h = absurd (cc)
    first_method-registered sc sc' none none absent h =
        regist_method-registered (subscribe_service sc (svc_name spec) none none).1 sc' h
        ∙ rw (subscribe_service-registered sc absent)

    -- After a successful registHandler on a well-formed connection a request to the method of the
    -- spec finds the new handler with its decoder and encoder, or nothing if the handler was nil;
    -- every other method of every service finds what it found before.
    pub regist_handler-registered :
        (sc sc' : ServerConn W) (sub_err flush_err : Option Error)
        → IsValid sc
        → regist_handler sc spec handler decoder encoder sub_err flush_err ≡ some (none, sc')
        → registered sc' svc m ≡ (
            if svc_name spec == svc
            then (if method_name spec == m
                then entry spec handler decoder encoder
                else registered sc svc m)
            else registered sc svc m)
    unfolding regist_handler
    regist_handler-registered sc sc' sub_err flush_err v h = elim (Bool-cases sc.closed) [
      | inl c ↦ absurd (let k = rw (c, regist_handler) at h in cc)
      | inr c ↦ elim (Option-cases (lookup (svc_name spec) sc.subs)) [
        | inl absent ↦
            first_method-registered sc sc' sub_err flush_err
              (lookup-none_of_keys (svc_name spec) sc.subs sc.method_maps v.same_keys absent)
              (rw (c, absent, regist_handler) at h)
        | inr (s, there) ↦ regist_method-registered sc sc' (rw (c, there, regist_handler) at h)
      ]
    ]
