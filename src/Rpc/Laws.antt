-- ===== src/Rpc/Laws.antt =====
-- rpc/common.go: which specs are built, what the assertions answer, and how middlewares nest.
use nproto.Prelude.{
  Text, codes, nat_eq, ◌≡◌, ◌≢◌, ◌↔◌, refl, true, Option, none, some, List, [], ◌∷◌, ◌++◌, arith,
  text_eq, pair_eq, All,
}
use nproto.Go.{
  GoType, user, raw_data, Value, nil, raw, val, Error, Result, ok, err, ◌>>=◌, Printer, type_of,
  is_ptr, type_beq_iff,
}
use nproto.Names.{matches_name}
use nproto.Middleware.{wrap_mws, wrap_mws-nest, nest, nest-append}
use nproto.Rpc.{
  RpcSpec, typed, input_type, output_type, passes, crashes, check_constructor, check_names,
  new_rpc_spec, assert_input_type, assert_output_type, RpcHandler, RpcMiddleware, RpcClient,
  client_with_mws, server_func, server_with_mws, make_handler, regist_handler,
}

-- A constructor function that is there and returns a pointer of this type.
abbrev pub MakesPointer : Option Value → Value → GoType → Type 0
MakesPointer make v t = (make ≡ some v) × (type_of v ≡ some t) × (is_ptr t ≡ true)

check_constructor_ok :
    (fmt : Printer) (what : Text) (make : Option Value) (v : Value) (t : GoType)
    → check_constructor fmt what make ≡ ok (v, t)
    → MakesPointer make v t
unfolding check_constructor
check_constructor_ok fmt what none v t h = absurd (cc)
check_constructor_ok fmt what (some u) v t h = ground arith

check_constructor_made :
    (fmt : Printer) (what : Text) (make : Option Value) (v : Value) (t : GoType)
    → MakesPointer make v t
    → check_constructor fmt what make ≡ ok (v, t)
unfolding check_constructor
check_constructor_made fmt what make v t (h, e, p) = rw h (rw (e, p, check_constructor))

check_names_iff :
    (fmt : Printer) (s m : Text)
    → (check_names fmt s m ≡ ok tt) ↔ ((matches_name s ≡ true) × (matches_name m ≡ true))
unfolding check_names
check_names_iff fmt s m = ground arith

pub bind_ok {ℓ κ} :
    {A : Type ℓ} {B : Type κ} (r : Result A) (f : A → Result B) (b : B)
    → (r >>= f) ≡ ok b
    → (a : A) × (r ≡ ok a) × (f a ≡ ok b)
bind_ok (ok a) f b h = (a, refl, h)
bind_ok (err e) f b h = absurd (cc)

-- The spec that NewRPCSpec builds.
abbrev pub built : Text → Text → Value → GoType → Value → GoType → RpcSpec
built s m i ti o to = typed (record {
  svc = s;
  method = m;
  make_input = i;
  make_output = o;
  input_t = ti;
  output_t = to;
  input_v = i;
  output_v = o;
})

abbrev IsBuilt : Text → Text → Option Value → Option Value → RpcSpec → Type 0
IsBuilt s m make_in make_out spec =
    (i : Value) × (ti : GoType) × (o : Value) × (to : GoType) × (matches_name s ≡ true)
    × (matches_name m ≡ true)
    × MakesPointer make_in i ti
    × MakesPointer make_out o to
    × (spec ≡ built s m i ti o to)

new_rpc_spec_sound :
    (fmt : Printer) (s m : Text) (make_in make_out : Option Value) (spec : RpcSpec)
    → new_rpc_spec fmt s m make_in make_out ≡ ok spec
    → IsBuilt s m make_in make_out spec
unfolding new_rpc_spec
new_rpc_spec_sound fmt s m make_in make_out spec h =
    let (tt', hn, h1) = bind_ok (check_names fmt s m) _ spec h in
    let (i, hi, h2) = bind_ok (check_constructor fmt (codes "NewInput") make_in) _ spec h1 in
    let (o, ho, h3) = bind_ok (check_constructor fmt (codes "NewOutput") make_out) _ spec h2 in
    let names = (check_names_iff fmt s m).0 hn in
    (
      i.0,
      i.1,
      o.0,
      o.1,
      names.0,
      names.1,
      check_constructor_ok fmt (codes "NewInput") make_in i.0 i.1 hi,
      check_constructor_ok fmt (codes "NewOutput") make_out o.0 o.1 ho,
      cc,
    )

new_rpc_spec_complete :
    (fmt : Printer) (s m : Text) (make_in make_out : Option Value) (spec : RpcSpec)
    → IsBuilt s m make_in make_out spec
    → new_rpc_spec fmt s m make_in make_out ≡ ok spec
unfolding new_rpc_spec
new_rpc_spec_complete fmt s m make_in make_out spec (i, ti, o, to, hs, hm, hi, ho, e) = rw (
  (check_names_iff fmt s m).1 (hs, hm),
  check_constructor_made fmt (codes "NewInput") make_in i ti hi,
  check_constructor_made fmt (codes "NewOutput") make_out o to ho,
  e,
)

-- NewRPCSpec succeeds exactly when both names match their format and both constructor functions
-- are there and return pointers; the spec then holds these names, functions and types.
pub new_rpc_spec_iff :
    (fmt : Printer) (s m : Text) (make_in make_out : Option Value) (spec : RpcSpec)
    → (new_rpc_spec fmt s m make_in make_out ≡ ok spec) ↔ (
        (i : Value) × (ti : GoType) × (o : Value) × (to : GoType) × (matches_name s ≡ true)
        × (matches_name m ≡ true)
        × MakesPointer make_in i ti
        × MakesPointer make_out o to
        × (spec ≡ built s m i ti o to))
new_rpc_spec_iff fmt s m make_in make_out spec = (
  new_rpc_spec_sound fmt s m make_in make_out spec,
  new_rpc_spec_complete fmt s m make_in make_out spec,
)

-- AssertInputType passes exactly the values whose dynamic type is the spec's; on the nil interface
-- it panics, and on nothing else.
pub assert_input_type_cases :
    (fmt : Printer) (spec : RpcSpec) (v : Value)
    → ((assert_input_type fmt spec v ≡ passes) ↔ (type_of v ≡ some (input_type spec)))
      × ((assert_input_type fmt spec v ≡ crashes) ↔ (v ≡ nil))
unfolding assert_input_type
assert_input_type_cases fmt spec nil = ((λ h. cc, λ h. cc), (λ _. refl, λ _. refl))
assert_input_type_cases fmt spec (raw f b) = ground (arith, type_beq_iff raw_data (input_type spec))
assert_input_type_cases fmt spec (val t c) = ground (arith, type_beq_iff (user t) (input_type spec))

-- AssertOutputType, which a server applies to what its handler returned, answers by the output type
-- in the same way.
pub assert_output_type_cases :
    (fmt : Printer) (spec : RpcSpec) (v : Value)
    → ((assert_output_type fmt spec v ≡ passes) ↔ (type_of v ≡ some (output_type spec)))
      × ((assert_output_type fmt spec v ≡ crashes) ↔ (v ≡ nil))
unfolding assert_output_type
assert_output_type_cases fmt spec nil = ((λ h. cc, λ h. cc), (λ _. refl, λ _. refl))
assert_output_type_cases fmt spec (raw f b) =
    ground (arith, type_beq_iff raw_data (output_type spec))
assert_output_type_cases fmt spec (val t c) =
    ground (arith, type_beq_iff (user t) (output_type spec))

module _ {W : Type 0} where
  -- An RPCClientWithMWs around another one makes the handler of one client with both lists of
  -- middlewares, the outer list first.
  pub make_handler-append :
      (c : RpcClient W) (xs ys : List (RpcMiddleware W)) (spec : RpcSpec)
      → make_handler (client_with_mws (client_with_mws c ys) xs) spec
        ≡ make_handler (client_with_mws c (xs ++ ys)) spec
  unfolding make_handler
  make_handler-append c xs ys spec = rw (
    wrap_mws-nest (λ mw. mw spec) xs (wrap_mws (λ mw. mw spec) ys (make_handler c spec)),
    wrap_mws-nest (λ mw. mw spec) ys (make_handler c spec),
    wrap_mws-nest (λ mw. mw spec) (xs ++ ys) (make_handler c spec),
    nest-append (λ mw. mw spec) xs ys (make_handler c spec),
  )

  nest-ne-none :
      (spec : RpcSpec) (mws : List (RpcMiddleware W)) (h : Option (RpcHandler W))
      → All (λ mw. (g : Option (RpcHandler W)) → mw spec g ≢ none) mws
      → mws ≢ []
      → nest (λ mw. mw spec) mws h ≢ none
  nest-ne-none spec [] h all_wrap ne = absurd (ne refl)
  nest-ne-none spec (m ∷ ms) h all_wrap ne = all_wrap.0 (nest (λ mw. mw spec) ms h)

  -- Deregistration does not get through middlewares: where each of them wraps every handler, as
  -- those of tracing/rpc do, RegistHandler with a nil handler hands a handler that is not nil to
  -- the server inside.
  pub regist_handler-nil :
      {S : Type 0} (f : RpcSpec → Option (RpcHandler W) → S → Option Error × S)
      (mws : List (RpcMiddleware W)) (spec : RpcSpec) (w : S)
      → All (λ mw. (g : Option (RpcHandler W)) → mw spec g ≢ none) mws
      → mws ≢ []
      → (h : Option (RpcHandler W)) × (h ≢ none)
        × (regist_handler (server_with_mws (server_func f) mws) spec none w ≡ f spec h w)
  unfolding regist_handler
  regist_handler-nil f mws spec w all_wrap ne = (
    nest (λ mw. mw spec) mws none,
    nest-ne-none spec mws none all_wrap ne,
    rw (wrap_mws-nest (λ mw. mw spec) mws none),
  )
