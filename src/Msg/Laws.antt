-- ===== src/Msg/Laws.antt =====
-- msg: which specs are built, and what middlewares and Publish make of what they wrap.
use nproto.Prelude.{
  arith, Text, nat_eq, ◌≡◌, ◌↔◌, ◌⊎◌, inl, inr, refl, true, Option, none, some, List, ◌++◌, arith,
  text_eq, pair_eq,
}
use nproto.Go.{
  GoType, user, raw_data, Value, nil, raw, val, Error, ok, Printer, type_of, is_ptr, type_beq_iff,
}
use nproto.Names.{matches_subject}
use nproto.Middleware.{wrap_mws-nest, nest, nest-append}
use nproto.Msg.{
  MsgSpec, typed_msg, msg_type, MsgAssertion, msg_passes, msg_fails, msg_crashes, new_msg_spec,
  assert_msg_type, MsgHandler, MsgMiddleware, MsgSubscriber, subscriber_with_mws, subscribe,
}

abbrev pub built_msg : Text → Value → GoType → MsgSpec
built_msg s v t = typed_msg (record { subject = s; make_msg = v; msg_t = t; msg_v = v })

abbrev IsBuilt : Text → Option Value → MsgSpec → Type 0
IsBuilt s make spec =
    (v : Value) × (t : GoType) × (matches_subject s ≡ true)
    × (make ≡ some v)
    × (type_of v ≡ some t)
    × (is_ptr t ≡ true)
    × (spec ≡ built_msg s v t)

new_msg_spec_sound :
    (fmt : Printer) (s : Text) (make : Option Value) (spec : MsgSpec)
    → new_msg_spec fmt s make ≡ ok spec
    → IsBuilt s make spec
unfolding new_msg_spec
new_msg_spec_sound fmt s none spec h = ground arith
new_msg_spec_sound fmt s (some nil) spec h = ground arith
new_msg_spec_sound fmt s (some (raw f b)) spec h =
    (raw f b, raw_data, ground arith, refl, refl, refl, ground arith)
new_msg_spec_sound fmt s (some (val t c)) spec h =
    (val t c, user t, ground arith, refl, refl, ground arith, ground arith)

new_msg_spec_complete :
    (fmt : Printer) (s : Text) (make : Option Value) (spec : MsgSpec)
    → IsBuilt s make spec
    → new_msg_spec fmt s make ≡ ok spec
unfolding new_msg_spec
new_msg_spec_complete fmt s make spec (v, t, m, h, e, p, q) = rw (m, h, q) (rw (e, p, new_msg_spec))

-- NewMsgSpec succeeds exactly when the subject matches its format and the constructor function is
-- there and returns a pointer; the spec then holds that subject, function and type.
pub new_msg_spec_iff :
    (fmt : Printer) (s : Text) (make : Option Value) (spec : MsgSpec)
    → (new_msg_spec fmt s make ≡ ok spec) ↔ (
        (v : Value) × (t : GoType) × (matches_subject s ≡ true)
        × (make ≡ some v)
        × (type_of v ≡ some t)
        × (is_ptr t ≡ true)
        × (spec ≡ built_msg s v t))
new_msg_spec_iff fmt s make spec =
    (new_msg_spec_sound fmt s make spec, new_msg_spec_complete fmt s make spec)

-- AssertMsgType passes exactly the values whose dynamic type is the spec's, and panics exactly on
-- the nil interface.
pub assert_msg_type_cases :
    (fmt : Printer) (spec : MsgSpec) (v : Value)
    → ((assert_msg_type fmt spec v ≡ msg_passes) ↔ (type_of v ≡ some (msg_type spec)))
      × ((assert_msg_type fmt spec v ≡ msg_crashes) ↔ (v ≡ nil))
unfolding assert_msg_type
assert_msg_type_cases fmt spec nil = ((λ h. cc, λ h. cc), (λ _. refl, λ _. refl))
assert_msg_type_cases fmt spec (raw f b) = ground (arith, type_beq_iff raw_data (msg_type spec))
assert_msg_type_cases fmt spec (val t c) = ground (arith, type_beq_iff (user t) (msg_type spec))

-- A MsgSubscriberWithMWs around another one subscribes as one with both lists of middlewares: those
-- of the subscriber inside are the outermost, those of the one outside are nearest to the handler.
pub subscribe-append :
    {W O : Type 0} (s : MsgSubscriber W O) (xs ys : List (MsgMiddleware W)) (spec : MsgSpec)
    (queue : Text) (handler : MsgHandler W) (opts : List O) (w : W)
    → subscribe (subscriber_with_mws (subscriber_with_mws s xs) ys) spec queue handler opts w
      ≡ subscribe (subscriber_with_mws s (xs ++ ys)) spec queue handler opts w
unfolding subscribe
subscribe-append s xs ys spec queue handler opts w = rw (
  wrap_mws-nest (λ mw. mw spec queue) ys handler,
  wrap_mws-nest (λ mw. mw spec queue) xs (nest (λ mw. mw spec queue) ys handler),
  wrap_mws-nest (λ mw. mw spec queue) (xs ++ ys) handler,
  nest-append (λ mw. mw spec queue) xs ys handler,
)

pub MsgAssertion-cases :
    (a : MsgAssertion) → (a ≡ msg_passes) ⊎ (a ≡ msg_crashes) ⊎ ((e : Error) × (a ≡ msg_fails e))
MsgAssertion-cases msg_passes = inl refl
MsgAssertion-cases msg_crashes = inr (inl refl)
MsgAssertion-cases (msg_fails e) = inr (inr (e, refl))
