-- ===== src/Natsrpc/Server/Registry.antt =====
-- natsrpc/server.go: the invariant of the registry, and what registration does to a method.
use nproto.Prelude.{
  Text, Map, if◌then◌else◌, lookup, insert, keys, nat_beq, nat_eq, ℕ, ◌+◌, ◌<◌, ◌≡◌, ◌⊎◌, inl, inr,
  refl, sym, ap, ◌∙◌, Bool, true, false, ◌||◌, Option, none, some, List, [], ◌∷◌, ◌++◌, map, arith,
  text_eq, pair_eq, Bool-cases, Option-cases, lookup-insert, beq_refl, All, All-append,
}
use nproto.Prelude.{insert_new, keys-insert_old, lookup-none_of_keys}
use nproto.Go.{Error}
use mathlib.Core.List.{map-append}
use nproto.Enc.{Encoder, Decoder}
use nproto.Rpc.{RpcSpec, svc_name, RpcHandler}
use nproto.Natsrpc.{subject_format, err_closed}
use nproto.Natsrpc.Server.{
  Subscription, ServerConn, unsubscribe, unsubscribe_all, regist, regist_method, new_sub,
  subscribe_service, after_subscribe, regist_handler, close,
}

abbrev pub subs_of : {W : Type 0} → ServerConn W → List Subscription
subs_of sc = map (λ p. p.1) sc.subs

-- The services with a subscription are those with a method map; what the NATS server delivers to is
-- what the connection has stored, or nothing once it is closed; numbers are not used twice; and
-- each subscription is to the subjects of its service.
pub record IsValid {W : Type 0} (sc : ServerConn W) : Type 0 where
  pub same_keys : keys sc.subs ≡ keys sc.method_maps
  pub served : sc.active ≡ (if sc.closed then [] else subs_of sc)
  pub fresh : All (λ s. s.id < sc.next_id) (subs_of sc)
  pub subjects : All (λ p. p.1.subject ≡ subject_format sc.subject_prefix p.0 (b'>' ∷ [])) sc.subs

unsubscribe_fresh :
    (n : ℕ) (xs : List Subscription) (s : Subscription)
    → All (λ x. x.id < n) xs
    → s.id ≡ n
    → unsubscribe n (xs ++ s ∷ []) ≡ xs
unfolding unsubscribe
unsubscribe_fresh n [] s h e = ground arith
unsubscribe_fresh n (x ∷ xs) s h e = ground (arith, unsubscribe_fresh n xs s h.1 e)

fresh_suc : (n : ℕ) (xs : List Subscription) → All (λ x. x.id < n) xs → All (λ x. x.id < n + 1) xs
fresh_suc n [] h = tt
fresh_suc n (x ∷ xs) h = (omega arith, fresh_suc n xs h.1)

mem_id : ℕ → Map Text Subscription → Bool
mem_id n [] = false
mem_id n ((k, s) ∷ m) = nat_beq s.id n || mem_id n m

mem_id_after :
    (k : Text) (s : Subscription) (m : Map Text Subscription) (xs : List Subscription)
    → All (λ x. mem_id x.id ((k, s) ∷ m) ≡ true) xs
    → All (λ x. mem_id x.id m ≡ true) (unsubscribe s.id xs)
unfolding unsubscribe mem_id
mem_id_after k s m [] h = tt
mem_id_after k s m (x ∷ xs) h = ground (arith, mem_id_after k s m xs h.1)

unsubscribe_all_lem :
    (m : Map Text Subscription) (xs : List Subscription)
    → All (λ x. mem_id x.id m ≡ true) xs
    → unsubscribe_all m xs ≡ []
unfolding unsubscribe_all
unsubscribe_all_lem [] [] h = refl
unsubscribe_all_lem [] (x ∷ xs) h = unfold mem_id in absurd (let q = h.0 in cc)
unsubscribe_all_lem ((k, s) ∷ m) xs h =
    unsubscribe_all_lem m (unsubscribe s.id xs) (mem_id_after k s m xs h)

mem_id_weaken :
    (k : Text) (s : Subscription) (m : Map Text Subscription) (xs : List Subscription)
    → All (λ x. mem_id x.id m ≡ true) xs
    → All (λ x. mem_id x.id ((k, s) ∷ m) ≡ true) xs
unfolding mem_id
mem_id_weaken k s m [] h = tt
mem_id_weaken k s m (x ∷ xs) h = (ground (arith, h.0), mem_id_weaken k s m xs h.1)

mem_id_self : (m : Map Text Subscription) → All (λ x. mem_id x.id m ≡ true) (map (λ p. p.1) m)
mem_id_self [] = tt
mem_id_self ((k, s) ∷ m) =
    (unfold mem_id in ground arith, mem_id_weaken k s m (map (λ p. p.1) m) (mem_id_self m))

module _ {W : Type 0} where
  abbrev HasValid : Option (Option Error × ServerConn W) → Type 0
  HasValid r = (e : Option Error) × (sc : ServerConn W) × (r ≡ some (e, sc)) × IsValid sc

  module _ (spec : RpcSpec) (handler : Option (RpcHandler W)) (decoder : Decoder)
      (encoder : Encoder) where
    regist_method-IsValid :
        (sc : ServerConn W) (s : Subscription)
        → IsValid sc
        → lookup (svc_name spec) sc.subs ≡ some s
        → HasValid (regist_method sc spec handler decoder encoder)
    unfolding regist_method
    regist_method-IsValid sc s v h = elim (Option-cases (lookup (svc_name spec) sc.method_maps)) [
      | inl e ↦ absurd (
          let k = lookup-none_of_keys (svc_name spec) sc.method_maps sc.subs (sym v.same_keys) e in
          cc)
      | inr (mm, e) ↦
          let maps =
            insert (svc_name spec) (regist mm spec handler decoder encoder) sc.method_maps in
          (
            none,
            record sc { method_maps = maps },
            rw (e, regist_method),
            record {
              same_keys = v.same_keys ∙ sym (keys-insert_old (svc_name spec) mm _ sc.method_maps e);
              served = v.served;
              fresh = v.fresh;
              subjects = v.subjects;
            },
          )
    ]

  active_open : (sc : ServerConn W) → IsValid sc → sc.closed ≡ false → sc.active ≡ subs_of sc
  active_open sc v is_open = v.served ∙ rw is_open

  module _ (sc : ServerConn W) (svc : Text) (v : IsValid sc) (is_open : sc.closed ≡ false)
      (absent : lookup svc sc.subs ≡ none) where
    stored_subs : insert svc (new_sub sc svc) sc.subs ≡ sc.subs ++ (svc, new_sub sc svc) ∷ []
    stored_subs = insert_new svc (new_sub sc svc) sc.subs absent

    stored_maps : insert svc [] sc.method_maps ≡ sc.method_maps ++ (svc, []) ∷ []
    stored_maps =
        insert_new svc [] sc.method_maps
          (lookup-none_of_keys svc sc.subs sc.method_maps v.same_keys absent)

    active_subs : sc.active ≡ subs_of sc
    active_subs = active_open sc v is_open

    subscribe_service-IsValid :
        (sub_err flush_err : Option Error) → IsValid (subscribe_service sc svc sub_err flush_err).1
    unfolding subscribe_service
    subscribe_service-IsValid (some e) flush_err = v
    subscribe_service-IsValid none (some e) = record {
      same_keys = v.same_keys;
      served =
          unsubscribe_fresh sc.next_id sc.active (new_sub sc svc) (rw active_subs v.fresh) refl
          ∙ v.served;
      fresh = fresh_suc sc.next_id (subs_of sc) v.fresh;
      subjects = v.subjects;
    }
    subscribe_service-IsValid none none = record {
      same_keys =
          rw (stored_subs, stored_maps)
            (rw (map-append, map-append) (ap (λ l. l ++ svc ∷ []) v.same_keys));
      served =
          rw (stored_subs, is_open)
            (rw map-append (ap (λ l. l ++ new_sub sc svc ∷ []) active_subs));
      fresh = rw stored_subs (
          rw map-append (
            All-append _ (subs_of sc) (new_sub sc svc ∷ [])
              (fresh_suc sc.next_id (subs_of sc) v.fresh) (omega arith, tt)));
      subjects =
          rw stored_subs (All-append _ sc.subs ((svc, new_sub sc svc) ∷ []) v.subjects (refl, tt));
    }

  module _ (spec : RpcSpec) (handler : Option (RpcHandler W)) (decoder : Decoder)
      (encoder : Encoder) (sub_err flush_err : Option Error) where
    first_method-IsValid :
        (sc : ServerConn W) (sub_err flush_err : Option Error)
        → IsValid sc
        → sc.closed ≡ false
        → lookup (svc_name spec) sc.subs ≡ none
        → HasValid (
            after_subscribe
              (subscribe_service sc (svc_name spec) sub_err flush_err)
              spec
              handler
              decoder
              encoder)
    unfolding subscribe_service after_subscribe
    first_method-IsValid sc (some e) flush_err v is_open absent = (some e, sc, refl, v)
    first_method-IsValid sc none (some e) v is_open absent = (
      some e,
      (subscribe_service sc (svc_name spec) none (some e)).1,
      refl,
      subscribe_service-IsValid sc (svc_name spec) v is_open absent none (some e),
    )
    first_method-IsValid sc none none v is_open absent =
        regist_method-IsValid spec handler decoder encoder
          (subscribe_service sc (svc_name spec) none none).1 (new_sub sc (svc_name spec))
          (subscribe_service-IsValid sc (svc_name spec) v is_open absent none none)
          (lookup-insert (svc_name spec) (svc_name spec) (new_sub sc (svc_name spec)) sc.subs
            ∙ rw (beq_refl (svc_name spec)))

    -- registHandler never reaches a service without a method map, and keeps the registry well
    -- formed whatever QueueSubscribe and Flush answer: a subscription whose Flush failed is taken
    -- back, and no service has two.
    pub regist_handler-IsValid :
        (sc : ServerConn W)
        → IsValid sc
        → (e : Option Error) × (sc' : ServerConn W) × (regist_handler sc spec handler decoder
              encoder sub_err flush_err
            ≡ some (e, sc'))
          × IsValid sc'
    unfolding regist_handler
    regist_handler-IsValid sc v = elim (Bool-cases sc.closed) [
      | inl c ↦ (some err_closed, sc, rw (c, regist_handler), v)
      | inr c ↦ elim (Option-cases (lookup (svc_name spec) sc.subs)) [
        | inl absent ↦
            let (e, sc', q, v') = first_method-IsValid sc sub_err flush_err v c absent in
            (e, sc', rw (c, absent, regist_handler) q, v')
        | inr (s, there) ↦
            let (e, sc', q, v') = regist_method-IsValid spec handler decoder encoder sc s v there in
            (e, sc', rw (c, there, regist_handler) q, v')
      ]
    ]

  -- Close answers ErrClosed on a closed connection and changes nothing; else it closes the runner
  -- and leaves no subscription of this connection on the NATS server.
  pub close_lem :
      (sc : ServerConn W)
      → IsValid sc
      → ((sc.closed ≡ true) × (close sc ≡ (some err_closed, sc)))
        ⊎ ((sc.closed ≡ false)
            × ((close sc).0 ≡ none)
            × ((close sc).1.closed ≡ true)
            × ((close sc).1.runner_open ≡ false)
            × ((close sc).1.active ≡ [])
            × IsValid (close sc).1)
  unfolding close
  close_lem sc v = elim (Bool-cases sc.closed) [
    | inl c ↦ inl (c, rw (c, close))
    | inr c ↦
        let gone : unsubscribe_all sc.subs sc.active ≡ [] =
          unsubscribe_all_lem sc.subs sc.active (rw (active_open sc v c) (mem_id_self sc.subs)) in
        inr (
          c,
          rw (c, close),
          rw (c, close),
          rw (c, close),
          rw (c, close) gone,
          rw (c, close)
              (record {
                same_keys = v.same_keys;
                served = gone;
                fresh = v.fresh;
                subjects = v.subjects;
              }),
        )
  ]
