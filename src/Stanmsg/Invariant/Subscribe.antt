-- ===== src/Stanmsg/Invariant/Subscribe.antt =====
-- stanmsg/durconn.go: subscribeOne and subscribeAll keep the invariant.
use nproto.Prelude.{
  lookup, insert, nat_eq, ℕ, ◌+◌, ◌≤◌, ◌<◌, ◌≡◌, ◌⊎◌, inl, inr, if_cases, refl, ◌∙◌, true, false,
  Option, none, some, [], ◌∷◌, arith, text_eq, pair_eq, pair_beq_iff,
}
use native.Mathlib.Decide.{dec_lt}
use nproto.Go.{Error}
use nproto.Stanmsg.{
  Subscription, Key, key_of, idle, DurConn, remove, store_sub, subscribe_new, subscribe_one,
  subscribed, stale, is_open, has_pair,
}
use nproto.Stanmsg.Counts.{
  count, count-append, count-remove, count-drop_conn, count-drop_conn_le, count_key,
  count_key-lookup, count_key-insert,
}
use nproto.Stanmsg.Invariant.{weight, OnConn-map, InHand-map, Inv}

one_pair : (c : ℕ) (j k : Key) → count c k ((c, j) ∷ []) ≡ count 0 k ((0, j) ∷ [])
unfolding count
one_pair c j k = ground arith

module _ {W : Type 0} where
  pub attempt-Inv :
      (c : ℕ) (k : Key) (s : DurConn W)
      → has_pair c k s.pending ≡ true
      → Inv s
      → Inv (subscribed c k s)
  unfolding subscribed
  attempt-Inv c k s h v = record {
    open_held = v.open_held;
    exclusive = v.exclusive;
    off = v.off;
    shut = v.shut;
    exact = λ j. OnConn-map s.sc (λ d e q. moved d j ∙ q) (v.exact j);
    in_hand = λ j. InHand-map s.phase (λ d e q. (moved d j ∙ q.0, q.1)) (v.in_hand j);
    known = v.known;
    fresh = λ d j. ground (arith, v.fresh d j, moved d j);
    single = v.single;
  }
    where
      moved :
          (d : ℕ) (j : Key)
          → count d j ((c, k) ∷ s.made) + count d j (remove c k s.pending) ≡ weight d j s
      moved d j =
          omega (arith, count-append d j ((c, k) ∷ []) s.made, count-remove d c j k s.pending h)

  pub held_open : (s : DurConn W) (c : ℕ) → s.sc ≡ some c → Inv s → is_open c s.opened ≡ true
  unfolding is_open
  held_open s c e v =
      let in_use : s.phase ≡ idle = ground (arith, v.exclusive) in
      let none_taken : s.closing ≡ none = ground (arith, v.shut, v.off) in
      rw (v.open_held, none_taken, e, in_use) (ground arith)

  pub stale-Inv : (c : ℕ) (s : DurConn W) → is_open c s.opened ≡ false → Inv s → Inv (stale c s)
  unfolding stale
  stale-Inv c s h v = record {
    open_held = v.open_held;
    exclusive = v.exclusive;
    off = v.off;
    shut = v.shut;
    exact = λ j.
        OnConn-map s.sc
          (λ d e q. ground (arith, q, count-drop_conn d c j s.pending, held_open s d e v, h))
          (v.exact j);
    in_hand = λ j.
        InHand-map s.phase (λ d e q. (ground (arith, q.0, count-drop_conn_le d c j s.pending), q.1))
          (v.in_hand j);
    known = v.known;
    fresh = λ d j. ground (arith, v.fresh d j, count-drop_conn_le d c j s.pending);
    single = v.single;
  }

  pub single_insert :
      (s : DurConn W) (sub : Subscription W) (k : Key)
      → Inv s
      → lookup (key_of sub) s.subs ≡ none
      → count_key k (insert (key_of sub) sub s.subs) ≤ 1
  unfolding count
  single_insert s sub k v absent = ground (
    arith,
    v.single k,
    count_key-insert (key_of sub) k sub s.subs absent,
    count_key-lookup (key_of sub) s.subs absent,
    pair_beq_iff (key_of sub) k,
  )

  pub new_fresh :
      (c : ℕ) (s : DurConn W) (sub : Subscription W) (d : ℕ) (k : Key)
      → c < s.next_conn
      → (d < s.next_conn) ⊎ (weight d k s ≡ 0)
      → (d < s.next_conn) ⊎ (count d k ((c, key_of sub) ∷ s.made) + count d k s.pending ≡ 0)
  unfolding count
  new_fresh c s sub d k h (inl lt) = inl lt
  new_fresh c s sub d k h (inr z) = elim (dec_lt d s.next_conn) [
    | yes lt ↦ inl lt
    | no ge ↦ inr (ground arith)
  ]

  pub subscribe_new-Inv :
      (found : Option (Subscription W)) (sc : Option ℕ) (s : DurConn W) (sub : Subscription W)
      (e : Option Error)
      → lookup (key_of sub) s.subs ≡ found
      → s.sc ≡ sc
      → Inv s
      → Inv (subscribe_new found sc s sub e).1
  unfolding subscribe_new store_sub
  subscribe_new-Inv (some old) sc s sub e f q v = v
  subscribe_new-Inv none none s sub e absent q v = record {
    open_held = v.open_held;
    exclusive = v.exclusive;
    off = v.off;
    shut = v.shut;
    exact = λ k. rw q tt;
    in_hand = v.in_hand;
    known = v.known;
    fresh = v.fresh;
    single = λ k. single_insert s sub k v absent;
  }
  subscribe_new-Inv none (some c) s sub (some e) absent q v = v
  subscribe_new-Inv none (some c) s sub none absent q v = record {
    open_held = v.open_held;
    exclusive = v.exclusive;
    off = v.off;
    shut = v.shut;
    exact = λ k.
        OnConn-map s.sc
          (λ d e w.
            let same : d ≡ c = ground arith in
            rw same (
              omega (
                arith,
                (rw same at w),
                one_more c k,
                one_pair c (key_of sub) k,
                count_key-insert (key_of sub) k sub s.subs absent,
              )))
          (v.exact k);
    in_hand = λ k. InHand-map s.phase (λ d e w. absurd (ground (arith, v.exclusive))) (v.in_hand k);
    known = v.known;
    fresh = λ d k. new_fresh c s sub d k (rw q at v.known) (v.fresh d k);
    single = λ k. single_insert s sub k v absent;
  }
    where
      one_more :
          (d : ℕ) (k : Key)
          → count d k ((c, key_of sub) ∷ s.made)
            ≡ count d k ((c, key_of sub) ∷ []) + count d k s.made
      one_more d k = count-append d k ((c, key_of sub) ∷ []) s.made

  pub subscribe_one-Inv :
      (s : DurConn W) (sub : Subscription W) (e : Option Error)
      → Inv s
      → Inv (subscribe_one s sub e).1
  unfolding subscribe_one
  subscribe_one-Inv s sub e v =
      if_cases (λ (r : Option Error × DurConn W). Inv (r.1)) s.closed _ _ (λ q. v)
        (λ q. subscribe_new-Inv (lookup (key_of sub) s.subs) s.sc s sub e refl refl v)
