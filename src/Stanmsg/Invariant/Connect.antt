-- ===== src/Stanmsg/Invariant/Connect.antt =====
-- stanmsg/durconn.go: connect, reconnection and Close keep the invariant.
use nproto.Prelude.{
  nat_eq, true, Option, none, some, ℕ, ◌≢◌, ◌<◌, ◌≡◌, inl, inr, if_cases, refl, ap, ◌∙◌, [], ◌∷◌,
  arith, text_eq, pair_eq,
}
use nproto.Stanmsg.{
  Key, idle, releasing, dialing, updating, DurConn, close_conn, release_old, close_taken,
  break_conn, new_dur_conn, reset_connection, connect_failed, connected, snapshot,
  update_connection, connection_lost, close,
}
use nproto.Stanmsg.Counts.{count, count-append, count_key, count-snapshot, count-snapshot_ne}
use nproto.Stanmsg.Invariant.{
  weight, held, close_held_lem, held-releasing, held-closing, in_hand_of, Inv, no_conn, not_closing,
}

module _ {W : Type 0} where
  pub new_dur_conn-Inv : Inv {W = W} new_dur_conn
  unfolding new_dur_conn count_key count
  new_dur_conn-Inv = record {
    open_held = refl;
    exclusive = inl refl;
    off = inl refl;
    shut = inl refl;
    exact = λ k. tt;
    in_hand = λ k. tt;
    known = tt;
    fresh = λ c k. inr refl;
    single = λ k. omega arith;
  }

  pub reset-Inv : (s : DurConn W) → s.phase ≡ idle → Inv s → Inv (reset_connection s)
  unfolding reset_connection
  reset-Inv s e v =
      if_cases Inv s.closed _ _
        (λ c. record {
          open_held = v.open_held;
          exclusive = v.exclusive;
          off = v.off;
          shut = v.shut;
          exact = v.exact;
          in_hand = v.in_hand;
          known = v.known;
          fresh = v.fresh;
          single = v.single;
        })
        (λ c.
          let none_taken : s.closing ≡ none = ground (arith, v.shut, c) in
          record {
            open_held = rw none_taken (
                v.open_held
                ∙ ap (λ l. held l s.sc s.phase) none_taken
                ∙ ap (held none s.sc) e
                ∙ held-releasing s.sc);
            exclusive = inr refl;
            off = inr refl;
            shut = inl none_taken;
            exact = λ k. tt;
            in_hand = λ k. tt;
            known = tt;
            fresh = v.fresh;
            single = v.single;
          })

  pub release-Inv :
      (old : Option ℕ) (s : DurConn W) → s.phase ≡ releasing old → Inv s → Inv (release_old old s)
  unfolding release_old
  release-Inv old s e v =
      let at_work : s.phase ≢ idle = λ q. (let k = rw e at q in cc) in
      let off_line = no_conn s at_work v in
      let none_taken = not_closing s at_work v in
      let mine : s.opened ≡ held none none (releasing old) =
        v.open_held ∙ rw (none_taken, off_line, e) refl in
      record {
        open_held = rw (mine, none_taken, off_line) (close_held_lem old);
        exclusive = inr off_line;
        off = inr off_line;
        shut = inl none_taken;
        exact = v.exact;
        in_hand = λ k. tt;
        known = v.known;
        fresh = v.fresh;
        single = v.single;
      }

  pub connect_failed-Inv : (s : DurConn W) → s.phase ≡ dialing → Inv s → Inv (connect_failed s)
  unfolding connect_failed
  connect_failed-Inv s e v =
      let off_line = no_conn s (λ q. cc) v in
      let none_taken = not_closing s (λ q. cc) v in
      record {
        open_held = v.open_held ∙ rw (none_taken, off_line, e);
        exclusive = inl refl;
        off = v.off;
        shut = inl none_taken;
        exact = v.exact;
        in_hand = λ k. tt;
        known = v.known;
        fresh = v.fresh;
        single = v.single;
      }

  pub connected-Inv : (s : DurConn W) → s.phase ≡ dialing → Inv s → Inv (connected s)
  unfolding connected
  connected-Inv s e v =
      let off_line = no_conn s (λ q. cc) v in
      let none_taken = not_closing s (λ q. cc) v in
      record {
        open_held = rw (v.open_held, none_taken, off_line, e);
        exclusive = inr off_line;
        off = v.off;
        shut = inl none_taken;
        exact = v.exact;
        in_hand = λ k. (ground (arith, v.fresh s.next_conn k), omega arith);
        known = rw off_line tt;
        fresh = λ c k. ground (arith, v.fresh c k);
        single = v.single;
      }

  pub update-Inv :
      (c : ℕ) (s : DurConn W) → s.phase ≡ updating c → Inv s → Inv (update_connection c s)
  unfolding update_connection close_conn
  update-Inv c s e v =
      let off_line = no_conn s (λ q. cc) v in
      let none_taken = not_closing s (λ q. cc) v in
      let one : s.opened ≡ c ∷ [] = v.open_held ∙ rw (none_taken, e) refl in
      let zero_weight = λ (k : Key).
        in_hand_of s.phase c (λ c. (weight c k s ≡ 0) × (c < s.next_conn)) e (v.in_hand k) in
      if_cases Inv s.closed _ _
        (λ q. record {
          open_held = rw (one, none_taken, off_line) (ground arith);
          exclusive = inl refl;
          off = v.off;
          shut = inl none_taken;
          exact = v.exact;
          in_hand = λ k. tt;
          known = v.known;
          fresh = v.fresh;
          single = v.single;
        })
        (λ q. record {
          open_held = rw none_taken one;
          exclusive = inl refl;
          off = inl q;
          shut = inl none_taken;
          exact = λ k. omega (
            arith,
            (zero_weight k).0,
            count-append c k (snapshot c s.subs) s.pending,
            count-snapshot c k s.subs,
          );
          in_hand = λ k. tt;
          known = (zero_weight ([], [])).1;
          fresh = λ d k. ground (
            arith,
            v.fresh d k,
            (zero_weight k).1,
            count-append d k (snapshot c s.subs) s.pending,
            count-snapshot_ne d c k s.subs,
          );
          single = v.single;
        })

  pub lost-Inv : (c : ℕ) (s : DurConn W) → Inv s → Inv (connection_lost (break_conn c s))
  unfolding connection_lost break_conn
  lost-Inv c s v = record {
    open_held = v.open_held;
    exclusive = v.exclusive;
    off = v.off;
    shut = v.shut;
    exact = v.exact;
    in_hand = v.in_hand;
    known = v.known;
    fresh = v.fresh;
    single = v.single;
  }

  pub close-Inv : (s : DurConn W) → Inv s → Inv (close s)
  unfolding close
  close-Inv s v =
      if_cases Inv s.closed _ _ (λ q. v)
        (λ q.
          let none_taken : s.closing ≡ none = ground (arith, v.shut, q) in
          record {
            open_held =
                v.open_held
                ∙ ap (λ l. held l s.sc s.phase) none_taken
                ∙ held-closing s.sc s.phase v.exclusive;
            exclusive = inr refl;
            off = inr refl;
            shut = elim v.exclusive [ inl e ↦ inr (refl, e) | inr e ↦ inl e ];
            exact = λ k. tt;
            in_hand = v.in_hand;
            known = tt;
            fresh = v.fresh;
            single = v.single;
          })

  pub close_taken-Inv : (c : ℕ) (s : DurConn W) → s.closing ≡ some c → Inv s → Inv (close_taken c s)
  unfolding close_taken close_conn
  close_taken-Inv c s e v =
      let ended : (s.closed ≡ true) × (s.phase ≡ idle) = ground (arith, v.shut, e) in
      let off_line : s.sc ≡ none = ground (arith, v.off, ended.0) in
      let one : s.opened ≡ c ∷ [] = v.open_held ∙ ap (λ l. held l s.sc s.phase) e in
      record {
        open_held = rw (one, off_line, ended.1) (ground arith);
        exclusive = inr off_line;
        off = inr off_line;
        shut = inl refl;
        exact = v.exact;
        in_hand = v.in_hand;
        known = v.known;
        fresh = v.fresh;
        single = v.single;
      }
