-- ===== src/Stanmsg/Safety.antt =====
-- stanmsg/durconn.go: what holds in every reachable state of a DurConn.
use nproto.Prelude.{
  Map, lookup, nat_eq, length, ℕ, ◌+◌, ◌≤◌, ◌<◌, ◌≡◌, ◌≢◌, ◌⊎◌, inl, inr, Bool, false, Option, none,
  some, List, [], ◌∷◌, arith, text_eq, pair_eq,
}
use nproto.Stanmsg.{
  Subscription, Key, Phase, idle, releasing, dialing, updating, DurConn, Step, reset, dial_fails,
  dial_succeeds, update, lose, subscribe_call, release, close_conn_call, attempt, give_up,
  close_call, Reach, start, next,
}
use nproto.Stanmsg.Counts.{count, count_key}
use nproto.Stanmsg.Invariant.{weight, held, Inv}
use nproto.Stanmsg.Invariant.Connect.{
  new_dur_conn-Inv, reset-Inv, connect_failed-Inv, connected-Inv, update-Inv, lost-Inv, close-Inv,
  release-Inv, close_taken-Inv,
}
use nproto.Stanmsg.Invariant.Subscribe.{attempt-Inv, stale-Inv, subscribe_one-Inv}

held_bound : (closing sc : Option ℕ) (p : Phase) → length (held closing sc p) ≤ 1
held_bound (some c) sc p = omega arith
held_bound none sc (updating c) = omega arith
held_bound none sc (releasing (some c)) = omega arith
held_bound none sc (releasing none) = omega arith
held_bound none none idle = omega arith
held_bound none none dialing = omega arith
held_bound none (some c) idle = omega arith
held_bound none (some c) dialing = omega arith

rest_closed :
    (closing sc : Option ℕ) (p : Phase) (closed : Bool) {opened : List ℕ}
    → opened ≡ held closing sc p
    → (closed ≡ false) ⊎ (sc ≡ none)
    → (closed ≡ false) ⊎ (p ≢ idle) ⊎ (closing ≢ none) ⊎ (opened ≡ [])
rest_closed (some c) sc p closed h off = inr (inr (inl (λ q. cc)))
rest_closed none sc (updating c) closed h off = inr (inl (λ q. cc))
rest_closed none sc (releasing old) closed h off = inr (inl (λ q. cc))
rest_closed none sc dialing closed h off = inr (inl (λ q. cc))
rest_closed none none idle closed h off = inr (inr (inr h))
rest_closed none (some c) idle closed h off = inl (ground (arith, off))

module _ {W : Type 0} where
  Step-Inv : (s t : DurConn W) → Step s t → Inv s → Inv t
  Step-Inv s t (reset w p e) v = rw e (reset-Inv s p v)
  Step-Inv s t (release old p e) v = rw e (release-Inv old s p v)
  Step-Inv s t (dial_fails p e) v = rw e (connect_failed-Inv s p v)
  Step-Inv s t (dial_succeeds p e) v = rw e (connected-Inv s p v)
  Step-Inv s t (update c p e) v = rw e (update-Inv c s p v)
  Step-Inv s t (lose c o e) v = rw e (lost-Inv c s v)
  Step-Inv s t (subscribe_call sub r e) v = rw e (subscribe_one-Inv s sub r v)
  Step-Inv s t (attempt c k p e) v = rw e (attempt-Inv c k s p v)
  Step-Inv s t (give_up c o e) v = rw e (stale-Inv c s o v)
  Step-Inv s t (close_call e) v = rw e (close-Inv s v)
  Step-Inv s t (close_conn_call c p e) v = rw e (close_taken-Inv c s p v)

  pub Reach-Inv : {s : DurConn W} → Reach s → Inv s
  Reach-Inv (start e) = rw e new_dur_conn-Inv
  Reach-Inv (next {s} {t} r st) = Step-Inv s t st (Reach-Inv r)

  count_key_one :
      (k : Key) (m : Map Key (Subscription W)) (sub : Subscription W)
      → lookup k m ≡ some sub
      → 0 < count_key k m
  unfolding count_key lookup
  count_key_one k [] sub h = absurd (cc)
  count_key_one k (p ∷ m) sub h = ground (arith, count_key_one k m sub)

  -- In every interleaving, each subscription that the DurConn has stored stands exactly once for the
  -- connection in use, either as made by QueueSubscribe or as still to be made by subscribeAll:
  -- none is lost on a reconnection, and none is made twice on one connection.
  pub subscribed_once :
      (s : DurConn W) (c : ℕ) (k : Key) (sub : Subscription W)
      → Reach s
      → s.sc ≡ some c
      → lookup k s.subs ≡ some sub
      → count c k s.made + count c k s.pending ≡ 1
  subscribed_once s c k sub r e h =
      let v = Reach-Inv r in
      let balance : weight c k s ≡ count_key k s.subs = rw e at (v.exact k) in
      omega (arith, balance, v.single k, count_key_one k s.subs sub h)

  -- At most one connection is open at any time. Once the DurConn is closed, none is, as soon as
  -- no connect is at work and the call of Close that closed it has closed the connection that it
  -- took, if it took one.
  pub opened_bound :
      (s : DurConn W)
      → Reach s
      → (length s.opened ≤ 1)
        × ((s.closed ≡ false) ⊎ (s.phase ≢ idle) ⊎ (s.closing ≢ none) ⊎ (s.opened ≡ []))
  opened_bound s r =
      let v = Reach-Inv r in
      let bound = held_bound s.closing s.sc s.phase in
      (rw (v.open_held) bound, rest_closed s.closing s.sc s.phase s.closed v.open_held v.off)
