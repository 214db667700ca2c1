-- ===== src/Stanmsg/Reconnect.antt =====
-- stanmsg/durconn.go: a DurConn does not give up connecting.
use nproto.Prelude.{
  true, false, lookup, ℕ, ◌<◌, ◌≡◌, ◌⊎◌, inl, inr, if_cases, refl, Option, none, some, List, [],
  ◌∷◌, arith, text_eq, pair_eq,
}
use nproto.Go.{Error}
use nproto.Stanmsg.{
  Subscription, Key, key_of, Phase, idle, releasing, dialing, updating, DurConn, close_conn,
  close_held, new_dur_conn, reset_connection, release_old, connect_failed, connected,
  update_connection, connection_lost, store_sub, subscribe_new, subscribe_one, subscribed, stale,
  close, close_taken, break_conn, is_open, Step, reset, release, dial_fails, dial_succeeds, update,
  lose, subscribe_call, attempt, give_up, close_call, close_conn_call, Reach, start, next,
}

open_after_close :
    (c d : ℕ) (opened : List ℕ) → is_open d opened ≡ false → is_open d (close_conn c opened) ≡ false
unfolding is_open close_conn
open_after_close c d [] h = refl
open_after_close c d (x ∷ xs) h = ground (arith, open_after_close c d xs)

open_after_held :
    (old : Option ℕ) (d : ℕ) (opened : List ℕ)
    → is_open d opened ≡ false
    → is_open d (close_held old opened) ≡ false
unfolding close_held
open_after_held none d opened h = h
open_after_held (some c) d opened h = open_after_close c d opened h

-- The connection that connect has in hand, or else the one in use, works.
abbrev Works : Option ℕ → Phase → List ℕ → Type 0
Works sc (releasing old) lost = Unit
Works sc dialing lost = Unit
Works sc (updating c) lost = is_open c lost ≡ false
Works none idle lost = ⊥
Works (some c) idle lost = is_open c lost ≡ false

working :
    (sc : Option ℕ) (p : Phase) (lost : List ℕ)
    → Works sc p lost
    → ((c : ℕ) × (sc ≡ some c) × (p ≡ idle) × (is_open c lost ≡ false))
      ⊎ (p ≡ dialing)
      ⊎ ((old : Option ℕ) × (p ≡ releasing old))
      ⊎ ((c : ℕ) × (p ≡ updating c) × (is_open c lost ≡ false))
working sc (releasing old) lost h = inr (inr (inl (old, refl)))
working sc dialing lost h = inr (inl refl)
working sc (updating c) lost h = inr (inr (inr (c, refl, h)))
working none idle lost h = absurd h
working (some c) idle lost h = inl (c, refl, refl, h)

module _ {W : Type 0} where
  record Alive (s : DurConn W) : Type 0 where
    opened_known : (c : ℕ) → (c < s.next_conn) ⊎ (is_open c s.opened ≡ false)
    lost_known : (c : ℕ) → (c < s.next_conn) ⊎ (is_open c s.lost ≡ false)
    trying : (s.closed ≡ true) ⊎ (0 < s.waiting) ⊎ Works s.sc s.phase s.lost

  start-Alive : Alive new_dur_conn
  unfolding new_dur_conn is_open
  start-Alive = record {
    opened_known = λ c. inr refl;
    lost_known = λ c. inr refl;
    trying = inr (inl (omega arith));
  }

  subscribe_new-Alive :
      (found : Option (Subscription W)) (sc : Option ℕ) (s : DurConn W) (sub : Subscription W)
      (e : Option Error)
      → Alive s
      → Alive (subscribe_new found sc s sub e).1
  unfolding subscribe_new store_sub
  subscribe_new-Alive (some old) sc s sub e v = v
  subscribe_new-Alive none none s sub e v = record {
    opened_known = v.opened_known;
    lost_known = v.lost_known;
    trying = v.trying;
  }
  subscribe_new-Alive none (some c) s sub (some e) v = v
  subscribe_new-Alive none (some c) s sub none v = record {
    opened_known = v.opened_known;
    lost_known = v.lost_known;
    trying = v.trying;
  }

  subscribe_one-Alive :
      (s : DurConn W) (sub : Subscription W) (e : Option Error)
      → Alive s
      → Alive (subscribe_one s sub e).1
  unfolding subscribe_one
  subscribe_one-Alive s sub e v =
      if_cases (λ (r : Option Error × DurConn W). Alive (r.1)) s.closed _ _ (λ q. v)
        (λ q. subscribe_new-Alive (lookup (key_of sub) s.subs) s.sc s sub e v)

  reset-Alive : (s : DurConn W) → Alive s → Alive (reset_connection s)
  unfolding reset_connection
  reset-Alive s v =
      if_cases Alive s.closed _ _
        (λ q. record { opened_known = v.opened_known; lost_known = v.lost_known; trying = inl q })
        (λ q. record {
          opened_known = v.opened_known;
          lost_known = v.lost_known;
          trying = inr (inr tt);
        })

  release-Alive : (old : Option ℕ) (s : DurConn W) → Alive s → Alive (release_old old s)
  unfolding release_old
  release-Alive old s v = record {
    opened_known = λ d. elim (v.opened_known d) [
      | inl lt ↦ inl lt
      | inr h ↦ inr (open_after_held old d s.opened h)
    ];
    lost_known = v.lost_known;
    trying = inr (inr tt);
  }

  connect_failed-Alive : (s : DurConn W) → Alive s → Alive (connect_failed s)
  unfolding connect_failed
  connect_failed-Alive s v = record {
    opened_known = v.opened_known;
    lost_known = v.lost_known;
    trying = inr (inl (omega arith));
  }

  connected-Alive : (s : DurConn W) → Alive s → Alive (connected s)
  unfolding connected is_open
  connected-Alive s v = record {
    opened_known = λ d. (let known = v.opened_known d in ground (arith, known));
    lost_known = λ d. (let known = v.lost_known d in ground (arith, known));
    trying = inr (inr (let known = v.lost_known s.next_conn in ground (arith, known)));
  }

  update-Alive :
      (c : ℕ) (s : DurConn W) → s.phase ≡ updating c → Alive s → Alive (update_connection c s)
  unfolding update_connection
  update-Alive c s p v =
      if_cases Alive s.closed _ _
        (λ q. record {
          opened_known = λ d. elim (v.opened_known d) [
            | inl lt ↦ inl lt
            | inr h ↦ inr (open_after_close c d s.opened h)
          ];
          lost_known = v.lost_known;
          trying = inl q;
        })
        (λ q. record {
          opened_known = v.opened_known;
          lost_known = v.lost_known;
          trying = elim v.trying [
            | inl closed ↦ inl closed
            | inr (inl waits) ↦ inr (inl waits)
            | inr (inr works) ↦ inr (inr (rw p at works))
          ];
        })

  lose-Alive :
      (c : ℕ) (s : DurConn W)
      → is_open c s.opened ≡ true
      → Alive s
      → Alive (connection_lost (break_conn c s))
  unfolding connection_lost break_conn is_open
  lose-Alive c s o v = record {
    opened_known = v.opened_known;
    lost_known = λ d.
        (let there = v.opened_known c in
          let known = v.lost_known d in ground (arith, there, known, o));
    trying = inr (inl (omega arith));
  }

  close-Alive : (s : DurConn W) → Alive s → Alive (close s)
  unfolding close
  close-Alive s v =
      if_cases Alive s.closed _ _ (λ q. v)
        (λ q. record {
          opened_known = v.opened_known;
          lost_known = v.lost_known;
          trying = inl refl;
        })

  close_taken-Alive : (c : ℕ) (s : DurConn W) → Alive s → Alive (close_taken c s)
  unfolding close_taken
  close_taken-Alive c s v = record {
    opened_known = λ d. elim (v.opened_known d) [
      | inl lt ↦ inl lt
      | inr h ↦ inr (open_after_close c d s.opened h)
    ];
    lost_known = v.lost_known;
    trying = v.trying;
  }

  unchanged-Alive :
      (pending made : List (ℕ × (Key))) (s : DurConn W)
      → Alive s
      → Alive (record s { pending = pending; made = made })
  unchanged-Alive pending made s v = record {
    opened_known = v.opened_known;
    lost_known = v.lost_known;
    trying = v.trying;
  }

  Step-Alive : (s t : DurConn W) → Step s t → Alive s → Alive t
  unfolding subscribed stale
  Step-Alive s t (reset w p e) v = rw e (reset-Alive s v)
  Step-Alive s t (release old p e) v = rw e (release-Alive old s v)
  Step-Alive s t (dial_fails p e) v = rw e (connect_failed-Alive s v)
  Step-Alive s t (dial_succeeds p e) v = rw e (connected-Alive s v)
  Step-Alive s t (update c p e) v = rw e (update-Alive c s p v)
  Step-Alive s t (lose c o e) v = rw e (lose-Alive c s o v)
  Step-Alive s t (subscribe_call sub r e) v = rw e (subscribe_one-Alive s sub r v)
  Step-Alive s t (attempt c k p e) v = rw e (unchanged-Alive _ _ s v)
  Step-Alive s t (give_up c o e) v = rw e (unchanged-Alive _ _ s v)
  Step-Alive s t (close_call e) v = rw e (close-Alive s v)
  Step-Alive s t (close_conn_call c p e) v = rw e (close_taken-Alive c s v)

  Reach-Alive : {s : DurConn W} → Reach s → Alive s
  Reach-Alive (start e) = rw e start-Alive
  Reach-Alive (next {s} {t} r st) = Step-Alive s t st (Reach-Alive r)

  -- A DurConn that has not been closed never stops trying: in every interleaving, a goroutine is on
  -- its way to connect; or the connection in use has not been found broken, and no connect is at
  -- work; or connect is about to dial or is dialing, or has a new connection in hand that
  -- has not been found broken. In particular a broken connection is always followed by a connect.
  pub reconnects :
      {s : DurConn W}
      → Reach s
      → (s.closed ≡ true)
        ⊎ (0 < s.waiting)
        ⊎ ((c : ℕ) × (s.sc ≡ some c) × (s.phase ≡ idle) × (is_open c s.lost ≡ false))
        ⊎ (s.phase ≡ dialing)
        ⊎ ((old : Option ℕ) × (s.phase ≡ releasing old))
        ⊎ ((c : ℕ) × (s.phase ≡ updating c) × (is_open c s.lost ≡ false))
  reconnects {s} r = elim (Reach-Alive r).trying [
    | inl closed ↦ inl closed
    | inr (inl waits) ↦ inr (inl waits)
    | inr (inr works) ↦ inr (inr (working s.sc s.phase s.lost works))
  ]
