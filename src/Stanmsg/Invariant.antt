-- ===== src/Stanmsg/Invariant.antt =====
-- stanmsg/durconn.go: what holds of a DurConn in every interleaving.
pub mod Connect
pub mod Subscribe
use nproto.Prelude.{
  Text, codes, Map, Eq, ◌==◌, if◌then◌else◌, lookup, insert, erase, keys, nat_beq, nat_eq, ltb, leb,
  length, length-append, length-map, ℕ, zero, suc, ◌+◌, ◌-◌, ◌*◌, ◌%◌, ◌≤◌, ◌<◌, ◌≡◌, ◌≢◌, ◌↔◌, ◌⊎◌,
  inl, inr, refl, sym, ap, ◌∙◌, Bool, true, false, not, ◌&&◌, ◌||◌, Option, none, some, List, [],
  ◌∷◌, ◌++◌, map, append-nil, append_assoc, arith, text_eq, list_beq, list_beq_iff, pair_eq,
  pair_beq_iff, Bool-cases, Option-cases, lookup-insert, lookup-erase, beq_refl, strip_prefix,
  strip_prefix-append, append-strip_prefix, trim_prefix, All, All-append, all, take, drop,
  get_elem?,
}
use native.Mathlib.Decide.{dec_lt}
use nproto.Go.{Error, Result}
use nproto.Stanmsg.{
  Subscription, Key, key_of, Phase, idle, releasing, dialing, updating, DurConn, at, remove,
  drop_conn, close_conn, close_held, new_dur_conn, reset_connection, connect_failed, connected,
  snapshot, update_connection, connection_lost, store_sub, subscribe_new, subscribe_one, subscribed,
  stale, close, is_open, has_pair, Step, reset, dial_fails, dial_succeeds, update, lose,
  subscribe_call, attempt, give_up, close_call, Reach, start, next,
}
use nproto.Stanmsg.Counts.{
  count, count-append, count-remove, count-drop_conn, count-drop_conn_le, count_key, count-snapshot,
  count-snapshot_ne, count_key-lookup, count_key-insert,
}

-- How often a subscription has been made on a connection or is still to be made.
abbrev pub weight : {W : Type 0} → ℕ → Key → DurConn W → ℕ
weight c k s = count c k s.made + count c k s.pending

-- The connection that Close has still to close, if there is one; else the one that connect has in
-- hand, if there is one; else the one in use.
abbrev pub held : Option ℕ → Option ℕ → Phase → List ℕ
held (some c) sc p = c ∷ []
held none sc (updating c) = c ∷ []
held none sc (releasing (some c)) = c ∷ []
held none sc (releasing none) = []
held none none idle = []
held none none dialing = []
held none (some c) idle = c ∷ []
held none (some c) dialing = c ∷ []

abbrev pub OnConn : Option ℕ → (ℕ → Type 0) → Type 0
OnConn none P = Unit
OnConn (some c) P = P c

abbrev pub InHand : Phase → (ℕ → Type 0) → Type 0
InHand idle P = Unit
InHand (releasing old) P = Unit
InHand dialing P = Unit
InHand (updating c) P = P c

-- Closing what connect has taken out leaves nothing.
pub close_held_lem : (old : Option ℕ) → close_held old (held none none (releasing old)) ≡ []
unfolding close_held
close_held_lem none = refl
close_held_lem (some c) = ground arith

-- Taking the connection out of the DurConn changes nothing in what is held.
pub held-releasing : (sc : Option ℕ) → held none sc idle ≡ held none none (releasing sc)
held-releasing none = refl
held-releasing (some c) = refl

pub held-closing :
    (sc : Option ℕ) (p : Phase) → (p ≡ idle) ⊎ (sc ≡ none) → held none sc p ≡ held sc none p
held-closing none p h = refl
held-closing (some c) idle h = refl
held-closing (some c) (releasing old) h = absurd (ground arith)
held-closing (some c) dialing h = absurd (ground arith)
held-closing (some c) (updating d) h = absurd (ground arith)

pub OnConn-map :
    (sc : Option ℕ) {P Q : ℕ → Type 0}
    → ((c : ℕ) → sc ≡ some c → P c → Q c)
    → OnConn sc P
    → OnConn sc Q
OnConn-map none f h = tt
OnConn-map (some c) f h = f c refl h

pub InHand-map :
    (p : Phase) {P Q : ℕ → Type 0}
    → ((c : ℕ) → p ≡ updating c → P c → Q c)
    → InHand p P
    → InHand p Q
InHand-map idle f h = tt
InHand-map (releasing old) f h = tt
InHand-map dialing f h = tt
InHand-map (updating c) f h = f c refl h

pub in_hand_of : (p : Phase) (c : ℕ) (P : ℕ → Type 0) → p ≡ updating c → InHand p P → P c
in_hand_of p c P e h = rw e at h

module _ {W : Type 0} where
  pub record Inv (s : DurConn W) : Type 0 where
    pub open_held : s.opened ≡ held s.closing s.sc s.phase
    pub exclusive : (s.phase ≡ idle) ⊎ (s.sc ≡ none)
    pub off : (s.closed ≡ false) ⊎ (s.sc ≡ none)
    pub shut : (s.closing ≡ none) ⊎ ((s.closed ≡ true) × (s.phase ≡ idle))
    pub exact : (k : Key) → OnConn s.sc (λ c. weight c k s ≡ count_key k s.subs)
    pub in_hand : (k : Key) → InHand s.phase (λ c. (weight c k s ≡ 0) × (c < s.next_conn))
    pub known : OnConn s.sc (λ c. c < s.next_conn)
    pub fresh : (c : ℕ) (k : Key) → (c < s.next_conn) ⊎ (weight c k s ≡ 0)
    pub single : (k : Key) → count_key k s.subs ≤ 1

  -- While connect is at work, there is no connection that Close has taken, and none in use.
  pub not_closing : (s : DurConn W) → s.phase ≢ idle → Inv s → s.closing ≡ none
  not_closing s h v = ground (arith, v.shut, h)

  pub no_conn : (s : DurConn W) → s.phase ≢ idle → Inv s → s.sc ≡ none
  no_conn s h v = ground (arith, v.exclusive, h)
