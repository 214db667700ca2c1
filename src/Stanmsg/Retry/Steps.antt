-- ===== src/Stanmsg/Retry/Steps.antt =====
-- stanmsg/durconn.go: the loop of subscribeAll is a sequence of steps of the DurConn.
use nproto.Prelude.{
  Map, Bool, true, false, pair_eq, Bool-cases, Option, none, some, List, [], ◌∷◌, ◌++◌, map, ℕ,
  zero, suc, ◌+◌, ◌≤◌, ◌<◌, ◌≡◌, inl, inr, refl, ◌∙◌, sym, ap, arith, pair_beq_iff,
}
use nproto.Stanmsg.{
  Subscription, Key, updating, DurConn, snapshot, has_pair, subscribed, update_connection, attempt,
  update, Reach, next,
}
use nproto.Stanmsg.Counts.{count, count-append, count-remove, count_key, count-snapshot}
use nproto.Stanmsg.Invariant.{weight, in_hand_of}
use nproto.Stanmsg.Safety.{Reach-Inv}
use nproto.Stanmsg.Retry.{
  Round, subscribe_round, all_done, Ended, all_made, went_stale, after_round, subscribe_all,
}
use nproto.Stanmsg.Retry.Laws.{
  times, times-append, dones, entries, dones_bound, dones-all_done, round_counts,
}

-- What a run of the loop has made: no key more often than it has an entry that was not done, and
-- just as often if all have been made.
abbrev Counts : List (Key × Bool) → Ended → List Key → Type 0
Counts ps e made =
    (k : Key)
    → (times k made + dones k ps ≤ entries k ps)
      × (e ≡ all_made → times k made + dones k ps ≡ entries k ps)

module _ (answers stale : ℕ → Key → Bool) (stale_wait : ℕ → Bool) where
  later-Counts :
      (i : ℕ) (ps : List (Key × Bool)) (rest : Option (Ended × List Key)) (e : Ended)
      (made : List Key)
      → after_round (subscribe_round (answers i) (stale i) ps).made rest ≡ some (e, made)
      → ((later : List Key)
          → rest ≡ some (e, later)
          → Counts (subscribe_round (answers i) (stale i) ps).flags e later)
      → Counts ps e made
  unfolding after_round
  later-Counts i ps none e made h go k = absurd (cc)
  later-Counts i ps (some (f, later)) e made h go k =
      let r : Round = subscribe_round (answers i) (stale i) ps in
      let same : f ≡ e = cc in
      let all : r.made ++ later ≡ made = cc in
      let counts = go later (rw same refl) k in
      let c = round_counts (answers i) (stale i) k ps in
      let both = times-append k r.made later in
      rw (← all) (
        omega (arith, c.0, c.1, both, counts.0),
        λ p. (let full = counts.1 p in omega (arith, c.0, c.1, both, full)),
      )

  stopped-Counts :
      (i : ℕ) (ps : List (Key × Bool)) (e : Ended) (made : List Key)
      → ◌≡◌ {A = Option (Ended × List Key)}
          (some (went_stale, (subscribe_round (answers i) (stale i) ps).made))
          (some (e, made))
      → Counts ps e made
  stopped-Counts i ps e made h k =
      let r : Round = subscribe_round (answers i) (stale i) ps in
      let all : r.made ≡ made = cc in
      let ended : went_stale ≡ e = cc in
      let c = round_counts (answers i) (stale i) k ps in
      rw (← all) (omega (arith, c.0, c.1, dones_bound k r.flags), λ p. absurd (cc))

  done-Counts :
      (i : ℕ) (ps : List (Key × Bool)) (e : Ended) (made : List Key)
      → all_done (subscribe_round (answers i) (stale i) ps).flags ≡ true
      → ◌≡◌ {A = Option (Ended × List Key)}
          (some (all_made, (subscribe_round (answers i) (stale i) ps).made))
          (some (e, made))
      → Counts ps e made
  done-Counts i ps e made d h k =
      let r : Round = subscribe_round (answers i) (stale i) ps in
      let all : r.made ≡ made = cc in
      let c = round_counts (answers i) (stale i) k ps in
      let full = dones-all_done k r.flags d in
      rw (← all) (omega (arith, c.0, c.1, full), λ p. omega (arith, c.0, c.1, full))

  loop-Counts :
      (fuel i : ℕ) (ps : List (Key × Bool)) (e : Ended) (made : List Key)
      → subscribe_all answers stale stale_wait fuel i ps ≡ some (e, made)
      → Counts ps e made
  unfolding subscribe_all
  loop-Counts zero i ps e made h = absurd (cc)
  loop-Counts (suc fuel) i ps e made h =
      let r : Round = subscribe_round (answers i) (stale i) ps in
      elim (Bool-cases r.stopped) [
        | inl s ↦ stopped-Counts i ps e made (rw (s, subscribe_all) at h)
        | inr s ↦ elim (Bool-cases (all_done r.flags)) [
          | inl f ↦ done-Counts i ps e made f (rw (s, f, subscribe_all) at h)
          | inr f ↦ elim (Bool-cases (stale_wait i)) [
            | inl t ↦ stopped-Counts i ps e made (rw (s, f, t, subscribe_all) at h)
            | inr t ↦
                later-Counts i ps (subscribe_all answers stale stale_wait fuel (i + 1) r.flags) e
                  made (rw (s, f, t, subscribe_all) at h)
                  (λ later q. loop-Counts fuel (i + 1) r.flags e later q)
          ]
        ]
      ]

has_pair_of_count :
    (c : ℕ) (k : Key) (ps : List (ℕ × Key)) → 0 < count c k ps → has_pair c k ps ≡ true
unfolding count has_pair
has_pair_of_count c k [] h = absurd (omega (arith, h))
has_pair_of_count c k (p ∷ ps) h = ground (arith, has_pair_of_count c k ps)

count-nil : (c : ℕ) (k : Key) → count c k [] ≡ 0
unfolding count
count-nil c k = refl

times_first : (k : Key) (ks : List Key) → times k (k ∷ ks) ≡ times k ks + 1
unfolding times
times_first k ks = ground (arith, pair_beq_iff k k)

-- One more made, in both ways to count.
count-times :
    (c : ℕ) (j k : Key) (ks : List Key) (ps : List (ℕ × Key))
    → times k (j ∷ ks) + count c k ps ≡ times k ks + count c k ((c, j) ∷ ps)
unfolding times count
count-times c j k ks ps = ground arith

module _ {W : Type 0} where
  -- The subscriptions that the loop makes on a connection, one after the other.
  pub make_all : ℕ → List Key → DurConn W → DurConn W
  make_all c [] dc = dc
  make_all c (k ∷ ks) dc = make_all c ks (subscribed c k dc)

  make_all-Reach :
      (c : ℕ) (ks : List Key) (dc : DurConn W)
      → Reach dc
      → ((k : Key) → times k ks ≤ count c k dc.pending)
      → Reach (make_all c ks dc)
        × ((k : Key) → count c k (make_all c ks dc).made ≡ times k ks + count c k dc.made)
  unfolding make_all times subscribed
  make_all-Reach c [] dc r h = (r, λ k. omega arith)
  make_all-Reach c (j ∷ ks) dc r h =
      let there : has_pair c j dc.pending ≡ true =
        has_pair_of_count c j dc.pending (omega (arith, h j, times_first j ks)) in
      let (r', made) =
        make_all-Reach c ks (subscribed c j dc) (next r (attempt c j there refl)) (λ k.
          (let moved = count-remove c c k j dc.pending there in
            let both = count-times c j k ks [] in
            let none_left = count-nil c k in omega (arith, h k, moved, both, none_left))) in
      (r', λ k. made k ∙ sym (count-times c j k ks dc.made))

  -- What subscribeAll starts with: nothing done, an entry for each subscription.
  abbrev pub flags_of : Map Key (Subscription W) → List (Key × Bool)
  flags_of = map (λ p. (p.0, false))

  flags_of_counts :
      (k : Key) (m : Map Key (Subscription W))
      → (dones k (flags_of m) ≡ 0) × (entries k (flags_of m) ≡ count_key k m)
  unfolding dones entries count_key
  flags_of_counts k [] = (refl, refl)
  flags_of_counts k (p ∷ m) = ground (arith, flags_of_counts k m)

  update-open :
      (c : ℕ) (s : DurConn W)
      → s.closed ≡ false
      → (update_connection c s).pending ≡ snapshot c s.subs ++ s.pending
  unfolding update_connection
  update-open c s h = rw h refl

  update-made : (c : ℕ) (s : DurConn W) → (update_connection c s).made ≡ s.made
  unfolding update_connection
  update-made c s = ground arith

  -- When connect has a new connection in hand and stores it, a run of subscribeAll on the
  -- subscriptions of that moment, whatever the calls of subscribe answer, leads to a reachable state
  -- of the DurConn, in which no subscription has been made on that connection more often than it is
  -- stored; if the run did not stop on scStaleCh, each has been made as often as it is stored.
  pub subscribe_all-Reach :
      (answers stale : ℕ → Key → Bool) (stale_wait : ℕ → Bool) (fuel c : ℕ) (s : DurConn W)
      (e : Ended) (made : List Key)
      → Reach s
      → s.phase ≡ updating c
      → s.closed ≡ false
      → subscribe_all answers stale stale_wait fuel 0 (flags_of s.subs) ≡ some (e, made)
      → Reach (make_all c made (update_connection c s))
        × ((k : Key)
            → (count c k (make_all c made (update_connection c s)).made ≤ count_key k s.subs)
              × (e ≡ all_made
                  → count c k (make_all c made (update_connection c s)).made ≡ count_key k s.subs))
  subscribe_all-Reach answers stale stale_wait fuel c s e made r p o h =
      let u : DurConn W = update_connection c s in
      let counts = loop-Counts answers stale stale_wait fuel 0 (flags_of s.subs) e made h in
      let fresh : (k : Key) → weight c k s ≡ 0 =
        λ k. (in_hand_of s.phase c _ p ((Reach-Inv r).in_hand k)).0 in
      let (reach, balance) = make_all-Reach c made u (next r (update c p refl)) (λ k.
        (let all : count c k u.pending ≡ count c k (snapshot c s.subs) + count c k s.pending =
            ap (count c k) (update-open c s o) ∙ count-append c k (snapshot c s.subs) s.pending in
          let start = flags_of_counts k s.subs in
          omega (arith, all, count-snapshot c k s.subs, start.0, start.1, (counts k).0))) in
      (
        reach,
        λ k.
            let before : count c k u.made ≡ count c k s.made = ap (count c k) (update-made c s) in
            let start = flags_of_counts k s.subs in
            let now = balance k in
            let zero_before = fresh k in
            (
              omega (arith, before, now, zero_before, start.0, start.1, (counts k).0),
              λ q.
                  let full = (counts k).1 q in
                  omega (arith, before, now, zero_before, start.0, start.1, full),
            ),
      )
