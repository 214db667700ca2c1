-- ===== src/Stanmsg/Retry/Laws.antt =====
-- stanmsg/durconn.go: the loop of subscribeAll ends, and what it has made by then.
use nproto.Prelude.{
  Bool, true, false, ◌==◌, pair_eq, if◌then◌else◌, Bool-cases, some, List, [], ◌∷◌, ◌++◌, map, ℕ,
  zero, suc, ◌+◌, ◌≤◌, ◌<◌, ◌≡◌, ◌≢◌, ◌⊎◌, inl, inr, refl, ◌∙◌, arith, All,
}
use nproto.Stanmsg.{Key}
use nproto.Stanmsg.Retry.{
  Round, subscribe_round, all_done, Ended, all_made, went_stale, after_round, subscribe_all,
}

unfoldable pub times : Key → List Key → ℕ
times k [] = 0
times k (j ∷ js) = let rest = times k js in if j == k then rest + 1 else rest

pub times-append : (k : Key) (xs ys : List Key) → times k (xs ++ ys) ≡ times k xs + times k ys
unfolding times
times-append k [] ys = omega arith
times-append k (x ∷ xs) ys = ground (arith, times-append k xs ys)

-- How many entries of a key are done, and how many there are.
unfoldable pub dones : Key → List (Key × Bool) → ℕ
dones k [] = 0
dones k (p ∷ ps) =
    let rest = dones k ps in if p.0 == k then (if p.1 then rest + 1 else rest) else rest

unfoldable pub entries : Key → List (Key × Bool) → ℕ
entries k [] = 0
entries k (p ∷ ps) = let rest = entries k ps in if p.0 == k then rest + 1 else rest

pub dones_bound : (k : Key) (ps : List (Key × Bool)) → dones k ps ≤ entries k ps
unfolding dones entries
dones_bound k [] = omega arith
dones_bound k ((j, b) ∷ ps) = ground (arith, dones_bound k ps)

pub dones-all_done :
    (k : Key) (ps : List (Key × Bool)) → all_done ps ≡ true → dones k ps ≡ entries k ps
unfolding dones entries all_done
dones-all_done k [] h = refl
dones-all_done k ((j, true) ∷ ps) h = ground (arith, dones-all_done k ps h)
dones-all_done k ((j, false) ∷ ps) h = absurd (cc)

pub round_counts :
    (answers stale : Key → Bool) (k : Key) (ps : List (Key × Bool))
    → let r = subscribe_round answers stale ps in
      (times k r.made + dones k ps ≡ dones k r.flags) × (entries k r.flags ≡ entries k ps)
unfolding subscribe_round dones entries times
round_counts answers stale k [] = (omega arith, refl)
round_counts answers stale k ((j, true) ∷ ps) = ground (arith, round_counts answers stale k ps)
round_counts answers stale k ((j, false) ∷ ps) = ground (arith, round_counts answers stale k ps)

pub start_counts :
    (k : Key) (ks : List Key)
    → (dones k (map (λ j. (j, false)) ks) ≡ 0) × (entries k (map (λ j. (j, false)) ks) ≡ times k ks)
unfolding dones entries times
start_counts k [] = (refl, refl)
start_counts k (j ∷ ks) = ground (arith, start_counts k ks)

module _ (answers stale : ℕ → Key → Bool) (stale_wait : ℕ → Bool) (n : ℕ) where
  -- The call for a subscription succeeds in a round from i to n.
  abbrev pub Accepted : ℕ → Key → Type 0
  Accepted i k = (j : ℕ) × (i ≤ j) × (j ≤ n) × (answers j k ≡ true)

  abbrev Waits : ℕ → Key × Bool → Type 0
  Waits i p = (p.1 ≡ true) ⊎ Accepted i p.0

  still-Waits :
      (i : ℕ) (k : Key) → answers i k ≡ false → Waits i (k, false) → Waits (i + 1) (k, false)
  still-Waits i k refused (inl h) = absurd (cc)
  still-Waits i k refused (inr (j, lo, hi, took)) =
      let later : j ≢ i = λ e. absurd (let took' = rw e at took in cc) in
      inr (j, ground (arith, lo, later), hi, took)

  round-Waits :
      (i : ℕ) (ps : List (Key × Bool))
      → (subscribe_round (answers i) (stale i) ps).stopped ≡ false
      → All (Waits i) ps
      → All (Waits (i + 1)) (subscribe_round (answers i) (stale i) ps).flags
  unfolding subscribe_round
  round-Waits i [] s h = tt
  round-Waits i ((k, true) ∷ ps) s h = (inl refl, round-Waits i ps s h.1)
  round-Waits i ((k, false) ∷ ps) s h = elim (Bool-cases (answers i k)) [
    | inl a ↦ elim (Bool-cases (stale i k)) [
      | inl t ↦ absurd (let s' = rw (a, t) at s in cc)
      | inr t ↦ rw (a, t) (inl refl, round-Waits i ps (rw (a, t) at s) h.1)
    ]
    | inr a ↦ rw a (still-Waits i k a h.0, round-Waits i ps (rw a at s) h.1)
  ]

  Waits-over : (i : ℕ) (ps : List (Key × Bool)) → n < i → All (Waits i) ps → all_done ps ≡ true
  unfolding all_done
  Waits-over i [] late h = refl
  Waits-over i ((k, true) ∷ ps) late h = Waits-over i ps late h.1
  Waits-over i ((k, false) ∷ ps) late (inl h, rest) = absurd (cc)
  Waits-over i ((k, false) ∷ ps) late (inr (j, lo, hi, took), rest) =
      absurd (omega (arith, lo, hi, late))

  -- How a run of the loop ends, with what it has made by then.
  abbrev pub Ends : ℕ → ℕ → List (Key × Bool) → Type 0
  Ends fuel i ps =
      (e : Ended) × (made : List Key) × (subscribe_all answers stale stale_wait fuel i ps
        ≡ some (e, made))
      × ((k : Key)
          → (times k made + dones k ps ≤ entries k ps)
            × (e ≡ all_made → times k made + dones k ps ≡ entries k ps))

  Ends-stopped :
      (fuel i : ℕ) (ps : List (Key × Bool))
      → subscribe_all answers stale stale_wait (suc fuel) i ps
        ≡ some (went_stale, (subscribe_round (answers i) (stale i) ps).made)
      → Ends (suc fuel) i ps
  Ends-stopped fuel i ps h =
      let r : Round = subscribe_round (answers i) (stale i) ps in
      (
        went_stale,
        r.made,
        h,
        λ k.
            let c = round_counts (answers i) (stale i) k ps in
            (omega (arith, c.0, c.1, dones_bound k r.flags), λ q. absurd (cc)),
      )

  Ends-done :
      (fuel i : ℕ) (ps : List (Key × Bool))
      → all_done (subscribe_round (answers i) (stale i) ps).flags ≡ true
      → subscribe_all answers stale stale_wait (suc fuel) i ps
        ≡ some (all_made, (subscribe_round (answers i) (stale i) ps).made)
      → Ends (suc fuel) i ps
  Ends-done fuel i ps d h =
      let r : Round = subscribe_round (answers i) (stale i) ps in
      (
        all_made,
        r.made,
        h,
        λ k.
            let c = round_counts (answers i) (stale i) k ps in
            let full = dones-all_done k r.flags d in
            (omega (arith, c.0, c.1, full), λ q. omega (arith, c.0, c.1, full)),
      )

  Ends-later :
      (fuel i : ℕ) (ps : List (Key × Bool))
      → subscribe_all answers stale stale_wait (suc fuel) i ps
        ≡ after_round (subscribe_round (answers i) (stale i) ps).made (
            subscribe_all answers stale stale_wait fuel
              (i + 1)
              (subscribe_round (answers i) (stale i) ps).flags)
      → Ends fuel (i + 1) (subscribe_round (answers i) (stale i) ps).flags
      → Ends (suc fuel) i ps
  unfolding after_round
  Ends-later fuel i ps h (e, later, q, counts) =
      let r : Round = subscribe_round (answers i) (stale i) ps in
      (
        e,
        r.made ++ later,
        h ∙ rw q refl,
        λ k.
            let c = round_counts (answers i) (stale i) k ps in
            let both = times-append k r.made later in
            (
              omega (arith, c.0, c.1, both, (counts k).0),
              λ p. (let full = (counts k).1 p in omega (arith, c.0, c.1, both, full)),
            ),
      )

  loop-Ends :
      (fuel i : ℕ) (ps : List (Key × Bool))
      → (all_done ps ≡ false) ⊎ (i ≡ 0)
      → i + fuel ≡ n + 1
      → All (Waits i) ps
      → Ends fuel i ps
  unfolding subscribe_all
  loop-Ends zero i ps (inl d) h w = absurd (let over = Waits-over i ps (omega (arith, h)) w in cc)
  loop-Ends zero i ps (inr z) h w = absurd (omega (arith, h, z))
  loop-Ends (suc fuel) i ps d h w =
      let r : Round = subscribe_round (answers i) (stale i) ps in
      elim (Bool-cases r.stopped) [
        | inl s ↦ Ends-stopped fuel i ps (rw (s, subscribe_all) refl)
        | inr s ↦ elim (Bool-cases (all_done r.flags)) [
          | inl f ↦ Ends-done fuel i ps f (rw (s, f, subscribe_all) refl)
          | inr f ↦ elim (Bool-cases (stale_wait i)) [
            | inl t ↦ Ends-stopped fuel i ps (rw (s, f, t, subscribe_all) refl)
            | inr t ↦
                Ends-later fuel i ps (rw (s, f, t, subscribe_all) refl)
                  (loop-Ends fuel (i + 1) r.flags (inl f) (omega (arith, h)) (round-Waits i ps s w))
          ]
        ]
      ]

  start-Waits : (ks : List Key) → All (Accepted 0) ks → All (Waits 0) (map (λ j. (j, false)) ks)
  start-Waits [] h = tt
  start-Waits (k ∷ ks) h = (inr h.0, start-Waits ks h.1)

  -- The loop of subscribeAll ends: if for each of its subscriptions the call of subscribe succeeds in
  -- one of the rounds 0 to n, then it is over after at most n + 1 rounds, whatever else fails and
  -- whenever scStaleCh is closed; it has then made no subscription more often than it was
  -- given, and as often as it was given if it did not stop on scStaleCh.
  pub subscribe_all_ends :
      (ks : List Key)
      → All (Accepted 0) ks
      → (e : Ended) × (made : List Key) × (subscribe_all answers stale stale_wait
            (n + 1)
            0
            (map (λ k. (k, false)) ks)
          ≡ some (e, made))
        × ((k : Key) → (times k made ≤ times k ks) × (e ≡ all_made → times k made ≡ times k ks))
  subscribe_all_ends ks h =
      let (e, made, q, counts) =
        loop-Ends (n + 1) 0 (map (λ k. (k, false)) ks) (inr refl) (omega arith)
          (start-Waits ks h) in
      (
        e,
        made,
        q,
        λ k.
            let s = start_counts k ks in
            (
              omega (arith, (counts k).0, s.0, s.1),
              λ p. (let full = (counts k).1 p in omega (arith, full, s.0, s.1)),
            ),
      )
