-- ===== src/Options.antt =====
-- The loop over options in natsrpc/server.go, natsrpc/client.go and stanmsg/durconn.go, the task
-- runner that an option may replace, and the bounds that options check.
use nproto.Prelude.{
  Bool, false, Option, none, some, List, [], ◌∷◌, ◌++◌, ℕ, leb, ◌≡◌, refl, sym, ap, ◌∙◌, inl, inr,
}
use nproto.Prelude.Int.{ℤ, pos, negsuc}
use nproto.Go.{Error, Result, ok, err, Result-cases}

-- n <= i
abbrev pub at_least : ℕ → ℤ → Bool
at_least n (pos i) = leb n i
at_least n (negsuc i) = false

-- The runner in use, and the runners that have been closed, the latest first.
pub record Runners : Type 0 where
  pub current : ℕ
  pub closed_runners : List ℕ

-- `runner.Close()` before a new runner takes its place.
unfoldable pub replace_runner : ℕ → Runners → Runners
replace_runner runner r = record { current = runner; closed_runners = r.current ∷ r.closed_runners }

-- `runner.Close()` of the deferred function.
unfoldable pub close_current : Runners → Runners
close_current r = record r { closed_runners = r.current ∷ r.closed_runners }

-- The steps of a list of options, the first one first.
unfoldable pub fold_steps {ℓ κ} : {O : Type ℓ} {S : Type κ} → (O → S → S) → List O → S → S
fold_steps step [] s = s
fold_steps step (o ∷ os) s = fold_steps step os (step o s)

module _ {ℓ κ} {C : Type ℓ} {O : Type κ} (apply : O → C → Result C) where
  -- `for _, opt := range opts { if err = opt(c); err != nil { return nil, err } }`: the error, and what
  -- the options have made of the object by then.
  unfoldable pub apply_all : List O → C → Option Error × C
  apply_all [] c = (none, c)
  apply_all (o ∷ os) c = elim (apply o c) [ err e ↦ (some e, c) | ok c' ↦ apply_all os c' ]

  -- What every successful option keeps holds after the loop.
  pub apply_all-keeps {μ} :
      (P : C → Type μ)
      → ((o : O) (c c' : C) → apply o c ≡ ok c' → P c → P c')
      → (os : List O) (c : C) → P c
      → P (apply_all os c).1
  unfolding apply_all
  apply_all-keeps P keeps [] c h = h
  apply_all-keeps P keeps (o ∷ os) c h = elim (Result-cases (apply o c)) [
    | inl (c', e) ↦ rw (e, apply_all) (apply_all-keeps P keeps os c' (keeps o c c' e h))
    | inr (f, e) ↦ rw (e, apply_all) h
  ]

  -- A loop that stops with an error does so at the first option that refuses what those before it
  -- have made.
  pub apply_all-stops :
      (os : List O) (c : C) (e : Error) (c' : C)
      → apply_all os c ≡ (some e, c')
      → (before : List O) × (o : O) × (rest : List O) × (os ≡ before ++ o ∷ rest)
        × (apply_all before c ≡ (none, c'))
        × (apply o c' ≡ err e)
  unfolding apply_all
  apply_all-stops [] c e c' h = absurd (cc)
  apply_all-stops (o ∷ os) c e c' h = elim (Result-cases (apply o c)) [
    | inl (d, q) ↦
        let (before, p, rest, split, done, refused) =
          apply_all-stops os d e c' (rw (q, apply_all) at h) in
        (o ∷ before, p, rest, ap (λ xs. o ∷ xs) split, rw (q, apply_all) done, refused)
    | inr (f, q) ↦
        let stopped = rw (q, apply_all) at h in
        let same : f ≡ e = cc in
        let kept : c ≡ c' = cc in ([], o, os, refl, rw kept refl, rw (← kept) (q ∙ ap err same))
  ]

  -- What the options of a loop without an error have made, seen by what each of them does.
  pub apply_all-fold {μ} :
      {S : Type μ} (view : C → S) (step : O → S → S)
      → ((o : O) (c c' : C) → apply o c ≡ ok c' → view c' ≡ step o (view c))
      → (os : List O) (c c' : C) → apply_all os c ≡ (none, c')
      → view c' ≡ fold_steps step os (view c)
  unfolding apply_all fold_steps
  apply_all-fold view step follows [] c c' h = ap view (sym (ap (λ r. r.1) h))
  apply_all-fold view step follows (o ∷ os) c c' h = elim (Result-cases (apply o c)) [
    | inl (d, q) ↦
        let rest = apply_all-fold view step follows os d c' (rw (q, apply_all) at h) in
        rest ∙ ap (fold_steps step os) (follows o c d q)
    | inr (f, q) ↦ absurd (let k = rw (q, apply_all) at h in cc)
  ]
