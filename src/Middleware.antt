-- ===== src/Middleware.antt =====
-- The loop shared by rpc/client.go, rpc/server.go, msg/publisher.go, msg/async_publisher.go and
-- msg/subscriber.go: `for i := len(mws) - 1; i >= 0; i-- { h = mws[i](…, h) }`.
use nproto.Prelude.{
  ℕ, zero, suc, ◌≤◌, ◌≡◌, ◌≢◌, inl, inr, Option-cases, refl, ap, ◌∙◌, List, [], ◌∷◌, ◌++◌, none,
  some, length, get_elem?, arith,
}

get_elem?-none {ℓ} : {A : Type ℓ} (i : ℕ) (xs : List A) → suc i ≤ length xs → get_elem? xs i ≢ none
get_elem?-none i [] h = absurd (omega arith)
get_elem?-none zero (x ∷ xs) h = cc
get_elem?-none (suc i) (x ∷ xs) h = get_elem?-none i xs (omega arith)

module _ {ℓ κ} {M : Type ℓ} {H : Type κ} (call : M → H → H) where
  -- The rounds with i = n - 1 down to 0.
  pub wrap_rounds : ℕ → List M → H → H
  wrap_rounds zero mws h = h
  wrap_rounds (suc i) mws h = elim (get_elem? mws i) [
    | none ↦ h
    | some mw ↦ wrap_rounds i mws (call mw h)
  ]

  unfoldable pub wrap_mws : List M → H → H
  unfolding wrap_rounds
  wrap_mws mws h = wrap_rounds (length mws) mws h

  -- The first middleware is the outermost.
  abbrev pub nest : List M → H → H
  nest [] h = h
  nest (m ∷ ms) h = call m (nest ms h)

  wrap_rounds-cons :
      (i : ℕ) (m : M) (ms : List M) (h : H)
      → i ≤ length ms
      → wrap_rounds (suc i) (m ∷ ms) h ≡ call m (wrap_rounds i ms h)
  unfolding wrap_rounds
  wrap_rounds-cons zero m ms h le = refl
  wrap_rounds-cons (suc i) m ms h le = elim (Option-cases (get_elem? ms i)) [
    | inl e ↦ rw (e, wrap_rounds) (absurd (get_elem?-none i ms le e))
    | inr (mw, e) ↦ rw (e, wrap_rounds) (wrap_rounds-cons i m ms (call mw h) (omega arith))
  ]

  pub wrap_mws-nest : (ms : List M) (h : H) → wrap_mws ms h ≡ nest ms h
  unfolding wrap_mws
  wrap_mws-nest [] h = unfold wrap_rounds in refl
  wrap_mws-nest (m ∷ ms) h =
      wrap_rounds-cons (length ms) m ms h (omega arith) ∙ ap (call m) (wrap_mws-nest ms h)

  pub nest-append : (xs ys : List M) (h : H) → nest (xs ++ ys) h ≡ nest xs (nest ys h)
  nest-append [] ys h = refl
  nest-append (x ∷ xs) ys h = ap (call x) (nest-append xs ys h)
