-- ===== src/Prelude/Dicts.antt =====
-- Go's map as an association list: one entry for each key, a write replaces it.
use mathlib.Core.Path.{◌≡◌, refl}
use mathlib.Core.Bool.{true}
use mathlib.Core.List.{List, [], ◌∷◌, ◌++◌, map}
use mathlib.Core.Option.{Option, none, some}
use mathlib.Core.Logic.{inl, inr}
use native.Mathlib.Omega.{arith}
use nproto.Prelude.Tests.{Eq, Bool-cases, ◌==◌, if◌then◌else◌}

abbrev pub Map {ℓ κ} : Type ℓ → Type κ → Type (ℓ ⊔ κ)
Map K V = List (K × V)

module _ {ℓ κ} {K : Type ℓ} {V : Type κ} ⦃e : Eq K⦄ where
  -- v, ok := m[k]
  unfoldable pub lookup : K → Map K V → Option V
  lookup k [] = none
  lookup k (entry ∷ m) = if entry.0 == k then some entry.1 else lookup k m

  -- m[k] = v
  unfoldable pub insert : K → V → Map K V → Map K V
  insert k v [] = (k, v) ∷ []
  insert k v (entry ∷ m) = if entry.0 == k then (k, v) ∷ m else entry ∷ insert k v m

  -- delete(m, k)
  unfoldable pub erase : K → Map K V → Map K V
  erase k [] = []
  erase k ((j, v) ∷ m) = let rest = erase k m in if j == k then rest else (j, v) ∷ rest

  pub lookup-insert :
      (k j : K) (v : V) (m : Map K V)
      → lookup j (insert k v m) ≡ (if k == j then some v else lookup j m)
  unfolding lookup insert
  lookup-insert k j v [] = refl
  lookup-insert k j v ((i, old) ∷ m) =
      ground (arith, lookup-insert k j v m, e.beq_iff i j, e.beq_iff i k, e.beq_iff k j)

  pub lookup-erase :
      (k j : K) (m : Map K V) → lookup j (erase k m) ≡ (if k == j then none else lookup j m)
  unfolding lookup erase
  lookup-erase k j [] = ground arith
  lookup-erase k j ((i, w) ∷ m) =
      ground (arith, e.beq_iff k j, e.beq_iff i k, e.beq_iff i j, lookup-erase k j m)

pub beq_refl {ℓ} : {K : Type ℓ} ⦃e : Eq K⦄ (k : K) → (k == k) ≡ true
beq_refl ⦃e⦄ k = (e.beq_iff k k).1 refl

abbrev pub keys {ℓ κ} : {K : Type ℓ} {V : Type κ} → Map K V → List K
keys = map (λ p. p.0)

module _ {ℓ κ} {K : Type ℓ} {V : Type κ} ⦃e : Eq K⦄ where
  pub insert_new :
      (k : K) (w : V) (m : Map K V) → lookup k m ≡ none → insert k w m ≡ m ++ (k, w) ∷ []
  unfolding lookup insert
  insert_new k w [] h = refl
  insert_new k w ((j, v) ∷ m) h = ground (arith, insert_new k w m)

  pub keys-insert_old :
      (k : K) (v w : V) (m : Map K V) → lookup k m ≡ some v → keys (insert k w m) ≡ keys m
  unfolding lookup insert
  keys-insert_old k v w [] h = absurd (cc)
  keys-insert_old k v w ((j, u) ∷ m) h = ground (arith, keys-insert_old k v w m, e.beq_iff j k)

  pub lookup-none_of_keys {μ} :
      {U : Type μ} (k : K) (m : Map K V) (n : Map K U)
      → keys m ≡ keys n
      → lookup k m ≡ none
      → lookup k n ≡ none
  unfolding lookup
  lookup-none_of_keys k m [] h l = refl
  lookup-none_of_keys k [] ((i, u) ∷ n) h l = absurd (cc)
  lookup-none_of_keys k ((j, v) ∷ m) ((i, u) ∷ n) h l =
      let same : j ≡ i = cc in
      let rest : keys m ≡ keys n = cc in
      elim (Bool-cases (j == k)) [
        | inl q ↦ absurd (let l' = rw q at l in cc)
        | inr q ↦ rw (← same, q) (lookup-none_of_keys k m n rest (rw q at l))
      ]
