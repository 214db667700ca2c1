-- ===== src/Prelude/Tests.antt =====
-- Boolean tests, the conditional, equality as an interface, and case lemmas.
use Prim.Native.Nat.{ℕ, ◌≤◌, ◌<◌, compare, Ordering}
use mathlib.Core.Path.{◌≡◌, refl}
use mathlib.Core.Logic.{◌↔◌, ◌⊎◌, inl, inr}
use mathlib.Core.Bool.{Bool, true, false, ◌&&◌}
use mathlib.Core.List.{List, [], ◌∷◌}
use mathlib.Core.Option.{Option, none, some}
use native.Mathlib.Omega.{arith}

abbrev pub ltb : ℕ → ℕ → Bool
ltb a b = elim (compare a b) [ Ordering.lt ↦ true | _ ↦ false ]

abbrev pub leb : ℕ → ℕ → Bool
leb a b = elim (compare a b) [ Ordering.gt ↦ false | _ ↦ true ]

abbrev pub nat_beq : ℕ → ℕ → Bool
nat_beq a b = elim (compare a b) [ Ordering.eq ↦ true | _ ↦ false ]

infix 1 if◌then◌else◌
abbrev pub if◌then◌else◌ {ℓ} : {A : Type ℓ} → Bool → A → A → A
if true then x else y = x
if false then x else y = y

pub ltb→lt : (a b : ℕ) → ltb a b ≡ true → a < b
ltb→lt a b h = ground arith

pub lt→ltb : (a b : ℕ) → a < b → ltb a b ≡ true
lt→ltb a b h = ground arith

pub leb→le : (a b : ℕ) → leb a b ≡ true → a ≤ b
leb→le a b h = ground arith

pub nat_beq_iff : (a b : ℕ) → (nat_beq a b ≡ true) ↔ (a ≡ b)
nat_beq_iff a b = ground arith

pub Bool-cases : (b : Bool) → (b ≡ true) ⊎ (b ≡ false)
Bool-cases true = inl refl
Bool-cases false = inr refl

pub Option-cases {ℓ} : {A : Type ℓ} (o : Option A) → (o ≡ none) ⊎ ((a : A) × (o ≡ some a))
Option-cases none = inl refl
Option-cases (some a) = inr (a, refl)

-- Go's == on a comparable type.
pub record Eq {ℓ} (A : Type ℓ) : Type ℓ where
  pub beq : A → A → Bool
  pub beq_iff : (x y : A) → (beq x y ≡ true) ↔ (x ≡ y)

unfoldable pub list_beq : List ℕ → List ℕ → Bool
list_beq [] [] = true
list_beq (x ∷ xs) (y ∷ ys) = nat_beq x y && list_beq xs ys
list_beq _ _ = false

pub list_beq_iff : (a b : List ℕ) → (list_beq a b ≡ true) ↔ (a ≡ b)
unfolding list_beq
list_beq_iff [] [] = (λ _. refl, λ _. refl)
list_beq_iff [] (y ∷ ys) = (λ h. cc, λ h. cc)
list_beq_iff (x ∷ xs) [] = (λ h. cc, λ h. cc)
list_beq_iff (x ∷ xs) (y ∷ ys) = ground (arith, list_beq_iff xs ys)

infix 50 ◌==◌
abbrev pub ◌==◌ {κ} : {A : Type κ} ⦃same : Eq A⦄ (x y : A) → Bool
◌==◌ ⦃same⦄ x y = same.beq x y

instance abbrev pub nat_eq : Eq ℕ
nat_eq = record { beq = nat_beq; beq_iff = nat_beq_iff }

instance abbrev pub text_eq : Eq (List ℕ)
text_eq = record { beq = list_beq; beq_iff = list_beq_iff }

abbrev pub pair_beq : List ℕ × List ℕ → List ℕ × List ℕ → Bool
pair_beq p q = list_beq p.0 q.0 && list_beq p.1 q.1

pub pair_beq_iff : (p q : List ℕ × List ℕ) → (pair_beq p q ≡ true) ↔ (p ≡ q)
pair_beq_iff (a, b) (c, d) = ground (arith, list_beq_iff a c, list_beq_iff b d)

instance abbrev pub pair_eq : Eq (List ℕ × List ℕ)
pair_eq = record { beq = pair_beq; beq_iff = pair_beq_iff }

-- To prove of an if what holds of both branches.
pub if_cases {ℓ κ} :
    {A : Type ℓ} (P : A → Type κ) (b : Bool) (x y : A)
    → (b ≡ true → P x)
    → (b ≡ false → P y)
    → P (if b then x else y)
if_cases P true x y h k = h refl
if_cases P false x y h k = k refl
