-- ===== src/Go.antt =====
-- What the packages share of Go: interface values and their dynamic types, errors, and the
-- formatting of package fmt that the source leaves to reflection.
use nproto.Prelude.{
  ◌⊎◌, inl, inr, Text, Bool, true, false, ◌≡◌, ◌↔◌, refl, ℕ, nat_beq, Option, none, some, List,
  arith,
}
use nproto.Prelude.Int.{ℤ}

-- A dynamic type of the program's user: a pointer that implements proto.Message, another pointer,
-- or a type that is no pointer. The number tells types of one kind apart.
pub data UserType : Type 0 where
  message : ℕ → UserType
  pointer : ℕ → UserType
  plain : ℕ → UserType

-- reflect.Type; `raw_data` is *rawenc.RawData.
pub data GoType : Type 0 where
  raw_data : GoType
  user : UserType → GoType

-- interface{}: nil, a *rawenc.RawData with its Format and Bytes, or a value of a user's type, whose
-- content is a number.
pub data Value : Type 0 where
  nil : Value
  raw : Text → Text → Value
  val : UserType → ℕ → Value

-- reflect.TypeOf; the nil interface has no type.
abbrev pub type_of : Value → Option GoType
type_of nil = none
type_of (raw f b) = some raw_data
type_of (val t n) = some (user t)

-- Kind() == reflect.Ptr
abbrev pub is_ptr : GoType → Bool
is_ptr raw_data = true
is_ptr (user (message n)) = true
is_ptr (user (pointer n)) = true
is_ptr (user (plain n)) = false

abbrev pub user_beq : UserType → UserType → Bool
user_beq (message a) (message b) = nat_beq a b
user_beq (pointer a) (pointer b) = nat_beq a b
user_beq (plain a) (plain b) = nat_beq a b
user_beq _ _ = false

abbrev pub type_beq : GoType → GoType → Bool
type_beq raw_data raw_data = true
type_beq (user s) (user t) = user_beq s t
type_beq _ _ = false

pub user_beq_iff : (s t : UserType) → (user_beq s t ≡ true) ↔ (s ≡ t)
user_beq_iff (message a) t = ground arith
user_beq_iff (pointer a) t = ground arith
user_beq_iff (plain a) t = ground arith

pub type_beq_iff : (s t : GoType) → (type_beq s t ≡ true) ↔ (s ≡ t)
type_beq_iff raw_data raw_data = (λ _. refl, λ _. refl)
type_beq_iff raw_data (user t) = (λ h. cc, λ h. cc)
type_beq_iff (user s) raw_data = (λ h. cc, λ h. cc)
type_beq_iff (user s) (user t) = ground (arith, user_beq_iff s t)

-- error: *rpc.RPCError with its code and message, or any other error by its message.
pub data Error : Type 0 where
  rpc_error : ℤ → Text → Error
  plain_error : Text → Error

-- A value and an error of which exactly one counts.
pub data Result {ℓ} (A : Type ℓ) : Type ℓ where
  ok : A → Result A
  err : Error → Result A

infixl 5 ◌>>=◌
abbrev pub ◌>>=◌ {ℓ κ} : {A : Type ℓ} {B : Type κ} → Result A → (A → Result B) → Result B
ok a >>= f = f a
err e >>= f = err e

pub Result-cases {ℓ} :
    {A : Type ℓ} (result : Result A)
    → ((x : A) × (result ≡ ok x)) ⊎ ((f : Error) × (result ≡ err f))
Result-cases (ok x) = inl (x, refl)
Result-cases (err f) = inr (f, refl)

pub ok_inj {ℓ} : {A : Type ℓ} {a b : A} → ◌≡◌ {A = Result A} (ok a) (ok b) → a ≡ b
ok_inj h = cc

-- A value whose marshalled bytes unmarshal to it.
abbrev pub Packed {ℓ} :
    {A : Type ℓ} → (A → Result (List ℕ)) → (List ℕ → Result A) → A → List ℕ → Type ℓ
Packed marshal unmarshal a b = (marshal a ≡ ok b) × (unmarshal b ≡ ok a)

-- How package fmt prints a value with %+v, a text with %q, a type and an integer: left to fmt,
-- strconv and reflect.
pub record Printer : Type 0 where
  pub verb_v : Value → Text
  pub verb_q : Text → Text
  pub type_string : GoType → Text
  pub format_int : ℤ → Text
