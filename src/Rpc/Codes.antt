-- ===== src/Rpc/Codes.antt =====
-- rpc/error.go and rpc/rpcerrorcode_string.go: the names of the error codes.
use nproto.Prelude.{
  Text, codes, if◌then◌else◌, nat_beq, nat_eq, leb, ℕ, zero, suc, ◌-◌, ◌<◌, ◌≡◌, inl, inr, refl, ap,
  ◌==◌, not, List, [], ◌∷◌, take, drop, get_elem?, ◌+◌, ◌∙◌, Option, none, some, ◌++◌, arith,
  text_eq, pair_eq, Bool-cases, Option-cases,
}
use nproto.Prelude.Int.{ℤ, pos, negsuc, to_int16, IsInt16, ◌+ℤ◌}

-- _RPCErrorCode_name and _RPCErrorCode_index
code_names : Text
code_names =
    codes
      "DecodeResponseErrorEncodeResponseErrorDecodeRequestErrorEncodeRequestErrorMethodNotFoundSvcNotFoundUnknownError"

code_index : List ℕ
code_index = 0 ∷ 19 ∷ 38 ∷ 56 ∷ 74 ∷ 88 ∷ 99 ∷ 111 ∷ []

index_at : ℕ → ℕ
unfolding code_index
index_at i = elim (get_elem? code_index i) [ none ↦ 0 | some n ↦ n ]

-- s[a:b]
slice : Text → ℕ → ℕ → Text
slice s a b = take (b - a) (drop a s)

module _ (format_int : ℤ → Text) where
  -- The two branches of RPCErrorCode.String after `i -= -32606`, an int16 subtraction.
  name_of_offset : ℤ → Text
  unfolding code_names index_at slice
  name_of_offset (negsuc n) =
      codes "RPCErrorCode(" ++ format_int (to_int16 (negsuc n +ℤ negsuc 32605)) ++ codes ")"
  name_of_offset (pos n) =
      if leb 7 n
      then codes "RPCErrorCode(" ++ format_int (to_int16 (pos n +ℤ negsuc 32605)) ++ codes ")"
      else slice code_names (index_at n) (index_at (n + 1))

  -- RPCErrorCode.String; strconv.FormatInt is the parameter.
  pub code_string : ℤ → Text
  unfolding name_of_offset
  code_string i = name_of_offset (to_int16 (i +ℤ pos 32606))

  -- RPCError.Error
  pub error_string : ℤ → Text → Text
  error_string code message =
      codes "RPCError("
      ++ code_string code
      ++ (if not (message == []) then codes " " else [])
      ++ message
      ++ codes ")"

-- The constants of rpc/error.go under their names.
pub constant_name : ℤ → Option Text
constant_name (pos n) = none
constant_name (negsuc n) =
    if nat_beq n 32599
    then some (codes "UnknownError")
    else if nat_beq n 32600
    then some (codes "SvcNotFound")
    else if nat_beq n 32601
    then some (codes "MethodNotFound")
    else if nat_beq n 32602
    then some (codes "EncodeRequestError")
    else if nat_beq n 32603
    then some (codes "DecodeRequestError")
    else if nat_beq n 32604
    then some (codes "EncodeResponseError")
    else if nat_beq n 32605
    then some (codes "DecodeResponseError")
    else none

-- The subtraction in String and its undoing, both on int16.
offset_back : (i : ℤ) → IsInt16 i → to_int16 (to_int16 (i +ℤ pos 32606) +ℤ negsuc 32605) ≡ i
unfolding to_int16 ◌+ℤ◌
offset_back (pos n) h = ground arith
offset_back (negsuc n) h = ground arith

-- The offsets that index the table.
abbrev InTable : ℤ → Type 0
InTable (pos n) = n < 7
InTable (negsuc n) = ⊥

offset_outside :
    (i : ℤ) → IsInt16 i → constant_name i ≡ none → ¬ InTable (to_int16 (i +ℤ pos 32606))
unfolding constant_name to_int16 ◌+ℤ◌
offset_outside (pos n) h e = ground arith
offset_outside (negsuc n) h e = ground arith

module _ (format_int : ℤ → Text) where
  abbrev numbered : ℤ → Text
  numbered i = codes "RPCErrorCode(" ++ format_int i ++ codes ")"

  -- The name of a constant, or else the number.
  pub named : Option Text → ℤ → Text
  named none i = numbered i
  named (some s) i = s

  name_outside :
      (o : ℤ) → ¬ InTable o → name_of_offset format_int o ≡ numbered (to_int16 (o +ℤ negsuc 32605))
  unfolding name_of_offset
  name_outside (negsuc n) h = refl
  name_outside (pos n) h = elim (Bool-cases (leb 7 n)) [
    | inl e ↦ rw (e, name_of_offset)
    | inr e ↦ absurd (h (ground arith))
  ]

  table :
      (k : ℕ)
      → k < 7
      → code_string format_int (negsuc (32605 - k))
        ≡ named (constant_name (negsuc (32605 - k))) (negsuc (32605 - k))
  unfolding code_string constant_name to_int16 ◌+ℤ◌ named
  table zero h = refl
  table (suc zero) h = refl
  table (suc (suc zero)) h = refl
  table (suc (suc (suc zero))) h = refl
  table (suc (suc (suc (suc zero)))) h = refl
  table (suc (suc (suc (suc (suc zero))))) h = refl
  table (suc (suc (suc (suc (suc (suc zero)))))) h = refl
  table (suc (suc (suc (suc (suc (suc (suc k))))))) h = absurd (omega arith)

  constant_place :
      (i : ℤ) (s : Text) → constant_name i ≡ some s → (k : ℕ) × (k < 7) × (i ≡ negsuc (32605 - k))
  unfolding constant_name
  constant_place (pos n) s e = absurd (cc)
  constant_place (negsuc n) s e = (32605 - n, ground arith, ground arith)

  -- For every int16, RPCErrorCode.String gives the name of the constant with this value, and
  -- otherwise the number in RPCErrorCode(…), also where the subtraction in it wraps around.
  pub code_string_lem : (i : ℤ) → IsInt16 i → code_string format_int i ≡ named (constant_name i) i
  code_string_lem i h = elim (Option-cases (constant_name i)) [
    | inl e ↦
        let outside = name_outside (to_int16 (i +ℤ pos 32606)) (offset_outside i h e) in
        rw e (unfold code_string named in outside ∙ ap numbered (offset_back i h))
    | inr (s, e) ↦ let (k, lt, place) = constant_place i s e in rw place (table k lt)
  ]
