-- ===== src/Enc/Laws.antt =====
-- enc/rawenc/rawenc.go and enc/pjenc/pjenc.go: the contract of Encoder, and decoding what was
-- encoded.
use nproto.Prelude.{
  Text, ◌==◌, if◌then◌else◌, nat_eq, ℕ, ◌≡◌, ◌≢◌, ◌⊎◌, inl, inr, refl, Bool, true, false, Option,
  none, some, [], arith, text_eq, list_beq, list_beq_iff, pair_eq, Bool-cases,
}
use nproto.Go.{
  GoType, UserType, message, pointer, plain, user, Value, nil, raw, val, Error, Result, ok, err,
  Printer, type_of, is_ptr,
}
use nproto.Enc.{
  Encoded, Encoder, Decoder, encoded, raw_encode, raw_decode, Codecs, is_message, store, pj_encode,
  pj_decode, json_format, pb_format, default_pb_encoder, default_pj_encoder, default_pj_decoder,
}

-- What the interface promises of one call: a success is in the requested format, if one was
-- requested; a failure leaves the targets alone.
abbrev pub Honours : Text → Text → Encoded → Type 0
Honours f b r =
    ((r.error ≡ none) × ((f ≡ []) ⊎ (r.format ≡ f)))
    ⊎ ((r.error ≢ none) × (r.format ≡ f) × (r.bytes ≡ b))

module _ (fmt : Printer) where
  -- NewEncoder's encoder honours the contract at every call at which the wrapped encoder, if there
  -- is one, does: a success is in the requested format, if one was requested, and a failure leaves
  -- both targets as they were.
  pub raw_encode-Honours :
      (e : Encoder) (v : Value) (f b : Text)
      → Honours f b (e v f b)
      → Honours f b (raw_encode fmt (some e) v f b) × Honours f b (raw_encode fmt none v f b)
  unfolding raw_encode
  raw_encode-Honours e nil f b h = (h, inr (λ q. cc, refl, refl))
  raw_encode-Honours e (val t c) f b h = (h, inr (λ q. cc, refl, refl))
  raw_encode-Honours e (raw g c) f b h = ground (arith, list_beq_iff f [], list_beq_iff g f)

module _ (fmt : Printer) (lib : Codecs) where
  store-Honours :
      (r : Result Text) (f b format : Text)
      → (f ≡ []) ⊎ (format ≡ f)
      → Honours f b (store r format f b)
  store-Honours (ok c) f b format h = inl (refl, h)
  store-Honours (err e) f b format h = inr (λ q. cc, refl, refl)

  chosen_format : (f d g : Text) → ((if f == [] then d else f) == g) ≡ true → (f ≡ []) ⊎ (g ≡ f)
  chosen_format f d g h = ground (arith, list_beq_iff f [], list_beq_iff f g, list_beq_iff d g)

  -- PbJsonEncoder honours the contract of Encoder, whatever its default format and the marshallers
  -- are: it succeeds in the requested format, if one was requested, or fails and leaves both targets
  -- as they were.
  pub pj_encode-Honours :
      (d : Text) (v : Value) (f b : Text) → Honours f b (pj_encode fmt lib d v f b)
  unfolding pj_encode
  pj_encode-Honours d v f b =
      let format : Text = if f == [] then d else f in
      elim (Bool-cases (format == pb_format)) [
        | inl p ↦ rw p (elim (Bool-cases (is_message v)) [
          | inl m ↦
              rw m (store-Honours (lib.pb_marshal v) f b pb_format (chosen_format f d pb_format p))
          | inr m ↦ rw m (inr (λ q. cc, refl, refl))
        ])
        | inr p ↦ rw p (elim (Bool-cases (format == json_format)) [
          | inl j ↦ rw j (store-Honours _ f b json_format (chosen_format f d json_format j))
          | inr j ↦ rw j (inr (λ q. cc, refl, refl))
        ])
      ]

-- What is relied on of proto and protojson, whose Unmarshal resets its target: bytes made from a
-- message give that content back to any message of the type.
abbrev pub Restores :
    (UserType → Bool) → (Value → Result Text) → (Text → Value → Option Error × Value) → Type 0
Restores p marshal unmarshal =
    (t : UserType) (c c' : ℕ) (b : Text)
    → p t ≡ true
    → marshal (val t c) ≡ ok b
    → unmarshal b (val t c') ≡ (none, val t c)

-- What is relied on of encoding/json for one value and one target, since what it restores depends
-- on both: bytes made from the value give it back to the target.
abbrev pub RestoresInto :
    (Value → Result Text) → (Text → Value → Option Error × Value) → Value → Value → Type 0
RestoresInto marshal unmarshal v w = (b : Text) → marshal v ≡ ok b → unmarshal b w ≡ (none, v)

abbrev pub is_message_type : UserType → Bool
is_message_type (message n) = true
is_message_type _ = false

store_ok :
    (r : Result Text) (g f b : Text)
    → (store r g f b).error ≡ none
    → (c : Text) × (r ≡ ok c) × (store r g f b ≡ encoded g c)
store_ok (ok c) g f b h = (c, refl, refl)
store_ok (err e) g f b h = absurd (cc)

module _ (fmt : Printer) (lib : Codecs)
    (pb_restores : Restores is_message_type lib.pb_marshal lib.pb_unmarshal)
    (message_restores : Restores is_message_type lib.json_marshal_message
      lib.json_unmarshal_message) where
  json_decode :
      (t : UserType) (c c' : ℕ) (b : Text)
      → is_ptr (user t) ≡ true
      → (is_message (val t c) ≡ false
          → RestoresInto lib.json_marshal lib.json_unmarshal (val t c) (val t c'))
      → (if is_message (val t c)
          then lib.json_marshal_message (val t c)
          else lib.json_marshal (val t c))
        ≡ ok b
      → pj_decode fmt lib json_format b (val t c') ≡ (none, val t c)
  unfolding pj_decode list_beq
  json_decode (message n) c c' b p j h = message_restores (message n) c c' b refl h
  json_decode (pointer n) c c' b p j h = j refl b h
  json_decode (plain n) c c' b p j h = absurd (cc)

  pb_decode :
      (t : UserType) (c c' : ℕ) (b : Text)
      → is_message (val t c) ≡ true
      → lib.pb_marshal (val t c) ≡ ok b
      → pj_decode fmt lib pb_format b (val t c') ≡ (none, val t c)
  unfolding pj_decode list_beq
  pb_decode (message n) c c' b p h = pb_restores (message n) c c' b refl h
  pb_decode (pointer n) c c' b p h = absurd (cc)
  pb_decode (plain n) c c' b p h = absurd (cc)

  -- The cases of a successful call of PbJsonEncoder.
  pj_encode_ok :
      (d : Text) (v : Value) (f b : Text)
      → (pj_encode fmt lib d v f b).error ≡ none
      → ((c : Text) × (is_message v ≡ true)
          × (lib.pb_marshal v ≡ ok c)
          × (pj_encode fmt lib d v f b ≡ encoded pb_format c))
        ⊎ ((c : Text) × ((if is_message v then lib.json_marshal_message v else lib.json_marshal v)
              ≡ ok c)
            × (pj_encode fmt lib d v f b ≡ encoded json_format c))
  unfolding pj_encode
  pj_encode_ok d v f b h =
      let format : Text = if f == [] then d else f in
      elim (Bool-cases (format == pb_format)) [
        | inl p ↦ elim (Bool-cases (is_message v)) [
          | inl m ↦
              let (c, e, q) = store_ok (lib.pb_marshal v) pb_format f b (rw (p, m) at h) in
              inl (c, m, e, rw (p, m) q)
          | inr m ↦ absurd (let k = rw (p, m) at h in cc)
        ]
        | inr p ↦ elim (Bool-cases (format == json_format)) [
          | inl j ↦
              let (c, e, q) = store_ok _ json_format f b (rw (p, j) at h) in inr (c, e, rw (p, j) q)
          | inr j ↦ absurd (let k = rw (p, j) at h in cc)
        ]
      ]

  pj_decode-pj_encode :
      (d : Text) (t : UserType) (c c' : ℕ) (f b : Text)
      → is_ptr (user t) ≡ true
      → (is_message (val t c) ≡ false
          → RestoresInto lib.json_marshal lib.json_unmarshal (val t c) (val t c'))
      → (pj_encode fmt lib d (val t c) f b).error ≡ none
      → pj_decode fmt lib
          (pj_encode fmt lib d (val t c) f b).format
          (pj_encode fmt lib d (val t c) f b).bytes
          (val t c')
        ≡ (none, val t c)
  pj_decode-pj_encode d t c c' f b p j h = elim (pj_encode_ok d (val t c) f b h) [
    | inl (e, m, q, r) ↦ rw r (pb_decode t c c' e m q)
    | inr (e, q, r) ↦ rw r (json_decode t c c' e p j q)
  ]

  -- With the encoder and decoder of pjenc inside those of rawenc: what was encoded without an
  -- error, in whatever format, decodes into a pointer of the same type as the value that it was,
  -- if package proto and protojson restore the messages that they marshalled, and encoding/json,
  -- which takes the other values, restores this one into this target.
  pub raw_decode-raw_encode :
      (d : Text) (v w : Value) (t : GoType) (f b : Text)
      → type_of v ≡ some t
      → type_of w ≡ some t
      → is_ptr t ≡ true
      → (is_message v ≡ false → RestoresInto lib.json_marshal lib.json_unmarshal v w)
      → (raw_encode fmt (some (pj_encode fmt lib d)) v f b).error ≡ none
      → raw_decode fmt
          (some (pj_decode fmt lib))
          (raw_encode fmt (some (pj_encode fmt lib d)) v f b).format
          (raw_encode fmt (some (pj_encode fmt lib d)) v f b).bytes
          w
        ≡ (none, v)
  unfolding raw_encode raw_decode
  raw_decode-raw_encode d nil w t f b hv hw p j h = absurd (cc)
  raw_decode-raw_encode d (raw g c) nil t f b hv hw p j h = absurd (cc)
  raw_decode-raw_encode d (raw g c) (raw g' c') t f b hv hw p j h = ground arith
  raw_decode-raw_encode d (raw g c) (val s c') t f b hv hw p j h = absurd (cc)
  raw_decode-raw_encode d (val s c) nil t f b hv hw p j h = absurd (cc)
  raw_decode-raw_encode d (val s c) (raw g' c') t f b hv hw p j h = absurd (cc)
  raw_decode-raw_encode d (val s c) (val s' c') t f b hv hw p j h =
      let same : s' ≡ s = cc in rw same (pj_decode-pj_encode d s c c' f b (cc) (rw same at j) h)

module _ (fmt : Printer) (lib : Codecs) (n c : ℕ) (b : Text)
    (packed : lib.pb_marshal (val (message n) c) ≡ ok b) where
  -- A message is encoded with protobuf by default, or on request.
  pub default_pb_encoder_lem :
      default_pb_encoder fmt lib (val (message n) c) [] [] ≡ encoded pb_format b
  unfolding pj_encode list_beq
  default_pb_encoder_lem = rw packed refl

  pub default_pj_encoder_lem :
      default_pj_encoder fmt lib (val (message n) c) pb_format [] ≡ encoded pb_format b
  unfolding pj_encode list_beq
  default_pj_encoder_lem = rw packed refl

  pub default_pj_decoder_lem :
      (c' : ℕ)
      → Restores is_message_type lib.pb_marshal lib.pb_unmarshal
      → default_pj_decoder fmt lib pb_format b (val (message n) c') ≡ (none, val (message n) c)
  unfolding pj_decode list_beq
  default_pj_decoder_lem c' restores = restores (message n) c c' b refl packed

-- What is relied on of a decoder: its target keeps its type.
abbrev pub KeepsType : Decoder → Type 0
KeepsType decoder = (f b : Text) (v : Value) → type_of (decoder f b v).1 ≡ type_of v

abbrev KeepsTarget : (Text → Value → Option Error × Value) → Type 0
KeepsTarget unmarshal = (b : Text) (v : Value) → type_of (unmarshal b v).1 ≡ type_of v

-- PbJsonDecoder's target keeps its type if the packages' targets do.
pub pj_decode-KeepsType :
    (fmt : Printer) (lib : Codecs)
    → KeepsTarget lib.pb_unmarshal
    → KeepsTarget lib.json_unmarshal_message
    → KeepsTarget lib.json_unmarshal
    → KeepsType (pj_decode fmt lib)
unfolding pj_decode
pj_decode-KeepsType fmt lib pb message_keeps json f b v = elim (Bool-cases (f == pb_format)) [
  | inl p ↦ elim (Bool-cases (is_message v)) [ inl m ↦ rw (p, m) (pb b v) | inr m ↦ rw (p, m) refl ]
  | inr p ↦ elim (Bool-cases (f == json_format)) [
    | inl j ↦ elim (Bool-cases (is_message v)) [
      | inl m ↦ rw (p, j, m) (message_keeps b v)
      | inr m ↦ rw (p, j, m) (json b v)
    ]
    | inr j ↦ rw (p, j) refl
  ]
]
