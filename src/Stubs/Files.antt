-- ===== src/Stubs/Files.antt =====
-- cmd/protoc-gen-nproto2/main.go, cmd/protoc-gen-nproto2/gen.go: for which services and messages of
-- which files the plugin generates code.
use nproto.Prelude.{
  Text, codes, Bool, true, false, if◌then◌else◌, Bool-cases, none, some, Option-cases, List, [],
  ◌∷◌, ◌++◌, ℕ, ◌≡◌, ◌↔◌, ◌⊎◌, inl, inr, refl, ap, ◌∙◌, strip_prefix, strip_prefix-append,
  append-strip_prefix,
}
use nproto.Stubs.{Method}

-- protogen.Service and protogen.Message, with the comments before them; a message has its number.
pub record Service : Type 0 where
  pub service_name : Text
  pub service_comment : Text
  pub methods : List Method

pub record Message : Type 0 where
  pub message_number : ℕ
  pub message_comment : Text

-- protogen.File
pub record File : Type 0 where
  pub package_name : Text
  pub generate : Bool
  pub services : List Service
  pub messages : List Message

-- What is written to the generated file.
pub data Piece : Type 0 where
  package_clause : Text → Piece
  rpc_stub : Service → Piece
  msg_stub : Message → Piece

-- strings.Contains
pub contains_text : Text → Text → Bool
contains_text [] sub = elim (strip_prefix sub []) [ none ↦ false | some r ↦ true ]
contains_text (c ∷ s) sub = elim (strip_prefix sub (c ∷ s)) [
  | none ↦ contains_text s sub
  | some r ↦ true
]

abbrev pub gen_rpc_stub_label : Text
gen_rpc_stub_label = codes "@@nprpc@@"

abbrev gen_msg_stub_label : Text
gen_msg_stub_label = codes "@@npmsg@@"

pub rpc_stubs : List Service → List Piece
unfolding contains_text
rpc_stubs [] = []
rpc_stubs (s ∷ ss) =
    let rest = rpc_stubs ss in
    if contains_text s.service_comment gen_rpc_stub_label then rpc_stub s ∷ rest else rest

pub msg_stubs : List Message → List Piece
unfolding contains_text
msg_stubs [] = []
msg_stubs (m ∷ ms) =
    let rest = msg_stubs ms in
    if contains_text m.message_comment gen_msg_stub_label then msg_stub m ∷ rest else rest

-- genFile
pub gen_file : File → List Piece
unfolding rpc_stubs msg_stubs
gen_file f = package_clause f.package_name ∷ (rpc_stubs f.services ++ msg_stubs f.messages)

-- The function that main runs on the plugin's files: the files that are generated.
gen_files : List File → List (List Piece)
unfolding gen_file
gen_files [] = []
gen_files (f ∷ fs) = let rest = gen_files fs in if f.generate then gen_file f ∷ rest else rest

abbrev pub Occurs : {A : Type 0} → A → List A → Type 0
Occurs x [] = ⊥
Occurs x (y ∷ ys) = (x ≡ y) ⊎ Occurs x ys

-- A text that contains the other one, with what is before it and after it.
abbrev pub Contains : Text → Text → Type 0
Contains s sub = (before : Text) × (after : Text) × (s ≡ before ++ (sub ++ after))

containing : (s sub : Text) → contains_text s sub ≡ true → Contains s sub
unfolding contains_text
containing [] sub h = elim (Option-cases (strip_prefix sub [])) [
  | inl e ↦ absurd (let h' = rw (e, contains_text) at h in cc)
  | inr (r, e) ↦ ([], r, append-strip_prefix sub [] r e)
]
containing (c ∷ s) sub h = elim (Option-cases (strip_prefix sub (c ∷ s))) [
  | inl e ↦
      let (before, after, q) = containing s sub (rw (e, contains_text) at h) in
      (c ∷ before, after, ap (λ l. c ∷ l) q)
  | inr (r, e) ↦ ([], r, append-strip_prefix sub (c ∷ s) r e)
]

contains_of_prefix : (s sub r : Text) → strip_prefix sub s ≡ some r → contains_text s sub ≡ true
unfolding contains_text
contains_of_prefix [] sub r e = rw (e, contains_text) refl
contains_of_prefix (c ∷ s) sub r e = rw (e, contains_text) refl

contains_of : (before sub after : Text) → contains_text (before ++ (sub ++ after)) sub ≡ true
unfolding contains_text
contains_of [] sub after =
    contains_of_prefix (sub ++ after) sub after (strip_prefix-append sub after)
contains_of (c ∷ before) sub after =
    elim (Option-cases (strip_prefix sub (c ∷ before ++ (sub ++ after)))) [
      | inl e ↦ rw (e, contains_text) (contains_of before sub after)
      | inr (r, e) ↦ contains_of_prefix (c ∷ before ++ (sub ++ after)) sub r e
    ]

contains_text_iff : (s sub : Text) → (contains_text s sub ≡ true) ↔ Contains s sub
contains_text_iff s sub = (
  containing s sub,
  λ (before, after, q). ap (λ l. contains_text l sub) q ∙ contains_of before sub after,
)

Occurs-append :
    {A : Type 0} (x : A) (ys zs : List A) → Occurs x (ys ++ zs) ↔ (Occurs x ys ⊎ Occurs x zs)
Occurs-append x [] zs = (λ h. inr h, λ h. elim h [ inl e ↦ absurd e | inr o ↦ o ])
Occurs-append x (y ∷ ys) zs =
    let (there, back) = Occurs-append x ys zs in
    (
      λ h. elim h [
        | inl e ↦ inl (inl e)
        | inr o ↦ elim (there o) [ inl p ↦ inl (inr p) | inr q ↦ inr q ]
      ],
      λ h. elim h [
        | inl (inl e) ↦ inl e
        | inl (inr o) ↦ inr (back (inl o))
        | inr q ↦ inr (back (inr q))
      ],
    )

abbrev Labelled : Service → Type 0
Labelled s = contains_text s.service_comment gen_rpc_stub_label ≡ true

rpc_stubs_iff :
    (s : Service) (ss : List Service)
    → Occurs (rpc_stub s) (rpc_stubs ss) ↔ (Occurs s ss × Labelled s)
unfolding rpc_stubs
rpc_stubs_iff s [] = (λ h. absurd h, λ h. absurd h.0)
rpc_stubs_iff s (t ∷ ss) =
    let (there, back) = rpc_stubs_iff s ss in
    elim (Bool-cases (contains_text t.service_comment gen_rpc_stub_label)) [
      | inl c ↦
          rw (c, rpc_stubs)
            (
              λ h. elim h [
                | inl e ↦
                    (let same : s ≡ t = cc in
                      (
                        inl same,
                        ap (λ u. contains_text u.service_comment gen_rpc_stub_label) same ∙ c,
                      ))
                | inr o ↦ (inr (there o).0, (there o).1)
              ],
              λ (o, labelled). elim o [
                | inl e ↦ inl (ap rpc_stub e)
                | inr p ↦ inr (back (p, labelled))
              ],
            )
      | inr c ↦
          rw (c, rpc_stubs)
            (
              λ h. (inr (there h).0, (there h).1),
              λ (o, labelled). elim o [
                | inl e ↦ absurd (
                    let labelled' : contains_text t.service_comment gen_rpc_stub_label ≡ true =
                      rw e at labelled in
                    cc)
                | inr p ↦ back (p, labelled)
              ],
            )
    ]

no_rpc_stub : (s : Service) (ms : List Message) → Occurs (rpc_stub s) (msg_stubs ms) → ⊥
unfolding msg_stubs
no_rpc_stub s [] h = h
no_rpc_stub s (m ∷ ms) h = elim (Bool-cases (contains_text m.message_comment gen_msg_stub_label)) [
  | inl c ↦ elim (rw (c, msg_stubs) at h) [ inl e ↦ cc | inr o ↦ no_rpc_stub s ms o ]
  | inr c ↦ no_rpc_stub s ms (rw (c, msg_stubs) at h)
]

-- A generated file has the stub of a service exactly if the service stands in the source file and
-- the comment before it contains the label @@nprpc@@ anywhere.
pub gen_file_iff :
    (f : File) (s : Service)
    → Occurs (rpc_stub s) (gen_file f)
      ↔ (Occurs s f.services × Contains s.service_comment gen_rpc_stub_label)
unfolding gen_file
gen_file_iff f s =
    let (split, join) = Occurs-append (rpc_stub s) (rpc_stubs f.services) (msg_stubs f.messages) in
    let (there, back) = rpc_stubs_iff s f.services in
    let (text, labelled) = contains_text_iff s.service_comment gen_rpc_stub_label in
    (
      λ h. elim h [
        | inl e ↦ cc
        | inr o ↦ elim (split o) [
          | inl p ↦ ((there p).0, text (there p).1)
          | inr q ↦ absurd (no_rpc_stub s f.messages q)
        ]
      ],
      λ (o, c). inr (join (inl (back (o, labelled c)))),
    )
