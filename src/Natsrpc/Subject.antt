-- ===== src/Natsrpc/Subject.antt =====
-- natsrpc/utils.go: the subject of a method, and the method of a subject.
use nproto.Prelude.{
  Text, nat_eq, length, length-append, ℕ, ◌≡◌, ◌≢◌, inl, inr, refl, sym, ap, ◌∙◌, true, some, [],
  ◌∷◌, ◌++◌, append_assoc, arith, text_eq, list_beq_iff, pair_eq, Option-cases, beq_refl,
  strip_prefix, strip_prefix-append, append-strip_prefix, trim_prefix,
}
use nproto.Names.{matches_name}
use nproto.Names.Laws.{name_no_dot}
use nproto.Natsrpc.{subject_format, subject_parser}

append-ne_self : (c : ℕ) (p s : Text) → s ≢ (c ∷ p) ++ s
append-ne_self c p s e = omega (arith, ap length e, length-append p s)

format_as_prefix :
    (prefix svc method : Text)
    → subject_format prefix svc method ≡ (prefix ++ b'.' ∷ (svc ++ b'.' ∷ [])) ++ method
unfolding subject_format
format_as_prefix prefix svc method =
    rw (append_assoc prefix (b'.' ∷ (svc ++ b'.' ∷ [])) method, append_assoc svc (b'.' ∷ []) method)

prefix_nonempty : (p r : Text) → (c : ℕ) × (q : Text) × (p ++ b'.' ∷ r ≡ c ∷ q)
prefix_nonempty [] r = (b'.', r, refl)
prefix_nonempty (c ∷ p) r = (c, p ++ b'.' ∷ r, refl)

-- The server's parser gives back the method name from every subject that a client formats for the
-- service, whatever the names are.
pub subject_parser-subject_format :
    (prefix svc method : Text)
    → subject_parser prefix svc (subject_format prefix svc method) ≡ some method
unfolding subject_parser
subject_parser-subject_format prefix svc method =
    let start = prefix ++ b'.' ∷ (svc ++ b'.' ∷ []) in
    let (c, q, e) = prefix_nonempty prefix (svc ++ b'.' ∷ []) in
    let differs : method ≢ start ++ method = rw e (append-ne_self c q method) in
    rw (format_as_prefix prefix svc method, strip_prefix-append start method, trim_prefix)
      (ground (arith, list_beq_iff method (start ++ method), differs))

parser_sound :
    (prefix svc subject method : Text)
    → subject_parser prefix svc subject ≡ some method
    → subject ≡ (prefix ++ b'.' ∷ (svc ++ b'.' ∷ [])) ++ method
unfolding subject_parser
parser_sound prefix svc subject method h =
    let start = prefix ++ b'.' ∷ (svc ++ b'.' ∷ []) in
    elim (Option-cases (strip_prefix start subject)) [
      | inl e ↦ absurd (let k = rw (e, trim_prefix) at h in ground (arith, beq_refl subject))
      | inr (r, e) ↦
          let k = rw (e, trim_prefix) at h in
          let same : r ≡ method = ground arith in
          append-strip_prefix start subject method (rw (← same) e)
    ]

after_dot : (p r q : Text) → p ++ b'.' ∷ r ≡ p ++ b'.' ∷ q → r ≡ q
after_dot [] r q e = cc
after_dot (c ∷ p) r q e = after_dot p r q (cc)

-- A service takes no subject of another one: where service names match their format, a subject
-- formatted for one service is parsed by the server of a service only if it is that service, and
-- then to the same method.
pub subject_parser_same_service :
    (prefix svc svc' method m : Text)
    → matches_name svc ≡ true
    → matches_name svc' ≡ true
    → subject_parser prefix svc (subject_format prefix svc' method) ≡ some m
    → (svc ≡ svc') × (m ≡ method)
subject_parser_same_service prefix svc svc' method m h k e =
    let whole = sym (parser_sound prefix svc (subject_format prefix svc' method) m e) in
    let split : subject_format prefix svc m ≡ subject_format prefix svc' method =
      format_as_prefix prefix svc m ∙ whole in
    name_no_dot svc svc' m method h k (after_dot prefix _ _ (unfold subject_format in split))
