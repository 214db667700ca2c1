-- ===== src/Names/Laws.antt =====
-- The name formats of rpc/common.go and msg/common.go: which texts they accept.
use nproto.Prelude.{
  Text, nat_eq, ℕ, ◌≡◌, ◌↔◌, inl, inr, refl, sym, ap, ◌∙◌, Bool, true, false, List, [], ◌∷◌, ◌++◌,
  append-nil, arith, text_eq, pair_eq, Bool-cases, All, all,
}
use nproto.Names.{is_name_char, matches_plus, matches_name, scan_groups, matches_subject}

-- strings.Join with "."
pub join_dot : List Text → Text
join_dot [] = []
join_dot (s ∷ []) = s
join_dot (s ∷ t ∷ r) = s ++ b'.' ∷ join_dot (t ∷ r)

dot_not_name : is_name_char b'.' ≡ false
unfolding is_name_char
dot_not_name = refl

-- A run of class characters, scanned up to what follows it.
scan_groups-append :
    (p : ℕ → Bool) (s r : Text)
    → all p s ≡ true
    → scan_groups p true (s ++ r) ≡ scan_groups p true r
unfolding scan_groups
scan_groups-append p [] r h = refl
scan_groups-append p (c ∷ s) r h = ground (arith, scan_groups-append p s r)

scan_groups-group :
    (p : ℕ → Bool) (s r : Text)
    → matches_plus p s ≡ true
    → scan_groups p false (s ++ r) ≡ scan_groups p true r
unfolding scan_groups matches_plus
scan_groups-group p [] r h = absurd (cc)
scan_groups-group p (c ∷ s) r h = ground (arith, scan_groups-append p s r)

scan_groups-join :
    (p : ℕ → Bool) (s : Text) (r : List Text)
    → p b'.' ≡ false
    → matches_plus p s ≡ true
    → All (λ t. matches_plus p t ≡ true) r
    → scan_groups p false (join_dot (s ∷ r)) ≡ true
unfolding scan_groups join_dot
scan_groups-join p s [] d h k = rw (← append-nil s) (scan_groups-group p s [] h)
scan_groups-join p s (t ∷ r) d h k =
    scan_groups-group p s (b'.' ∷ join_dot (t ∷ r)) h ∙ rw d (scan_groups-join p t r d k.0 k.1)

-- The first group that a scan reads, and the rest of the groups.
abbrev Split : (ℕ → Bool) → Text → Type 0
Split p s =
    (g : Text) × (r : List Text) × (all p g ≡ true)
    × All (λ t. matches_plus p t ≡ true) r
    × (s ≡ join_dot (g ∷ r))

join_dot-cons : (c : ℕ) (g : Text) (r : List Text) → join_dot ((c ∷ g) ∷ r) ≡ c ∷ join_dot (g ∷ r)
unfolding join_dot
join_dot-cons c g [] = refl
join_dot-cons c g (t ∷ r) = refl

matches_plus-cons :
    (p : ℕ → Bool) (c : ℕ) (g : Text) → p c ≡ true → all p g ≡ true → matches_plus p (c ∷ g) ≡ true
unfolding matches_plus
matches_plus-cons p c g h k = rw (h, k)

scan_groups-Split : (p : ℕ → Bool) (s : Text) → scan_groups p true s ≡ true → Split p s
unfolding scan_groups join_dot
scan_groups-Split p [] h = ([], [], refl, tt, refl)
scan_groups-Split p (c ∷ []) h = elim (Bool-cases (p c)) [
  | inl e ↦ (c ∷ [], [], rw e, tt, refl)
  | inr e ↦ absurd (let k = rw e at h in ground arith)
]
scan_groups-Split p (c ∷ d ∷ s) h = elim (Bool-cases (p c)) [
  | inl e ↦
      let (g, r, a, b, q) = scan_groups-Split p (d ∷ s) (rw e at h) in
      (c ∷ g, r, rw (e, a), b, ap (◌∷◌ c) q ∙ sym (join_dot-cons c g r))
  | inr e ↦ elim (Bool-cases (p d)) [
    | inl f ↦
        let (g, r, a, b, q) = scan_groups-Split p s (let k = rw (e, f) at h in ground arith) in
        let dot : c ≡ b'.' = let k = rw (e, f) at h in ground arith in
        ([], (d ∷ g) ∷ r, refl, (matches_plus-cons p d g f a, b), rw (dot, q, join_dot-cons d g r))
    | inr f ↦ absurd (let k = rw (e, f) at h in ground arith)
  ]
]

matches_subject_sound :
    (s : Text)
    → matches_subject s ≡ true
    → (g : Text) × (r : List Text) × (matches_name g ≡ true)
      × All (λ t. matches_name t ≡ true) r
      × (s ≡ join_dot (g ∷ r))
unfolding matches_subject scan_groups matches_name
matches_subject_sound [] h = absurd (cc)
matches_subject_sound (c ∷ s) h = elim (Bool-cases (is_name_char c)) [
  | inl e ↦
      let (g, r, a, b, q) = scan_groups-Split is_name_char s (rw e at h) in
      (c ∷ g, r, matches_plus-cons is_name_char c g e a, b, rw (q, join_dot-cons c g r))
  | inr e ↦ absurd (let k = rw e at h in cc)
]

-- SubjectNameRegexp accepts exactly the texts that are one or more names joined by dots, each name
-- accepted by SvcNameRegexp.
pub matches_subject_iff :
    (s : Text)
    → (matches_subject s ≡ true) ↔ (
        (g : Text) × (r : List Text) × (matches_name g ≡ true)
        × All (λ t. matches_name t ≡ true) r
        × (s ≡ join_dot (g ∷ r)))
unfolding matches_subject matches_name
matches_subject_iff s = (
  matches_subject_sound s,
  λ t. rw (t.4) (scan_groups-join is_name_char (t.0) (t.1) dot_not_name (t.2) (t.3)),
)

run_no_dot :
    (p : ℕ → Bool) (s t r q : Text)
    → p b'.' ≡ false
    → all p s ≡ true
    → all p t ≡ true
    → s ++ b'.' ∷ r ≡ t ++ b'.' ∷ q
    → (s ≡ t) × (r ≡ q)
run_no_dot p [] [] r q d h k e = (refl, cc)
run_no_dot p [] (c ∷ t) r q d h k e =
    let same : b'.' ≡ c = cc in absurd (let k' = rw (← same, d) at k in cc)
run_no_dot p (c ∷ s) [] r q d h k e =
    let same : c ≡ b'.' = cc in absurd (let h' = rw (same, d) at h in cc)
run_no_dot p (c ∷ s) (c' ∷ t) r q d h k e =
    let (x, y) = run_no_dot p s t r q d (ground arith) (ground arith) (cc) in
    let same : c ≡ c' = cc in (cc, y)

matches_plus-all : (p : ℕ → Bool) (s : Text) → matches_plus p s ≡ true → all p s ≡ true
unfolding matches_plus
matches_plus-all p [] h = refl
matches_plus-all p (c ∷ s) h = h

-- Two accepted names before a dot at the same place are one name.
pub name_no_dot :
    (s t r q : Text)
    → matches_name s ≡ true
    → matches_name t ≡ true
    → s ++ b'.' ∷ r ≡ t ++ b'.' ∷ q
    → (s ≡ t) × (r ≡ q)
unfolding matches_name
name_no_dot s t r q h k e =
    run_no_dot is_name_char s t r q dot_not_name (matches_plus-all is_name_char s h)
      (matches_plus-all is_name_char t k) e
