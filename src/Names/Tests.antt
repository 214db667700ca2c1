-- ===== src/Names/Tests.antt =====
-- The name formats: tests, and the theorem at a concrete input.
use nproto.Prelude.{Text, codes, ◌≡◌, refl, List, ◌∷◌, true, false, All, ◌↔◌}
use nproto.Names.{matches_name, matches_prefix, matches_subject}
use nproto.Names.Laws.{matches_subject_iff, join_dot}

matches_subject_iff_example : (matches_subject (codes "a.b-1") ≡ true) ↔ (
    (g : Text) × (r : List Text) × (matches_name g ≡ true)
    × All (λ t. matches_name t ≡ true) r
    × (codes "a.b-1" ≡ join_dot (g ∷ r)))
matches_subject_iff_example = matches_subject_iff (codes "a.b-1")

trailing_dot : matches_subject (codes "a.b.") ≡ false
unfolding matches_subject
trailing_dot = refl

two_groups : matches_subject (codes "a.b-1") ≡ true
unfolding matches_subject
two_groups = refl

no_dash_in_prefix : matches_prefix (codes "a-b") ≡ false
unfolding matches_prefix
no_dash_in_prefix = refl
