-- ===== src/Names.antt =====
-- The name formats: SvcNameRegexp and MethodNameRegexp of rpc/common.go, SubjectNameRegexp of
-- msg/common.go, subjectPrefixRegexp of natsrpc/options.go and stanmsg/options.go. A text is its
-- bytes; no byte of a multi-byte character is in a class. `$` without flags is the end of the text.
pub mod Laws
mod Tests
use nproto.Prelude.{
  Text, ℕ, Bool, true, false, ◌&&◌, ◌||◌, [], ◌∷◌, leb, nat_beq, if◌then◌else◌, all,
}

-- [a-zA-Z0-9_]
unfoldable pub is_word_char : ℕ → Bool
is_word_char c =
    (leb b'a' c && leb c b'z')
    || (leb b'A' c && leb c b'Z')
    || (leb b'0' c && leb c b'9')
    || nat_beq c b'_'

-- [a-zA-Z0-9-_]
unfoldable pub is_name_char : ℕ → Bool
unfolding is_word_char
is_name_char c = is_word_char c || nat_beq c b'-'

-- ^[…]+$ for a class of characters.
unfoldable pub matches_plus : (ℕ → Bool) → Text → Bool
matches_plus p [] = false
matches_plus p (c ∷ s) = p c && all p s

-- SvcNameRegexp.MatchString and MethodNameRegexp.MatchString: ^[a-zA-Z0-9-_]+$
unfoldable pub matches_name : Text → Bool
unfolding matches_plus is_name_char
matches_name s = matches_plus is_name_char s

-- subjectPrefixRegexp.MatchString: ^[a-zA-Z0-9_]+$
unfoldable pub matches_prefix : Text → Bool
unfolding matches_plus is_word_char
matches_prefix s = matches_plus is_word_char s

-- One scan for ^[…]+(\.[…]+)*$; the flag says that the current group has a character.
pub scan_groups : (ℕ → Bool) → Bool → Text → Bool
scan_groups p started [] = started
scan_groups p started (c ∷ s) =
    if p c then scan_groups p true s else started && nat_beq c b'.' && scan_groups p false s

-- SubjectNameRegexp.MatchString: ^[a-zA-Z0-9-_]+(\.[a-zA-Z0-9-_]+)*$
unfoldable pub matches_subject : Text → Bool
unfolding scan_groups is_name_char
matches_subject s = scan_groups is_name_char false s
