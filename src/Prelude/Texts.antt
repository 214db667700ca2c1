-- ===== src/Prelude/Texts.antt =====
-- Go strings and byte slices as lists of bytes, with the operations of package strings in use.
use Prim.Native.Nat.{ℕ}
use Prim.Native.Char.{code}
use Prim.Native.String.{String}
use mathlib.Core.Path.{◌≡◌, refl}
use mathlib.Core.List.{List, [], ◌∷◌, ◌++◌}
use mathlib.Core.Option.{Option, none, some}
use native.Mathlib.Omega.{arith}
use nproto.Prelude.Tests.{nat_beq, if◌then◌else◌}

abbrev pub Text : Type 0
Text = List ℕ

-- The bytes of a literal in the source (all are ASCII).
abbrev pub codes : String → Text
codes String.[] = []
codes (String.◌∷◌ c s) = code c ∷ codes s

-- strings.HasPrefix, with what stands behind the prefix.
pub strip_prefix : Text → Text → Option Text
strip_prefix [] s = some s
strip_prefix (p ∷ ps) [] = none
strip_prefix (p ∷ ps) (c ∷ s) = if nat_beq p c then strip_prefix ps s else none

pub strip_prefix-append : (p s : Text) → strip_prefix p (p ++ s) ≡ some s
unfolding strip_prefix
strip_prefix-append [] s = refl
strip_prefix-append (c ∷ p) s = ground (arith, strip_prefix-append p s)

pub append-strip_prefix : (p s r : Text) → strip_prefix p s ≡ some r → s ≡ p ++ r
unfolding strip_prefix
append-strip_prefix [] s r h = ground arith
append-strip_prefix (c ∷ p) [] r h = cc
append-strip_prefix (c ∷ p) (d ∷ s) r h = ground (arith, append-strip_prefix p s r)

-- strings.TrimPrefix.
unfoldable pub trim_prefix : Text → Text → Text
trim_prefix s p = elim (strip_prefix p s) [ none ↦ s | some r ↦ r ]
