-- ===== src/Prelude/Text.antt =====
-- Equality of texts as a decision, which the tactics read without a lemma.
use Prim.Native.String.{String}
use mathlib.Core.Path.{◌≡◌, refl}
use mathlib.Core.Bool.{Bool, true, false}
use native.Mathlib.Omega.{arith}
use text.Mathlib.Text.{◌==◌ as str_eq}
use text.Mathlib.TextEquality.{eq_iff}

decide_by : (a b : String) (t : Bool) → str_eq a b ≡ t → Dec (a ≡ b)
decide_by a b true e = yes ((eq_iff a b).0 e)
decide_by a b false e = no (λ p. absurd (cc ((eq_iff a b).1 p)))

unfoldable pub String_discrete : Discrete String
unfolding decide_by
String_discrete a b = decide_by a b (str_eq a b) refl

infix 50 ◌==◌
abbrev pub ◌==◌ : String → String → Bool
a == b = elim (String_discrete a b) [ yes _ ↦ true | no _ ↦ false ]

pub ==_refl : (a : String) → (a == a) ≡ true
==_refl a = ground arith
