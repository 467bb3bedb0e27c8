-- ===== src/Csv/Text.antt =====
-- Texts as JavaScript has them: lists of UTF-16 code units.
use Prim.Native.Char.{code}
use Prim.Native.String
use open_data_fusion.Prelude.{
  ℕ, ◌≡◌, refl, Bool, true, false, ◌&&◌, ◌||◌, List, [], ◌∷◌, ◌++◌, arith, if◌then◌else◌, nat_eq,
  leb, any,
}

abbrev pub Text : Type 0
Text = List ℕ

-- A literal of the source, which is ASCII.
abbrev pub codes : String.String → Text
codes String.[] = []
codes (String.◌∷◌ c s) = code c ∷ codes s

abbrev pub text_eq : Text → Text → Bool
text_eq [] [] = true
text_eq (a ∷ s) (b ∷ t) = nat_eq a b && text_eq s t
text_eq _ _ = false

abbrev pub is_empty : Text → Bool
is_empty [] = true
is_empty (_ ∷ _) = false

pub text_eq_refl : (s : Text) → text_eq s s ≡ true
text_eq_refl [] = refl
text_eq_refl (a ∷ s) = ground (arith, text_eq_refl s)

pub eq_of_text_eq : (s t : Text) → text_eq s t ≡ true → s ≡ t
eq_of_text_eq [] [] h = refl
eq_of_text_eq [] (b ∷ t) h = cc
eq_of_text_eq (a ∷ s) [] h = cc
eq_of_text_eq (a ∷ s) (b ∷ t) h = ground (arith, eq_of_text_eq s t)

-- `Set.prototype.has` on texts.
abbrev pub has : List Text → Text → Bool
has texts t = any (λ s. text_eq s t) texts

-- No text occurs twice.
abbrev pub TextsDistinct : List Text → Type 0
TextsDistinct [] = Unit
TextsDistinct (t ∷ texts) = (has texts t ≡ false) × TextsDistinct texts

pub text_eq_comm : (s t : Text) → text_eq s t ≡ text_eq t s
text_eq_comm [] [] = refl
text_eq_comm [] (b ∷ t) = refl
text_eq_comm (a ∷ s) [] = refl
text_eq_comm (a ∷ s) (b ∷ t) = ground (arith, text_eq_comm s t)

pub has-append : (xs ys : List Text) (t : Text) → has (xs ++ ys) t ≡ (has xs t || has ys t)
has-append [] ys t = refl
has-append (x ∷ xs) ys t = ground (arith, has-append xs ys t)

pub TextsDistinct-snoc :
    (xs : List Text) (t : Text) → TextsDistinct xs → has xs t ≡ false → TextsDistinct (xs ++ t ∷ [])
TextsDistinct-snoc [] t d new = (refl, tt)
TextsDistinct-snoc (x ∷ xs) t d new = (
  ground (arith, has-append xs (t ∷ []) x, text_eq_comm x t),
  TextsDistinct-snoc xs t d.1 (ground arith),
)

-- White space and line ends of ECMAScript.
abbrev pub is_blank : ℕ → Bool
is_blank c =
    leb 9 c && leb c 13
    || leb 8192 c && leb c 8202
    || any (nat_eq c) (32 ∷ 160 ∷ 5760 ∷ 8232 ∷ 8233 ∷ 8239 ∷ 8287 ∷ 12288 ∷ 65279 ∷ [])

unfoldable pub trim_start : Text → Text
trim_start [] = []
trim_start (c ∷ s) = let rest = trim_start s in if is_blank c then rest else c ∷ s

unfoldable pub trim_end : Text → Text
trim_end [] = []
trim_end (c ∷ s) = let rest = trim_end s in if is_blank c && is_empty rest then [] else c ∷ rest

-- `.trim()`
unfoldable pub trim : Text → Text
unfolding trim_start trim_end
trim s = trim_end (trim_start s)
