-- ===== src/Prelude/Message.antt =====
-- The text of an error as the workers store it.
use Prim.Native.Char.{Char, code}
use Prim.Native.String
use open_data_fusion.Prelude.{
  String, ℕ, zero, suc, ◌≡◌, refl, Bool, true, false, ◌||◌, ◌&&◌, if◌then◌else◌, nat_eq, leb, any,
  [], ◌∷◌,
}

abbrev is_break : Char → Bool
is_break c = nat_eq (code c) 13 || nat_eq (code c) 10 || nat_eq (code c) 9

-- `.replace(/[\r\n\t]+/g, " ")`, from inside or outside a run of breaks.
unfoldable pub squeeze : Bool → String → String
squeeze inside String.[] = ""
squeeze inside (String.◌∷◌ c s) =
    let kept = String.◌∷◌ c (squeeze false s) in
    let again = squeeze true s in
    let space = String.◌++◌ " " (squeeze true s) in
    if is_break c then (if inside then again else space) else kept

-- `.slice(0, n)`, in characters.
unfoldable pub first_chars : ℕ → String → String
first_chars zero s = ""
first_chars (suc n) String.[] = ""
first_chars (suc n) (String.◌∷◌ c s) = String.◌∷◌ c (first_chars n s)

unfoldable pub one_line : ℕ → String → String
unfolding squeeze first_chars
one_line n s = first_chars n (squeeze false s)

-- White space and line ends of ECMAScript.
abbrev is_blank : Char → Bool
is_blank c =
    leb 9 (code c) && leb (code c) 13
    || leb 8192 (code c) && leb (code c) 8202
    || any (nat_eq (code c)) (32 ∷ 160 ∷ 5760 ∷ 8232 ∷ 8233 ∷ 8239 ∷ 8287 ∷ 12288 ∷ 65279 ∷ [])

trim_start : String → String
trim_start String.[] = ""
trim_start (String.◌∷◌ c s) = let rest = trim_start s in if is_blank c then rest else String.◌∷◌ c s

abbrev is_empty : String → Bool
is_empty String.[] = true
is_empty (String.◌∷◌ c s) = false

trim_end : String → String
trim_end String.[] = ""
trim_end (String.◌∷◌ c s) =
    let rest = trim_end s in if is_blank c && is_empty rest then "" else String.◌∷◌ c rest

-- `.trim()`
unfoldable pub trim : String → String
unfolding trim_start trim_end
trim s = trim_end (trim_start s)

trim_runs : trim " a b\n" ≡ "a b"
unfolding trim
trim_runs = refl

one_line_runs : one_line 4 "a\n\n\tbcd" ≡ "a bc"
unfolding one_line
one_line_runs = refl
