-- ===== src/Csv/Patterns.antt =====
-- The regular expressions of apps/web/src/lib/csvIngest.ts, as tests on texts.
use open_data_fusion.Prelude.{
  ℕ, zero, suc, Bool, true, false, ◌&&◌, ◌||◌, Option, none, some, [], ◌∷◌, if◌then◌else◌, nat_eq,
  leb,
}
use open_data_fusion.Csv.Text.{Text}

infixl 5 ◌>>=◌
-- What a part of a pattern leaves of the text is matched with the next part.
abbrev ◌>>=◌ : {A : Type 0} {B : Type 0} → Option A → (A → Option B) → Option B
none >>= next = none
some a >>= next = next a

abbrev pub is_digit : ℕ → Bool
is_digit c = leb 48 c && leb c 57

abbrev pub is_letter : ℕ → Bool
is_letter c = leb 65 c && leb c 90 || leb 97 c && leb c 122

abbrev pub all_codes : (ℕ → Bool) → Text → Bool
all_codes p [] = true
all_codes p (c ∷ text) = p c && all_codes p text

abbrev is_alphanumeric : ℕ → Bool
is_alphanumeric c = is_letter c || is_digit c

-- The characters behind the first one: also `.`, `_`, `:`, `/` and `-`.
abbrev pub is_id_code : ℕ → Bool
is_id_code c =
    is_alphanumeric c || nat_eq c 46 || nat_eq c 95 || nat_eq c 58 || nat_eq c 47 || nat_eq c 45

unfoldable pub is_external_id : Text → Bool
is_external_id [] = false
is_external_id (c ∷ text) = is_alphanumeric c && all_codes is_id_code text

abbrev all_digits : Text → Bool
all_digits [] = false
all_digits (c ∷ text) = all_codes is_digit (c ∷ text)

unfoldable pub is_integer_epoch : Text → Bool
is_integer_epoch [] = false
is_integer_epoch (c ∷ text) = if nat_eq c 45 then all_digits text else all_digits (c ∷ text)

-- A character that passes, and what is behind it.
abbrev one : (ℕ → Bool) → Text → Option Text
one p [] = none
one p (c ∷ text) = if p c then some text else none

abbrev digits : ℕ → Text → Option Text
digits zero text = some text
digits (suc n) text = do rest ← one is_digit text; digits n rest

abbrev skip_digits : Text → Text
skip_digits [] = []
skip_digits (c ∷ text) = let rest = skip_digits text in if is_digit c then rest else c ∷ text

-- The part of a second, if there is a point.
abbrev fraction : Text → Option Text
fraction [] = some []
fraction (c ∷ text) =
    if nat_eq c 46 then (one is_digit text >>= λ rest. some (skip_digits rest)) else some (c ∷ text)

abbrev offset : Text → Option Text
offset text = do minutes ← digits 2 text; colon ← one (nat_eq 58) minutes; digits 2 colon

-- `Z`, or a sign and an offset.
abbrev zone : Text → Option Text
zone [] = none
zone (c ∷ text) =
    if nat_eq c 90 then some text else (if nat_eq c 43 || nat_eq c 45 then offset text else none)

abbrev is_end : Option Text → Bool
is_end (some []) = true
is_end _ = false

abbrev day : Text → Option Text
day text = do
  year ← digits 4 text
  dash ← one (nat_eq 45) year
  month ← digits 2 dash
  dash' ← one (nat_eq 45) month
  digits 2 dash'

abbrev clock : Text → Option Text
clock text = do
  hour ← digits 2 text
  colon ← one (nat_eq 58) hour
  minute ← digits 2 colon
  colon' ← one (nat_eq 58) minute
  digits 2 colon'

unfoldable pub is_iso_timestamp : Text → Bool
is_iso_timestamp text =
    is_end (do
      date ← day text
      t ← one (nat_eq 84) date
      time ← clock t
      rest ← fraction time
      zone rest)
