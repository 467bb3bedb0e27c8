-- ===== src/Prelude/Decimal.antt =====
-- A number as its decimal text, as a template literal writes it.
use Prim.Native.String
use open_data_fusion.Prelude.{String, ◌≡◌, refl, ℕ, zero, suc, ◌/◌, ◌%◌, if◌then◌else◌, ltb, nat_eq}

abbrev digit : ℕ → String
digit n =
    if nat_eq n 0
    then "0"
    else if nat_eq n 1
    then "1"
    else if nat_eq n 2
    then "2"
    else if nat_eq n 3
    then "3"
    else if nat_eq n 4
    then "4"
    else if nat_eq n 5
    then "5"
    else if nat_eq n 6
    then "6"
    else if nat_eq n 7
    then "7"
    else if nat_eq n 8
    then "8"
    else "9"

-- The fuel is the number itself, which has no more digits than that.
decimal_from : ℕ → ℕ → String
decimal_from zero n = digit n
decimal_from (suc fuel) n =
    let rest = String.◌++◌ (decimal_from fuel (n / 10)) (digit (n % 10)) in
    if ltb n 10 then digit n else rest

unfoldable pub decimal_text : ℕ → String
unfolding decimal_from
decimal_text n = decimal_from n n

decimal_text_runs : decimal_text 4092 ≡ "4092"
unfolding decimal_text
decimal_text_runs = refl
