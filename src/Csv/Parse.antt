-- ===== src/Csv/Parse.antt =====
-- The parser of delimited texts, `parseDelimitedText` of apps/web/src/lib/csvIngest.ts. Its loop is
-- `scan`; where the source moves its index past a second character, `skip` is set for one turn.
pub mod Cells
pub mod RoundTrip
use open_data_fusion.Prelude.{
  ℕ, ◌+◌, Bool, true, false, not, ◌&&◌, ◌||◌, Option, none, some, List, [], ◌∷◌, ◌++◌, map,
  if◌then◌else◌, nat_eq, length,
}
use open_data_fusion.Prelude.Result.{Result, ok, err, ◌>>=◌, ◌>>◌, guard}
use open_data_fusion.Csv.Text.{Text, has, is_empty}

pub data State : Type 0 where
  unquoted quoted after_quote : State

pub record Record : Type 0 where
  pub cells : List Text
  pub source_row : ℕ
  pub has_content : Bool

-- `CsvIngestError`, by its message.
pub data CsvError : Type 0 where
  delimiter_invalid : CsvError
  after_closing_quote quote_inside unclosed : (row : ℕ) → CsvError
  header_empty : (row column : ℕ) → CsvError
  header_duplicate : (row : ℕ) → Text → CsvError
  cell_count : (row cells expected : ℕ) → CsvError

-- The variables of the loop.
pub record Parser : Type 0 where
  pub records : List Record
  pub cells : List Text
  pub cell : Text
  pub state : State
  pub source_row : ℕ
  pub record_source_row : ℕ
  pub has_content : Bool
  pub skip : Bool

-- A row by its headers, and the line on which it starts.
pub record Row : Type 0 where
  pub source_row : ℕ
  pub values : List (Text × Text)

pub record Table : Type 0 where
  pub headers : List Text
  pub rows : List Row

abbrev pub quote : ℕ
quote = 34

abbrev pub is_quote : ℕ → Bool
is_quote c = nat_eq c 34

abbrev pub is_return : ℕ → Bool
is_return c = nat_eq c 13

abbrev pub is_newline : ℕ → Bool
is_newline c = nat_eq c 10

abbrev pub is_record_ending : ℕ → Bool
is_record_ending c = is_return c || is_newline c

abbrev pub next_is : (ℕ → Bool) → List ℕ → Bool
next_is p [] = false
next_is p (c ∷ _) = p c

abbrev pub finish_record : Parser → Parser
finish_record p = record p {
  records =
      p.records
      ++ record {
        cells = p.cells ++ p.cell ∷ [];
        source_row = p.record_source_row;
        has_content = p.has_content;
      }
        ∷ [];
  cells = [];
  cell = [];
  has_content = false;
}

-- `advancePastRecordEnding` outside of quotes.
abbrev pub start_record : (paired : Bool) → Parser → Parser
start_record paired p = record p {
  skip = paired;
  source_row = p.source_row + 1;
  record_source_row = p.source_row + 1;
  state = unquoted;
}

abbrev pub push_cell : Parser → Parser
push_cell p = record p { cells = p.cells ++ p.cell ∷ []; cell = []; state = unquoted }

abbrev pub add : ℕ → Parser → Parser
add c p = record p { cell = p.cell ++ c ∷ [] }

-- A line end inside quotes: `\r\n` is two characters of the cell and one line.
abbrev pub add_ending : ℕ → (paired : Bool) → Parser → Parser
add_ending c paired p = record p {
  cell = if paired then p.cell ++ c ∷ 10 ∷ [] else p.cell ++ c ∷ [];
  source_row = p.source_row + 1;
  skip = paired;
}

module _ (delimiter : ℕ) where
  -- One turn of the loop, at a character with what is behind it.
  unfoldable pub step : State → ℕ → List ℕ → Parser → Result CsvError Parser
  step quoted c rest p =
      if is_quote c
      then (if next_is is_quote rest
          then ok (record p { cell = p.cell ++ quote ∷ []; skip = true })
          else ok (record p { state = after_quote }))
      else (if is_record_ending c
          then ok (add_ending c (is_return c && next_is is_newline rest) p)
          else ok (add c p))
  step after_quote c rest p =
      if nat_eq c delimiter
      then ok (push_cell p)
      else (if is_record_ending c
          then ok (start_record (is_return c && next_is is_newline rest) (finish_record p))
          else err (after_closing_quote p.source_row))
  step unquoted c rest p =
      if nat_eq c delimiter
      then ok (record (push_cell p) { has_content = true })
      else (if is_record_ending c
          then ok (start_record (is_return c && next_is is_newline rest) (finish_record p))
          else (if is_quote c
              then (if is_empty p.cell
                  then ok (record p { has_content = true; state = quoted })
                  else err (quote_inside p.source_row))
              else ok (record (add c p) { has_content = true })))

  unfoldable pub advance : ℕ → List ℕ → Parser → Result CsvError Parser
  unfolding step
  advance c rest p = if p.skip then ok (record p { skip = false }) else step p.state c rest p

  unfoldable pub scan : List ℕ → Parser → Result CsvError Parser
  unfolding advance
  scan [] p = ok p
  scan (c ∷ rest) p = do next ← advance c rest p; scan rest next

abbrev is_quoted : State → Bool
is_quoted quoted = true
is_quoted _ = false

abbrev pub is_nil : {A : Type 0} → List A → Bool
is_nil [] = true
is_nil (_ ∷ _) = false

-- The records of the text: what follows the loop.
unfoldable pub end_records : Parser → Result CsvError (List Record)
end_records p = do
  guard (not (is_quoted p.state)) (unclosed p.record_source_row)
  ok ((if p.has_content || is_nil p.records then finish_record p else p).records)

-- The loop that pops records at the end, but not the first one.
unfoldable pub pop_blank : List Record → List Record
pop_blank [] = []
pop_blank (r ∷ records) =
    let rest = pop_blank records in if is_nil rest && not r.has_content then [] else r ∷ rest

abbrev pub start : Parser
start = record {
  records = [];
  cells = [];
  cell = [];
  state = unquoted;
  source_row = 1;
  record_source_row = 1;
  has_content = false;
  skip = false;
}

abbrev pub without_mark : List ℕ → List ℕ
without_mark [] = []
without_mark (c ∷ input) = if nat_eq c 65279 then input else c ∷ input

unfoldable pub check_headers :
    (row column : ℕ) → (seen headers : List Text) → Result CsvError (Unit {0})
check_headers row column seen [] = ok tt
check_headers row column seen (h ∷ headers) = do
  guard (not (is_empty h)) (header_empty row column)
  guard (not (has seen h)) (header_duplicate row h)
  check_headers row (column + 1) (h ∷ seen) headers

unfoldable pub check_rows : ℕ → List Record → Result CsvError (Unit {0})
check_rows expected [] = ok tt
check_rows expected (r ∷ records) = do
  guard (nat_eq (length r.cells) expected) (cell_count r.source_row (length r.cells) expected)
  check_rows expected records

abbrev pub zip : List Text → List Text → List (Text × Text)
zip (a ∷ as') (b ∷ bs) = (a, b) ∷ zip as' bs
zip _ _ = []

abbrev pub row_of : List Text → Record → Row
row_of headers r = record { source_row = r.source_row; values = zip headers r.cells }

-- What is made of the records.
unfoldable pub make_table : List Record → Result CsvError Table
unfolding check_headers check_rows
make_table [] = ok (record { headers = []; rows = [] })
make_table (head ∷ records) = do
  check_headers head.source_row 1 [] head.cells
  check_rows (length head.cells) records
  ok (record { headers = head.cells; rows = map (row_of head.cells) records })

abbrev pub pop_from_second : List Record → List Record
pop_from_second [] = []
pop_from_second (r ∷ records) = r ∷ pop_blank records

unfoldable pub parse_delimited_text : (input : List ℕ) (delimiter : ℕ) → Result CsvError Table
unfolding scan end_records pop_blank make_table
parse_delimited_text input delimiter = do
  guard (nat_eq delimiter 44 || nat_eq delimiter 9) delimiter_invalid
  p ← scan delimiter (without_mark input) start
  records ← end_records p
  make_table (pop_from_second records)
