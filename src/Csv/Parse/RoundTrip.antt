-- ===== src/Csv/Parse/RoundTrip.antt =====
-- A table that is printed with all cells in quotes is parsed to itself.
use mathlib.Core.List.{append_assoc, append-nil}
use open_data_fusion.Prelude.{
  ℕ, ◌+◌, ◌≡◌, refl, ap, ◌∙◌, Bool, true, false, ◌&&◌, ◌||◌, List, [], ◌∷◌, ◌++◌, map, arith,
  if◌then◌else◌, nat_eq, length, inl, inr, ◌⊎◌, All,
}
use open_data_fusion.Prelude.Result.{ok}
use open_data_fusion.Csv.Text.{Text, text_eq_comm, has, is_empty, TextsDistinct}
use open_data_fusion.Csv.Parse.{
  Record, Parser, Row, Table, is_quote, scan, pop_blank, check_headers, check_rows, make_table,
  row_of, zip, is_nil, without_mark, parse_delimited_text,
}
use open_data_fusion.Csv.Parse.Cells.{
  print_cell, escape, endings, inside, before, scan-escape, scan-open,
}

nat_eq_refl : (n : ℕ) → nat_eq n n ≡ true
nat_eq_refl n = ground arith

-- The parser behind a cell that a delimiter or a line end follows.
scan-delimited :
    (d : ℕ) (rs : List Record) (ks : List Text) (m : ℕ) (k : Text) (n : ℕ) (rest : List ℕ)
    → is_quote d ≡ false
    → scan d (34 ∷ d ∷ rest) (inside d rs ks m k n)
      ≡ scan d rest (before d rs (ks ++ k ∷ []) m true n)
unfolding scan
scan-delimited d rs ks m k n rest e = rw (e, nat_eq_refl d) refl

scan-ended :
    (d : ℕ) (rs : List Record) (ks : List Text) (m : ℕ) (k : Text) (n : ℕ) (rest : List ℕ)
    → nat_eq 10 d ≡ false
    → scan d (34 ∷ 10 ∷ rest) (inside d rs ks m k n)
      ≡ scan d rest (
          before d
            (rs ++ record { cells = ks ++ k ∷ []; source_row = m; has_content = true } ∷ [])
            []
            (n + 1)
            false
            (n + 1))
unfolding scan
scan-ended d rs ks m k n rest e = rw e refl

scan-nil : (d : ℕ) (p : Parser) → scan d [] p ≡ ok p
unfolding scan
scan-nil d p = refl

abbrev print_record : ℕ → Text → List Text → List ℕ → List ℕ
print_record d t [] rest = print_cell t (10 ∷ rest)
print_record d t (t' ∷ ts) rest = print_cell t (d ∷ print_record d t' ts rest)

-- The text of some records, each of a first cell and others.
abbrev pub print : ℕ → List (Text × List Text) → List ℕ
print d [] = []
print d ((t, ts) ∷ rows) = print_record d t ts (print d rows)

abbrev all_endings : Text → List Text → ℕ
all_endings t [] = endings t
all_endings t (t' ∷ ts) = endings t + all_endings t' ts

-- The records of the text, from a line on.
abbrev records_from : ℕ → List (Text × List Text) → List Record
records_from n [] = []
records_from n ((t, ts) ∷ rows) =
    record { cells = t ∷ ts; source_row = n; has_content = true }
    ∷ records_from (n + all_endings t ts + 1) rows

abbrev last_row : ℕ → List (Text × List Text) → ℕ
last_row n [] = n
last_row n ((t, ts) ∷ rows) = last_row (n + all_endings t ts + 1) rows

module _ (d : ℕ) (quote_ne : is_quote d ≡ false) (quote_ne' : nat_eq 34 d ≡ false)
    (newline_ne : nat_eq 10 d ≡ false) where
  scan-print_cell :
      (t : Text) (x : ℕ) (rest : List ℕ) (rs : List Record) (ks : List Text) (m n : ℕ) (b : Bool)
      → scan d (print_cell t (x ∷ rest)) (before d rs ks m b n)
        ≡ scan d (34 ∷ x ∷ rest) (inside d rs ks m t (n + endings t))
  scan-print_cell t x rest rs ks m n b =
      scan-open d rs ks m (escape t (34 ∷ x ∷ rest)) b n quote_ne'
      ∙ scan-escape d rs ks m t (x ∷ rest) [] n

  scan-print_record :
      (t : Text) (ts : List Text) (rest : List ℕ) (rs : List Record) (ks : List Text) (m n : ℕ)
      (b : Bool)
      → scan d (print_record d t ts rest) (before d rs ks m b n)
        ≡ scan d rest (
            before d
              (rs ++ record { cells = ks ++ t ∷ ts; source_row = m; has_content = true } ∷ [])
              []
              (n + all_endings t ts + 1)
              false
              (n + all_endings t ts + 1))
  scan-print_record t [] rest rs ks m n b =
      scan-print_cell t 10 rest rs ks m n b ∙ scan-ended d rs ks m t (n + endings t) rest newline_ne
  scan-print_record t (t' ∷ ts) rest rs ks m n b =
      scan-print_cell t d (print_record d t' ts rest) rs ks m n b
      ∙ scan-delimited d rs ks m t (n + endings t) (print_record d t' ts rest) quote_ne
      ∙ scan-print_record t' ts rest rs (ks ++ t ∷ []) m (n + endings t) true
      ∙ ap
          (λ n'. scan d rest (
            before d
              (rs
                ++ record { cells = (ks ++ t ∷ []) ++ t' ∷ ts; source_row = m; has_content = true }
                  ∷ [])
              [] n' false n'))
          (omega arith)
      ∙ ap
          (λ ks'. scan d rest (
            before d (rs ++ record { cells = ks'; source_row = m; has_content = true } ∷ []) []
              (n + all_endings t (t' ∷ ts) + 1) false (n + all_endings t (t' ∷ ts) + 1)))
          (append_assoc ks (t ∷ []) (t' ∷ ts))

  scan-print :
      (rows : List (Text × List Text)) (rs : List Record) (n : ℕ)
      → scan d (print d rows) (before d rs [] n false n)
        ≡ ok (before d (rs ++ records_from n rows) [] (last_row n rows) false (last_row n rows))
  scan-print [] rs n = rw (append-nil rs) (scan-nil d (before d rs [] n false n))
  scan-print ((t, ts) ∷ rows) rs n =
      let r : Record = record { cells = t ∷ ts; source_row = n; has_content = true } in
      let n' = n + all_endings t ts + 1 in
      scan-print_record t ts (print d rows) rs [] n n false
      ∙ scan-print rows (rs ++ r ∷ []) n'
      ∙ ap (λ rs'. ok (before d rs' [] (last_row n' rows) false (last_row n' rows)))
          (append_assoc rs (r ∷ []) (records_from n' rows))

pop_blank-records_from :
    (n : ℕ) (rows : List (Text × List Text)) → pop_blank (records_from n rows) ≡ records_from n rows
unfolding pop_blank
pop_blank-records_from n [] = refl
pop_blank-records_from n ((t, ts) ∷ rows) =
    rw (pop_blank-records_from (n + all_endings t ts + 1) rows)
      (kept (records_from (n + all_endings t ts + 1) rows))
  where
    kept :
        (rest : List Record)
        → (if is_nil rest && false
            then []
            else record { cells = t ∷ ts; source_row = n; has_content = true } ∷ rest)
          ≡ record { cells = t ∷ ts; source_row = n; has_content = true } ∷ rest
    kept [] = refl
    kept (r ∷ rest) = refl

avoids_cons :
    (h : Text) (seen hs : List Text)
    → has hs h ≡ false
    → All (λ x. has seen x ≡ false) hs
    → All (λ x. has (h ∷ seen) x ≡ false) hs
avoids_cons h seen [] new a = tt
avoids_cons h seen (x ∷ hs) new (a, as') =
    (ground (arith, text_eq_comm h x), avoids_cons h seen hs (ground arith) as')

check_headers_ok :
    (row column : ℕ) (seen hs : List Text)
    → TextsDistinct hs
    → All (λ h. is_empty h ≡ false) hs
    → All (λ h. has seen h ≡ false) hs
    → check_headers row column seen hs ≡ ok tt
unfolding check_headers
check_headers_ok row column seen [] d e a = refl
check_headers_ok row column seen (h ∷ hs) (new, d) (e, es) (a, as') =
    rw (e, a) (check_headers_ok row (column + 1) (h ∷ seen) hs d es (avoids_cons h seen hs new as'))

avoids_nil : (hs : List Text) → All (λ h. has [] h ≡ false) hs
avoids_nil [] = tt
avoids_nil (h ∷ hs) = (refl, avoids_nil hs)

check_rows_ok :
    (k n : ℕ) (rows : List (Text × List Text))
    → All (λ (t, ts). length ts ≡ k) rows
    → check_rows (ℕ.suc k) (records_from n rows) ≡ ok tt
unfolding check_rows
check_rows_ok k n [] h = refl
check_rows_ok k n ((t, ts) ∷ rows) (e, h) =
    rw (e, nat_eq_refl (ℕ.suc k)) (check_rows_ok k (n + all_endings t ts + 1) rows h)

values_of :
    (headers : List Text) (n : ℕ) (rows : List (Text × List Text))
    → map (λ (r : Row). r.values) (map (row_of headers) (records_from n rows))
      ≡ map (λ (t, ts). zip headers (t ∷ ts)) rows
values_of headers n [] = refl
values_of headers n ((t, ts) ∷ rows) =
    ap (λ vs. zip headers (t ∷ ts) ∷ vs) (values_of headers (n + all_endings t ts + 1) rows)

without_mark-print :
    (d : ℕ) (h : Text) (hs : List Text) (rest : List ℕ)
    → without_mark (print_record d h hs rest) ≡ print_record d h hs rest
without_mark-print d h [] rest = refl
without_mark-print d h (h' ∷ hs) rest = refl

make_table_ok :
    (h : Text) (hs : List Text) (rows : List (Text × List Text))
    → TextsDistinct (h ∷ hs)
    → All (λ t. is_empty t ≡ false) (h ∷ hs)
    → All (λ (t, ts). length ts ≡ length hs) rows
    → make_table (records_from 1 ((h, hs) ∷ rows))
      ≡ ok (record {
        headers = h ∷ hs;
        rows = map (row_of (h ∷ hs)) (records_from (1 + all_endings h hs + 1) rows);
      })
unfolding make_table check_headers
make_table_ok h hs rows distinct filled same =
    rw
      (
        filled.0,
        check_headers_ok 1 2 (h ∷ []) hs distinct.1 filled.1
            (avoids_cons h [] hs distinct.0 (avoids_nil hs)),
        check_rows_ok (length hs) (1 + all_endings h hs + 1) rows same,
      )
      refl

parse_print :
    (d : ℕ) (h : Text) (hs : List Text) (rows : List (Text × List Text))
    → is_quote d ≡ false
    → nat_eq 34 d ≡ false
    → nat_eq 10 d ≡ false
    → (nat_eq d 44 || nat_eq d 9) ≡ true
    → TextsDistinct (h ∷ hs)
    → All (λ t. is_empty t ≡ false) (h ∷ hs)
    → All (λ (t, ts). length ts ≡ length hs) rows
    → parse_delimited_text (print d ((h, hs) ∷ rows)) d
      ≡ ok (record {
        headers = h ∷ hs;
        rows = map (row_of (h ∷ hs)) (records_from (1 + all_endings h hs + 1) rows);
      })
unfolding parse_delimited_text
parse_print d h hs rows q q' n known distinct filled same =
    rw
      (
        known,
        without_mark-print d h hs (print d rows),
        scan-print d q q' n ((h, hs) ∷ rows) [] 1,
        pop_blank-records_from (1 + all_endings h hs + 1) rows,
      )
      (make_table_ok h hs rows distinct filled same)

-- For the comma or the tab as delimiter: a header whose names are distinct and not empty and rows
-- that have as many cells as it, printed with every cell in quotes, the quotes in it doubled, and a
-- line end behind each row, are parsed to a table of the same headers and, by these, the same
-- cells, whatever quotes, delimiters and line ends the cells hold.
pub parse_delimited_text-print :
    (d : ℕ) (h : Text) (hs : List Text) (rows : List (Text × List Text))
    → (d ≡ 44) ⊎ (d ≡ 9)
    → TextsDistinct (h ∷ hs)
    → All (λ t. is_empty t ≡ false) (h ∷ hs)
    → All (λ (t, ts). length ts ≡ length hs) rows
    → (t : Table) × (parse_delimited_text (print d ((h, hs) ∷ rows)) d ≡ ok t)
      × (t.headers ≡ h ∷ hs)
      × (map (λ (r : Row). r.values) t.rows ≡ map (λ (t, ts). zip (h ∷ hs) (t ∷ ts)) rows)
parse_delimited_text-print d h hs rows known distinct filled same = elim known [
  | inl e ↦ (
    _,
    parse_print d h hs rows (rw e refl) (rw e refl) (rw e refl) (rw e refl) distinct filled same,
    refl,
    values_of (h ∷ hs) (1 + all_endings h hs + 1) rows,
  )
  | inr e ↦ (
    _,
    parse_print d h hs rows (rw e refl) (rw e refl) (rw e refl) (rw e refl) distinct filled same,
    refl,
    values_of (h ∷ hs) (1 + all_endings h hs + 1) rows,
  )
]
