-- ===== src/Csv/Parse/Cells.antt =====
-- A cell in quotes is scanned to itself.
use mathlib.Core.List.{append_assoc, append-nil}
use open_data_fusion.Prelude.{
  ℕ, ◌+◌, ◌≡◌, refl, sym, ap, ◌∙◌, subst, Bool, true, false, not, ◌&&◌, ◌||◌, List, [], ◌∷◌, ◌++◌,
  arith, if◌then◌else◌, nat_eq, Bool-cases, inl, inr,
}
use open_data_fusion.Csv.Text.{Text}
use open_data_fusion.Csv.Parse.{
  unquoted, quoted, Record, Parser, is_quote, is_return, is_newline, is_record_ending, next_is,
  scan,
}

-- A cell's text with its quotes doubled, in front of the rest.
abbrev pub escape : Text → List ℕ → List ℕ
escape [] rest = rest
escape (c ∷ t) rest = if is_quote c then 34 ∷ 34 ∷ escape t rest else c ∷ escape t rest

abbrev pub print_cell : Text → List ℕ → List ℕ
print_cell t rest = 34 ∷ escape t (34 ∷ rest)

-- The line ends in a text.
abbrev pub endings : Text → ℕ
endings [] = 0
endings (c ∷ t) =
    (if is_newline c || is_return c && not (next_is is_newline t) then 1 else 0) + endings t

module _ (d : ℕ) (rs : List Record) (ks : List Text) (m : ℕ) where
  -- The parser inside the quotes of a cell.
  abbrev pub inside : Text → ℕ → Parser
  inside k n = record {
    records = rs;
    cells = ks;
    cell = k;
    state = quoted;
    source_row = n;
    record_source_row = m;
    has_content = true;
    skip = false;
  }

  scan-other :
      (c : ℕ) (rest : List ℕ) (k : Text) (n : ℕ)
      → is_quote c ≡ false
      → is_record_ending c ≡ false
      → scan d (c ∷ rest) (inside k n) ≡ scan d rest (inside (k ++ c ∷ []) n)
  unfolding scan
  scan-other c rest k n q e = rw (q, e) refl

  scan-ending :
      (c : ℕ) (rest : List ℕ) (k : Text) (n : ℕ)
      → is_quote c ≡ false
      → is_record_ending c ≡ true
      → (is_return c && next_is is_newline rest) ≡ false
      → scan d (c ∷ rest) (inside k n) ≡ scan d rest (inside (k ++ c ∷ []) (n + 1))
  unfolding scan
  scan-ending c rest k n q e a = rw (q, e, a) refl

  scan-quotes :
      (rest : List ℕ) (k : Text) (n : ℕ)
      → scan d (34 ∷ 34 ∷ rest) (inside k n) ≡ scan d rest (inside (k ++ 34 ∷ []) n)
  unfolding scan
  scan-quotes rest k n = refl

  scan-pair :
      (rest : List ℕ) (k : Text) (n : ℕ)
      → scan d (13 ∷ 10 ∷ rest) (inside k n) ≡ scan d rest (inside (k ++ 13 ∷ 10 ∷ []) (n + 1))
  unfolding scan
  scan-pair rest k n = refl

  -- A character in front of a text that is scanned.
  shift :
      (c : ℕ) (t k : Text) (n n' by : ℕ) (from : List ℕ) (rest : List ℕ)
      → scan d from (inside (k ++ c ∷ []) n')
        ≡ scan d (34 ∷ rest) (inside ((k ++ c ∷ []) ++ t) (n' + endings t))
      → n' ≡ n + by
      → scan d from (inside (k ++ c ∷ []) n')
        ≡ scan d (34 ∷ rest) (inside (k ++ c ∷ t) (n + (by + endings t)))
  shift c t k n n' by from rest h e =
      h
      ∙ ap (λ k'. scan d (34 ∷ rest) (inside k' (n' + endings t))) (append_assoc k (c ∷ []) t)
      ∙ ap (λ n''. scan d (34 ∷ rest) (inside (k ++ c ∷ t) n'')) (omega (arith, e))

  next-escape :
      (t : Text) (rest : List ℕ) → next_is is_newline (escape t (34 ∷ rest)) ≡ next_is is_newline t
  next-escape [] rest = refl
  next-escape (c ∷ t) rest = ground arith

  head_endings : ℕ → Text → ℕ
  head_endings c t = if is_newline c || is_return c && not (next_is is_newline t) then 1 else 0

  -- One that is no half of a pair.
  scan-escape_cons :
      (c : ℕ) (t : Text) (rest : List ℕ) (k : Text) (n : ℕ)
      → (is_return c && next_is is_newline t) ≡ false
      → ((n' : ℕ)
          → scan d (escape t (34 ∷ rest)) (inside (k ++ c ∷ []) n')
            ≡ scan d (34 ∷ rest) (inside ((k ++ c ∷ []) ++ t) (n' + endings t)))
      → scan d (escape (c ∷ t) (34 ∷ rest)) (inside k n)
        ≡ scan d (34 ∷ rest) (inside (k ++ c ∷ t) (n + endings (c ∷ t)))
  unfolding head_endings
  scan-escape_cons c t rest k n alone ih = elim (Bool-cases (is_quote c)) [
    | inl q ↦
        let same : c ≡ 34 = ground arith in
        let zero_by : 0 ≡ head_endings c t = ground arith in
        rw (q) (
          subst
            (λ a.
              scan d (34 ∷ 34 ∷ escape t (34 ∷ rest)) (inside k n)
              ≡ scan d (escape t (34 ∷ rest)) (inside (k ++ a ∷ []) n))
            (sym same) (scan-quotes (escape t (34 ∷ rest)) k n)
          ∙ shift c t k n n (head_endings c t) _ rest (ih n) (omega (arith, zero_by)))
    | inr q ↦ elim (Bool-cases (is_record_ending c)) [
      | inl e ↦
          let one_by : 1 ≡ head_endings c t = ground arith in
          let alone' : (is_return c && next_is is_newline (escape t (34 ∷ rest))) ≡ false =
            rw (next-escape t rest) alone in
          rw (q) (
            scan-ending c (escape t (34 ∷ rest)) k n q e alone'
            ∙ shift c t k n (n + 1) (head_endings c t) _ rest (ih (n + 1)) (omega (arith, one_by)))
      | inr e ↦
          let zero_by : 0 ≡ head_endings c t = ground arith in
          rw (q) (
            scan-other c (escape t (34 ∷ rest)) k n q e
            ∙ shift c t k n n (head_endings c t) _ rest (ih n) (omega (arith, zero_by)))
    ]
  ]

  scan-escape_pair :
      (t : Text) (rest : List ℕ) (k : Text) (n : ℕ)
      → scan d (escape t (34 ∷ rest)) (inside (k ++ 13 ∷ 10 ∷ []) (n + 1))
        ≡ scan d (34 ∷ rest) (inside ((k ++ 13 ∷ 10 ∷ []) ++ t) (n + 1 + endings t))
      → scan d (escape (13 ∷ 10 ∷ t) (34 ∷ rest)) (inside k n)
        ≡ scan d (34 ∷ rest) (inside (k ++ 13 ∷ 10 ∷ t) (n + endings (13 ∷ 10 ∷ t)))
  scan-escape_pair t rest k n ih =
      scan-pair (escape t (34 ∷ rest)) k n
      ∙ ih
      ∙ ap (λ k'. scan d (34 ∷ rest) (inside k' (n + 1 + endings t)))
          (append_assoc k (13 ∷ 10 ∷ []) t)
      ∙ ap (λ n'. scan d (34 ∷ rest) (inside (k ++ 13 ∷ 10 ∷ t) n')) (omega arith)

  pub scan-escape :
      (t : Text) (rest : List ℕ) (k : Text) (n : ℕ)
      → scan d (escape t (34 ∷ rest)) (inside k n)
        ≡ scan d (34 ∷ rest) (inside (k ++ t) (n + endings t))
  scan-escape [] rest k n =
      ap (λ k'. scan d (34 ∷ rest) (inside k' n)) (sym (append-nil k))
      ∙ ap (λ n'. scan d (34 ∷ rest) (inside (k ++ []) n')) (omega arith)
  scan-escape (c ∷ []) rest k n =
      scan-escape_cons c [] rest k n (ground arith) (λ n'. scan-escape [] rest (k ++ c ∷ []) n')
  scan-escape (c ∷ c' ∷ t) rest k n = elim (Bool-cases (is_return c && is_newline c')) [
    | inl e ↦
        let same : c ≡ 13 = ground arith in
        let same' : c' ≡ 10 = ground arith in
        rw (same, same')
          (scan-escape_pair t rest k n (scan-escape t rest (k ++ 13 ∷ 10 ∷ []) (n + 1)))
    | inr e ↦
        scan-escape_cons c (c' ∷ t) rest k n e (λ n'. scan-escape (c' ∷ t) rest (k ++ c ∷ []) n')
  ]

  -- The parser in front of a cell.
  abbrev pub before : Bool → ℕ → Parser
  before b n = record {
    records = rs;
    cells = ks;
    cell = [];
    state = unquoted;
    source_row = n;
    record_source_row = m;
    has_content = b;
    skip = false;
  }

  pub scan-open :
      (rest : List ℕ) (b : Bool) (n : ℕ)
      → nat_eq 34 d ≡ false
      → scan d (34 ∷ rest) (before b n) ≡ scan d rest (inside [] n)
  unfolding scan
  scan-open rest b n e = rw e refl
