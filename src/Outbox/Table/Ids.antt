-- ===== src/Outbox/Table/Ids.antt =====
-- Rows of the table of events by their ids, and which of them a claim takes.
use open_data_fusion.Prelude.{
  ℕ, ◌≡◌, refl, sym, ◌∙◌, Bool, true, false, ◌||◌, List, [], ◌∷◌, arith, filter, take, All, All-map,
  nat_eq,
}
use open_data_fusion.Outbox.Table.{
  Row, is_candidate, by_availability, insert_by, sort_by, has_id, candidates,
}

abbrev pub IdsDistinct : List Row → Type 0
IdsDistinct [] = Unit
IdsDistinct (r ∷ rows) = (has_id rows r ≡ false) × IdsDistinct rows

-- The rows of a filter, by their ids.
has_id-filter :
    (p : Row → Bool) (rows : List Row) (r : Row)
    → has_id (filter p rows) r ≡ true
    → has_id rows r ≡ true
has_id-filter p [] r h = cc
has_id-filter p (s ∷ rows) r h = ground (arith, has_id-filter p rows r)

has_id-take :
    (n : ℕ) (rows : List Row) (r : Row) → has_id (take n rows) r ≡ true → has_id rows r ≡ true
has_id-take ℕ.zero rows r h = ground arith
has_id-take (ℕ.suc n) [] r h = ground arith
has_id-take (ℕ.suc n) (s ∷ rows) r h = ground (arith, has_id-take n rows r)

has_id-insert_by :
    (before : Row → Row → Bool) (s : Row) (rows : List Row) (r : Row)
    → has_id (insert_by before s rows) r ≡ (nat_eq s.event_id r.event_id || has_id rows r)
has_id-insert_by before s [] r = ground arith
has_id-insert_by before s (q ∷ rows) r = ground (arith, has_id-insert_by before s rows r)

has_id-sort_by :
    (before : Row → Row → Bool) (rows : List Row) (r : Row)
    → has_id (sort_by before rows) r ≡ has_id rows r
has_id-sort_by before [] r = refl
has_id-sort_by before (s ∷ rows) r =
    ground (arith, has_id-insert_by before s (sort_by before rows) r, has_id-sort_by before rows r)

has_id-All : (rows : List Row) → All (λ r. has_id rows r ≡ true) rows
has_id-All [] = tt
has_id-All (r ∷ rows) = (ground arith, All-map _ _ (λ s h. ground arith) rows (has_id-All rows))

has_id_of_eq :
    (rows : List Row) (s r : Row)
    → nat_eq s.event_id r.event_id ≡ true
    → has_id rows s ≡ has_id rows r
has_id_of_eq [] s r e = refl
has_id_of_eq (q ∷ rows) s r e = ground (arith, has_id_of_eq rows s r e)

filter_passes :
    (p : Row → Bool) (rows : List Row)
    → IdsDistinct rows
    → All (λ r. has_id (filter p rows) r ≡ true → p r ≡ true) rows
filter_passes p [] d = tt
filter_passes p (s ∷ rows) (new, d) =
    (ground (arith, has_id-filter p rows s), rest rows (has_id-All rows) (filter_passes p rows d))
  where
    rest :
        (rs : List Row)
        → All (λ r. has_id rows r ≡ true) rs
        → All (λ r. has_id (filter p rows) r ≡ true → p r ≡ true) rs
        → All (λ r. has_id (filter p (s ∷ rows)) r ≡ true → p r ≡ true) rs
    rest [] hs ps = tt
    rest (r ∷ rs) (h, hs) (q, ps) = (λ m. ground (arith, has_id_of_eq rows s r), rest rs hs ps)

-- Each row that has the id of a candidate is one.
pub candidates_pass :
    (n now : ℕ) (rows : List Row)
    → IdsDistinct rows
    → All (λ r. has_id (candidates n now rows) r ≡ true → is_candidate now rows r ≡ true) rows
candidates_pass n now rows d =
    All-map _ _
      (λ r passes h. passes (
        sym (has_id-sort_by by_availability (filter (is_candidate now rows) rows) r)
        ∙ has_id-take n (sort_by by_availability (filter (is_candidate now rows) rows)) r h))
      rows (filter_passes (is_candidate now rows) rows d)
