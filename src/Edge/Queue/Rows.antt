-- ===== src/Edge/Queue/Rows.antt =====
-- Rows of the durable queue, by their ids: what the statements of its methods leave unchanged.
use mathlib.Core.Option
use open_data_fusion.Prelude.{
  String, ◌==◌, ==_refl, ℕ, ◌≡◌, refl, sym, subst, Bool, true, false, Option, some, List, [], ◌∷◌,
  ◌++◌, map, arith, find, update_first, contains, Distinct, Bool-cases, Option-cases, ◌⊎◌, inl, inr,
}
use open_data_fusion.Edge.Queue.{Row, expire, is_ready, first_ready}

abbrev pub ids : List Row → List String
ids rows = map (λ r. r.id) rows

abbrev pub keys : List Row → List String
keys rows = map (λ r. r.idempotency_key) rows

abbrev pub find_row : String → List Row → Option Row
find_row id rows = find (λ r. r.id == id) rows

pub map-update_first :
    (key : Row → String) (p : Row → Bool) (f : Row → Row)
    → ((r : Row) → key (f r) ≡ key r)
    → (rows : List Row) → map key (update_first p f rows) ≡ map key rows
map-update_first key p f keeps [] = refl
map-update_first key p f keeps (r ∷ rows) =
    ground (arith, keeps r, map-update_first key p f keeps rows)

pub map-expire :
    (key : Row → String) (now : ℕ)
    → ((r : Row) → key (expire now r) ≡ key r)
    → (rows : List Row) → map key (map (expire now) rows) ≡ map key rows
map-expire key now keeps [] = refl
map-expire key now keeps (r ∷ rows) = ground (arith, keeps r, map-expire key now keeps rows)

pub expire-id : (now : ℕ) (r : Row) → (expire now r).id ≡ r.id
expire-id now r = ground arith

pub expire-key : (now : ℕ) (r : Row) → (expire now r).idempotency_key ≡ r.idempotency_key
expire-key now r = ground arith

pub find_row-expire :
    (now : ℕ) (id : String) (rows : List Row)
    → find_row id (map (expire now) rows) ≡ Option.map (expire now) (find_row id rows)
find_row-expire now id [] = refl
find_row-expire now id (r ∷ rows) = ground (arith, expire-id now r, find_row-expire now id rows)

-- An UPDATE that does not select the row leaves it as it is.
pub find_row-update_first :
    (p : Row → Bool) (f : Row → Row)
    → ((r : Row) → (f r).id ≡ r.id)
    → (id : String) (rows : List Row) {r : Row} → find_row id rows ≡ some r
    → p r ≡ false
    → find_row id (update_first p f rows) ≡ some r
find_row-update_first p f keeps id [] h n = ground arith
find_row-update_first p f keeps id (s ∷ rows) {r} h n =
    ground (arith, keeps s, find_row-update_first p f keeps id rows {r = r})

pub find_row-id : (id : String) (rows : List Row) {r : Row} → find_row id rows ≡ some r → r.id ≡ id
find_row-id id [] h = ground arith
find_row-id id (s ∷ rows) {r} h = ground (arith, find_row-id id rows {r = r})

pub find_row-append :
    (id : String) (rows more : List Row) {r : Row}
    → find_row id rows ≡ some r
    → find_row id (rows ++ more) ≡ some r
find_row-append id [] more h = ground arith
find_row-append id (s ∷ rows) more {r} h = ground (arith, find_row-append id rows more {r = r})

pub contains_of_find :
    (id : String) (rows : List Row) {r : Row}
    → find_row id rows ≡ some r
    → contains (ids rows) id ≡ true
contains_of_find id [] h = ground arith
contains_of_find id (s ∷ rows) {r} h = ground (arith, contains_of_find id rows {r = r})

-- The row that is chosen is one of the rows, and it is ready.
pub first_ready-find :
    (now : ℕ) (rows : List Row) {r : Row}
    → Distinct (ids rows)
    → first_ready now rows ≡ some r
    → (find_row r.id rows ≡ some r) × (is_ready now r ≡ true)
unfolding first_ready
first_ready-find now [] d h = ground arith
first_ready-find now (s ∷ rows) {r} (new, d) h = elim (Option-cases (first_ready now rows)) [
  | inl e ↦ ground (arith, ==_refl s.id)
  | inr (b, e) ↦
      later b (first_ready-find now rows d e)
        (elim (Bool-cases (is_ready now s)) [ inl t ↦ ground arith | inr t ↦ ground arith ])
]
  where
    later :
        (b : Row)
        → (find_row b.id rows ≡ some b) × (is_ready now b ≡ true)
        → ((r ≡ s) × (is_ready now s ≡ true)) ⊎ (r ≡ b)
        → (find_row r.id (s ∷ rows) ≡ some r) × (is_ready now r ≡ true)
    later b (found, ready) (inl (same, t)) =
        subst (λ q. (find_row q.id (s ∷ rows) ≡ some q) × (is_ready now q ≡ true)) (sym same)
          (ground (arith, ==_refl s.id), t)
    later b (found, ready) (inr same) =
        subst (λ q. (find_row q.id (s ∷ rows) ≡ some q) × (is_ready now q ≡ true)) (sym same)
          (ground (arith, contains_of_find b.id rows {r = b}), ready)
