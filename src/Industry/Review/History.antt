-- ===== src/Industry/Review/History.antt =====
-- Ingestions and reviews in any order.
use open_data_fusion.Prelude.{
  String, ◌==◌, ◌≡◌, refl, sym, ap, ◌∙◌, subst, Bool, true, false, ◌&&◌, Option, none, some, List,
  [], ◌∷◌, arith, any, find, update_first, if◌then◌else◌,
}
use open_data_fusion.Prelude.Result.{ok, >>=-eq-ok, guard->>-eq-ok, ok-injective}
use open_data_fusion.Industry.Tables.{
  RelationRow, Status, proposed, accepted, rejected, superseded, Database, already_reviewed,
}
use open_data_fusion.Industry.Bundle.{Source, Bundle, Call}
use open_data_fusion.Industry.Write.References.{HasEnds, All-update_first}
use open_data_fusion.Industry.Write.Decided.{Decision, accept, reject, is_decided, has_decision}
use open_data_fusion.Industry.Ingest.{ingest}
use open_data_fusion.Industry.Ingest.Runs.{some-injective}
use open_data_fusion.Industry.Ingest.Answers.{IsSound, ingest-IsSound, ingest-decision}
use open_data_fusion.Industry.Review.{
  Review, is_proposed, is_relation_of, require_relation, decide_row, write_review, review_relation,
}

require_relation-ok :
    (id : String) (found : Option RelationRow) {row : RelationRow}
    → require_relation id found ≡ ok row
    → found ≡ some row
require_relation-ok id none h = cc
require_relation-ok id (some row) h = ap some (ok-injective h)

-- The row that a review changes was proposed.
pub review_relation-proposed :
    (review : Review) (at correlation_id id : String) (db : Database) {next : Database}
    {answer : RelationRow}
    → review_relation review at correlation_id id db ≡ ok (next, answer)
    → (row : RelationRow) × (find (is_relation_of id) db.relations ≡ some row)
      × (is_proposed row.status ≡ true)
      × (next ≡ write_review review at correlation_id id db)
unfolding review_relation
review_relation-proposed review at correlation_id id db h =
    let (row, found, h₁) =
      >>=-eq-ok (require_relation id (find (is_relation_of id) db.relations)) _ h in
    let (waiting, h₂) =
      guard->>-eq-ok (is_proposed row.status) (already_reviewed id row.status) _ h₁ in
    let (updated, _, h₃) =
      >>=-eq-ok
        (require_relation id
          (find (is_relation_of id) (write_review review at correlation_id id db).relations))
        _ h₂ in
    (
      row,
      require_relation-ok id _ found,
      waiting,
      ap (λ (r : Database × RelationRow). r.0) (sym (ok-injective h₃)),
    )

undecided :
    (decision : Decision) (status : Status)
    → is_proposed status ≡ true
    → is_decided decision status ≡ false
undecided accept proposed h = refl
undecided reject proposed h = refl
undecided decision accepted h = cc
undecided decision rejected h = cc
undecided decision superseded h = cc

-- A test that the row fails that is changed passes for some row as before.
any-update_first_other :
    {A : Type 0} (p : A → Bool) (f : A → A) (q : A → Bool) (x : A) (rows : List A)
    → find p rows ≡ some x
    → q x ≡ false
    → any q rows ≡ true
    → any q (update_first p f rows) ≡ true
any-update_first_other p f q x [] e n h = cc
any-update_first_other p f q x (row ∷ rows) e n h =
    step (p row) (any-update_first_other p f q x rows) e
  where
    step :
        (b : Bool)
        → (find p rows ≡ some x
            → q x ≡ false
            → any q rows ≡ true
            → any q (update_first p f rows) ≡ true)
        → (if b then some row else find p rows) ≡ some x
        → any q (if b then f row ∷ rows else row ∷ update_first p f rows) ≡ true
    step true rest e = let off = ap q (some-injective e) ∙ n in ground arith
    step false rest e = ground (arith, rest e n)

module _ (payload_hash : Bundle → String) (raw_hash : Source → String) where
  -- One call: an ingestion, whatever it answers, or a review that succeeds.
  pub data Step : Database → Database → Type 0 where
    ingested :
        (call : Call) (bundle : Bundle) (db : Database)
        → Step db (ingest payload_hash raw_hash call bundle db).1
    reviewed :
        (review : Review) (at correlation_id id : String) (db next : Database)
        (answer : RelationRow)
        → review_relation review at correlation_id id db ≡ ok (next, answer)
        → Step db next

  -- Any number of calls.
  pub data Steps (start : Database) : Database → Type 0 where
    none_yet : Steps start start
    behind : {db next : Database} → Steps start db → Step db next → Steps start next

  step-decision :
      (id : String) (decision : Decision) (db next : Database)
      → Step db next
      → has_decision id decision db.relations ≡ true
      → has_decision id decision next.relations ≡ true
  step-decision id decision db next (ingested call bundle _) h =
      ingest-decision payload_hash raw_hash call bundle db id decision h
  step-decision id decision db next (reviewed review at correlation_id b _ _ answer e) h =
      let (row, found, waiting, same) = review_relation-proposed review at correlation_id b db e in
      subst (λ (n : Database). has_decision id decision n.relations ≡ true) (sym same)
        (any-update_first_other (is_relation_of b) (decide_row review at)
          (λ (r : RelationRow). r.id == id && is_decided decision r.status) row db.relations found
          (rw (undecided decision row.status waiting) (ground arith)) h)

  step-IsSound : (db next : Database) → Step db next → IsSound db → IsSound next
  step-IsSound db next (ingested call bundle _) sound =
      ingest-IsSound payload_hash raw_hash call bundle db sound
  step-IsSound db next (reviewed review at correlation_id b _ _ answer e)
        ((parents, series, points, documents, relations), acyclic) =
      let (row, found, waiting, same) = review_relation-proposed review at correlation_id b db e in
      subst IsSound (sym same) (
        (
          parents,
          series,
          points,
          documents,
          All-update_first (is_relation_of b) (decide_row review at) (HasEnds db) db.relations
              (λ row ends. ends) relations,
        ),
        acyclic,
      )

  -- If a relation has been accepted or rejected, it is so after any number of ingestions and
  -- reviews.
  pub Steps-decision :
      (start db : Database)
      → Steps start db
      → (id : String) (decision : Decision) → has_decision id decision start.relations ≡ true
      → has_decision id decision db.relations ≡ true
  Steps-decision start db none_yet id decision h = h
  Steps-decision start db (behind {db = middle} steps step) id decision h =
      step-decision id decision middle db step (Steps-decision start middle steps id decision h)

  -- If at the start every reference is to a row and no asset is its own ancestor, this is so after
  -- any number of ingestions, failed ones too, and reviews.
  pub Steps-IsSound : (start db : Database) → Steps start db → IsSound start → IsSound db
  Steps-IsSound start db none_yet sound = sound
  Steps-IsSound start db (behind {db = middle} steps step) sound =
      step-IsSound middle db step (Steps-IsSound start middle steps sound)
