-- ===== src/Industry/Review.antt =====
-- `reviewRelation` of apps/api/src/database.ts: a proposed relation is accepted or rejected once.
-- The time is a parameter; the conversion of the row to its answer is left out.
pub mod History
use open_data_fusion.Prelude.{
  String, ◌==◌, Bool, true, false, Option, none, some, List, [], ◌∷◌, if◌then◌else◌, find,
  update_first,
}
use Prim.Native.String.{◌++◌ as ◌concat◌}
use open_data_fusion.Prelude.Result.{Result, ok, err, ◌>>=◌, ◌>>◌, guard}
use open_data_fusion.Industry.Tables.{
  Status, proposed, accepted, rejected, superseded, RelationRow, Error, relation_missing,
  already_reviewed, reviewed, Database, insert_audit,
}
use open_data_fusion.Industry.Write.Decided.{Decision, accept, reject}

pub record Review : Type 0 where
  pub decision : Decision
  pub reviewer : String
  pub comment : Option String

abbrev pub status_of : Decision → Status
status_of accept = accepted
status_of reject = rejected

abbrev pub text_of : Decision → String
text_of accept = "accepted"
text_of reject = "rejected"

abbrev pub is_proposed : Status → Bool
is_proposed proposed = true
is_proposed _ = false

abbrev pub is_relation_of : String → RelationRow → Bool
is_relation_of id row = row.id == id

abbrev pub require_relation : String → Option RelationRow → Result Error RelationRow
require_relation id none = err (relation_missing id)
require_relation id (some row) = ok row

abbrev pub decide_row : Review → (reviewed_at : String) → RelationRow → RelationRow
decide_row review reviewed_at row = record row {
  status = status_of review.decision;
  reviewer = some review.reviewer;
  review_comment = review.comment;
  reviewed_at = some reviewed_at;
  updated_at = reviewed_at;
}

abbrev pub write_review : Review → (reviewed_at correlation_id id : String) → Database → Database
write_review review reviewed_at correlation_id id db =
    insert_audit
      (record {
        timestamp = reviewed_at;
        actor = review.reviewer;
        action = "relation." concat text_of review.decision;
        entity_type = "relation";
        entity_id = id;
        details = reviewed (status_of review.decision) review.comment;
        correlation_id = correlation_id;
      })
      (record db {
        relations = update_first (is_relation_of id) (decide_row review reviewed_at) db.relations;
      })

-- The database after the transaction, and the row that is answered. An error leaves it as it was.
unfoldable pub review_relation :
    Review
    → (reviewed_at correlation_id id : String) → Database
    → Result Error (Database × RelationRow)
review_relation review reviewed_at correlation_id id db = do
  current ← require_relation id (find (is_relation_of id) db.relations)
  guard (is_proposed current.status) (already_reviewed id current.status)
  updated ←
      require_relation id
        (find (is_relation_of id) (write_review review reviewed_at correlation_id id db).relations)
  ok (write_review review reviewed_at correlation_id id db, updated)
