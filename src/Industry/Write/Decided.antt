-- ===== src/Industry/Write/Decided.antt =====
-- What the statements of an ingestion leave alone: the runs, the audit log, and the decisions on
-- relations.
use open_data_fusion.Prelude.{
  String, ◌==◌, ℕ, suc, ◌≡◌, refl, subst, Bool, true, false, not, ◌&&◌, Option, none, some, List,
  [], ◌∷◌, any,
}
use open_data_fusion.Prelude.Result.{ok, >>=-eq-ok, guard->>-eq-ok, ok-injective}
use open_data_fusion.Industry.Tables.{
  asset, time_series, Status, proposed, accepted, rejected, superseded, RelationRow, entity_missing,
  constraint, Database, has_asset, has_series, has_entity, for_each, thrown_at,
}
use open_data_fusion.Industry.Hierarchy.{assert_no_asset_cycles}
use open_data_fusion.Industry.Bundle.{
  Source, Asset, Series, Point, Document, Relation, Bundle, or_else,
}
use open_data_fusion.Industry.Write.{
  upsert_asset, set_parent, upsert_series, upsert_point, upsert_document, check_document_asset,
  upsert_relation, upsert_relations, write_bundle, is_relation, id_is_free, update_relation,
  merge_status,
}
use open_data_fusion.Industry.Write.References.{any-upsert_mono, for_each-keeps, thrown_at-eq-ok}

-- The decision of a reviewer.
pub data Decision : Type 0 where
  accept reject : Decision

abbrev pub is_decided : Decision → Status → Bool
is_decided accept accepted = true
is_decided reject rejected = true
is_decided _ _ = false

-- Whether the relation of an id has been decided so.
abbrev pub has_decision : String → Decision → List RelationRow → Bool
has_decision id decision rows =
    any (λ (row : RelationRow). row.id == id && is_decided decision row.status) rows

-- The runs and the audit log are the same, and no decision is lost.
abbrev pub Frame : Database → Database → Type 0
Frame db next =
    (next.runs ≡ db.runs)
    × (next.audit ≡ db.audit)
    × ((id : String) (decision : Decision)
        → has_decision id decision db.relations ≡ true
        → has_decision id decision next.relations ≡ true)

pub Frame-refl : (db : Database) → Frame db db
Frame-refl db = (refl, refl, λ id decision h. h)

merge_status-is_decided :
    (old new : Status) (decision : Decision)
    → is_decided decision old ≡ true
    → is_decided decision (merge_status old new) ≡ true
merge_status-is_decided accepted new decision h = h
merge_status-is_decided rejected new decision h = h
merge_status-is_decided proposed new accept h = cc
merge_status-is_decided proposed new reject h = cc
merge_status-is_decided superseded new accept h = cc
merge_status-is_decided superseded new reject h = cc

both_mono : (a b c : Bool) → (b ≡ true → c ≡ true) → (a && b) ≡ true → (a && c) ≡ true
both_mono true b c k h = k h
both_mono false b c k h = cc

module _ (raw_hash : Source → String) (system run_id started_at : String) (start : Database) where
  upsert_asset-Frame :
      (a : Asset) (db next : Database)
      → upsert_asset raw_hash system run_id started_at a db ≡ ok next
      → Frame start db
      → Frame start next
  upsert_asset-Frame a db next h f = subst (Frame start) (ok-injective h) f

  set_parent-Frame :
      (a : Asset) (parent : Option (Option String)) (db next : Database)
      → set_parent raw_hash system run_id started_at a parent db ≡ ok next
      → Frame start db
      → Frame start next
  set_parent-Frame a none db next h f = subst (Frame start) (ok-injective h) f
  set_parent-Frame a (some none) db next h f = subst (Frame start) (ok-injective h) f
  set_parent-Frame a (some (some parent)) db next h f =
      let (_, h₁) = guard->>-eq-ok (has_asset db.assets parent) (entity_missing asset parent) _ h in
      let (_, h₂) = guard->>-eq-ok (not (parent == a.external_id)) constraint _ h₁ in
      subst (Frame start) (ok-injective h₂) f

  upsert_series-Frame :
      (s : Series) (db next : Database)
      → upsert_series raw_hash system run_id started_at s db ≡ ok next
      → Frame start db
      → Frame start next
  upsert_series-Frame s db next h f =
      let (_, h₁) =
        guard->>-eq-ok (has_asset db.assets s.asset_external_id)
          (entity_missing asset s.asset_external_id) _ h in
      subst (Frame start) (ok-injective h₁) f

  upsert_point-Frame :
      (p : Point) (db next : Database)
      → upsert_point raw_hash system run_id started_at p db ≡ ok next
      → Frame start db
      → Frame start next
  upsert_point-Frame p db next h f =
      let (_, h₁) =
        guard->>-eq-ok (has_series db.time_series p.time_series_external_id)
          (entity_missing time_series p.time_series_external_id) _ h in
      subst (Frame start) (ok-injective h₁) f

  upsert_document-Frame :
      (d : Document) (db next : Database)
      → upsert_document raw_hash system run_id started_at d db ≡ ok next
      → Frame start db
      → Frame start next
  upsert_document-Frame d db next h f =
      let (_, _, h₁) = >>=-eq-ok (check_document_asset d.asset_external_id db) _ h in
      subst (Frame start) (ok-injective h₁) f

  upsert_relation-Frame :
      (id : String) (r : Relation) (db next : Database)
      → upsert_relation raw_hash system run_id started_at id r db ≡ ok next
      → Frame start db
      → Frame start next
  upsert_relation-Frame id r db next h (runs, audit, decisions) =
      let (_, h₁) =
        guard->>-eq-ok (has_entity r.source_type r.source_external_id db)
          (entity_missing r.source_type r.source_external_id) _ h in
      let (_, h₂) =
        guard->>-eq-ok (has_entity r.target_type r.target_external_id db)
          (entity_missing r.target_type r.target_external_id) _ h₁ in
      let (_, h₃) = guard->>-eq-ok (id_is_free r id db.relations) constraint _ h₂ in
      subst (Frame start) (ok-injective h₃) (
        runs,
        audit,
        λ b decision h.
            any-upsert_mono (is_relation r) (update_relation raw_hash system run_id started_at r)
              (λ (row : RelationRow). row.id == b && is_decided decision row.status) _ db.relations
              (λ row.
                both_mono (row.id == b) _ _ (merge_status-is_decided row.status r.status decision))
              (decisions b decision h),
      )

  upsert_relations-Frame :
      (new_id : ℕ → String) (n : ℕ) (rs : List Relation) (db next : Database)
      → upsert_relations raw_hash system run_id started_at new_id n rs db ≡ ok next
      → Frame start db
      → Frame start next
  unfolding upsert_relations
  upsert_relations-Frame new_id n [] db next h f = subst (Frame start) (ok-injective h) f
  upsert_relations-Frame new_id n (r ∷ rs) db next h f =
      let (middle, first, rest) =
        >>=-eq-ok
          (thrown_at db
            (upsert_relation raw_hash system run_id started_at (or_else (new_id n) r.id) r db))
          _ h in
      upsert_relations-Frame new_id (suc n) rs middle next rest (
        upsert_relation-Frame (or_else (new_id n) r.id) r db middle
          (thrown_at-eq-ok db
            (upsert_relation raw_hash system run_id started_at (or_else (new_id n) r.id) r db)
            first)
          f)

pub write_bundle-Frame :
    (raw_hash : Source → String) (system run_id started_at : String) (new_id : ℕ → String)
    (bundle : Bundle) (db next : Database)
    → write_bundle raw_hash system run_id started_at new_id bundle db ≡ ok next
    → Frame db next
unfolding write_bundle
write_bundle-Frame raw_hash system run_id started_at new_id bundle db next h =
    let (upserted, assets, h₁) =
      >>=-eq-ok (for_each (upsert_asset raw_hash system run_id started_at) bundle.assets db) _ h in
    let (nested, parents, h₂) =
      >>=-eq-ok
        (for_each
          (λ (a : Asset). set_parent raw_hash system run_id started_at a a.parent_external_id)
          bundle.assets upserted)
        _ h₁ in
    let (_, _, h₃) = >>=-eq-ok (thrown_at nested (assert_no_asset_cycles nested.assets)) _ h₂ in
    let (measured, series, h₄) =
      >>=-eq-ok
        (for_each (upsert_series raw_hash system run_id started_at) bundle.time_series nested) _
        h₃ in
    let (pointed, points, h₅) =
      >>=-eq-ok
        (for_each (upsert_point raw_hash system run_id started_at) bundle.data_points measured) _
        h₄ in
    let (documented, documents, h₆) =
      >>=-eq-ok
        (for_each (upsert_document raw_hash system run_id started_at) bundle.documents pointed) _
        h₅ in
    let f₁ =
      for_each-keeps (Frame db) _ (upsert_asset-Frame raw_hash system run_id started_at db)
        bundle.assets db assets (Frame-refl db) in
    let f₂ =
      for_each-keeps (Frame db) _
        (λ (a : Asset).
          set_parent-Frame raw_hash system run_id started_at db a a.parent_external_id)
        bundle.assets upserted parents f₁ in
    let f₃ =
      for_each-keeps (Frame db) _ (upsert_series-Frame raw_hash system run_id started_at db)
        bundle.time_series nested series f₂ in
    let f₄ =
      for_each-keeps (Frame db) _ (upsert_point-Frame raw_hash system run_id started_at db)
        bundle.data_points measured points f₃ in
    let f₅ =
      for_each-keeps (Frame db) _ (upsert_document-Frame raw_hash system run_id started_at db)
        bundle.documents pointed documents f₄ in
    upsert_relations-Frame raw_hash system run_id started_at db new_id 0 bundle.relations documented
      next h₆ f₅
