-- ===== src/Industry/Write/Linked.antt =====
-- The statements of an ingestion keep every reference, and the hierarchy stays free of cycles.
use open_data_fusion.Prelude.{
  String, ◌==◌, ℕ, suc, ◌≡◌, refl, sym, ◌∙◌, subst, Bool, true, false, not, Option, none, some,
  List, [], ◌∷◌, arith, update_first, All-map, if◌then◌else◌,
}
use open_data_fusion.Prelude.Result.{
  ok, guard, >>=-eq-ok, guard->>-eq-ok, guard-eq-ok, ok-injective,
}
use open_data_fusion.Industry.Tables.{
  asset, time_series, AssetRow, SeriesRow, PointRow, DocumentRow, Error, entity_missing, constraint,
  Database, has_asset, has_series, has_entity, upsert, for_each, thrown_at,
}
use open_data_fusion.Industry.Hierarchy.{assert_no_asset_cycles}
use open_data_fusion.Industry.Hierarchy.Acyclic.{IsAcyclic, assert_no_asset_cycles-IsAcyclic}
use open_data_fusion.Industry.Bundle.{
  Source, Asset, Series, Point, Document, Relation, Bundle, or_else,
}
use open_data_fusion.Industry.Write.{
  upsert_asset, set_parent, write_parent, upsert_series, upsert_point, upsert_document,
  check_document_asset, upsert_relation, upsert_relations, write_bundle, is_point, is_relation,
  id_is_free, asset_row, update_asset,
}
use open_data_fusion.Industry.Write.References.{
  IsAsset, HasEnds, IsAsset-grows, IsLinked, IsLinked-assets, IsLinked-series, IsLinked-documents,
  All-upsert, any-upsert, All-update_first, any-update_first, for_each-keeps, thrown_at-eq-ok,
}

either_guard :
    (b c : Bool) (e e' : Error) {u : Unit {0}}
    → (if b then guard c e else guard c e') ≡ ok u
    → c ≡ true
either_guard true c e e' h = guard-eq-ok c e h
either_guard false c e e' h = guard-eq-ok c e' h

module _ (raw_hash : Source → String) (system run_id started_at : String) where
  upsert_asset-IsLinked :
      (a : Asset) (db next : Database)
      → upsert_asset raw_hash system run_id started_at a db ≡ ok next
      → IsLinked db
      → IsLinked next
  upsert_asset-IsLinked a db next h l = subst IsLinked (ok-injective h) (
      IsLinked-assets db _ grows
        (All-upsert same (update_asset raw_hash system run_id started_at a)
          (λ (row : AssetRow). IsAsset _ row.parent_external_id) _ db.assets (λ row p. p) tt
          (All-map _ _ (λ (row : AssetRow). IsAsset-grows db.assets _ grows row.parent_external_id)
            db.assets l.0))
        l)
    where
      same : AssetRow → Bool
      same row = row.external_id == a.external_id

      grows :
          (id : String)
          → has_asset db.assets id ≡ true
          → has_asset
              (upsert
                (λ (row : AssetRow). row.external_id == a.external_id)
                (update_asset raw_hash system run_id started_at a)
                (asset_row raw_hash system run_id started_at a)
                db.assets)
              id
            ≡ true
      grows id known =
          any-upsert (λ (row : AssetRow). row.external_id == a.external_id)
            (update_asset raw_hash system run_id started_at a)
            (λ (row : AssetRow). row.external_id == id) _ db.assets (λ row e. refl) known

  write_parent-IsLinked :
      (id : String) (parent : Option String) (db : Database)
      → IsAsset db.assets parent
      → IsLinked db
      → IsLinked (write_parent raw_hash system run_id started_at id parent db)
  write_parent-IsLinked id parent db known l =
      IsLinked-assets db _ (λ b h. keeps b ∙ h)
        (All-update_first (λ (row : AssetRow). row.external_id == id) _
          (λ (row : AssetRow). IsAsset _ row.parent_external_id) db.assets
          (λ row p. IsAsset-grows db.assets _ (λ b h. keeps b ∙ h) parent known)
          (All-map _ _
            (λ (row : AssetRow).
              IsAsset-grows db.assets _ (λ b h. keeps b ∙ h) row.parent_external_id)
            db.assets l.0))
        l
    where
      keeps :
          (b : String)
          → has_asset
              (update_first
                (λ (row : AssetRow). row.external_id == id)
                (λ (row : AssetRow). record row {
                  parent_external_id = parent;
                  updated_at = started_at;
                })
                db.assets)
              b
            ≡ has_asset db.assets b
      keeps b =
          any-update_first (λ (row : AssetRow). row.external_id == id)
            (λ (row : AssetRow). record row {
              parent_external_id = parent;
              updated_at = started_at;
            })
            (λ (row : AssetRow). row.external_id == b) db.assets (λ row. refl)

  set_parent-IsLinked :
      (a : Asset) (parent : Option (Option String)) (db next : Database)
      → set_parent raw_hash system run_id started_at a parent db ≡ ok next
      → IsLinked db
      → IsLinked next
  set_parent-IsLinked a none db next h l = subst IsLinked (ok-injective h) l
  set_parent-IsLinked a (some none) db next h l =
      subst IsLinked (ok-injective h) (write_parent-IsLinked a.external_id none db tt l)
  set_parent-IsLinked a (some (some parent)) db next h l =
      let (known, h₁) =
        guard->>-eq-ok (has_asset db.assets parent) (entity_missing asset parent) _ h in
      let (_, h₂) = guard->>-eq-ok (not (parent == a.external_id)) constraint _ h₁ in
      subst IsLinked (ok-injective h₂)
        (write_parent-IsLinked a.external_id (some parent) db known l)

  -- What the statements behind the test of the hierarchy keep.
  abbrev Kept : List AssetRow → Database → Type 0
  Kept assets db = IsLinked db × (db.assets ≡ assets)

  upsert_series-Kept :
      (assets : List AssetRow) (s : Series) (db next : Database)
      → upsert_series raw_hash system run_id started_at s db ≡ ok next
      → Kept assets db
      → Kept assets next
  upsert_series-Kept assets s db next h (l, e) =
      let (known, h₁) =
        guard->>-eq-ok (has_asset db.assets s.asset_external_id)
          (entity_missing asset s.asset_external_id) _ h in
      subst (Kept assets) (ok-injective h₁) (
        IsLinked-series db _
            (λ id.
              any-upsert (λ (row : SeriesRow). row.external_id == s.external_id) _
                (λ (row : SeriesRow). row.external_id == id) _ db.time_series
                (λ row same. ground (arith, same)))
            (All-upsert (λ (row : SeriesRow). row.external_id == s.external_id) _
              (λ (row : SeriesRow). has_asset db.assets row.asset_external_id ≡ true) _
              db.time_series (λ row p. known) known l.1)
            l,
        e,
      )

  upsert_point-Kept :
      (assets : List AssetRow) (p : Point) (db next : Database)
      → upsert_point raw_hash system run_id started_at p db ≡ ok next
      → Kept assets db
      → Kept assets next
  upsert_point-Kept assets p db next h ((parents, series, points, documents, relations), e) =
      let (known, h₁) =
        guard->>-eq-ok (has_series db.time_series p.time_series_external_id)
          (entity_missing time_series p.time_series_external_id) _ h in
      subst (Kept assets) (ok-injective h₁) (
        (
          parents,
          series,
          All-upsert (is_point p) _
              (λ (row : PointRow). has_series db.time_series row.time_series_external_id ≡ true) _
              db.data_points (λ row q. known) known points,
          documents,
          relations,
        ),
        e,
      )

  check_document_asset-IsAsset :
      (reference : Option String) (db : Database) {u : Unit {0}}
      → check_document_asset reference db ≡ ok u
      → IsAsset db.assets reference
  check_document_asset-IsAsset none db h = tt
  check_document_asset-IsAsset (some id) db h =
      either_guard (id == "") (has_asset db.assets id) constraint (entity_missing asset id) h

  upsert_document-Kept :
      (assets : List AssetRow) (d : Document) (db next : Database)
      → upsert_document raw_hash system run_id started_at d db ≡ ok next
      → Kept assets db
      → Kept assets next
  upsert_document-Kept assets d db next h (l, e) =
      let (_, checked, h₁) = >>=-eq-ok (check_document_asset d.asset_external_id db) _ h in
      let known = check_document_asset-IsAsset d.asset_external_id db checked in
      subst (Kept assets) (ok-injective h₁) (
        IsLinked-documents db _
            (λ id.
              any-upsert (λ (row : DocumentRow). row.external_id == d.external_id) _
                (λ (row : DocumentRow). row.external_id == id) _ db.documents
                (λ row same. ground (arith, same)))
            (All-upsert (λ (row : DocumentRow). row.external_id == d.external_id) _
              (λ (row : DocumentRow). IsAsset db.assets row.asset_external_id) _ db.documents
              (λ row p. known) known l.3)
            l,
        e,
      )

  upsert_relation-Kept :
      (assets : List AssetRow) (id : String) (r : Relation) (db next : Database)
      → upsert_relation raw_hash system run_id started_at id r db ≡ ok next
      → Kept assets db
      → Kept assets next
  upsert_relation-Kept assets id r db next h ((parents, series, points, documents, relations), e) =
      let (source, h₁) =
        guard->>-eq-ok (has_entity r.source_type r.source_external_id db)
          (entity_missing r.source_type r.source_external_id) _ h in
      let (target, h₂) =
        guard->>-eq-ok (has_entity r.target_type r.target_external_id db)
          (entity_missing r.target_type r.target_external_id) _ h₁ in
      let (_, h₃) = guard->>-eq-ok (id_is_free r id db.relations) constraint _ h₂ in
      subst (Kept assets) (ok-injective h₃) (
        (
          parents,
          series,
          points,
          documents,
          All-upsert (is_relation r) _ (HasEnds db) _ db.relations (λ row ends. ends)
              (source, target) relations,
        ),
        e,
      )

  upsert_relations-Kept :
      (assets : List AssetRow) (new_id : ℕ → String) (n : ℕ) (rs : List Relation)
      (db next : Database)
      → upsert_relations raw_hash system run_id started_at new_id n rs db ≡ ok next
      → Kept assets db
      → Kept assets next
  unfolding upsert_relations
  upsert_relations-Kept assets new_id n [] db next h k = subst (Kept assets) (ok-injective h) k
  upsert_relations-Kept assets new_id n (r ∷ rs) db next h k =
      let (middle, first, rest) =
        >>=-eq-ok
          (thrown_at db
            (upsert_relation raw_hash system run_id started_at (or_else (new_id n) r.id) r db))
          _ h in
      upsert_relations-Kept assets new_id (suc n) rs middle next rest (
        upsert_relation-Kept assets (or_else (new_id n) r.id) r db middle
          (thrown_at-eq-ok db
            (upsert_relation raw_hash system run_id started_at (or_else (new_id n) r.id) r db)
            first)
          k)

  -- If a bundle is written to tables whose references hold, they hold after it, and no asset is its
  -- own ancestor.
  pub write_bundle-IsLinked :
      (new_id : ℕ → String) (bundle : Bundle) (db next : Database)
      → write_bundle raw_hash system run_id started_at new_id bundle db ≡ ok next
      → IsLinked db
      → IsLinked next × IsAcyclic next.assets
  unfolding write_bundle
  write_bundle-IsLinked new_id bundle db next h l =
      let (upserted, assets, h₁) =
        >>=-eq-ok (for_each (upsert_asset raw_hash system run_id started_at) bundle.assets db) _
          h in
      let (nested, parents, h₂) =
        >>=-eq-ok
          (for_each
            (λ (a : Asset). set_parent raw_hash system run_id started_at a a.parent_external_id)
            bundle.assets upserted)
          _ h₁ in
      let (_, acyclic, h₃) =
        >>=-eq-ok (thrown_at nested (assert_no_asset_cycles nested.assets)) _ h₂ in
      let (measured, series, h₄) =
        >>=-eq-ok
          (for_each (upsert_series raw_hash system run_id started_at) bundle.time_series nested) _
          h₃ in
      let (pointed, points, h₅) =
        >>=-eq-ok
          (for_each (upsert_point raw_hash system run_id started_at) bundle.data_points measured) _
          h₄ in
      let (documented, documents, h₆) =
        >>=-eq-ok
          (for_each (upsert_document raw_hash system run_id started_at) bundle.documents pointed) _
          h₅ in
      let l₁ = for_each-keeps IsLinked _ upsert_asset-IsLinked bundle.assets db assets l in
      let l₂ =
        for_each-keeps IsLinked _ (λ (a : Asset). set_parent-IsLinked a a.parent_external_id)
          bundle.assets upserted parents l₁ in
      let k₃ =
        for_each-keeps (Kept nested.assets) _ (upsert_series-Kept nested.assets) bundle.time_series
          nested series (l₂, refl) in
      let k₄ =
        for_each-keeps (Kept nested.assets) _ (upsert_point-Kept nested.assets) bundle.data_points
          measured points k₃ in
      let k₅ =
        for_each-keeps (Kept nested.assets) _ (upsert_document-Kept nested.assets) bundle.documents
          pointed documents k₄ in
      let (l₆, same) =
        upsert_relations-Kept nested.assets new_id 0 bundle.relations documented next h₆ k₅ in
      (
        l₆,
        subst IsAcyclic (sym same) (
            assert_no_asset_cycles-IsAcyclic nested.assets
              (thrown_at-eq-ok nested (assert_no_asset_cycles nested.assets) acyclic)),
      )
