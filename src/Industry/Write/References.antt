-- ===== src/Industry/Write/References.antt =====
-- The references between the tables, and how they last when a table changes.
use open_data_fusion.Prelude.{
  String, ◌≡◌, refl, subst, Bool, true, false, ◌||◌, Option, none, some, List, [], ◌∷◌, arith, any,
  update_first, All, All-map, Bool-cases, inl, inr,
}
use open_data_fusion.Prelude.Result.{Result, ok, err, >>=-eq-ok, ok-injective}
use open_data_fusion.Industry.Tables.{
  EntityType, asset, time_series, document, AssetRow, SeriesRow, PointRow, DocumentRow, RelationRow,
  Error, Database, has_asset, has_series, has_document, has_entity, upsert, for_each, thrown_at,
}

-- An id that a row may leave out.
abbrev pub IsAsset : List AssetRow → Option String → Type 0
IsAsset assets none = Unit
IsAsset assets (some id) = has_asset assets id ≡ true

-- Both ends of a relation are there.
abbrev pub HasEnds : Database → RelationRow → Type 0
HasEnds db r =
    (has_entity r.source_type r.source_external_id db ≡ true)
    × (has_entity r.target_type r.target_external_id db ≡ true)

-- Every reference of a row is to a row.
abbrev pub IsLinked : Database → Type 0
IsLinked db =
    All (λ (a : AssetRow). IsAsset db.assets a.parent_external_id) db.assets
    × All (λ (s : SeriesRow). has_asset db.assets s.asset_external_id ≡ true) db.time_series
    × All (λ (p : PointRow). has_series db.time_series p.time_series_external_id ≡ true)
        db.data_points
    × All (λ (d : DocumentRow). IsAsset db.assets d.asset_external_id) db.documents
    × All (HasEnds db) db.relations

pub IsAsset-grows :
    (old new : List AssetRow)
    → ((id : String) → has_asset old id ≡ true → has_asset new id ≡ true)
    → (reference : Option String) → IsAsset old reference
    → IsAsset new reference
IsAsset-grows old new grows none h = tt
IsAsset-grows old new grows (some id) h = grows id h

HasEnds-grows :
    (old new : Database)
    → ((type : EntityType) (id : String)
        → has_entity type id old ≡ true
        → has_entity type id new ≡ true)
    → (rows : List RelationRow) → All (HasEnds old) rows
    → All (HasEnds new) rows
HasEnds-grows old new grows rows h =
    All-map (HasEnds old) (HasEnds new)
      (λ r ends. (
        grows r.source_type r.source_external_id (ends.0),
        grows r.target_type r.target_external_id (ends.1),
      ))
      rows h

pub IsLinked-assets :
    (db : Database) (assets : List AssetRow)
    → ((id : String) → has_asset db.assets id ≡ true → has_asset assets id ≡ true)
    → All (λ (a : AssetRow). IsAsset assets a.parent_external_id) assets
    → IsLinked db
    → IsLinked (record db { assets = assets })
IsLinked-assets db assets grows parents (_, series, points, documents, relations) = (
  parents,
  All-map _ _ (λ (s : SeriesRow). grows s.asset_external_id) db.time_series series,
  points,
  All-map _ _ (λ (d : DocumentRow). IsAsset-grows db.assets assets grows d.asset_external_id)
      db.documents documents,
  HasEnds-grows db (record db { assets = assets }) entities db.relations relations,
)
  where
    entities :
        (type : EntityType) (id : String)
        → has_entity type id db ≡ true
        → has_entity type id (record db { assets = assets }) ≡ true
    entities asset id h = grows id h
    entities time_series id h = h
    entities document id h = h

pub IsLinked-series :
    (db : Database) (series : List SeriesRow)
    → ((id : String) → has_series db.time_series id ≡ true → has_series series id ≡ true)
    → All (λ (s : SeriesRow). has_asset db.assets s.asset_external_id ≡ true) series
    → IsLinked db
    → IsLinked (record db { time_series = series })
IsLinked-series db series grows linked (parents, _, points, documents, relations) = (
  parents,
  linked,
  All-map _ _ (λ (p : PointRow). grows p.time_series_external_id) db.data_points points,
  documents,
  HasEnds-grows db (record db { time_series = series }) entities db.relations relations,
)
  where
    entities :
        (type : EntityType) (id : String)
        → has_entity type id db ≡ true
        → has_entity type id (record db { time_series = series }) ≡ true
    entities asset id h = h
    entities time_series id h = grows id h
    entities document id h = h

pub IsLinked-documents :
    (db : Database) (documents : List DocumentRow)
    → ((id : String) → has_document db.documents id ≡ true → has_document documents id ≡ true)
    → All (λ (d : DocumentRow). IsAsset db.assets d.asset_external_id) documents
    → IsLinked db
    → IsLinked (record db { documents = documents })
IsLinked-documents db documents grows linked (parents, series, points, _, relations) = (
  parents,
  series,
  points,
  linked,
  HasEnds-grows db (record db { documents = documents }) entities db.relations relations,
)
  where
    entities :
        (type : EntityType) (id : String)
        → has_entity type id db ≡ true
        → has_entity type id (record db { documents = documents }) ≡ true
    entities asset id h = h
    entities time_series id h = h
    entities document id h = grows id h

module _ {A : Type 0} (same : A → Bool) (update : A → A) where
  -- Rows that an upsert keeps or writes.
  pub All-upsert :
      (P : A → Type 0) (new : A) (rows : List A)
      → ((row : A) → P row → P (update row))
      → P new
      → All P rows
      → All P (upsert same update new rows)
  All-upsert P new [] keeps n h = (n, tt)
  All-upsert P new (row ∷ rows) keeps n (here, h) = elim (Bool-cases (same row)) [
    | inl e ↦ rw e (keeps row here, h)
    | inr e ↦ rw e (here, All-upsert P new rows keeps n h)
  ]

  -- A test that the update does not change is passed by a row as before.
  pub any-upsert :
      (p : A → Bool) (new : A) (rows : List A)
      → ((row : A) → same row ≡ true → p (update row) ≡ p row)
      → any p rows ≡ true
      → any p (upsert same update new rows) ≡ true
  any-upsert p new [] keeps h = cc
  any-upsert p new (row ∷ rows) keeps h = elim (Bool-cases (same row)) [
    | inl e ↦ rw (e, keeps row e) h
    | inr e ↦ rw e (ground (arith, any-upsert p new rows keeps))
  ]

  -- A test that the update does not make fail.
  pub any-upsert_mono :
      (p : A → Bool) (new : A) (rows : List A)
      → ((row : A) → p row ≡ true → p (update row) ≡ true)
      → any p rows ≡ true
      → any p (upsert same update new rows) ≡ true
  any-upsert_mono p new [] keeps h = cc
  any-upsert_mono p new (row ∷ rows) keeps h = elim (Bool-cases (same row)) [
    | inl e ↦ rw e (either (p row) (keeps row) h)
    | inr e ↦ rw e (ground (arith, any-upsert_mono p new rows keeps))
  ]
    where
      either :
          (b : Bool)
          → (b ≡ true → p (update row) ≡ true)
          → (b || any p rows) ≡ true
          → (p (update row) || any p rows) ≡ true
      either true k h = rw (k refl) refl
      either false k h = ground arith

  pub All-update_first :
      (P : A → Type 0) (rows : List A)
      → ((row : A) → P row → P (update row))
      → All P rows
      → All P (update_first same update rows)
  All-update_first P [] keeps h = tt
  All-update_first P (row ∷ rows) keeps (here, h) = elim (Bool-cases (same row)) [
    | inl e ↦ rw e (keeps row here, h)
    | inr e ↦ rw e (here, All-update_first P rows keeps h)
  ]

  pub any-update_first :
      (p : A → Bool) (rows : List A)
      → ((row : A) → p (update row) ≡ p row)
      → any p (update_first same update rows) ≡ any p rows
  any-update_first p [] keeps = refl
  any-update_first p (row ∷ rows) keeps = elim (Bool-cases (same row)) [
    | inl e ↦ rw (e, keeps row) refl
    | inr e ↦ rw (e, any-update_first p rows keeps) refl
  ]

-- A statement that throws nothing.
pub thrown_at-eq-ok {ℓ} :
    {A : Type ℓ} (db : Database) (r : Result Error A) {a : A} → thrown_at db r ≡ ok a → r ≡ ok a
thrown_at-eq-ok db (err error) h = cc
thrown_at-eq-ok db (ok value) h = rw (ok-injective h) refl

-- What every statement of a loop keeps, the loop keeps.
pub for_each-keeps :
    {A : Type 0} (P : Database → Type 0) (body : A → Database → Result Error Database)
    → ((x : A) (db next : Database) → body x db ≡ ok next → P db → P next)
    → (xs : List A) (db : Database) {next : Database} → for_each body xs db ≡ ok next
    → P db
    → P next
for_each-keeps P body keeps [] db h p = subst P (ok-injective h) p
for_each-keeps P body keeps (x ∷ xs) db h p =
    let (middle, first, rest) = >>=-eq-ok (thrown_at db (body x db)) _ h in
    for_each-keeps P body keeps xs middle rest
      (keeps x db middle (thrown_at-eq-ok db (body x db) first) p)
