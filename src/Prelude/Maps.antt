-- ===== src/Prelude/Maps.antt =====
-- A `Map` with texts as keys, as its entries in the order of insertion.
use open_data_fusion.Prelude.{
  String, ◌==◌, ◌≡◌, refl, Option, none, some, List, [], ◌∷◌, arith, if◌then◌else◌,
}

module _ {ℓ} {V : Type ℓ} where
  -- `get`
  abbrev pub lookup : String → List (String × V) → Option V
  lookup k [] = none
  lookup k ((j, v) ∷ m) = if j == k then some v else lookup k m

  -- `set`
  abbrev pub insert : String → V → List (String × V) → List (String × V)
  insert k v [] = (k, v) ∷ []
  insert k v ((j, w) ∷ m) = if j == k then (k, v) ∷ m else (j, w) ∷ insert k v m

  -- `get(k) ?? d`
  abbrev pub get_or : String → List (String × V) → V → V
  get_or k [] d = d
  get_or k ((j, v) ∷ m) d = if j == k then v else get_or k m d

  pub lookup-insert :
      (k j : String) (v : V) (m : List (String × V))
      → lookup j (insert k v m) ≡ (if k == j then some v else lookup j m)
  lookup-insert k j v [] = refl
  lookup-insert k j v ((i, w) ∷ m) = ground (arith, lookup-insert k j v m)

  pub get_or-insert :
      (k j : String) (v d : V) (m : List (String × V))
      → get_or j (insert k v m) d ≡ (if k == j then v else get_or j m d)
  get_or-insert k j v d [] = refl
  get_or-insert k j v d ((i, w) ∷ m) = ground (arith, get_or-insert k j v d m)
