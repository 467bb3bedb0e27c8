-- ===== src/Tests/Canvas.antt =====
-- Snapshots of a pump and a tank.
use Prim.Native.String.{◌++◌ as ◌concat◌}
use open_data_fusion.Prelude.{
  ◌++◌, String, String_discrete, ◌≡◌, ◌≢◌, refl, true, false, none, some, [], ◌∷◌, ◌↔◌,
}
use open_data_fusion.Prelude.Result.{ok}
use open_data_fusion.Prelude.Json.{decimal, str}
use open_data_fusion.Workspace.Snapshot.{
  Position, Node, Edge, Snapshot, move_node, add_node, remove_node, add_edge, apply_operation,
  apply_canvas_operations, validate_snapshot, move_to,
}
use open_data_fusion.Workspace.Snapshot.Valid.{
  IsWellFormed, validate_snapshot_iff, apply_canvas_operations-IsWellFormed,
}
use open_data_fusion.Workspace.Snapshot.Lookup.{
  find_node, find_edge, apply_operation-find, remove_node-refused,
}
use open_data_fusion.Workspace.Merge.Commute.{apply_operation-commute}
use open_data_fusion.Workspace.Merge.{touched_resources, Request, joined, merge_operation_batches}
use open_data_fusion.Workspace.Merge.Independent.{IsIndependent, merge_iff}
use open_data_fusion.Prelude.{All}

abbrev pub origin : Position
origin = record { x = decimal false 0 0; y = decimal false 0 0 }

abbrev aside : Position
aside = record { x = decimal true 25 1; y = decimal false 40 0 }

abbrev pub node : String → Node
node id = record { id = id; type = "asset"; position = origin; payload = ("label", str id) ∷ [] }

abbrev pub pipe : Edge
pipe = record { id = "pipe"; source = "pump"; target = "tank"; type = "flow"; payload = [] }

abbrev pub plant : Snapshot
plant = record {
  center = origin;
  zoom = decimal false 1 0;
  nodes = node "pump" ∷ node "tank" ∷ [];
  edges = pipe ∷ [];
}

abbrev bare : Snapshot
bare = record { center = origin; zoom = decimal false 1 0; nodes = node "pump" ∷ []; edges = [] }

plant-IsWellFormed : IsWellFormed plant
unfolding String_discrete
plant-IsWellFormed = record {
  nodes_distinct = (refl, (refl, tt));
  edges_distinct = (refl, tt);
  attached = ((refl, refl), tt);
}

validate_snapshot_iff_example : (validate_snapshot plant ≡ ok tt) ↔ IsWellFormed plant
validate_snapshot_iff_example = validate_snapshot_iff plant

apply_canvas_operations-IsWellFormed_example : IsWellFormed plant
unfolding apply_canvas_operations String_discrete
apply_canvas_operations-IsWellFormed_example =
    apply_canvas_operations-IsWellFormed bare (add_node (node "tank") ∷ add_edge pipe ∷ []) refl

apply_operation-find_example :
    (find_node "pump" (record plant { nodes = move_to aside (node "pump") ∷ node "tank" ∷ [] })
      ≡ some (move_to aside (node "pump")))
    × (find_edge "pump" (record plant { nodes = move_to aside (node "pump") ∷ node "tank" ∷ [] })
        ≡ none)
unfolding apply_operation String_discrete
apply_operation-find_example =
    apply_operation-find plant (move_node "pump" aside) "pump" plant-IsWellFormed.nodes_distinct
      plant-IsWellFormed.edges_distinct refl

remove_node-refused_example : apply_canvas_operations plant (remove_node "pump" ∷ []) ≢ ok plant
unfolding String_discrete
remove_node-refused_example = remove_node-refused plant plant "pump" plant-IsWellFormed refl

abbrev left : Request
left = record {
  base_version = 3;
  change_summary = "Move";
  operations = move_node "pump" aside ∷ [];
}

abbrev right : Request
right = record {
  base_version = 3;
  change_summary = "Add";
  operations = add_node (node "valve") ∷ [];
}

merge_iff_example :
    ((merge_operation_batches plant left right).merged ≡ some (joined left right)) ↔ (
      (left.base_version ≡ right.base_version)
      × All (λ l. All (IsIndependent plant l) right.operations) left.operations
      × ((joined left right).base_version ≡ left.base_version)
      × ((joined left right).change_summary
          ≡ left.change_summary concat ("; " concat right.change_summary))
      × ((joined left right).operations ≡ left.operations ++ right.operations))
merge_iff_example = merge_iff plant left right (joined left right)

abbrev after_move : Snapshot
after_move = record plant { nodes = move_to aside (node "pump") ∷ node "tank" ∷ [] }

abbrev after_both : Snapshot
after_both = record plant { nodes = move_to aside (node "pump") ∷ node "tank" ∷ node "valve" ∷ [] }

apply_operation-commute_example :
    (t' : Snapshot) × (u' : Snapshot) × (apply_operation plant (add_node (node "valve")) ≡ ok t')
    × (apply_operation t' (move_node "pump" aside) ≡ ok u')
    × ((j : String)
        → (find_node j after_both ≡ find_node j u') × (find_edge j after_both ≡ find_edge j u'))
unfolding apply_operation touched_resources String_discrete
apply_operation-commute_example =
    apply_operation-commute plant after_move after_both (move_node "pump" aside)
      (add_node (node "valve"))
      (record {
        nodes_distinct = plant-IsWellFormed.nodes_distinct;
        edges_distinct = plant-IsWellFormed.edges_distinct;
      })
      (refl, tt) refl refl
