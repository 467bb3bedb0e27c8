-- ===== src/Workspace/Merge.antt =====
-- Merging two batches of Canvas operations: packages/platform-core/src/merge.ts. A `Set` of texts is a
-- list in the order of insertion.
pub mod Independent
pub mod Named
pub mod Commute
use Prim.Native.String.{◌++◌ as ◌concat◌}
use open_data_fusion.Prelude.{
  String, ◌==◌, ℕ, ◌≡◌, ◌≢◌, refl, sym, Bool, true, false, not, ◌&&◌, ◌||◌, Option, none, some,
  List, [], ◌∷◌, ◌++◌, arith, if◌then◌else◌, find, contains, nat_eq, Bool-cases, inl, inr, ◌⊎◌, All,
}
use open_data_fusion.Workspace.Snapshot.{
  Snapshot, Edge, Operation, move_node, add_node, remove_node, update_node, add_edge, remove_edge,
  update_edge,
}
use open_data_fusion.Workspace.Snapshot.Lookup.{touches, find_edge}

pub record Request : Type 0 where
  pub base_version : ℕ
  pub change_summary : String
  pub operations : List Operation

pub record Conflict : Type 0 where
  pub resource : String
  pub left_operation : String
  pub right_operation : String

pub record MergeResult : Type 0 where
  pub merged : Option Request
  pub conflicts : List Conflict

abbrev pub operation_type : Operation → String
operation_type (move_node _ _) = "moveNode"
operation_type (add_node _) = "addNode"
operation_type (remove_node _) = "removeNode"
operation_type (update_node _ _) = "updateNode"
operation_type (add_edge _) = "addEdge"
operation_type (remove_edge _) = "removeEdge"
operation_type (update_edge _ _) = "updateEdge"

abbrev pub node_resource : String → String
node_resource id = "node:" concat id

abbrev pub edge_resource : String → String
edge_resource id = "edge:" concat id

-- `resources.add`
abbrev pub add : List String → String → List String
add resources r = if contains resources r then resources else resources ++ r ∷ []

-- The edges of a node that is taken out.
abbrev pub add_edges_of : String → List Edge → List String → List String
add_edges_of id [] resources = resources
add_edges_of id (e ∷ edges) resources =
    add_edges_of id edges (if touches id e then add resources (edge_resource e.id) else resources)

-- The ends of an edge that is taken out, where it is there.
abbrev pub add_ends : Option Edge → List String → List String
add_ends none resources = resources
add_ends (some e) resources = add (add resources (node_resource e.source)) (node_resource e.target)

unfoldable pub touched_resources : Operation → Snapshot → List String
touched_resources (move_node id _) s = node_resource id ∷ []
touched_resources (update_node id _) s = node_resource id ∷ []
touched_resources (add_node n) s = node_resource n.id ∷ []
touched_resources (remove_node id) s = add_edges_of id s.edges (node_resource id ∷ [])
touched_resources (add_edge e) s =
    add (add (edge_resource e.id ∷ []) (node_resource e.source)) (node_resource e.target)
touched_resources (update_edge id _) s = edge_resource id ∷ []
touched_resources (remove_edge id) s = add_ends (find_edge id s) (edge_resource id ∷ [])

-- The innermost loop: over what the right operation touches.
unfoldable pub shared : List String → (left right : Operation) → List String → List Conflict
shared mine left right [] = []
shared mine left right (r ∷ rs) =
    let rest = shared mine left right rs in
    if contains mine r
    then record {
      resource = r;
      left_operation = operation_type left;
      right_operation = operation_type right;
    }
      ∷ rest
    else rest

unfoldable pub against : Snapshot → List String → Operation → List Operation → List Conflict
against s mine left [] = []
against s mine left (right ∷ rights) =
    shared mine left right (touched_resources right s) ++ against s mine left rights

unfoldable pub find_conflicts : Snapshot → (lefts rights : List Operation) → List Conflict
find_conflicts s [] rights = []
find_conflicts s (left ∷ lefts) rights =
    against s (touched_resources left s) left rights ++ find_conflicts s lefts rights

-- `operations[0]?.type ?? "moveNode"`
abbrev pub first_type : List Operation → String
first_type [] = "moveNode"
first_type (o ∷ _) = operation_type o

abbrev pub joined : (left right : Request) → Request
joined left right = record {
  base_version = left.base_version;
  change_summary = left.change_summary concat ("; " concat right.change_summary);
  operations = left.operations ++ right.operations;
}

abbrev pub decide : (left right : Request) → List Conflict → MergeResult
decide left right [] = record { merged = some (joined left right); conflicts = [] }
decide left right (c ∷ cs) = record { merged = none; conflicts = c ∷ cs }

-- Two batches of different versions.
abbrev pub refused : (left right : Request) → MergeResult
refused left right = record {
  merged = none;
  conflicts =
      record {
        resource = "workspace:baseVersion";
        left_operation = first_type left.operations;
        right_operation = first_type right.operations;
      }
      ∷ [];
}

unfoldable pub merge_operation_batches : Snapshot → (left right : Request) → MergeResult
unfolding find_conflicts
merge_operation_batches s left right =
    if nat_eq left.base_version right.base_version
    then decide left right (find_conflicts s left.operations right.operations)
    else refused left right
