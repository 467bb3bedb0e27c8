-- ===== src/Workspace/Snapshot.antt =====
-- A Canvas snapshot and the edit operations on it: `applyCanvasOperations` and
-- `validateWorkspaceSnapshot` of apps/api/src/database.ts, with the types of
-- packages/contracts/src/index.ts. The numbers of a position are carried, never computed with.
pub mod Valid
pub mod Lookup
pub mod Keyed
use open_data_fusion.Prelude.{
  String, ◌==◌, Bool, not, Option, none, some, List, [], ◌∷◌, ◌++◌, if◌then◌else◌, any,
  update_first, remove_first, contains,
}
use open_data_fusion.Prelude.Json.{Number, Object, spread}
use open_data_fusion.Prelude.Result.{Result, ok, err, ◌>>=◌, ◌>>◌, guard}

pub record Position : Type 0 where
  pub x : Number
  pub y : Number

pub record Node : Type 0 where
  pub id : String
  pub type : String
  pub position : Position
  pub payload : Object

pub record Edge : Type 0 where
  pub id : String
  pub source : String
  pub target : String
  pub type : String
  pub payload : Object

pub record Snapshot : Type 0 where
  pub center : Position
  pub zoom : Number
  pub nodes : List Node
  pub edges : List Edge

pub record NodePatch : Type 0 where
  pub type : Option String
  pub position : Option Position
  pub payload : Option Object

pub record EdgePatch : Type 0 where
  pub type : Option String
  pub payload : Option Object

pub data Operation : Type 0 where
  move_node : (node_id : String) → Position → Operation
  add_node : Node → Operation
  remove_node : (node_id : String) → Operation
  update_node : (node_id : String) → NodePatch → Operation
  add_edge : Edge → Operation
  remove_edge : (edge_id : String) → Operation
  update_edge : (edge_id : String) → EdgePatch → Operation

-- `DataIntegrityError`, by its message.
pub data DataIntegrityError : Type 0 where
  node_exists node_missing edge_exists edge_missing : String → DataIntegrityError
  source_missing target_missing : (edge_id node_id : String) → DataIntegrityError

abbrev pub Checked : Type 0 → Type 0
Checked = Result DataIntegrityError

abbrev pub has_node : String → List Node → Bool
has_node id nodes = any (λ n. n.id == id) nodes

abbrev pub has_edge : String → List Edge → Bool
has_edge id edges = any (λ e. e.id == id) edges

abbrev or_else {ℓ} : {A : Type ℓ} → Option A → A → A
or_else none a = a
or_else (some b) a = b

abbrev merged : Option Object → Object → Object
merged none payload = payload
merged (some patch) payload = spread payload patch

-- The three `if`s of `updateNode`.
abbrev pub patch_node : NodePatch → Node → Node
patch_node p n = record n {
  type = or_else p.type n.type;
  position = or_else p.position n.position;
  payload = merged p.payload n.payload;
}

abbrev pub move_to : Position → Node → Node
move_to position n = record n { position = position }

abbrev pub patch_edge : EdgePatch → Edge → Edge
patch_edge p e = record e { type = or_else p.type e.type; payload = merged p.payload e.payload }

-- The `switch` of `applyCanvasOperations`. `structuredClone` of a value is the value.
unfoldable pub apply_operation : Snapshot → Operation → Checked Snapshot
apply_operation s (move_node id position) =
    if has_node id s.nodes
    then ok (record s { nodes = update_first (λ n. n.id == id) (move_to position) s.nodes })
    else err (node_missing id)
apply_operation s (add_node node) =
    if has_node node.id s.nodes
    then err (node_exists node.id)
    else ok (record s { nodes = s.nodes ++ node ∷ [] })
apply_operation s (remove_node id) =
    if has_node id s.nodes
    then ok (record s { nodes = remove_first (λ n. n.id == id) s.nodes })
    else err (node_missing id)
apply_operation s (update_node id patch) =
    if has_node id s.nodes
    then ok (record s { nodes = update_first (λ n. n.id == id) (patch_node patch) s.nodes })
    else err (node_missing id)
apply_operation s (add_edge edge) =
    if has_edge edge.id s.edges
    then err (edge_exists edge.id)
    else ok (record s { edges = s.edges ++ edge ∷ [] })
apply_operation s (remove_edge id) =
    if has_edge id s.edges
    then ok (record s { edges = remove_first (λ e. e.id == id) s.edges })
    else err (edge_missing id)
apply_operation s (update_edge id patch) =
    if has_edge id s.edges
    then ok (record s { edges = update_first (λ e. e.id == id) (patch_edge patch) s.edges })
    else err (edge_missing id)

-- The loop over the operations.
unfoldable pub apply_each : Snapshot → List Operation → Checked Snapshot
unfolding apply_operation
apply_each s [] = ok s
apply_each s (operation ∷ operations) = do
  next ← apply_operation s operation
  apply_each next operations

-- The first loop of `validateWorkspaceSnapshot`: `nodeIds` at its end. The set is a list, the last
-- id first.
unfoldable pub collect_nodes : List String → List Node → Checked (List String)
collect_nodes seen [] = ok seen
collect_nodes seen (n ∷ nodes) = do
  guard (not (contains seen n.id)) (node_exists n.id)
  collect_nodes (n.id ∷ seen) nodes

-- The second loop.
unfoldable pub check_edges : (node_ids seen : List String) → List Edge → Checked (Unit {0})
check_edges node_ids seen [] = ok tt
check_edges node_ids seen (e ∷ edges) = do
  guard (not (contains seen e.id)) (edge_exists e.id)
  guard (contains node_ids e.source) (source_missing e.id e.source)
  guard (contains node_ids e.target) (target_missing e.id e.target)
  check_edges node_ids (e.id ∷ seen) edges

unfoldable pub validate_snapshot : Snapshot → Checked (Unit {0})
unfolding collect_nodes check_edges
validate_snapshot s = do node_ids ← collect_nodes [] s.nodes; check_edges node_ids [] s.edges

unfoldable pub apply_canvas_operations : Snapshot → List Operation → Checked Snapshot
unfolding apply_each validate_snapshot
apply_canvas_operations s operations = do
  next ← apply_each s operations
  validate_snapshot next
  ok next
