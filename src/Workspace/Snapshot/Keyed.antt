-- ===== src/Workspace/Snapshot/Keyed.antt =====
-- An operation keeps the ids of a snapshot distinct.
use open_data_fusion.Prelude.{
  String, ◌==◌, ◌≡◌, refl, subst, Bool, true, false, List, [], ◌∷◌, ◌++◌, map, arith, if◌then◌else◌,
  any, update_first, remove_first, contains, Distinct,
}
use open_data_fusion.Prelude.Result.{ok, err}
use open_data_fusion.Workspace.Snapshot.{
  Node, Edge, Snapshot, Operation, move_node, add_node, remove_node, update_node, add_edge,
  remove_edge, update_edge, patch_node, patch_edge, move_to, has_node, has_edge, apply_operation,
}
use open_data_fusion.Workspace.Snapshot.Valid.{node_ids, edge_ids}

pub record IsKeyed (s : Snapshot) : Type 0 where
  pub nodes_distinct : Distinct (node_ids s)
  pub edges_distinct : Distinct (edge_ids s)

module _ {A : Type 0} (key : A → String) where
  contains-map : (k : String) (xs : List A) → contains (map key xs) k ≡ any (λ a. key a == k) xs
  contains-map k [] = refl
  contains-map k (x ∷ xs) = ground (arith, contains-map k xs)

  map-update_first :
      (p : A → Bool) (f : A → A) (xs : List A)
      → ((a : A) → key (f a) ≡ key a)
      → map key (update_first p f xs) ≡ map key xs
  map-update_first p f [] keeps = refl
  map-update_first p f (x ∷ xs) keeps = ground (arith, keeps x, map-update_first p f xs keeps)

  Distinct-append :
      (xs : List A) (a : A)
      → Distinct (map key xs)
      → any (λ b. key b == key a) xs ≡ false
      → Distinct (map key (xs ++ a ∷ []))
  Distinct-append [] a d new = (refl, tt)
  Distinct-append (x ∷ xs) a (fresh, d) new =
      (ground (arith, contains_append xs a (key x)), Distinct-append xs a d (ground arith))
    where
      contains_append :
          (xs : List A) (a : A) (k : String)
          → contains (map key (xs ++ a ∷ [])) k
            ≡ (if contains (map key xs) k then true else k == key a)
      contains_append [] a k = ground arith
      contains_append (x ∷ xs) a k = ground (arith, contains_append xs a k)

  contains-remove_first :
      (p : A → Bool) (xs : List A) (k : String)
      → contains (map key xs) k ≡ false
      → contains (map key (remove_first p xs)) k ≡ false
  contains-remove_first p [] k h = refl
  contains-remove_first p (x ∷ xs) k h = ground (arith, contains-remove_first p xs k)

  Distinct-remove_first :
      (p : A → Bool) (xs : List A) → Distinct (map key xs) → Distinct (map key (remove_first p xs))
  Distinct-remove_first p [] d = tt
  Distinct-remove_first p (x ∷ xs) (fresh, d) =
      elim (p x) as (λ b. Distinct (map key (if b then xs else x ∷ remove_first p xs))) [
        | true ↦ d
        | false ↦ (contains-remove_first p xs (key x) fresh, Distinct-remove_first p xs d)
      ]

pub if_ok :
    {E A : Type 0} (b : Bool) (x : A) (e : E) {t : A}
    → (if b then ok x else err e) ≡ ok t
    → (b ≡ true) × (x ≡ t)
if_ok true x e h = (refl, ground arith)
if_ok false x e h = cc

pub if_err :
    {E A : Type 0} (b : Bool) (x : A) (e : E) {t : A}
    → (if b then err e else ok x) ≡ ok t
    → (b ≡ false) × (x ≡ t)
if_err true x e h = cc
if_err false x e h = (refl, ground arith)

IsKeyed-nodes :
    (s : Snapshot) (nodes : List Node)
    → IsKeyed s
    → Distinct (map (λ (n : Node). n.id) nodes)
    → IsKeyed (record s { nodes = nodes })
IsKeyed-nodes s nodes k d = record { nodes_distinct = d; edges_distinct = k.edges_distinct }

IsKeyed-edges :
    (s : Snapshot) (edges : List Edge)
    → IsKeyed s
    → Distinct (map (λ (e : Edge). e.id) edges)
    → IsKeyed (record s { edges = edges })
IsKeyed-edges s edges k d = record { nodes_distinct = k.nodes_distinct; edges_distinct = d }

pub apply_operation-IsKeyed :
    (s : Snapshot) (op : Operation) {t : Snapshot}
    → IsKeyed s
    → apply_operation s op ≡ ok t
    → IsKeyed t
unfolding apply_operation
apply_operation-IsKeyed s (move_node id position) k h =
    subst IsKeyed (if_ok (has_node id s.nodes) _ _ h).1 (
      IsKeyed-nodes s _ k (
        rw
          (map-update_first (λ (n : Node). n.id) (λ n. n.id == id) (move_to position) s.nodes
            (λ _. refl))
          k.nodes_distinct))
apply_operation-IsKeyed s (add_node node) k h =
    let (new, same) = if_err (has_node node.id s.nodes) _ _ h in
    subst IsKeyed same
      (IsKeyed-nodes s _ k (Distinct-append (λ (n : Node). n.id) s.nodes node k.nodes_distinct new))
apply_operation-IsKeyed s (remove_node id) k h =
    subst IsKeyed (if_ok (has_node id s.nodes) _ _ h).1 (
      IsKeyed-nodes s _ k
        (Distinct-remove_first (λ (n : Node). n.id) (λ n. n.id == id) s.nodes k.nodes_distinct))
apply_operation-IsKeyed s (update_node id patch) k h =
    subst IsKeyed (if_ok (has_node id s.nodes) _ _ h).1 (
      IsKeyed-nodes s _ k (
        rw
          (map-update_first (λ (n : Node). n.id) (λ n. n.id == id) (patch_node patch) s.nodes
            (λ _. refl))
          k.nodes_distinct))
apply_operation-IsKeyed s (add_edge edge) k h =
    let (new, same) = if_err (has_edge edge.id s.edges) _ _ h in
    subst IsKeyed same
      (IsKeyed-edges s _ k (Distinct-append (λ (e : Edge). e.id) s.edges edge k.edges_distinct new))
apply_operation-IsKeyed s (remove_edge id) k h =
    subst IsKeyed (if_ok (has_edge id s.edges) _ _ h).1 (
      IsKeyed-edges s _ k
        (Distinct-remove_first (λ (e : Edge). e.id) (λ e. e.id == id) s.edges k.edges_distinct))
apply_operation-IsKeyed s (update_edge id patch) k h =
    subst IsKeyed (if_ok (has_edge id s.edges) _ _ h).1 (
      IsKeyed-edges s _ k (
        rw
          (map-update_first (λ (e : Edge). e.id) (λ e. e.id == id) (patch_edge patch) s.edges
            (λ _. refl))
          k.edges_distinct))
