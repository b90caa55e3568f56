-- ===== src/ProofMap/Edit.antt =====
-- The edits of a node's dependencies in src/proof_cli/proof_map.py: `add_dependency`,
-- `remove_dependency` and `move_dependency`.
pub mod Writes
pub mod Acyclic
pub mod Grants
use proof_cli.Base.{
  ℕ, Bool, false, not, ◌&&◌, ◌||◌, Option, none, some, List, [], ◌∷◌, ◌++◌, ◌==◌, is_none, contains,
  keep, if◌then◌else◌,
}
use proof_cli.ProofMap.Types.{
  Node, Store, dependency_added, dependency_removed, dependency_moved, researcher,
  dependency_not_found, already_a_dependency, not_a_dependency, same_node, Result, ok, ◌>>=◌, ◌>>◌,
  refuse_if, Decisions, World,
}
use proof_cli.ProofMap.Tables.{
  is_claim, get_node, require_node, get_proof_map_node, update_proof_map_node,
  delete_dependency_pin, append_event,
}
use proof_cli.ProofMap.Edges.{refuse_cycle}
use proof_cli.ProofMap.Claims.{
  is_accepted, is_rejected, structure_editable, held_by_another, take_over_held,
}

abbrev pub with_dependencies : World → Node → List ℕ → Node
with_dependencies w node dependencies = record node {
  dependencies = dependencies;
  updated_at = w.now;
}

abbrev pub same_origin : Option ℕ → Option ℕ → Bool
same_origin (some a) (some b) = a == b
same_origin _ _ = false

-- A Claim of the editor's own Split that no decision stands on.
abbrev pub is_own_claim : Decisions → Store → ℕ → Node → Bool
is_own_claim d s edited_by c =
    is_claim c.kind
    && c.created_by == edited_by
    && not (is_accepted (d.acceptance s c.id) || is_rejected (d.acceptance s c.id))

abbrev pub own_edge_to : Decisions → Store → Node → ℕ → Option Node → Bool
own_edge_to d s node edited_by none = false
own_edge_to d s node edited_by (some dependency) =
    not (edited_by == researcher)
    && same_origin node.derived_from dependency.derived_from
    && is_own_claim d s edited_by node
    && is_own_claim d s edited_by dependency

-- An agent adding an edge between two unaccepted Claims of its own Split of one parent.
unfoldable pub own_split_edge : Decisions → Store → Node → ℕ → ℕ → Bool
own_split_edge d s node dependency_id edited_by =
    own_edge_to d s node edited_by (get_node d s dependency_id)

abbrev pub own_removal_of : Decisions → Store → Node → ℕ → Option Node → Bool
own_removal_of d s parent edited_by none = false
own_removal_of d s parent edited_by (some c) =
    not (edited_by == researcher)
    && is_claim c.kind
    && same_origin c.derived_from (some parent.id)
    && c.created_by == edited_by
    && not (is_accepted (d.acceptance s c.id))
    && not (d.is_fixed s parent.id)

-- An agent taking an unaccepted Claim of its own Split back off a parent that nothing fixed.
unfoldable pub own_split_removal : Decisions → Store → Node → ℕ → ℕ → Bool
own_split_removal d s parent claim_id edited_by =
    own_removal_of d s parent edited_by (get_node d s claim_id)

-- Take the node over from whoever holds it, unless the edit needs no claim.
abbrev pub hold : World → Bool → Store → ℕ → ℕ → Bool → Result Store
hold w own s node_id edited_by reassign =
    if own
    then ok s
    else (held_by_another s node_id edited_by reassign >>= λ c. ok (take_over_held w c edited_by s))

-- Write `node` resting on `dependency_id` too: the edge and its event.
unfoldable pub gain_dependency : World → Node → ℕ → ℕ → Store → Store
gain_dependency w node dependency_id edited_by s =
    let after = node.dependencies ++ dependency_id ∷ [] in
    append_event node.id (dependency_added dependency_id edited_by node.dependencies after)
      (update_proof_map_node (with_dependencies w node after) s)

unfoldable pub add_dependency : Decisions → World → ℕ → ℕ → ℕ → Bool → Store → Result Store
add_dependency d w node_id dependency_id edited_by reassign s = do
  node ← require_node d s node_id
  structure_editable d s node
  refuse_if (is_none (get_proof_map_node s dependency_id)) (dependency_not_found dependency_id)
  refuse_if (contains node.dependencies dependency_id) (already_a_dependency dependency_id node_id)
  refuse_cycle s node_id dependency_id
  held ← hold w (own_split_edge d s node dependency_id edited_by) s node_id edited_by reassign
  ok (gain_dependency w node dependency_id edited_by held)

abbrev pub without : ℕ → List ℕ → List ℕ
without i ds = keep (λ x. not (x == i)) ds

unfoldable pub remove_dependency : Decisions → World → ℕ → ℕ → ℕ → Bool → Store → Result Store
remove_dependency d w node_id dependency_id edited_by reassign s = do
  node ← require_node d s node_id
  structure_editable d s node
  refuse_if (not (contains node.dependencies dependency_id))
      (not_a_dependency dependency_id node_id)
  let resplit = own_split_removal d s node dependency_id edited_by
  held ← hold w resplit s node_id edited_by reassign
  let after = without dependency_id node.dependencies
  ok (
      append_event node_id
        (dependency_removed dependency_id edited_by node.dependencies after resplit)
        (delete_dependency_pin node_id dependency_id
          (update_proof_map_node (with_dependencies w node after) held)))

-- Both nodes written, the pin gone and the move recorded.
unfoldable pub write_move : World → Node → Node → ℕ → ℕ → Store → Store
write_move w node child dependency_id edited_by s =
    let after = without dependency_id node.dependencies in
    let child_after =
      child.dependencies
      ++ (if contains child.dependencies dependency_id then [] else dependency_id ∷ []) in
    append_event node.id
      (dependency_moved dependency_id child.id edited_by node.dependencies after child.dependencies
        child_after)
      (delete_dependency_pin node.id dependency_id (
        update_proof_map_node (with_dependencies w child child_after)
          (update_proof_map_node (with_dependencies w node after) s)))

unfoldable pub move_dependency : Decisions → World → ℕ → ℕ → ℕ → ℕ → Bool → Store → Result Store
move_dependency d w node_id dependency_id to edited_by reassign s = do
  node ← require_node d s node_id
  child ← require_node d s to
  structure_editable d s node
  refuse_if (not (contains node.dependencies dependency_id))
      (not_a_dependency dependency_id node_id)
  refuse_if (to == dependency_id) (same_node dependency_id)
  refuse_if (not (contains node.dependencies to)) (not_a_dependency to node_id)
  structure_editable d s child
  if contains child.dependencies dependency_id then ok tt else refuse_cycle s to dependency_id
  held ← held_by_another s node_id edited_by reassign
  child_held ← held_by_another s to edited_by reassign
  ok (
      write_move w node child dependency_id edited_by
        (take_over_held w child_held edited_by (take_over_held w held edited_by s)))
