-- ===== src/ProofMap/Whole/Moves.antt =====
-- Moving a dependency keeps the map whole.
use proof_cli.Base.{
  ℕ, ◌≡◌, ◌∙◌, sym, subst, Bool, true, false, [], ◌∷◌, ◌++◌, ◌==◌, contains, is_some, inl, inr,
  Bool-cases, arith,
}
use proof_cli.Graph.Reach.{In, Reach, here}
use proof_cli.Graph.Push.{In-append}
use proof_cli.ProofMap.Types.{Node, Store, ok, Decisions, World}
use proof_cli.ProofMap.Tables.{find_node, update_in, require_node}
use proof_cli.ProofMap.Edges.{dependencies_of}
use proof_cli.ProofMap.Claims.{structure_editable, held_by_another, take_over_held}
use proof_cli.ProofMap.Edit.{without, with_dependencies, move_dependency, write_move}
use proof_cli.ProofMap.Edit.Writes.{IsRow, require_node-IsRow, nodes-take_over_held}
use proof_cli.ProofMap.Edit.Acyclic.{IsAcyclicMap, new_at, move_dependency-IsAcyclicMap}
use proof_cli.ProofMap.Results.{OnOk-eq, OnOk-bind, OnOk-guard}
use proof_cli.ProofMap.Whole.{IsTable, IsWhole}
use proof_cli.ProofMap.Whole.Tables.{update_in-IsTable, is_some-update_in}
use proof_cli.ProofMap.Whole.Held.{take_over_both-HasSingleClaims}
use proof_cli.ProofMap.Whole.Edits.{IsSound, row-known, fewer-IsTable}

-- The dependency moved to a child: both rows rest on what was a row.
moved-IsTable :
    (w : World) (s t : Store) (i j : ℕ) (node child : Node) (dependency_id by : ℕ)
    → IsRow s i node
    → IsRow s j child
    → t.nodes ≡ s.nodes
    → In dependency_id node.dependencies
    → IsTable s.nodes
    → IsTable (write_move w node child dependency_id by t).nodes
unfolding write_move
moved-IsTable w s t i j node child dependency_id by row row' same has table =
    subst (λ z. IsTable (update_in child' (update_in node' z))) (sym same)
      (update_in-IsTable child' (update_in node' s.nodes)
        (fewer-IsTable w s i node dependency_id row table)
        λ c h. rw (is_some-update_in node' s.nodes c) (known c h))
  where
    node' : Node
    node' = with_dependencies w node (without dependency_id node.dependencies)

    child' : Node
    child' = with_dependencies w child (child.dependencies ++ new_at child dependency_id)

    gained : (c : ℕ) → In c (new_at child dependency_id) → is_some (find_node c s.nodes) ≡ true
    gained c k = elim (Bool-cases (contains child.dependencies dependency_id)) [
      | inl at ↦ let none_new : In c [] = rw at at k in absurd (cc)
      | inr off ↦
          let one_new : In c (dependency_id ∷ []) = rw off at k in
          let at : dependency_id ≡ c = ground arith in
          subst (λ z. is_some (find_node z s.nodes) ≡ true) at
            (row-known s i node dependency_id table row has)
    ]

    known : (c : ℕ) → In c child'.dependencies → is_some (find_node c s.nodes) ≡ true
    known c h = elim (In-append c child.dependencies (new_at child dependency_id) h) [
      | inl old ↦ row-known s j child c table row' old
      | inr new ↦ gained c new
    ]

-- A dependency is another node, on a map without cycles.
apart :
    (s : Store) (i j : ℕ) (node : Node)
    → IsRow s i node
    → In j node.dependencies
    → IsAcyclicMap s
    → (i == j) ≡ false
apart s i j node row h acyclic = elim (Bool-cases (i == j)) [
  | inl e ↦
      let same : i ≡ j = ground arith in
      absurd (
        acyclic i j (subst (λ ds. In j ds) (sym row.edges) h)
          (subst (λ z. Reach (dependencies_of s.nodes) j z) (sym same) here))
  | inr e ↦ e
]

move_dependency-IsSound :
    (d : Decisions) (w : World) (node_id dependency_id to edited_by : ℕ) (reassign : Bool)
    (s s' : Store)
    → move_dependency d w node_id dependency_id to edited_by reassign s ≡ ok s'
    → IsAcyclicMap s
    → IsSound s
    → IsSound s'
unfolding move_dependency write_move
move_dependency-IsSound d w node_id dependency_id to edited_by reassign s s' h acyclic
      (table, single) =
    OnOk-eq IsSound (move_dependency d w node_id dependency_id to edited_by reassign s) h (
      OnOk-bind IsSound (require_node d s node_id) _ λ node found.
        OnOk-bind IsSound (require_node d s to) _ λ child found'.
          let row = require_node-IsRow d s node_id node found in
          OnOk-bind IsSound (structure_editable d s node) _ λ _ _. OnOk-guard IsSound _ _ _ λ has.
            OnOk-guard IsSound _ _ _ λ _. OnOk-guard IsSound _ _ _ λ below.
              OnOk-bind IsSound (structure_editable d s child) _ λ _ _. OnOk-bind IsSound _ _ λ _ _.
                OnOk-bind IsSound (held_by_another s node_id edited_by reassign) _ λ a e.
                  OnOk-bind IsSound (held_by_another s to edited_by reassign) _ λ b e'. (
                    moved-IsTable w s
                        (take_over_held w b edited_by (take_over_held w a edited_by s)) node_id to
                        node child dependency_id edited_by row
                        (require_node-IsRow d s to child found')
                        (nodes-take_over_held w b edited_by (take_over_held w a edited_by s)
                          ∙ nodes-take_over_held w a edited_by s)
                        (ground (arith, has)) table,
                    take_over_both-HasSingleClaims w s node_id to edited_by reassign a b
                        (apart s node_id to node row (ground (arith, below)) acyclic) e e' single,
                  ))

pub move_dependency-IsWhole :
    (d : Decisions) (w : World) (node_id dependency_id to edited_by : ℕ) (reassign : Bool)
    (s s' : Store)
    → move_dependency d w node_id dependency_id to edited_by reassign s ≡ ok s'
    → IsWhole s
    → IsWhole s'
move_dependency-IsWhole d w node_id dependency_id to edited_by reassign s s' h whole =
    let (table, single) =
      move_dependency-IsSound d w node_id dependency_id to edited_by reassign s s' h whole.acyclic
        (whole.table, whole.single) in
    record {
      table = table;
      acyclic =
          move_dependency-IsAcyclicMap d w node_id dependency_id to edited_by reassign s s' h
            whole.acyclic;
      single = single;
    }
