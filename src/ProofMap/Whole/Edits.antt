-- ===== src/ProofMap/Whole/Edits.antt =====
-- The edits of dependencies keep the map whole.
use proof_cli.Base.{ℕ, ◌≡◌, sym, subst, Bool, true, [], ◌∷◌, ◌++◌, is_some, inl, inr, arith}
use proof_cli.Graph.Reach.{In}
use proof_cli.Graph.Push.{In-append}
use proof_cli.ProofMap.Types.{Node, Store, ok, Decisions, World}
use proof_cli.ProofMap.Tables.{find_node, update_in, require_node}
use proof_cli.ProofMap.Edges.{refuse_cycle}
use proof_cli.ProofMap.Claims.{structure_editable}
use proof_cli.ProofMap.Claims.Single.{HasSingleClaims}
use proof_cli.ProofMap.Edit.{
  without, with_dependencies, gain_dependency, add_dependency, remove_dependency, hold,
}
use proof_cli.ProofMap.Edit.Writes.{IsRow, require_node-IsRow, nodes-hold, In-without}
use proof_cli.ProofMap.Edit.Acyclic.{add_dependency-IsAcyclicMap, remove_dependency-IsAcyclicMap}
use proof_cli.ProofMap.Results.{OnOk-eq, OnOk-bind, OnOk-guard}
use proof_cli.ProofMap.Whole.{IsTable, IsWhole}
use proof_cli.ProofMap.Whole.Tables.{update_in-IsTable}
use proof_cli.ProofMap.Whole.Held.{hold-HasSingleClaims}

-- The part of a whole map that the writes keep by themselves.
abbrev pub IsSound : Store → Type 0
IsSound s = IsTable s.nodes × HasSingleClaims s.claims

pub row-known :
    (s : Store) (i : ℕ) (node : Node) (c : ℕ)
    → IsTable s.nodes
    → IsRow s i node
    → In c node.dependencies
    → is_some (find_node c s.nodes) ≡ true
row-known s i node c table row h = table.closed i c (subst (λ ds. In c ds) (sym row.edges) h)

-- The row gains a dependency that exists, on a store with the nodes of `s`.
pub gain_dependency-IsSound :
    (w : World) (s t : Store) (i : ℕ) (node : Node) (dependency_id by : ℕ)
    → IsRow s i node
    → t.nodes ≡ s.nodes
    → IsTable s.nodes
    → is_some (find_node dependency_id s.nodes) ≡ true
    → HasSingleClaims t.claims
    → IsSound (gain_dependency w node dependency_id by t)
unfolding gain_dependency
gain_dependency-IsSound w s t i node dependency_id by row same table exists single = (
  subst (λ z. IsTable (update_in node' z)) (sym same) (update_in-IsTable node' s.nodes table known),
  single,
)
  where
    node' : Node
    node' = with_dependencies w node (node.dependencies ++ dependency_id ∷ [])

    known : (c : ℕ) → In c node'.dependencies → is_some (find_node c s.nodes) ≡ true
    known c h = elim (In-append c node.dependencies (dependency_id ∷ []) h) [
      | inl old ↦ row-known s i node c table row old
      | inr new ↦
          let at : dependency_id ≡ c = ground arith in
          subst (λ z. is_some (find_node z s.nodes) ≡ true) at exists
    ]

add_dependency-IsSound :
    (d : Decisions) (w : World) (node_id dependency_id edited_by : ℕ) (reassign : Bool)
    (s s' : Store)
    → add_dependency d w node_id dependency_id edited_by reassign s ≡ ok s'
    → IsSound s
    → IsSound s'
unfolding add_dependency
add_dependency-IsSound d w node_id dependency_id edited_by reassign s s' h (table, single) =
    OnOk-eq IsSound (add_dependency d w node_id dependency_id edited_by reassign s) h (
      OnOk-bind IsSound (require_node d s node_id) _ λ node found.
        OnOk-bind IsSound (structure_editable d s node) _ λ _ _. OnOk-guard IsSound _ _ _ λ exists.
          OnOk-guard IsSound _ _ _ λ _.
            OnOk-bind IsSound (refuse_cycle s node_id dependency_id) _ λ _ _.
              OnOk-bind IsSound (hold w _ s node_id edited_by reassign) _ λ t held.
                gain_dependency-IsSound w s t node_id node dependency_id edited_by
                  (require_node-IsRow d s node_id node found)
                  (nodes-hold w _ s node_id edited_by reassign t held) table
                  (ground (arith, exists))
                  (hold-HasSingleClaims w _ s node_id edited_by reassign t held single))

pub add_dependency-IsWhole :
    (d : Decisions) (w : World) (node_id dependency_id edited_by : ℕ) (reassign : Bool)
    (s s' : Store)
    → add_dependency d w node_id dependency_id edited_by reassign s ≡ ok s'
    → IsWhole s
    → IsWhole s'
add_dependency-IsWhole d w node_id dependency_id edited_by reassign s s' h whole =
    let (table, single) =
      add_dependency-IsSound d w node_id dependency_id edited_by reassign s s' h
        (whole.table, whole.single) in
    record {
      table = table;
      acyclic =
          add_dependency-IsAcyclicMap d w node_id dependency_id edited_by reassign s s' h
            whole.acyclic;
      single = single;
    }

-- A row that rests on what it rested on before.
pub fewer-IsTable :
    (w : World) (s : Store) (i : ℕ) (node : Node) (dependency_id : ℕ)
    → IsRow s i node
    → IsTable s.nodes
    → IsTable
        (update_in (with_dependencies w node (without dependency_id node.dependencies)) s.nodes)
fewer-IsTable w s i node dependency_id row table =
    update_in-IsTable _ s.nodes table
      λ c h. row-known s i node c table row (In-without dependency_id c node.dependencies h)

remove_dependency-IsSound :
    (d : Decisions) (w : World) (node_id dependency_id edited_by : ℕ) (reassign : Bool)
    (s s' : Store)
    → remove_dependency d w node_id dependency_id edited_by reassign s ≡ ok s'
    → IsSound s
    → IsSound s'
unfolding remove_dependency
remove_dependency-IsSound d w node_id dependency_id edited_by reassign s s' h (table, single) =
    OnOk-eq IsSound (remove_dependency d w node_id dependency_id edited_by reassign s) h (
      OnOk-bind IsSound (require_node d s node_id) _ λ node found.
        OnOk-bind IsSound (structure_editable d s node) _ λ _ _. OnOk-guard IsSound _ _ _ λ _.
          OnOk-bind IsSound (hold w _ s node_id edited_by reassign) _ λ t held. (
            subst
                (λ z. IsTable (
                  update_in (with_dependencies w node (without dependency_id node.dependencies)) z))
                (sym (nodes-hold w _ s node_id edited_by reassign t held))
                (fewer-IsTable w s node_id node dependency_id
                  (require_node-IsRow d s node_id node found) table),
            hold-HasSingleClaims w _ s node_id edited_by reassign t held single,
          ))

pub remove_dependency-IsWhole :
    (d : Decisions) (w : World) (node_id dependency_id edited_by : ℕ) (reassign : Bool)
    (s s' : Store)
    → remove_dependency d w node_id dependency_id edited_by reassign s ≡ ok s'
    → IsWhole s
    → IsWhole s'
remove_dependency-IsWhole d w node_id dependency_id edited_by reassign s s' h whole =
    let (table, single) =
      remove_dependency-IsSound d w node_id dependency_id edited_by reassign s s' h
        (whole.table, whole.single) in
    record {
      table = table;
      acyclic =
          remove_dependency-IsAcyclicMap d w node_id dependency_id edited_by reassign s s' h
            whole.acyclic;
      single = single;
    }
