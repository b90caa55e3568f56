-- ===== src/NodeStates/Walk.antt =====
-- `node_states` of src/proof_cli/node_states.py: a node's states and its conclusion, by the walk
-- over what it rests on. What an earlier walk of the same read scope worked out is not kept here.
use proof_cli.Base.{ℕ, Bool, Option, none, some, List, map}
use proof_cli.Graph.Walk.{Walked, walk_from}
use proof_cli.ProofMap.Types.{Node, Store, Decisions}
use proof_cli.ProofMap.Tables.{exists_in, get_node}
use proof_cli.ProofMap.Edges.{dependencies_of, targets}
use proof_cli.NodeStates.Types.{
  unsealed, unchallenged, incomplete, Conclusion, Challenge, Readings, OwnStates,
}
use proof_cli.NodeStates.Conclusion.{conclusion}
use proof_cli.NodeStates.Own.{own_states}

-- What one reading says of a node.
pub record NodeStates : Type 0 where
  pub own : OwnStates
  pub conclusion : Conclusion

-- The states of an entered node; a missing one is never worked out.
abbrev pub own_of : Readings → Store → (Challenge → Bool) → Option Node → OwnStates
own_of r s decides none = record {
  seal = unsealed;
  statement_layer = unchallenged;
  proof_layer = incomplete;
  assignee = none;
}
own_of r s decides (some node) = own_states r s decides node

-- The states of a node from those of its dependencies.
unfoldable pub states_from :
    Readings → Decisions → Store → (Challenge → Bool) → ℕ → List NodeStates → NodeStates
states_from r d s decides i dependencies =
    let own = own_of r s decides (get_node d s i) in
    record {
      own = own;
      conclusion =
          conclusion own.seal own.statement_layer own.proof_layer
            (map (λ n. n.conclusion) dependencies);
    }

unfoldable pub node_states :
    Readings → Decisions → Store → (Challenge → Bool) → ℕ → Walked NodeStates
node_states r d s decides node_id =
    walk_from (dependencies_of s.nodes) (exists_in s) (states_from r d s decides) (targets s.nodes)
      node_id
