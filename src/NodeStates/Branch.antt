-- ===== src/NodeStates/Branch.antt =====
-- What a challenged node stops by src/proof_cli/node_states.py.
use proof_cli.Base.{
  ℕ, ◌≡◌, false, some, List, [], ◌∷◌, ◌↔◌, inl, inr, contains, arith, ◌==◌, Bool-cases,
}
use proof_cli.Graph.Reach.{In, step}
use proof_cli.Graph.Spread.{IsUnder}
use proof_cli.Graph.Under.{spread_from-IsUnder}
use proof_cli.ProofMap.Types.{Node, Store}
use proof_cli.ProofMap.Tables.{find_node}
use proof_cli.ProofMap.Edges.{dependencies_of, dependents_of, node_ids}
use proof_cli.NodeStates.Types.{Readings}
use proof_cli.NodeStates.Stopped.{branch_of}
use proof_cli.NodeStates.Sides.{IsWorked, worked_on-IsWorked}

dependencies_of-node_ids :
    (nodes : List Node) (x d : ℕ) → In d (dependencies_of nodes x) → In x (node_ids nodes)
unfolding dependencies_of find_node
dependencies_of-node_ids [] x d h = cc
dependencies_of-node_ids (n ∷ nodes) x d h = elim (Bool-cases (n.id == x)) [
  | inl e ↦ ground arith
  | inr e ↦ ground (arith, dependencies_of-node_ids nodes x d (ground (arith, h)))
]

-- What a side's node depends on is worked on with it.
IsWorked-step :
    (r : Readings) (s : Store) (node : Node) (x d : ℕ)
    → IsWorked r s node x
    → In d (dependencies_of s.nodes x)
    → IsWorked r s node d
IsWorked-step r s node x d (e, m, way) k =
    (e, m, elim way [ inl p ↦ inl (step p k) | inr p ↦ inr (step p k) ])

-- The walk over what a challenged node stops ends. It finds exactly the nodes that use the
-- challenged one directly and all that those rest on, but for what is worked on meanwhile. That is
-- nothing, unless each open Challenge on its statement is an agent's that links a counterexample
-- and the node is not rejected: then it is what the node and the counterexamples rest on, with them.
pub branch_of-IsUnder :
    (r : Readings) (s : Store) (node : Node)
    → (branch worked : List ℕ) × (branch_of r s node ≡ some branch)
      × ((x : ℕ) → In x worked ↔ IsWorked r s node x)
      × ((x : ℕ)
          → In x branch ↔ (
              IsUnder (dependencies_of s.nodes) worked (dependents_of s.nodes node.id) x
              × (contains worked x ≡ false)))
unfolding branch_of
branch_of-IsUnder r s node =
    let (worked, known, sides) = worked_on-IsWorked r s node in
    let (branch, ends, iff) =
      spread_from-IsUnder (dependencies_of s.nodes) (node_ids s.nodes) worked
        (dependents_of s.nodes node.id) (dependencies_of-node_ids s.nodes)
        (λ x d h k. (sides d).1 (IsWorked-step r s node x d ((sides x).0 h) k)) in
    (branch, worked, rw known ends, sides, iff)
