-- ===== src/NodeStates/Reading.antt =====
-- The walk of `node_states` of src/proof_cli/node_states.py ends, with the states by recursion on
-- the dependencies, whatever `counterexample_decides` answers.
use proof_cli.Base.{ℕ, ◌≡◌, refl, Bool, true, [], ◌∷◌, arith}
use proof_cli.Graph.Reach.{IsAcyclic}
use proof_cli.Graph.Chain.{Chain→Reach}
use proof_cli.Graph.Walk.{Walked, value, cycle, missing, stuck}
use proof_cli.Graph.Denotes.{Denotes, IsAnswer}
use proof_cli.Graph.Answer.{walk_from-IsAnswer}
use proof_cli.ProofMap.Types.{Store, Decisions}
use proof_cli.ProofMap.Edges.{dependencies_of}
use proof_cli.ProofMap.Edges.Search.{dependencies_of-targets, IsClosedMap, Reach-exists}
use proof_cli.ProofMap.Tables.{exists_in}
use proof_cli.NodeStates.Types.{Challenge, Readings}
use proof_cli.NodeStates.Walk.{NodeStates, states_from, node_states}

-- `states` are those of node `i`, by recursion on its dependencies.
abbrev pub AreStatesOf : Readings → Decisions → Store → (Challenge → Bool) → ℕ → NodeStates → Type 0
AreStatesOf r d s decides i states =
    Denotes (dependencies_of s.nodes) (exists_in s) (states_from r d s decides) (i ∷ [])
      (states ∷ [])

-- What a result of the walk from `i` says: the states of the node, a cycle of dependencies that the
-- node rests on, or a node that it rests on and that the map does not have.
abbrev pub IsReading :
    Readings → Decisions → Store → (Challenge → Bool) → ℕ → Walked NodeStates → Type 0
IsReading r d s decides i result =
    IsAnswer (dependencies_of s.nodes) (exists_in s) (states_from r d s decides) i result

-- With given answers of `counterexample_decides`, the walk of `node_states` ends on every map: it
-- returns the states of the node by recursion on its dependencies, or refuses a cycle of dependencies that the node rests on, naming it in full, or a
-- node that it rests on, itself included, and that the map does not have.
pub node_states-IsReading :
    (r : Readings) (d : Decisions) (s : Store) (decides : Challenge → Bool) (node_id : ℕ)
    → IsReading r d s decides node_id (node_states r d s decides node_id)
unfolding node_states
node_states-IsReading r d s decides node_id =
    walk_from-IsAnswer (dependencies_of s.nodes) (exists_in s) (states_from r d s decides) _ node_id
      (dependencies_of-targets s.nodes)

-- On a map without cycles whose dependencies are all there, `node_states` of a node returns its
-- states by recursion on its dependencies.
pub node_states-AreStatesOf :
    (r : Readings) (d : Decisions) (s : Store) (decides : Challenge → Bool) (node_id : ℕ)
    → IsAcyclic (dependencies_of s.nodes)
    → IsClosedMap s
    → exists_in s node_id ≡ true
    → (states : NodeStates) × (node_states r d s decides node_id ≡ value states)
      × AreStatesOf r d s decides node_id states
node_states-AreStatesOf r d s decides node_id acyclic closed is =
    read (node_states r d s decides node_id) refl (node_states-IsReading r d s decides node_id)
  where
    read :
        (result : Walked NodeStates)
        → node_states r d s decides node_id ≡ result
        → IsReading r d s decides node_id result
        → (states : NodeStates) × (node_states r d s decides node_id ≡ value states)
          × AreStatesOf r d s decides node_id states
    read (value states) e h = (states, e, h)
    read (cycle path) e (i, below, c) = absurd (acyclic i c.second c.edge (Chain→Reach c.back))
    read (missing i) e (below, absent) =
        absurd (ground (arith, Reach-exists s closed is below, absent))
    read stuck e h = absurd h
