-- ===== src/ProofMap/Tests.antt =====
-- The operations of src/proof_cli/proof_map.py on the map of `Samples`.
use proof_cli.Base.{ℕ, ◌≡◌, refl, true, false, none, some, List, [], ◌∷◌, ◌↔◌, inl, arith}
use proof_cli.Graph.Reach.{In, Reach}
use proof_cli.Graph.Chain.{Chain}
use proof_cli.ProofMap.Types.{
  lemma, Claim, Store, dependency_cycle, Result, ok, err, ◌>>=◌, refuse_if, researcher,
}
use proof_cli.ProofMap.Samples.{
  node, held_2, sample, no_decisions, world, value_or, rising, sample-IsAcyclicMap,
}
use proof_cli.ProofMap.Tables.{find_node, require_node, find_active, release_in}
use proof_cli.ProofMap.Edges.{
  dependencies_of, targets, rests_on, resting_on, dependency_path, refuse_cycle,
}
use proof_cli.ProofMap.Edges.Search.{JudgesEdge, rests_on_lem, refuse_cycle-JudgesEdge}
use proof_cli.ProofMap.Edges.Dual.{resting_on-rests_on}
use proof_cli.ProofMap.Claims.{
  claim_node, release_node, not_pickable, stands_accepted, structure_editable, held_by_another,
}
use proof_cli.ProofMap.Claims.Single.{IsHeldBy}
use proof_cli.ProofMap.Claims.Holding.{claim_node-IsHeldBy, claim_node_grants}
use proof_cli.ProofMap.Claims.Holders.{holder, given_to, let_go, Refines}
use proof_cli.ProofMap.Claims.Refinement.{claim_node-Refines, release_node-Refines}
use proof_cli.ProofMap.Edit.{add_dependency, own_split_edge}
use proof_cli.ProofMap.Edit.Grants.{add_dependency_adds}
use proof_cli.ProofMap.Edit.Acyclic.{IsAcyclicMap, add_dependency-IsAcyclicMap}

add_dependency_refuses_a_cycle :
    add_dependency no_decisions world 3 1 researcher false sample
    ≡ err (dependency_cycle 3 (3 ∷ 1 ∷ 3 ∷ []))
unfolding add_dependency ◌>>=◌ require_node find_node structure_editable refuse_if stands_accepted
    refuse_cycle dependency_path proof_cli.Graph.Chain.path_between
    proof_cli.Graph.Chain.search_path proof_cli.Graph.Chain.push_from dependencies_of targets
    proof_cli.Graph.Chain.trace_back
add_dependency_refuses_a_cycle = refl

rests_on_lem_example :
    (result : List ℕ) × (rests_on sample 2 ≡ some result)
    × ((b : ℕ) → In b result ↔ Reach (dependencies_of sample.nodes) 2 b)
rests_on_lem_example = rests_on_lem sample 2

refuse_cycle-JudgesEdge_example : JudgesEdge sample 3 1 (refuse_cycle sample 3 1)
refuse_cycle-JudgesEdge_example = refuse_cycle-JudgesEdge sample 3 1

resting_on-rests_on_example :
    (up down : List ℕ) × (resting_on sample 3 ≡ some up)
    × (rests_on sample 1 ≡ some down)
    × (In 1 up ↔ In 3 down)
resting_on-rests_on_example = resting_on-rests_on sample 3 1 (refl, (refl, (refl, (refl, tt))))

-- Node 2 gains a dependency.
abbrev added : Store
added = value_or sample (add_dependency no_decisions world 2 4 7 false sample)

add_dependency-IsAcyclicMap_example : IsAcyclicMap added
unfolding add_dependency ◌>>=◌ require_node find_node structure_editable refuse_if stands_accepted
    refuse_cycle dependency_path proof_cli.Graph.Chain.path_between
    proof_cli.Graph.Chain.search_path proof_cli.Graph.Chain.push_from dependencies_of own_split_edge
    held_by_another find_active
add_dependency-IsAcyclicMap_example =
    add_dependency-IsAcyclicMap no_decisions world 2 4 7 false sample added refl sample-IsAcyclicMap

abbrev claimed : Result (Store × Claim)
claimed = claim_node no_decisions world 2 8 "" true sample

claim_node-IsHeldBy_example :
    IsHeldBy 2 8 (value_or (sample, held_2) claimed).0 (value_or (sample, held_2) claimed).1
unfolding claim_node ◌>>=◌ require_node find_node find_active stands_accepted release_in
claim_node-IsHeldBy_example =
    claim_node-IsHeldBy no_decisions world 2 8 "" true sample (value_or (sample, held_2) claimed).0
      (value_or (sample, held_2) claimed).1 refl (refl, tt)

abbrev released : Result (Store × Claim)
released = release_node no_decisions world 2 8 none sample

claim_node_grants_example :
    (r : Store × Claim) × (claim_node no_decisions world 2 8 "" true sample ≡ ok r)
unfolding require_node not_pickable find_active find_node stands_accepted
claim_node_grants_example =
    claim_node_grants no_decisions world 2 8 "" true sample (node 2 lemma (3 ∷ [])) (refl, tt) refl
      refl (inl refl)

add_dependency_adds_example :
    (s' : Store) × (add_dependency no_decisions world 2 4 8 true sample ≡ ok s')
    × (dependencies_of s'.nodes 2 ≡ 3 ∷ 4 ∷ [])
unfolding require_node structure_editable find_node ◌>>=◌ refuse_if stands_accepted
add_dependency_adds_example =
    add_dependency_adds no_decisions world 2 4 8 sample (node 2 lemma (3 ∷ [])) refl refl refl refl
      (λ p. absurd (omega (arith, rising p)))

claim_node-Refines_example :
    Refines (given_to 2 8 (holder sample.claims)) (value_or (sample, held_2) claimed).0.claims
unfolding claim_node ◌>>=◌ require_node find_node find_active stands_accepted release_in
    not_pickable
claim_node-Refines_example =
    claim_node-Refines no_decisions world 2 8 "" true sample (value_or (sample, held_2) claimed)
      refl (refl, tt) (refl, tt) (λ i. ground arith)

release_node-Refines_example :
    Refines (let_go 2 (holder sample.claims)) (value_or (sample, held_2) released).0.claims
unfolding release_node ◌>>=◌ require_node find_node find_active
release_node-Refines_example =
    release_node-Refines no_decisions world 2 8 none sample (value_or (sample, held_2) released)
      refl (refl, tt) (refl, tt)
