-- ===== src/ProofMap/Whole/Tests.antt =====
-- Histories of the concrete map.
use proof_cli.Base.{ℕ, ◌≡◌, refl, true, false, none, List, [], ◌∷◌, map, arith, is_some}
use proof_cli.Graph.Reach.{In}
use proof_cli.ProofMap.Types.{
  claim, err, dependency_not_found, node_not_found, ◌>>=◌, refuse_if, researcher,
}
use proof_cli.ProofMap.Tables.{find_node, require_node, find_active}
use proof_cli.ProofMap.Edges.{dependencies_of}
use proof_cli.ProofMap.Create.{Fields, create_node}
use proof_cli.ProofMap.Split.{Spec, split_node, create_node_under_parent}
use proof_cli.ProofMap.Claims.{structure_editable, stands_accepted}
use proof_cli.ProofMap.Samples.{sample, no_decisions, world, sample-IsAcyclicMap}
use proof_cli.ProofMap.Whole.{IsWhole}
use proof_cli.ProofMap.Whole.History.{
  Call, create, create_under, split_into, add, move, claim_for, release, Step, run, run-IsWhole,
}

sample-closed :
    (i d : ℕ) → In d (dependencies_of sample.nodes i) → is_some (find_node d sample.nodes) ≡ true
unfolding dependencies_of find_node
sample-closed i d h = ground arith

sample-IsWhole : IsWhole sample
unfolding find_active
sample-IsWhole = record {
  table = record {
    keys = (refl, (refl, (refl, (refl, tt))));
    theorems = (refl, (refl, (refl, (refl, tt))));
    closed = sample-closed;
  };
  acyclic = sample-IsAcyclicMap;
  single = (refl, tt);
}

abbrev fields : ℕ → List ℕ → Fields
fields i dependencies = record {
  node_id = i;
  kind = claim;
  display_label = "";
  statement = "";
  assumptions = [];
  definitions = [];
  dependencies = dependencies;
  source_locator = none;
  source_version = none;
  trust_level = none;
  reference_id = none;
  derived_from = none;
  medium = none;
  created_by = researcher;
}

abbrev child : ℕ → List ℕ → Spec
child i dependencies = record {
  id = i;
  statement = "";
  display_label = "";
  assumptions = [];
  dependencies = dependencies;
  medium = none;
  definitions = [];
}

abbrev step : Call → Step
step call = record { decisions = no_decisions; world = world; call = call }

-- The second call and the fourth are refused: the node exists, and the edge would close a cycle.
abbrev history : List Step
history =
    step (create (fields 5 (3 ∷ [])))
    ∷ step (create (fields 4 []))
    ∷ step (create_under 4 (fields 6 (2 ∷ [])) false)
    ∷ step (add 3 1 researcher false)
    ∷ step (split_into 3 (child 7 [] ∷ child 8 [] ∷ []) 9 true)
    ∷ step (add 4 3 researcher true)
    ∷ step (move 4 3 6 researcher true)
    ∷ step (claim_for 4 8 "" false)
    ∷ step (release 4 8 none)
    ∷ []

-- A child may not rest on a child of the same Split, nor a new node be its own parent: the reads
-- do not see it yet.
abbrev refused : List Step
refused =
    step (split_into 3 (child 7 [] ∷ child 8 (7 ∷ []) ∷ []) 9 true)
    ∷ step (create_under 6 (fields 6 (2 ∷ [])) true)
    ∷ []

refused_lem : run refused sample ≡ sample
unfolding run create_node_under_parent ◌>>=◌ proof_cli.ProofMap.Create.create_node_within refuse_if
    find_node proof_cli.ProofMap.Split.split_node require_node
    proof_cli.ProofMap.Claims.held_by_another find_active proof_cli.ProofMap.Split.refuse_resting
    proof_cli.ProofMap.Create.resolve_medium proof_cli.ProofMap.Create.once
    proof_cli.ProofMap.Create.insert_row
refused_lem = refl

abbrev history_ids : List ℕ
history_ids = map (λ n. n.id) (run history sample).nodes

abbrev history_edges : List (List ℕ)
history_edges = map (λ n. n.dependencies) (run history sample).nodes

run-IsWhole_example : IsWhole (run history sample)
run-IsWhole_example = run-IsWhole history sample sample-IsWhole

refused_child :
    split_node no_decisions world 3 (child 7 [] ∷ child 8 (7 ∷ []) ∷ []) 9 true sample
    ≡ err (dependency_not_found 7)
unfolding split_node ◌>>=◌ require_node find_node refuse_if
    proof_cli.ProofMap.Claims.held_by_another find_active proof_cli.ProofMap.Split.refuse_resting
    proof_cli.ProofMap.Create.create_node_within proof_cli.ProofMap.Create.resolve_medium
    proof_cli.ProofMap.Create.once proof_cli.ProofMap.Create.insert_row
refused_child = refl

refused_parent :
    create_node_under_parent no_decisions world 6 (fields 6 (2 ∷ [])) true sample
    ≡ err (node_not_found 6)
unfolding create_node_under_parent ◌>>=◌ proof_cli.ProofMap.Create.create_node_within refuse_if
    find_node proof_cli.ProofMap.Create.resolve_medium proof_cli.ProofMap.Create.once
    proof_cli.ProofMap.Create.insert_row require_node
refused_parent = refl
