-- ===== src/NodeStates/Tests.antt =====
-- Readings of src/proof_cli/node_states.py on a lemma that was accepted at time 4, challenged by an
-- agent before that, and whose statement an agent challenges with a counterexample after it.
use proof_cli.Base.{ℕ, ◌≡◌, refl, Bool, true, false, Option, none, some, List, [], ◌∷◌, ◌↔◌, ◌⊎◌}
use proof_cli.ProofMap.Types.{NodeKind, Acceptance, Node, Store}
use proof_cli.Base.{inl, inr, Bool-cases, arith, ◌<◌, ◌≤◌, ◌≢◌}
use proof_cli.Graph.Reach.{In, Reach, here, step, IsAcyclic}
use proof_cli.Graph.Walk.{value, cycle}
use proof_cli.Graph.Denotes.{nothing, also}
use proof_cli.ProofMap.Types.{Decisions}
use proof_cli.ProofMap.Tables.{is_imported, find_node, get_node}
use proof_cli.ProofMap.Edges.{dependencies_of, dependents_of}
use proof_cli.NodeStates.Walk.{NodeStates, own_of, states_from, node_states}
use proof_cli.NodeStates.Reading.{AreStatesOf, node_states-AreStatesOf}
use proof_cli.ProofMap.Edges.Search.{IsClosedMap}
use proof_cli.Base.{contains, ◌&&◌, if◌then◌else◌, ◌==◌}
use proof_cli.NodeStates.Own.{is_unsealed}
use proof_cli.NodeStates.Seals.{seal_preview, unseal, unsealing, after_unseal}
use proof_cli.NodeStates.Unseal.{seal_preview-unseal}
use proof_cli.Graph.Spread.{IsUnder}
use proof_cli.NodeStates.Stopped.{stopped_by, branch_of, counterexamples}
use proof_cli.NodeStates.Grounds.{IsExpertVerified}
use proof_cli.NodeStates.Verified.{own_states-IsExpertVerified}
use proof_cli.NodeStates.Branch.{branch_of-IsUnder}
use proof_cli.NodeStates.Sides.{IsWorked}
use proof_cli.NodeStates.Through.{verified_true_through}
use proof_cli.NodeStates.Types.{
  unsealed, sealed_true, unchallenged, challenged_as_false, incomplete, expert_verified, is_true,
  verified_true, is_false, ChallengeStatus, is_open, withdrawn, ChallengeKind, proof, statement,
  Challenge, ReferenceReview, Readings,
}
use proof_cli.NodeStates.Conclusion.{own_conclusion, conclusion}
use proof_cli.NodeStates.Weakest.{
  IsWeakest, IsVerifiedThrough, conclusion-IsWeakest, conclusion-verified_true,
}
use proof_cli.NodeStates.Own.{
  own_seal, sealed_by, coverers, own_states, is_verified, statement_layer_before,
  proof_layer_before,
}
use proof_cli.NodeStates.Layers.{disputed_layer, reopened_layer, own_states_layers}

abbrev challenge : ℕ → ChallengeStatus → ℕ → ℕ → ChallengeKind → Option ℕ → Challenge
challenge i status by at kind example = record {
  id = i;
  target_node_id = 1;
  status = status;
  opened_by = by;
  created_at = at;
  kind = some kind;
  counterexample_id = example;
}

abbrev early : Challenge
early = challenge 20 withdrawn 7 2 proof none

abbrev late : Challenge
late = challenge 21 is_open 8 6 statement (some 3)

abbrev readings : List Challenge → Readings
readings challenges = record {
  direct_seal = λ i. unsealed;
  covered_nodes = λ i. [];
  acceptance_state = λ i. Acceptance.accepted;
  reference_review_state = λ i. ReferenceReview.unreviewed;
  current_version = λ i. some 2;
  accepted_version = λ i. some 2;
  researcher_verification_time = λ i. none;
  verification_time = λ i. some 4;
  false_since = λ i. [];
  has_passing_check = λ i. true;
  challenges = λ i. challenges;
  restored_challenges = [];
}

abbrev accepted_lemma : Node
accepted_lemma = record {
  id = 1;
  kind = NodeKind.lemma;
  display_label = "";
  statement = "";
  assumptions = [];
  definitions = [];
  dependencies = 2 ∷ [];
  source_locator = none;
  source_version = none;
  trust_level = none;
  reference_id = none;
  derived_from = none;
  medium = none;
  created_by = 7;
  created_at = 1;
  updated_at = 1;
}

abbrev store : Store
store = record {
  nodes = accepted_lemma ∷ [];
  claims = [];
  pins = [];
  events = [];
  definitions = [];
  references = [];
}

abbrev decides_none : Challenge → Bool
decides_none c = false

stays_verified :
    (own_states (readings (early ∷ [])) store decides_none accepted_lemma).proof_layer
    ≡ expert_verified
unfolding own_states proof_cli.NodeStates.Own.read_challenges
    proof_cli.NodeStates.Own.read_challenge proof_layer_before proof_cli.NodeStates.Own.lapses
stays_verified = refl

is_challenged_and_reopened :
    own_states (readings (early ∷ late ∷ [])) store decides_none accepted_lemma ≡ record {
      seal = unsealed;
      statement_layer = challenged_as_false;
      proof_layer = incomplete;
      assignee = none;
    }
unfolding own_states proof_cli.NodeStates.Own.read_challenges proof_cli.ProofMap.Tables.find_active
    proof_cli.NodeStates.Own.read_challenge statement_layer_before
is_challenged_and_reopened = refl

own_states_layers_example :
    ((own_states (readings (early ∷ late ∷ [])) store decides_none accepted_lemma).statement_layer
      ≡ disputed_layer decides_none
          (early ∷ late ∷ [])
          (statement_layer_before (readings (early ∷ late ∷ [])) accepted_lemma))
    × ((own_states (readings (early ∷ late ∷ [])) store decides_none accepted_lemma).proof_layer
        ≡ reopened_layer decides_none
            (early ∷ late ∷ [])
            (proof_layer_before (readings (early ∷ late ∷ [])) accepted_lemma))
own_states_layers_example =
    own_states_layers (readings (early ∷ late ∷ [])) store decides_none accepted_lemma

conclusion-IsWeakest_example :
    IsWeakest
      (own_conclusion unchallenged expert_verified)
      (is_true ∷ is_false ∷ [])
      (conclusion unsealed unchallenged expert_verified (is_true ∷ is_false ∷ []))
conclusion-IsWeakest_example =
    conclusion-IsWeakest unchallenged expert_verified (is_true ∷ is_false ∷ []) (λ e. cc)

conclusion-verified_true_example :
    (conclusion unsealed unchallenged expert_verified (verified_true ∷ []) ≡ verified_true) ↔ (
      (unsealed ≡ sealed_true)
      ⊎ IsVerifiedThrough unsealed unchallenged expert_verified (verified_true ∷ []))
conclusion-verified_true_example =
    conclusion-verified_true unsealed unchallenged expert_verified (verified_true ∷ [])

-- The accepted lemma 1 over a lemma 2.
abbrev pair : Store
pair = record store {
  nodes = accepted_lemma ∷ record accepted_lemma { id = 2; dependencies = [] } ∷ [];
}

-- Nothing is promoted.
abbrev no_decisions : Decisions
no_decisions = record {
  acceptance = λ s i. Acceptance.accepted;
  has_open_challenge = λ s i. false;
  verification_time = λ s i. some 4;
  false_since = λ s i. [];
  is_fixed = λ s i. false;
  is_promoted = λ s i. false;
  trust_rules_of = λ s i. [];
}

-- Node 1 with the dependency 2, and 2 with a dependency on 1.
abbrev loop : Store
loop = record store {
  nodes = accepted_lemma ∷ record accepted_lemma { id = 2; dependencies = 1 ∷ [] } ∷ [];
}

names_the_cycle :
    node_states (readings []) no_decisions loop decides_none 1 ≡ cycle (1 ∷ 2 ∷ 1 ∷ [])
unfolding node_states proof_cli.Graph.Walk.walk_from find_node proof_cli.Graph.Walk.walk
    proof_cli.Graph.Walk.drop_read dependencies_of proof_cli.ProofMap.Edges.targets
    proof_cli.Graph.Walk.cycle_to
names_the_cycle = refl

pair-IsAcyclic : IsAcyclic (dependencies_of pair.nodes)
unfolding dependencies_of find_node
pair-IsAcyclic a b e p = absurd (omega (arith, larger a b e, rising p))
  where
    larger : (x d : ℕ) → In d (dependencies_of pair.nodes x) → x < d
    larger x d h = ground arith

    rising : {x d : ℕ} → Reach (dependencies_of pair.nodes) x d → x ≤ d
    rising here = omega arith
    rising (step {b} {c} q k) = omega (arith, rising q, larger b c k)

pair-IsClosedMap : IsClosedMap pair
unfolding dependencies_of find_node
pair-IsClosedMap i d h = ground arith

node_states-AreStatesOf_example :
    (states : NodeStates) × (node_states (readings []) no_decisions pair decides_none 1
      ≡ value states)
    × AreStatesOf (readings []) no_decisions pair decides_none 1 states
unfolding find_node
node_states-AreStatesOf_example =
    node_states-AreStatesOf (readings []) no_decisions pair decides_none 1 pair-IsAcyclic
      pair-IsClosedMap refl

abbrev states_of_2 : NodeStates
states_of_2 = states_from (readings []) no_decisions pair decides_none 2 []

abbrev states_of_1 : NodeStates
states_of_1 = states_from (readings []) no_decisions pair decides_none 1 (states_of_2 ∷ [])

nothing_sealed : (o : Option Node) → (own_of (readings []) pair decides_none o).seal ≢ sealed_true
unfolding own_states own_seal sealed_by coverers
nothing_sealed none h = cc
nothing_sealed (some node) h = elim (Bool-cases (is_imported node.kind)) [
  | inl is ↦ cc
  | inr other ↦ cc
]

pair-AreStatesOf : AreStatesOf (readings []) no_decisions pair decides_none 1 states_of_1
unfolding find_node dependencies_of
pair-AreStatesOf = also {i = 1} refl (also {i = 2} refl nothing nothing) nothing

verified_true_through_example :
    (own_of (readings []) pair decides_none (get_node no_decisions pair 2)).proof_layer
    ≡ expert_verified
unfolding states_from conclusion get_node find_node own_states
    proof_cli.NodeStates.Own.read_challenges statement_layer_before
    proof_cli.NodeStates.Conclusion.min_by_rank proof_layer_before dependencies_of
verified_true_through_example =
    verified_true_through (readings []) no_decisions pair decides_none 1 2 states_of_1
      pair-AreStatesOf (λ j. nothing_sealed (get_node no_decisions pair j)) refl
      (step {b = 1} here refl)

-- Node 1 is sealed true, and 2 with it.
abbrev sealed : Readings
sealed = record (readings []) {
  direct_seal = λ i. if i == 1 then sealed_true else unsealed;
  covered_nodes = λ i. if i == 1 then 1 ∷ 2 ∷ [] else [];
}

releases_both :
    seal_preview sealed no_decisions pair decides_none 1 unseal ≡ value (unsealing (1 ∷ 2 ∷ []))
unfolding seal_preview find_node get_node proof_cli.NodeStates.Seals.seal_after_unseal
releases_both = refl

seal_preview-unseal_example :
    (releases : List ℕ) × (seal_preview sealed no_decisions pair decides_none 1 unseal
      ≡ value (unsealing releases))
    × ((i : ℕ) (n : Node)
        → get_node no_decisions pair i ≡ some n
        → contains releases i
          ≡ contains (1 ∷ sealed.covered_nodes 1) i
            && is_unsealed (own_states (after_unseal 1 sealed) pair decides_none n).seal)
unfolding find_node
seal_preview-unseal_example = seal_preview-unseal sealed no_decisions pair decides_none 1 refl

-- The lemma 2 is challenged by the researcher.
abbrev lemma_2 : Node
lemma_2 = record accepted_lemma { id = 2; dependencies = [] }

abbrev doubted : Readings
doubted = record (readings []) {
  challenges = λ i. if i == 2 then challenge 22 is_open 0 6 statement none ∷ [] else [];
}

stops_its_user : stopped_by doubted no_decisions pair decides_none 1 ≡ 2 ∷ []
unfolding stopped_by proof_cli.ProofMap.Edges.list_nodes own_states
    proof_cli.NodeStates.Own.read_challenges proof_cli.ProofMap.Tables.as_counted
    statement_layer_before proof_cli.NodeStates.Own.read_challenge counterexamples
    proof_cli.Graph.Under.spread_from proof_cli.Graph.Spread.spread dependents_of
    proof_cli.ProofMap.Edges.uses_in proof_cli.Graph.Spread.weight dependencies_of find_node
    proof_cli.Graph.Spread.rev_onto
stops_its_user = refl

branch_of-IsUnder_example :
    (branch worked : List ℕ) × (branch_of doubted pair lemma_2 ≡ some branch)
    × ((x : ℕ) → In x worked ↔ IsWorked doubted pair lemma_2 x)
    × ((x : ℕ)
        → In x branch ↔ (
            IsUnder (dependencies_of pair.nodes) worked (dependents_of pair.nodes 2) x
            × (contains worked x ≡ false)))
branch_of-IsUnder_example = branch_of-IsUnder doubted pair lemma_2

own_states-IsExpertVerified_example :
    ((own_states (readings (early ∷ [])) store decides_none accepted_lemma).proof_layer
      ≡ expert_verified)
    ↔ IsExpertVerified (readings (early ∷ [])) decides_none accepted_lemma
own_states-IsExpertVerified_example =
    own_states-IsExpertVerified (readings (early ∷ [])) store decides_none accepted_lemma
