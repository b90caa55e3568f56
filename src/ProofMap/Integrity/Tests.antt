-- ===== src/ProofMap/Integrity/Tests.antt =====
-- Provisional nodes, the integrity axis and the frontier on the concrete map: the Verifier passed a
-- snapshot of each node.
use proof_cli.Base.{◌≡◌, refl, true, false, ◌↔◌, none, some, [], ◌∷◌, All}
use proof_cli.Graph.Reach.{In, here, step}
use proof_cli.ProofMap.Types.{◌>>=◌, accepted, Decisions}
use proof_cli.ProofMap.Tables.{find_node, require_node}
use proof_cli.ProofMap.Edges.{dependencies_of, targets}
use proof_cli.ProofMap.Samples.{sample, no_decisions, world, sample-IsAcyclicMap}
use proof_cli.ProofMap.Upstream.{clear}
use proof_cli.ProofMap.Workflow.{
  ReferenceReview, Verdict, CandidateProof, Check, Records, own_cause,
}
use proof_cli.ProofMap.Integrity.{
  unsettled_support, is_provisional, get_integrity_state, current, get_frontier,
}
use proof_cli.ProofMap.Integrity.Supports.{
  RestsUnsettledOn, unsettled_support-RestsOn, is_provisional-closed,
}
use proof_cli.ProofMap.Integrity.Current.{get_integrity_state-current}
use proof_cli.ProofMap.Integrity.Frontier.{IsGranted, get_frontier-IsGranted}

abbrev passed : Records
passed = record {
  reference_review = λ s i. ReferenceReview.unreviewed;
  is_not_callable = λ s i. false;
  pin_of = λ s i j. none;
  pin_is_current = λ s p. true;
  latest = λ s i. none;
  current_proof = λ s i. some (record {
    id = i;
    sha256 = i;
    created_at = 1;
    dependencies = some (dependencies_of s.nodes i);
  });
  checks_of =
      λ s i. record { is_by_verifier = true; candidate_proof_sha256 = some i; passed = true } ∷ [];
  restated_at = λ s i. none;
}

unsettled_support-RestsOn_example :
    In 3 (unsettled_support no_decisions passed sample 1)
    ↔ RestsUnsettledOn no_decisions passed sample 1 3
unsettled_support-RestsOn_example =
    unsettled_support-RestsOn no_decisions passed sample 1 3 sample-IsAcyclicMap

is_provisional-closed_example : is_provisional no_decisions passed sample 3 ≡ true
unfolding is_provisional unsettled_support proof_cli.ProofMap.Tables.get_node find_node
    proof_cli.ProofMap.Workflow.awaiting_decision
    proof_cli.ProofMap.Integrity.snapshot_dependencies_stand dependencies_of
    proof_cli.ProofMap.Integrity.verifier_passed proof_cli.ProofMap.Integrity.support_with
    proof_cli.ProofMap.Support.support_from proof_cli.ProofMap.Support.walk_on
    proof_cli.ProofMap.Support.fuel_of proof_cli.ProofMap.Upstream.mass targets
    proof_cli.ProofMap.Integrity.snapshot_restated_under
is_provisional-closed_example =
    is_provisional-closed no_decisions passed sample 1 3 sample-IsAcyclicMap refl refl

abbrev all_accepted : Decisions
all_accepted = record no_decisions { acceptance = λ s i. accepted }

get_integrity_state-current_example : own_cause all_accepted passed sample 3 ≡ clear
unfolding get_integrity_state dependencies_of find_node ◌>>=◌ require_node
    proof_cli.ProofMap.Workflow.is_unsettled_upstream proof_cli.ProofMap.Workflow.cause_at
    proof_cli.ProofMap.Workflow.upstream_cause proof_cli.ProofMap.Upstream.cause_from
    proof_cli.ProofMap.Upstream.walk_on proof_cli.ProofMap.Upstream.fuel_of
    proof_cli.ProofMap.Upstream.mass targets proof_cli.ProofMap.Upstream.worse
    proof_cli.ProofMap.Workflow.awaiting_decision proof_cli.ProofMap.Integrity.support_with
    proof_cli.ProofMap.Support.support_from proof_cli.ProofMap.Support.walk_on
    proof_cli.ProofMap.Support.fuel_of
get_integrity_state-current_example =
    get_integrity_state-current all_accepted passed sample 1 3 refl refl (step here refl)

abbrev unproved : Records
unproved = record passed { current_proof = λ s i. none }

get_frontier-IsGranted_example :
    All (IsGranted no_decisions world 8 "" sample) (get_frontier no_decisions unproved sample)
unfolding proof_cli.ProofMap.Tables.find_active
get_frontier-IsGranted_example =
    get_frontier-IsGranted no_decisions world unproved 8 "" sample
      (refl, (refl, (refl, (refl, tt)))) (refl, tt)
