-- ===== src/ProofMap/Workflow/Tests.antt =====
-- The workflow axis on the concrete map, with a Challenge open on node 3.
use proof_cli.Base.{◌≡◌, refl, true, false, ◌==◌, none, some, [], ◌∷◌, ◌⊎◌, is_some}
use proof_cli.Graph.Reach.{here, step}
use proof_cli.ProofMap.Types.{theorem, ok, ◌>>=◌, Decisions}
use proof_cli.ProofMap.Tables.{find_node, require_node}
use proof_cli.ProofMap.Edges.{dependencies_of, targets}
use proof_cli.ProofMap.Samples.{node, sample, no_decisions}
use proof_cli.ProofMap.Upstream.Walk.{Ends}
use proof_cli.ProofMap.Workflow.{
  ReferenceReview, Records, own_cause, upstream_cause, get_workflow_state, blocked,
  get_blocked_reason, BlockedReason, not_callable, dependency_challenged,
}
use proof_cli.ProofMap.Workflow.Causes.{upstream_cause-Ends}
use proof_cli.ProofMap.Workflow.Blocked.{
  is_blocked, get_blocked_reason-blocked, blocked_below_challenge,
}

abbrev doubted : Decisions
doubted = record no_decisions { has_open_challenge = λ s i. i == 3 }

abbrev no_records : Records
no_records = record {
  reference_review = λ s i. ReferenceReview.unreviewed;
  is_not_callable = λ s i. false;
  pin_of = λ s i j. none;
  pin_is_current = λ s p. true;
  latest = λ s i. none;
  current_proof = λ s i. none;
  checks_of = λ s i. [];
  restated_at = λ s i. none;
}

upstream_cause-Ends_example :
    Ends
      (dependencies_of sample.nodes)
      (own_cause doubted no_records sample)
      (1 ∷ targets sample.nodes)
      1
      (upstream_cause doubted no_records sample [] 1)
upstream_cause-Ends_example =
    upstream_cause-Ends doubted no_records sample [] 1 (λ i c e. absurd (cc))

blocked_below_challenge_example :
    (get_workflow_state doubted no_records sample 1 ≡ ok blocked)
    × (reason : BlockedReason) × (get_blocked_reason doubted no_records sample 1 ≡ ok (some reason))
    × ((reason ≡ not_callable) ⊎ (reason ≡ dependency_challenged))
unfolding require_node find_node own_cause dependencies_of
blocked_below_challenge_example =
    blocked_below_challenge doubted no_records sample 1 2 3 (node 1 theorem (2 ∷ 3 ∷ [])) refl refl
      refl refl (step here refl) refl

get_blocked_reason-blocked_example :
    (get_blocked_reason doubted no_records sample 1 >>= λ reason. ok (is_some reason))
    ≡ (get_workflow_state doubted no_records sample 1 >>= λ state. ok (is_blocked state))
get_blocked_reason-blocked_example = get_blocked_reason-blocked doubted no_records sample 1
