-- ===== src/NodeStates/Types.antt =====
-- The states of src/proof_cli/node_states.py, the Challenges of src/proof_cli/domain.py, and what a
-- reading of the states reads of the records of the project.
use proof_cli.Base.{ℕ, Bool, Option, List}
use proof_cli.ProofMap.Types.{Acceptance}

pub data Seal : Type 0 where
  unsealed sealed_true sealed_false : Seal

pub data StatementLayer : Type 0 where
  unchallenged challenged_as_false found_false : StatementLayer

pub data ProofLayer : Type 0 where
  incomplete checks_passed expert_verified : ProofLayer

pub data Conclusion : Type 0 where
  uncertain is_true verified_true is_false : Conclusion

pub data ChallengeStatus : Type 0 where
  is_open dismissed upheld resolved_by_revision withdrawn superseded fixed : ChallengeStatus

-- What a Challenge is against; one from before kinds has none.
pub data ChallengeKind : Type 0 where
  proof statement : ChallengeKind

pub record Challenge : Type 0 where
  pub id : ℕ
  pub target_node_id : ℕ
  pub status : ChallengeStatus
  pub opened_by : ℕ
  pub created_at : ℕ
  pub kind : Option ChallengeKind
  pub counterexample_id : Option ℕ

pub data ReferenceReview : Type 0 where
  no_longer_callable reviewed trusted_by_rule unreviewed : ReferenceReview

-- What the states read of the records, by node: the readings of proof_map.py on one store.
pub record Readings : Type 0 where
  pub direct_seal : ℕ → Seal
  -- The nodes that the node's own true seal covers, if it has one.
  pub covered_nodes : ℕ → List ℕ
  pub acceptance_state : ℕ → Acceptance
  pub reference_review_state : ℕ → ReferenceReview
  pub current_version : ℕ → Option ℕ
  pub accepted_version : ℕ → Option ℕ
  pub researcher_verification_time : ℕ → Option ℕ
  pub verification_time : ℕ → Option ℕ
  pub false_since : ℕ → List ℕ
  pub has_passing_check : ℕ → Bool
  pub challenges : ℕ → List Challenge
  pub restored_challenges : List ℕ

-- A node's own states: its Seal, Statement layer, Proof layer and Assignee.
pub record OwnStates : Type 0 where
  pub seal : Seal
  pub statement_layer : StatementLayer
  pub proof_layer : ProofLayer
  pub assignee : Option ℕ
