-- ===== src/Automation/Types.antt =====
-- The enumerations and records of src/proof_cli/automation.py. Identifiers are numbers, since the
-- code only compares them. The random ids of trace entries, interruptions and rollbacks are left
-- out, for nothing reads them, and so are the texts of trace messages.
use proof_cli.Base.{ℕ, String, Bool, Option, List}

pub data TaskType : Type 0 where
  theorem_application_checks omission_elaboration obligation_splitting : TaskType
  literature_grounded_contract_suggestion blocker_triage debug_task_generation : TaskType
  snapshot_handoff_generation low_risk_translation repetitive_repair_attempts : TaskType

pub data ExecutionMode : Type 0 where
  dry_run approval_required supervised : ExecutionMode

pub data RiskLevel : Type 0 where
  low medium high trust_sensitive : RiskLevel

pub data ActionType : Type 0 where
  inspect_state retrieve_assets check_policy generate_plan request_review : ActionType
  execute_task record_trace publish_reusable_outcome rollback interrupt : ActionType

pub data PolicyDecision : Type 0 where
  allow requires_review deny simulate : PolicyDecision

pub data ActionStatus : Type 0 where
  planned awaiting_approval completed simulated : ActionStatus
  blocked rejected interrupted rolled_back : ActionStatus

pub data RunStatus : Type 0 where
  planned running waiting_for_review interrupted rolled_back completed rejected : RunStatus

pub data TraceKind : Type 0 where
  run_created run_started policy_checked action_planned action_started : TraceKind
  action_completed action_simulated action_waiting_for_review action_approved : TraceKind
  action_rejected run_interrupted run_rolled_back run_completed : TraceKind

pub record Approval : Type 0 where
  pub id : ℕ
  pub run_id : ℕ
  pub action_id : ℕ
  pub reviewer : String
  pub rationale : String
  pub approved : Bool
  pub created_at : ℕ

pub record InterruptRecord : Type 0 where
  pub run_id : ℕ
  pub reason : String
  pub interrupted_by : String
  pub resume_from_action_index : ℕ
  pub created_at : ℕ

pub record RollbackRecord : Type 0 where
  pub run_id : ℕ
  pub reason : String
  pub action_ids : List ℕ
  pub rolled_back_by : String
  pub created_at : ℕ

-- The payload dictionaries that the run writes on its trace.
pub data TracePayload : Type 0 where
  nothing : TracePayload
  checked : ActionType → RiskLevel → PolicyDecision → TracePayload
  decided : PolicyDecision → TracePayload
  rationale : String → TracePayload
  interruption : (interrupted_by : String) (resume_from_action_index : ℕ) → TracePayload
  rolled : (rolled_back_by : String) (action_ids : List ℕ) → TracePayload
  executed : (executed_actions : List ℕ) → TracePayload
  creation :
      (project_id : ℕ) (scope : String) (mode : ExecutionMode) (planned_actions : ℕ) → TracePayload

pub record TraceEntry : Type 0 where
  pub kind : TraceKind
  pub action_id : Option ℕ
  pub payload : TracePayload
  pub created_at : ℕ

pub record PolicyProfile : Type 0 where
  pub id : ℕ
  pub name : String
  pub execution_mode : ExecutionMode
  pub allowed_actions : List ActionType
  pub approval_required_for : List ActionType
  pub forbidden_actions : List ActionType
  pub max_actions_per_run : ℕ
  pub allow_reversible_only : Bool
  pub notes : String

-- The payload of an action is carried along and never read: it is kept as a text.
pub record Action : Type 0 where
  pub id : ℕ
  pub action_type : ActionType
  pub description : String
  pub status : ActionStatus
  pub risk_level : RiskLevel
  pub reversible : Bool
  pub requires_review : Bool
  pub policy_decision : PolicyDecision
  pub sequence_index : ℕ
  pub reviewer : String
  pub approval_id : Option ℕ
  pub review_notes : String
  pub result_summary : String
  pub payload : String
  pub created_at : ℕ
  pub updated_at : ℕ

pub record Run : Type 0 where
  pub id : ℕ
  pub project_id : ℕ
  pub scope : String
  pub task_type : TaskType
  pub policy_profile : PolicyProfile
  pub execution_mode : ExecutionMode
  pub status : RunStatus
  pub planned_actions : List Action
  pub executed_actions : List Action
  pub approvals : List Approval
  pub interruptions : List InterruptRecord
  pub rollbacks : List RollbackRecord
  pub trace : List TraceEntry
  pub result_summary : String
  pub notes : String
  pub dry_run : Bool
  pub approval_required : Bool
  pub max_actions : ℕ
  pub next_action_index : ℕ
  pub started_at : Option ℕ
  pub completed_at : Option ℕ
  pub interrupted_at : Option ℕ
  pub rolled_back_at : Option ℕ
  pub created_at : ℕ
  pub updated_at : ℕ

-- What one call reads of the clock and of the source of fresh ids.
pub record Env : Type 0 where
  pub now : ℕ
  pub fresh : ℕ → ℕ
