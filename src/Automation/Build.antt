-- ===== src/Automation/Build.antt =====
-- `default_policy_profile`, `build_automation_run` and `build_action` of
-- src/proof_cli/automation.py.
use proof_cli.Base.{or_default, ℕ, String, Bool, false, Option, none, List, [], ◌∷◌, length}
use proof_cli.Automation.Types.{
  TaskType, ExecutionMode, RiskLevel, ActionType, inspect_state, retrieve_assets, check_policy,
  generate_plan, request_review, execute_task, record_trace, publish_reusable_outcome, allow,
  ActionStatus, RunStatus, TraceKind, creation, PolicyProfile, Action, Run, Env,
}
use proof_cli.Automation.Policy.{is_dry, asks_approval}
use proof_cli.Automation.Run.{append_trace, Result, ok, ◌>>=◌, add_actions}

abbrev pub default_policy_profile : ℕ → String → ExecutionMode → PolicyProfile
default_policy_profile id name execution_mode = record {
  id = id;
  name = name;
  execution_mode = execution_mode;
  allowed_actions =
      inspect_state ∷ retrieve_assets ∷ check_policy ∷ generate_plan ∷ request_review ∷ execute_task
      ∷ record_trace ∷ publish_reusable_outcome ∷ ActionType.rollback ∷ ActionType.interrupt ∷ [];
  approval_required_for = publish_reusable_outcome ∷ execute_task ∷ ActionType.rollback ∷ [];
  forbidden_actions = [];
  max_actions_per_run = 8;
  allow_reversible_only = false;
  notes = "default bounded supervised automation policy";
}

-- The arguments of `build_automation_run`, but for the actions.
pub record Request : Type 0 where
  pub run_id : ℕ
  pub project_id : ℕ
  pub scope : String
  pub task_type : TaskType
  pub policy_profile : Option PolicyProfile
  pub mode : ExecutionMode
  pub notes : String
  pub dry_run : Option Bool
  pub approval_required : Option Bool

-- `policy_profile or default_policy_profile(execution_mode=execution_mode)`
abbrev pub profile_of : Env → Request → PolicyProfile
profile_of e q =
    or_default q.policy_profile
      (default_policy_profile (e.fresh 0) "bounded_local_reasoning" q.mode)

unfoldable pub empty_run : Env → Request → Run
empty_run e q =
    let profile = profile_of e q in
    record {
      id = q.run_id;
      project_id = q.project_id;
      scope = q.scope;
      task_type = q.task_type;
      policy_profile = profile;
      execution_mode = q.mode;
      status = RunStatus.planned;
      planned_actions = [];
      executed_actions = [];
      approvals = [];
      interruptions = [];
      rollbacks = [];
      trace = [];
      result_summary = "";
      notes = q.notes;
      dry_run = or_default q.dry_run (is_dry q.mode);
      approval_required = or_default q.approval_required (asks_approval q.mode);
      max_actions = profile.max_actions_per_run;
      next_action_index = 0;
      started_at = none;
      completed_at = none;
      interrupted_at = none;
      rolled_back_at = none;
      created_at = e.now;
      updated_at = e.now;
    }

unfoldable pub build_automation_run : Env → Request → List Action → Result
unfolding empty_run add_actions append_trace
build_automation_run e q actions = do
  run ← add_actions e actions (empty_run e q)
  ok (
      append_trace e TraceKind.run_created none
        (creation q.project_id q.scope q.mode (length actions)) run)

abbrev pub build_action :
    Env
    → ActionType
    → String
    → RiskLevel
    → (reversible requires_review : Bool) → (payload : String) → Action
build_action e action_type description risk_level reversible requires_review payload = record {
  id = e.fresh 0;
  action_type = action_type;
  description = description;
  status = ActionStatus.planned;
  risk_level = risk_level;
  reversible = reversible;
  requires_review = requires_review;
  policy_decision = allow;
  sequence_index = 0;
  reviewer = "";
  approval_id = none;
  review_notes = "";
  result_summary = "";
  payload = payload;
  created_at = e.now;
  updated_at = e.now;
}
