-- ===== src/Automation/Tests.antt =====
-- Runs of src/proof_cli/automation.py on concrete plans.
use proof_cli.Base.{
  map, ℕ, ◌+◌, ◌≤◌, ◌<◌, length, arith, ◌++◌, ◌≡◌, refl, Bool, true, false, Option, none, some,
  List, [], ◌∷◌, ◌==◌, if◌then◌else◌,
}
use proof_cli.Automation.Types.{
  literature_grounded_contract_suggestion, ExecutionMode, dry_run, supervised, low, ActionType,
  execute_task, inspect_state, publish_reusable_outcome, allow, requires_review, ActionStatus,
  RunStatus, PolicyProfile, Action, Run, Env,
}
use proof_cli.Automation.Policy.{listed, decide_action}
use proof_cli.Automation.Run.{Result, ok, refused, too_many_actions, add_action, approve_found}
use proof_cli.Automation.Execute.{
  Overrides, is_terminal, flag, go, execute, resume, loop, process, finish, effective_decision,
  carry_out, complete_action, await_review, pre_approve,
}
use proof_cli.Automation.Build.{Request, empty_run, build_automation_run}
use proof_cli.Automation.Total.{Returns, execute_total}
use proof_cli.Automation.Flag.{flagged, flagged_result, execute-flagged}
use proof_cli.Automation.DryRun.{IsDry, execute-IsDry}
use proof_cli.Automation.Consent.{IsConsented, execute-IsConsented}
use proof_cli.Automation.Forbidden.{Obeys, execute-Obeys}
use proof_cli.Automation.Indexes.{IsWellFormed}
use proof_cli.Automation.Bounds.{as_asked, build_automation_run_bounds}
use proof_cli.Automation.Find.{ids}
use proof_cli.Automation.Progress.{IsOrdered, Accounts, left, execute-Accounts, resume_completes}
use proof_cli.Automation.Override.{
  IsDeniedOnDemand, effective_decision-IsDeniedOnDemand, denied_executes, execute-alike,
}

abbrev env : Env
env = record { now = 5; fresh = λ i. 1000 + i }

-- Publishing needs an approval, and rolling back is forbidden.
abbrev profile : PolicyProfile
profile = record {
  id = 1;
  name = "careful";
  execution_mode = supervised;
  allowed_actions = [];
  approval_required_for = publish_reusable_outcome ∷ [];
  forbidden_actions = ActionType.rollback ∷ [];
  max_actions_per_run = 5;
  allow_reversible_only = false;
  notes = "";
}

abbrev action : ℕ → ActionType → Action
action i t = record {
  id = i;
  action_type = t;
  description = "";
  status = ActionStatus.planned;
  risk_level = low;
  reversible = true;
  requires_review = false;
  policy_decision = allow;
  sequence_index = 0;
  reviewer = "";
  approval_id = none;
  review_notes = "";
  result_summary = "";
  payload = "";
  created_at = 1;
  updated_at = 1;
}

abbrev request : ExecutionMode → Option Bool → Request
request mode demand = record {
  run_id = 1;
  project_id = 2;
  scope = "map";
  task_type = literature_grounded_contract_suggestion;
  policy_profile = some profile;
  mode = mode;
  notes = "";
  dry_run = none;
  approval_required = demand;
}

abbrev run_or : Run → Result → Run
run_or r (ok s) = s
run_or r (refused x) = r

-- Inspect, publish and execute, in that order.
abbrev three : List Action
three = action 10 inspect_state ∷ action 11 publish_reusable_outcome ∷ action 12 execute_task ∷ []

abbrev run_of : Request → List Action → Run
run_of q actions = run_or (empty_run env q) (build_automation_run env q actions)

abbrev supervised_run : Run
supervised_run = run_of (request supervised none) three

abbrev dry : Run
dry = run_of (request dry_run none) three

-- A plan whose one action is forbidden, in a run that demands approval.
abbrev demanding : Run
demanding = run_of (request supervised (some true)) (action 10 ActionType.rollback ∷ [])

abbrev no_overrides : Overrides
no_overrides i = none

abbrev all_overrides : Overrides
all_overrides i = some (flag false)

abbrev place : ℕ → ℕ
place i = if i == 12 then 2 else if i == 11 then 1 else 0

abbrev status_of : Result → Option RunStatus
status_of (ok r) = some r.status
status_of (refused x) = none

abbrev executed_of : Result → List ℕ
executed_of (ok r) = ids r.executed_actions
executed_of (refused x) = []

waits_for_review :
    status_of (execute env no_overrides none supervised_run) ≡ some RunStatus.waiting_for_review
unfolding build_automation_run execute loop process effective_decision decide_action carry_out
    await_review add_action listed mathlib.Core.Bool.decide complete_action
waits_for_review = refl

completes : executed_of (execute env all_overrides none supervised_run) ≡ 10 ∷ 11 ∷ 12 ∷ []
unfolding build_automation_run execute loop process effective_decision decide_action carry_out
    pre_approve add_action listed mathlib.Core.Bool.decide approve_found finish
completes = refl

demanding-IsDeniedOnDemand : IsDeniedOnDemand (action 10 ActionType.rollback) demanding
unfolding build_automation_run decide_action add_action listed mathlib.Core.Bool.decide
demanding-IsDeniedOnDemand = record { demanded = refl; unapproved = refl; denied = refl }

execute_total_example : (r' : Run) × (execute env all_overrides (some 2) supervised_run ≡ ok r')
execute_total_example = execute_total env all_overrides (some 2) supervised_run

execute-IsDry_example : Returns IsDry (execute env all_overrides none dry)
unfolding build_automation_run add_action
execute-IsDry_example = execute-IsDry env all_overrides none dry (refl, tt)

execute-IsConsented_example :
    Returns
      (IsConsented supervised_run.policy_profile supervised supervised_run.approval_required)
      (execute env all_overrides none supervised_run)
unfolding build_automation_run add_action
execute-IsConsented_example =
    execute-IsConsented supervised_run.policy_profile supervised supervised_run.approval_required
      env all_overrides none supervised_run
      (record { profile = refl; mode = refl; demanded = refl; consented = tt })

abbrev type_of : ℕ → ActionType
type_of i =
    if i == 12 then execute_task else if i == 11 then publish_reusable_outcome else inspect_state

supervised_run-Obeys : Obeys type_of supervised_run.policy_profile supervised_run
unfolding build_automation_run add_action
supervised_run-Obeys = record {
  profile = refl;
  not_demanded = refl;
  typed = (refl, (refl, (refl, tt)));
  permitted = tt;
}

execute-Obeys_example :
    Returns
      (Obeys type_of supervised_run.policy_profile)
      (execute env all_overrides none supervised_run)
execute-Obeys_example =
    execute-Obeys env all_overrides none type_of supervised_run supervised_run-Obeys

supervised_run-IsOrdered : IsOrdered place supervised_run
unfolding build_automation_run add_action
supervised_run-IsOrdered = record {
  in_order = (refl, (refl, (refl, tt)));
  placed = (refl, (refl, (refl, tt)));
  position = omega arith;
}

supervised_run-open : is_terminal supervised_run.status ≡ false
unfolding build_automation_run add_action
supervised_run-open = refl

execute-Accounts_example :
    Returns
      (Accounts place
        (ids supervised_run.planned_actions)
        (ids supervised_run.executed_actions ++ left supervised_run))
      (execute env all_overrides (some 1) supervised_run)
execute-Accounts_example =
    execute-Accounts env all_overrides (some 1) place supervised_run supervised_run-open
      supervised_run-IsOrdered

-- The run halts for the review of the second action.
abbrev halted : Run
halted = run_or supervised_run (execute env no_overrides none supervised_run)

-- Resumed with an approval, it completes.
abbrev resumed : Run
resumed = run_or supervised_run (resume env all_overrides none halted)

resume_completes_example :
    ids resumed.executed_actions ≡ ids supervised_run.executed_actions ++ left supervised_run
unfolding build_automation_run execute resume add_action loop process carry_out effective_decision
    decide_action listed mathlib.Core.Bool.decide complete_action await_review pre_approve
    approve_found finish
resume_completes_example =
    resume_completes env env no_overrides all_overrides none none place supervised_run halted
      resumed supervised_run-open supervised_run-IsOrdered refl refl refl refl

effective_decision-IsDeniedOnDemand_example :
    effective_decision demanding (action 10 ActionType.rollback) ≡ requires_review
unfolding build_automation_run add_action
effective_decision-IsDeniedOnDemand_example =
    effective_decision-IsDeniedOnDemand (action 10 ActionType.rollback) demanding
      demanding-IsDeniedOnDemand

denied_executes_example :
    (s : Run) × (process env all_overrides (action 10 ActionType.rollback) demanding ≡ go s)
    × (ids s.executed_actions ≡ ids demanding.executed_actions ++ 10 ∷ [])
unfolding build_automation_run add_action
denied_executes_example =
    denied_executes env all_overrides (flag false) (action 10 ActionType.rollback) demanding
      demanding-IsDeniedOnDemand refl refl refl

abbrev human_overrides : Overrides
human_overrides i = some (flag true)

execute-alike_example :
    execute env all_overrides none demanding ≡ execute env human_overrides none demanding
execute-alike_example = execute-alike env all_overrides human_overrides none demanding (λ i. refl)

abbrev six : List Action
six =
    action 1 inspect_state
    ∷ action 2 inspect_state
    ∷ action 3 inspect_state
    ∷ action 4 inspect_state
    ∷ action 5 inspect_state
    ∷ action 6 inspect_state
    ∷ []

build_automation_run_bounds_example :
    (length six ≤ 5
      → (r : Run) × (build_automation_run env (request supervised none) six ≡ ok r)
        × IsWellFormed r
        × (length r.planned_actions ≡ 6)
        × (map as_asked r.planned_actions ≡ map as_asked six))
    × (5 < length six
        → build_automation_run env (request supervised none) six ≡ refused (too_many_actions 1 5))
build_automation_run_bounds_example = build_automation_run_bounds env (request supervised none) six

execute-flagged_example :
    execute env all_overrides none (flagged true supervised_run)
    ≡ flagged_result true (execute env all_overrides none supervised_run)
execute-flagged_example = execute-flagged env all_overrides none true supervised_run
