-- ===== src/Automation/Run.antt =====
-- The methods of `AutomationAction` and `AutomationRun` in src/proof_cli/automation.py, but for the
-- loop of `execute`. A method returns the new run, or the refusal that it raises.
use proof_cli.Base.{
  ℕ, ◌+◌, String, Bool, true, false, Option, none, some, List, [], ◌∷◌, ◌++◌, leb, ◌==◌, or_default,
  length, contains, if◌then◌else◌,
}
use proof_cli.Automation.Types.{
  PolicyDecision, allow, ActionStatus, RunStatus, TraceKind, TracePayload, nothing, rationale,
  interruption, rolled, TraceEntry, Action, Run, Env,
}

-- The keyword arguments of `mark`; `none` is an argument left out.
pub record Marks : Type 0 where
  pub status : Option ActionStatus
  pub policy_decision : Option PolicyDecision
  pub requires_review : Option Bool
  pub reviewer : Option String
  pub approval_id : Option ℕ
  pub review_notes : Option String
  pub result_summary : Option String

abbrev pub no_marks : Marks
no_marks = record {
  status = none;
  policy_decision = none;
  requires_review = none;
  reviewer = none;
  approval_id = none;
  review_notes = none;
  result_summary = none;
}

abbrev pub first_some {ℓ} : {A : Type ℓ} → Option A → Option A → Option A
first_some (some a) b = some a
first_some none b = b

unfoldable pub mark : Env → Action → Marks → Action
mark e a m = record a {
  status = or_default m.status a.status;
  policy_decision = or_default m.policy_decision a.policy_decision;
  requires_review = or_default m.requires_review a.requires_review;
  reviewer = or_default m.reviewer a.reviewer;
  approval_id = first_some m.approval_id a.approval_id;
  review_notes = or_default m.review_notes a.review_notes;
  result_summary = or_default m.result_summary a.result_summary;
  updated_at = e.now;
}

abbrev pub entry : Env → TraceKind → Option ℕ → TracePayload → TraceEntry
entry e kind action_id payload = record {
  kind = kind;
  action_id = action_id;
  payload = payload;
  created_at = e.now;
}

-- `_append_trace`; every `_transition` stamps `updated_at`.
unfoldable pub append_trace : Env → TraceKind → Option ℕ → TracePayload → Run → Run
append_trace e kind action_id payload r = record r {
  trace = r.trace ++ entry e kind action_id payload ∷ [];
  updated_at = e.now;
}

abbrev pub replace_in : Action → List Action → List Action
replace_in action [] = []
replace_in action (x ∷ xs) = (if x.id == action.id then action else x) ∷ replace_in action xs

unfoldable pub replace_action : Env → Action → Run → Run
replace_action e action r = record r {
  planned_actions = replace_in action r.planned_actions;
  updated_at = e.now;
}

-- What the methods raise.
pub data Refusal : Type 0 where
  too_many_actions : (run_id max_actions : ℕ) → Refusal
  action_not_found : (action_id : ℕ) → Refusal

pub data Result : Type 0 where
  ok : Run → Result
  refused : Refusal → Result

infixl 5 ◌>>=◌
abbrev pub ◌>>=◌ : Result → (Run → Result) → Result
ok r >>= f = f r
refused x >>= f = refused x

unfoldable pub planned_as : Env → ℕ → Action → Action
unfolding mark
planned_as e index action =
    record (mark e action (record no_marks {
      status = some ActionStatus.planned;
      policy_decision = some allow;
      requires_review = some action.requires_review;
    })) { sequence_index = index }

unfoldable pub add_action : Env → Action → Run → Result
unfolding planned_as
add_action e action r =
    if leb r.max_actions (length r.planned_actions)
    then refused (too_many_actions r.id r.max_actions)
    else ok (record r {
      planned_actions = r.planned_actions ++ planned_as e (length r.planned_actions) action ∷ [];
      trace = r.trace ++ entry e TraceKind.action_planned (some action.id) nothing ∷ [];
      updated_at = e.now;
    })

unfoldable pub add_actions : Env → List Action → Run → Result
add_actions e [] r = ok r
add_actions e (action ∷ actions) r = do r' ← add_action e action r; add_actions e actions r'

abbrev pub is_planned : RunStatus → Bool
is_planned RunStatus.planned = true
is_planned _ = false

unfoldable pub start : Env → Run → Run
start e r =
    if is_planned r.status
    then record r {
      status = RunStatus.running;
      started_at = some (or_default r.started_at e.now);
      trace = r.trace ++ entry e TraceKind.run_started none nothing ∷ [];
      updated_at = e.now;
    }
    else r

-- `next((item for item in actions if item.id == action_id), None)`
abbrev pub find_action : ℕ → List Action → Option Action
find_action action_id [] = none
find_action action_id (x ∷ xs) = if x.id == action_id then some x else find_action action_id xs

abbrev pub approved_as : Env → ℕ → String → String → Action → Action
approved_as e approval_id reviewer notes action = mark e action (record no_marks {
  reviewer = some reviewer;
  approval_id = some approval_id;
  review_notes = some notes;
  requires_review = some false;
})

-- `approve_action` once the action is found. The id of the approval is the next fresh one.
unfoldable pub approve_found : Env → ℕ → String → String → Action → Run → Run
unfolding mark replace_action
approve_found e action_id reviewer notes action r =
    let approval_id = e.fresh (length r.approvals) in
    let run = replace_action e (approved_as e approval_id reviewer notes action) r in
    record run {
      approvals =
          r.approvals
          ++ record {
            id = approval_id;
            run_id = r.id;
            action_id = action_id;
            reviewer = reviewer;
            rationale = notes;
            approved = true;
            created_at = e.now;
          }
            ∷ [];
      trace =
          run.trace ++ entry e TraceKind.action_approved (some action_id) (rationale notes) ∷ [];
      updated_at = e.now;
    }

unfoldable pub approve_action : Env → ℕ → String → String → Run → Result
unfolding approve_found
approve_action e action_id reviewer notes r = elim (find_action action_id r.planned_actions) [
  | none ↦ refused (action_not_found action_id)
  | some action ↦ ok (approve_found e action_id reviewer notes action r)
]

unfoldable pub interrupt : Env → String → String → Option ℕ → Run → Run
interrupt e reason interrupted_by resume_from r =
    let index = or_default resume_from r.next_action_index in
    record r {
      status = RunStatus.interrupted;
      interruptions =
          r.interruptions
          ++ record {
            run_id = r.id;
            reason = reason;
            interrupted_by = interrupted_by;
            resume_from_action_index = index;
            created_at = e.now;
          }
            ∷ [];
      interrupted_at = some (or_default r.interrupted_at e.now);
      next_action_index = index;
      trace =
          r.trace
          ++ entry e TraceKind.run_interrupted none (interruption interrupted_by index) ∷ [];
      updated_at = e.now;
    }

abbrev pub rolled_back_in : Env → List ℕ → List Action → List Action
rolled_back_in e ids [] = []
rolled_back_in e ids (a ∷ actions) =
    (if contains ids a.id
      then mark e a (record no_marks { status = some ActionStatus.rolled_back })
      else a)
    ∷ rolled_back_in e ids actions

unfoldable pub rollback : Env → String → List ℕ → String → Run → Run
unfolding mark
rollback e reason action_ids rolled_back_by r = record r {
  status = RunStatus.rolled_back;
  planned_actions = rolled_back_in e action_ids r.planned_actions;
  rollbacks =
      r.rollbacks
      ++ record {
        run_id = r.id;
        reason = reason;
        action_ids = action_ids;
        rolled_back_by = rolled_back_by;
        created_at = e.now;
      }
        ∷ [];
  rolled_back_at = some (or_default r.rolled_back_at e.now);
  trace = r.trace ++ entry e TraceKind.run_rolled_back none (rolled rolled_back_by action_ids) ∷ [];
  updated_at = e.now;
}

unfoldable pub record_executed_action : Env → Action → Run → Run
record_executed_action e action r = record r {
  executed_actions = r.executed_actions ++ action ∷ [];
  next_action_index = action.sequence_index + 1;
  updated_at = e.now;
}
