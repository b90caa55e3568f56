-- ===== src/Automation/Execute.antt =====
-- `AutomationRun.execute` and `resume` of src/proof_cli/automation.py. One turn of the loop is
-- `process`, and what it says to do next is an `Outcome`.
use proof_cli.Base.{
  or_text, ℕ, ◌+◌, String, Bool, true, false, ◌&&◌, Option, none, some, List, [], ◌∷◌, ◌++◌, leb,
  map, is_some, or_default, length, drop, if◌then◌else◌,
}
use proof_cli.Automation.Types.{
  PolicyDecision, allow, requires_review, deny, simulate, ActionStatus, RunStatus, TraceKind,
  checked, decided, executed, Action, Run, Env,
}
use proof_cli.Automation.Policy.{decide_action, is_dry}
use proof_cli.Automation.Run.{
  no_marks, mark, entry, append_trace, replace_action, Refusal, action_not_found, Result, ok,
  refused, start, find_action, approve_found, interrupt, record_executed_action,
}

-- A value of the `approvals` mapping: a Boolean, or any other value by its text.
pub data Override : Type 0 where
  flag : Bool → Override
  named : String → Override

abbrev pub Overrides : Type 0
Overrides = ℕ → Option Override

abbrev pub reviewer_name : Override → String
reviewer_name (flag b) = "human"
reviewer_name (named s) = s

pub data Outcome : Type 0 where
  stop : Run → Outcome
  go : Run → Outcome
  fail : Refusal → Outcome

abbrev pub is_review : PolicyDecision → Bool
is_review requires_review = true
is_review _ = false

-- The policy's answer, the run's own demand for approval, and an approval already given.
unfoldable pub effective_decision : Run → Action → PolicyDecision
effective_decision current action =
    let decision =
      decide_action current.policy_profile action.action_type action.risk_level action.reversible
        (some current.execution_mode) in
    let demanded = if current.approval_required then requires_review else decision in
    if is_some action.approval_id && is_review demanded then allow else demanded

unfoldable pub reject_action : Env → Action → Run → Run
unfolding mark replace_action
reject_action e action current =
    let updated = mark e action (record no_marks {
      status = some ActionStatus.rejected;
      policy_decision = some deny;
      requires_review = some true;
      review_notes = some "blocked by policy";
    }) in
    let current' = replace_action e updated current in
    record current' {
      status = RunStatus.rejected;
      trace =
          current'.trace ++ entry e TraceKind.action_rejected (some action.id) (decided deny) ∷ [];
      updated_at = e.now;
    }

abbrev pub marked_done : Env → ActionStatus → PolicyDecision → String → Action → Action
marked_done e status decision summary action = mark e action (record no_marks {
  status = some status;
  policy_decision = some decision;
  requires_review = some (is_review decision);
  result_summary = some summary;
})

-- Replace the action, record it as executed and trace it: the end of a turn that goes on.
unfoldable pub record_done : Env → TraceKind → PolicyDecision → Action → Run → Run
unfolding replace_action record_executed_action
record_done e kind decision updated current =
    let current' = record_executed_action e updated (replace_action e updated current) in
    record current' {
      trace = current'.trace ++ entry e kind (some updated.id) (decided decision) ∷ [];
      updated_at = e.now;
    }

unfoldable pub simulate_action : Env → PolicyDecision → Action → Run → Run
unfolding mark record_done
simulate_action e decision action current =
    record_done e TraceKind.action_simulated decision
      (marked_done e ActionStatus.simulated decision "simulated without side effects" action)
      current

unfoldable pub complete_action : Env → PolicyDecision → Action → Run → Run
unfolding mark record_done
complete_action e decision action current =
    record_done e TraceKind.action_completed decision
      (marked_done e ActionStatus.completed decision
        (or_text action.result_summary "completed bounded automation step") action)
      current

unfoldable pub await_review : Env → Action → Run → Run
unfolding mark replace_action
await_review e action current =
    let updated = mark e action (record no_marks {
      status = some ActionStatus.awaiting_approval;
      policy_decision = some requires_review;
      requires_review = some true;
    }) in
    let current' = replace_action e updated current in
    record current' {
      status = RunStatus.waiting_for_review;
      next_action_index = action.sequence_index;
      trace =
          current'.trace
          ++ entry e TraceKind.action_waiting_for_review (some action.id) (decided requires_review)
            ∷ [];
      updated_at = e.now;
    }

-- `next(item for item in current.planned_actions if item.id == action.id)`, then the completion.
abbrev pub complete_approved : Env → ℕ → Run → Outcome
complete_approved e action_id current = elim (find_action action_id current.planned_actions) [
  | none ↦ fail (action_not_found action_id)
  | some action ↦ go (complete_action e requires_review action current)
]

unfoldable pub pre_approve : Env → String → Action → Run → Outcome
unfolding complete_action
pre_approve e reviewer action current = elim (find_action action.id current.planned_actions) [
  | none ↦ fail (action_not_found action.id)
  | some found ↦
      complete_approved e action.id
        (approve_found e action.id reviewer "pre-approved" found current)
]

abbrev pub review_action : Env → Option Override → Action → Run → Outcome
review_action e none action current = stop (await_review e action current)
review_action e (some override) action current =
    pre_approve e (reviewer_name override) action current

-- What the turn does on each decision. A dry run simulates whatever is not denied.
unfoldable pub carry_out : Env → Overrides → PolicyDecision → Action → Run → Outcome
carry_out e overrides deny action current = stop (reject_action e action current)
carry_out e overrides simulate action current = go (simulate_action e simulate action current)
carry_out e overrides requires_review action current =
    if is_dry current.execution_mode
    then go (simulate_action e requires_review action current)
    else review_action e (overrides action.id) action current
carry_out e overrides allow action current =
    if is_dry current.execution_mode
    then go (simulate_action e allow action current)
    else go (complete_action e allow action current)

unfoldable pub process : Env → Overrides → Action → Run → Outcome
process e overrides action current =
    let decision = effective_decision current action in
    carry_out e overrides decision action (
      append_trace e TraceKind.policy_checked (some action.id)
        (checked action.action_type action.risk_level decision) current)

unfoldable pub finish : Env → Run → Run
finish e current = record current {
  status = RunStatus.completed;
  completed_at = some (or_default current.completed_at e.now);
  next_action_index = length current.planned_actions;
  result_summary = or_text current.result_summary "bounded automation completed";
  trace =
      current.trace
      ++ entry e TraceKind.run_completed none (executed (map (λ a. a.id) current.executed_actions))
        ∷ [];
  updated_at = e.now;
}

abbrev pub reached : Option ℕ → ℕ → Bool
reached none processed = false
reached (some limit) processed = leb limit processed

-- The `for` loop, over the actions as they stood when the call began.
unfoldable pub loop : Env → Overrides → Option ℕ → List Action → ℕ → Run → Result
loop e overrides interrupt_after [] processed current = ok (finish e current)
loop e overrides interrupt_after (action ∷ actions) processed current =
    if reached interrupt_after processed
    then ok (interrupt e "interrupt requested" "system" (some action.sequence_index) current)
    else elim (process e overrides action current) [
      | stop r ↦ ok r
      | go r ↦ loop e overrides interrupt_after actions (processed + 1) r
      | fail x ↦ refused x
    ]

abbrev pub is_terminal : RunStatus → Bool
is_terminal RunStatus.completed = true
is_terminal RunStatus.rejected = true
is_terminal RunStatus.rolled_back = true
is_terminal _ = false

unfoldable pub execute : Env → Overrides → Option ℕ → Run → Result
unfolding start
execute e overrides interrupt_after r =
    let run = start e r in
    if is_terminal run.status
    then ok run
    else loop e overrides interrupt_after (drop run.next_action_index run.planned_actions) 0 run

abbrev pub is_resumable : RunStatus → Bool
is_resumable RunStatus.interrupted = true
is_resumable RunStatus.waiting_for_review = true
is_resumable _ = false

unfoldable pub resume : Env → Overrides → Option ℕ → Run → Result
unfolding execute
resume e overrides interrupt_after r =
    if is_resumable r.status then execute e overrides interrupt_after r else ok r
