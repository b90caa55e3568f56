-- ===== src/Automation/Override.antt =====
-- What the approvals handed to `execute` can do: an entry approves, whatever its value, and a run
-- that demands approval by itself does not ask the policy.
use mathlib.Core.List.{map-append}
use proof_cli.Automation.Find.{ids, find_action-eq_some, find_action-id, find_action-replace_in}
use proof_cli.Base.{
  drop, ap, ◌∙◌, length, contains, ◌+◌, ℕ, String, ◌≡◌, refl, true, Option, some, none, List, [],
  ◌∷◌, ◌++◌, arith, if◌then◌else◌, Bool-cases, inl, inr,
}
use proof_cli.Automation.Types.{
  supervised, TraceKind, checked, PolicyDecision, allow, simulate, requires_review, deny, Action,
  Run, Env,
}
use proof_cli.Automation.Policy.{is_dry, decide_action}
use proof_cli.Automation.Run.{Result, start, ok, refused, append_trace, approve_found, approved_as}
use proof_cli.Automation.Execute.{
  is_terminal, stop, go, fail, complete_action, reviewer_name, review_action, complete_approved,
  reached, Override, Overrides, process, effective_decision, carry_out, pre_approve, execute, loop,
  Outcome,
}

-- The policy denies the action, and the run demands approval by itself.
pub record IsDeniedOnDemand (action : Action) (r : Run) : Type 0 where
  pub demanded : r.approval_required ≡ true
  pub unapproved : action.approval_id ≡ none
  pub denied :
      decide_action r.policy_profile action.action_type action.risk_level action.reversible
        (some r.execution_mode)
      ≡ deny

-- In a run that demands approval, an action that the policy denies is not rejected: its decision
-- is that it needs a review.
pub effective_decision-IsDeniedOnDemand :
    (action : Action) (r : Run)
    → IsDeniedOnDemand action r
    → effective_decision r action ≡ requires_review
unfolding effective_decision
effective_decision-IsDeniedOnDemand action r h = ground (arith, h.demanded, h.unapproved)

pre_approve_found :
    (e : Env) (name : String) (action : Action) (r : Run)
    → contains (ids r.planned_actions) action.id ≡ true
    → (s : Run) × (pre_approve e name action r ≡ go s)
      × (ids s.executed_actions ≡ ids r.executed_actions ++ action.id ∷ [])
unfolding pre_approve approve_found complete_action
pre_approve_found e name action r known =
    let (a, found) = find_action-eq_some action.id r.planned_actions known in
    let named = find_action-id action.id r.planned_actions a found in
    let approved = approved_as e (e.fresh (length r.approvals)) name "pre-approved" a in
    let again = find_action-replace_in action.id approved r.planned_actions named known in
    (
      complete_action e requires_review approved
          (approve_found e action.id name "pre-approved" a r),
      rw (found, pre_approve) (rw (again, complete_approved)),
      map-append (λ (x : Action). x.id) r.executed_actions _
          ∙ ap (λ i. ids r.executed_actions ++ i ∷ []) named,
    )

-- In a supervised run that demands approval, a turn for a planned action that the policy denies
-- and that carries no approval executes it and goes on, if the approvals have any entry for it.
pub denied_executes :
    (e : Env) (overrides : Overrides) (override : Override) (action : Action) (r : Run)
    → IsDeniedOnDemand action r
    → r.execution_mode ≡ supervised
    → contains (ids r.planned_actions) action.id ≡ true
    → overrides action.id ≡ some override
    → (s : Run) × (process e overrides action r ≡ go s)
      × (ids s.executed_actions ≡ ids r.executed_actions ++ action.id ∷ [])
unfolding process carry_out append_trace
denied_executes e overrides override action r h mode known entry =
    let decision = effective_decision-IsDeniedOnDemand action r h in
    let checked_run =
      append_trace e TraceKind.policy_checked (some action.id)
        (checked action.action_type action.risk_level (effective_decision r action)) r in
    let (s, runs, done) = pre_approve_found e (reviewer_name override) action checked_run known in
    (s, ground (arith, decision, mode, entry, runs), done)

-- Who approves by an entry of the mapping.
abbrev pub approver : Option Override → Option String
approver none = none
approver (some override) = some (reviewer_name override)

module _ (e : Env) (overrides overrides' : Overrides)
    (alike : (i : ℕ) → approver (overrides i) ≡ approver (overrides' i)) where
  review_action-alike :
      (o o' : Option Override) (action : Action) (r : Run)
      → approver o ≡ approver o'
      → review_action e o action r ≡ review_action e o' action r
  unfolding pre_approve
  review_action-alike none none action r h = refl
  review_action-alike none (some o') action r h = cc
  review_action-alike (some o) none action r h = cc
  review_action-alike (some o) (some o') action r h =
      let same : reviewer_name o ≡ reviewer_name o' = cc in
      ap (λ name. pre_approve e name action r) same

  carry_out-alike :
      (d : PolicyDecision) (action : Action) (r : Run)
      → carry_out e overrides d action r ≡ carry_out e overrides' d action r
  unfolding carry_out
  carry_out-alike allow action r = refl
  carry_out-alike deny action r = refl
  carry_out-alike simulate action r = refl
  carry_out-alike requires_review action r = elim (Bool-cases (is_dry r.execution_mode)) [
    | inl dry ↦ rw dry
    | inr wet ↦ rw wet (
        review_action-alike (overrides action.id) (overrides' action.id) action r (alike action.id))
  ]

  process-alike :
      (action : Action) (r : Run) → process e overrides action r ≡ process e overrides' action r
  unfolding process
  process-alike action r = carry_out-alike (effective_decision r action) action _

  loop-alike :
      (limit : Option ℕ) (actions : List Action) (n : ℕ) (r : Run)
      → loop e overrides limit actions n r ≡ loop e overrides' limit actions n r
  unfolding loop
  loop-alike limit [] n r = refl
  loop-alike limit (a ∷ actions) n r = elim (Bool-cases (reached limit n)) [
    | inl stops ↦ rw stops
    | inr goes ↦
        rw (goes, process-alike a r)
          (turn (process e overrides' a r) (λ m s. loop-alike limit actions m s))
  ]
    where
      turn :
          (o : Outcome)
          → ((m : ℕ) (s : Run)
              → loop e overrides limit actions m s ≡ loop e overrides' limit actions m s)
          → ◌≡◌ {A = Result}
              (elim o [
                | stop s ↦ ok s
                | go s ↦ loop e overrides limit actions (n + 1) s
                | fail x ↦ refused x
              ])
              (elim o [
                | stop s ↦ ok s
                | go s ↦ loop e overrides' limit actions (n + 1) s
                | fail x ↦ refused x
              ])
      turn (stop s) rest = refl
      turn (go s) rest = rest (n + 1) s
      turn (fail x) rest = refl

-- `execute` returns the same with two approval mappings that have entries for the same actions,
-- naming the same reviewers, whether a Boolean entry is `True` or `False`.
pub execute-alike :
    (e : Env) (overrides overrides' : Overrides) (limit : Option ℕ) (r : Run)
    → ((i : ℕ) → approver (overrides i) ≡ approver (overrides' i))
    → execute e overrides limit r ≡ execute e overrides' limit r
unfolding execute
execute-alike e overrides overrides' limit r alike =
    let s = start e r in
    ap (λ x. if is_terminal s.status then ok s else x)
      (loop-alike e overrides overrides' alike limit (drop s.next_action_index s.planned_actions) 0
        s)
