-- ===== src/Automation/Consent.antt =====
-- What needs a review is completed only under a recorded approval.
use proof_cli.Base.{
  String, length, ℕ, ◌≡◌, refl, Bool, true, false, not, ◌&&◌, Option, some, none, All, All-snoc,
  All-every, ◌||◌, if◌then◌else◌, sym, subst, ◌∙◌, arith, Bool-cases, inl, inr, is_some,
}
use proof_cli.Automation.Types.{
  PolicyProfile, ExecutionMode, PolicyDecision, allow, requires_review, deny, simulate,
  ActionStatus, Action, Run, Env,
}
use proof_cli.Automation.Policy.{is_dry, decide_action}
use proof_cli.Automation.Run.{
  is_planned, start, interrupt, append_trace, find_action, approve_found, approved_as,
}
use proof_cli.Automation.Execute.{
  Override, reviewer_name, is_review, Overrides, process, effective_decision, carry_out,
  review_action, pre_approve, complete_action, reject_action, simulate_action, await_review, finish,
  execute,
}
use proof_cli.Automation.Keeps.{OnOutcome, Rule, execute-OnOk}
use proof_cli.Automation.Total.{Returns, execute-Returns}
use proof_cli.Automation.Find.{find_action-replace_in, find_action-id, contains-find_action}

abbrev pub is_completed : ActionStatus → Bool
is_completed ActionStatus.completed = true
is_completed _ = false

-- What the policy, the mode of the run and its own demand ask of an action.
abbrev pub needs_review : PolicyProfile → ExecutionMode → Bool → Action → Bool
needs_review p m demands a =
    demands || is_review (decide_action p a.action_type a.risk_level a.reversible (some m))

-- The action needs a review, and was completed without an approval.
abbrev pub lacks_approval : PolicyProfile → ExecutionMode → Bool → Action → Bool
lacks_approval p m demands a =
    is_completed a.status && needs_review p m demands a && not (is_some a.approval_id)

pub record IsConsented (p : PolicyProfile) (m : ExecutionMode) (demands : Bool) (r : Run)
    : Type 0 where
  pub profile : r.policy_profile ≡ p
  pub mode : r.execution_mode ≡ m
  pub demanded : r.approval_required ≡ demands
  pub consented : All (λ a. lacks_approval p m demands a ≡ false) r.executed_actions

allowed :
    (demands : Bool) (decision : PolicyDecision) (approved : Bool)
    → (if approved && is_review (if demands then requires_review else decision)
        then allow
        else if demands
        then requires_review
        else decision)
      ≡ allow
    → (demands || is_review decision) && not approved ≡ false
allowed true decision true h = refl
allowed true decision false h = cc
allowed false requires_review true h = refl
allowed false requires_review false h = cc
allowed false allow approved h = refl
allowed false deny approved h = refl
allowed false simulate approved h = refl

approved_passes : (b : Bool) → b && not true ≡ false
approved_passes b = ground arith

module _ (e : Env) (overrides : Overrides) {p : PolicyProfile} {m : ExecutionMode}
    {demands : Bool} where
  simulate_action-IsConsented :
      (decision : PolicyDecision) (action : Action) (r : Run)
      → IsConsented p m demands r
      → IsConsented p m demands (simulate_action e decision action r)
  unfolding simulate_action
  simulate_action-IsConsented decision action r h = record {
    profile = h.profile;
    mode = h.mode;
    demanded = h.demanded;
    consented =
        All-snoc (λ a. lacks_approval p m demands a ≡ false) r.executed_actions _ h.consented refl;
  }

  complete_action-IsConsented :
      (decision : PolicyDecision) (action : Action) (r : Run)
      → needs_review p m demands action && not (is_some action.approval_id) ≡ false
      → IsConsented p m demands r
      → IsConsented p m demands (complete_action e decision action r)
  unfolding complete_action
  complete_action-IsConsented decision action r fine h = record {
    profile = h.profile;
    mode = h.mode;
    demanded = h.demanded;
    consented =
        All-snoc (λ a. lacks_approval p m demands a ≡ false) r.executed_actions _ h.consented fine;
  }

  stays :
      {r s : Run}
      → s.policy_profile ≡ r.policy_profile
      → s.execution_mode ≡ r.execution_mode
      → s.approval_required ≡ r.approval_required
      → s.executed_actions ≡ r.executed_actions
      → IsConsented p m demands r
      → IsConsented p m demands s
  stays a b c d h = record {
    profile = a ∙ h.profile;
    mode = b ∙ h.mode;
    demanded = c ∙ h.demanded;
    consented = subst (All (λ x. lacks_approval p m demands x ≡ false)) (sym d) h.consented;
  }

  -- A decision to allow is taken on an approval, or because no review is needed.
  effective_decision-allow :
      (action : Action) (r : Run)
      → IsConsented p m demands r
      → effective_decision r action ≡ allow
      → needs_review p m demands action && not (is_some action.approval_id) ≡ false
  unfolding effective_decision
  effective_decision-allow action r h e =
      rw⁻¹ (h.profile, h.mode, h.demanded)
        (allowed r.approval_required
          (decide_action r.policy_profile action.action_type action.risk_level action.reversible
            (some r.execution_mode))
          (is_some action.approval_id) e)

  pre_approve-IsConsented :
      (name : String) (action : Action) (r : Run)
      → IsConsented p m demands r
      → OnOutcome (IsConsented p m demands) (pre_approve e name action r)
  unfolding pre_approve approve_found
  pre_approve-IsConsented name action r h = go (find_action action.id r.planned_actions) refl
    where
      go :
          (f : Option Action)
          → find_action action.id r.planned_actions ≡ f
          → OnOutcome (IsConsented p m demands) (pre_approve e name action r)
      go none eq = rw (eq, OnOutcome) tt
      go (some found) eq =
          let named = find_action-id action.id r.planned_actions found eq in
          let approved = approved_as e (e.fresh (length r.approvals)) name "pre-approved" found in
          rw (eq, OnOutcome)
            (rw
              (
                find_action-replace_in action.id approved r.planned_actions named
                    (contains-find_action action.id r.planned_actions found eq),
                OnOutcome,
              )
              (complete_action-IsConsented requires_review approved
                (approve_found e action.id name "pre-approved" found r) (approved_passes _)
                (stays refl refl refl refl h)))

  carry_out-IsConsented :
      (decision : PolicyDecision) (action : Action) (r : Run)
      → (decision ≡ allow
          → needs_review p m demands action && not (is_some action.approval_id) ≡ false)
      → IsConsented p m demands r
      → OnOutcome (IsConsented p m demands) (carry_out e overrides decision action r)
  unfolding carry_out reject_action await_review
  carry_out-IsConsented deny action r fine h = stays refl refl refl refl h
  carry_out-IsConsented simulate action r fine h = simulate_action-IsConsented simulate action r h
  carry_out-IsConsented allow action r fine h = elim (Bool-cases (is_dry r.execution_mode)) [
    | inl dry ↦ rw dry (simulate_action-IsConsented allow action r h)
    | inr wet ↦ rw wet (complete_action-IsConsented allow action r (fine refl) h)
  ]
  carry_out-IsConsented requires_review action r fine h =
      elim (Bool-cases (is_dry r.execution_mode)) [
        | inl dry ↦ rw dry (simulate_action-IsConsented requires_review action r h)
        | inr wet ↦ rw wet (review (overrides action.id))
      ]
    where
      review :
          (o : Option Override) → OnOutcome (IsConsented p m demands) (review_action e o action r)
      review none = stays refl refl refl refl h
      review (some o) = pre_approve-IsConsented (reviewer_name o) action r h

  IsConsented-Rule : Rule e overrides (λ _. Unit {0}) (IsConsented p m demands)
  unfolding process append_trace finish interrupt start
  IsConsented-Rule = record {
    at_process = λ action r _ h.
        carry_out-IsConsented (effective_decision r action) action _
          (effective_decision-allow action r h) (stays refl refl refl refl h);
    at_finish = λ r h. stays refl refl refl refl h;
    at_interrupt = λ reason by action r _ h. stays refl refl refl refl h;
    at_start = λ r h. elim (Bool-cases (is_planned r.status)) [
      | inl fresh ↦ rw fresh (stays refl refl refl refl h)
      | inr later ↦ rw later h
    ];
  }

-- An action needs a review if the run demands approval, or if its policy decides so in the run's
-- mode. If no executed action of a run that needs a review was completed without an approval,
-- `execute` returns a run of which the same is true, with the same policy, mode and demand.
pub execute-IsConsented :
    (p : PolicyProfile) (m : ExecutionMode) (demands : Bool) (e : Env) (overrides : Overrides)
    (limit : Option ℕ) (r : Run)
    → IsConsented p m demands r
    → Returns (IsConsented p m demands) (execute e overrides limit r)
execute-IsConsented p m demands e overrides limit r h =
    execute-Returns (IsConsented p m demands) e overrides limit r
      (execute-OnOk (IsConsented-Rule e overrides) limit r (All-every (λ _. Unit) _ (λ _. tt)) h)
