-- ===== src/Automation/Forbidden.antt =====
-- What the policy forbids is not executed, as long as the run does not demand approval by itself.
use proof_cli.Base.{
  ℕ, String, ◌≡◌, ◌≢◌, refl, ap, sym, ◌∙◌, Bool, true, false, Option, some, none, All, All-snoc,
  arith, Bool-cases, inl, inr,
}
use proof_cli.Automation.Types.{
  ActionType, ExecutionMode, RiskLevel, PolicyProfile, TraceKind, checked, PolicyDecision, allow,
  requires_review, deny, simulate, Action, Run, Env,
}
use proof_cli.Automation.Policy.{is_dry, listed, decide_action}
use proof_cli.Automation.Run.{
  start, interrupt, append_trace, find_action, approve_found, replace_action,
}
use proof_cli.Automation.Execute.{
  Override, reviewer_name, Overrides, process, effective_decision, carry_out, review_action,
  pre_approve, complete_approved, complete_action, reject_action, simulate_action, await_review,
  finish, execute,
}
use proof_cli.Automation.Keeps.{OnOutcome, Rule, execute-OnOk}
use proof_cli.Automation.Total.{Returns, execute-Returns}
use proof_cli.Automation.Find.{find_action-id, All-find_action, All-replace_in}

-- The ids of the plan determine the types: no two planned actions with one id differ in type.
abbrev pub IsTyped : (ℕ → ActionType) → Action → Type 0
IsTyped type_of a = a.action_type ≡ type_of a.id

abbrev pub IsPermitted : PolicyProfile → Action → Type 0
IsPermitted p a = listed p.forbidden_actions a.action_type ≡ false

pub record Obeys (type_of : ℕ → ActionType) (p : PolicyProfile) (r : Run) : Type 0 where
  pub profile : r.policy_profile ≡ p
  pub not_demanded : r.approval_required ≡ false
  pub typed : All (IsTyped type_of) r.planned_actions
  pub permitted : All (IsPermitted p) r.executed_actions

-- The policy denies what it forbids, whatever the rest of the question.
decide_action-forbidden :
    (p : PolicyProfile) (t : ActionType) (k : RiskLevel) (rev : Bool) (m : Option ExecutionMode)
    → listed p.forbidden_actions t ≡ true
    → decide_action p t k rev m ≡ deny
unfolding decide_action
decide_action-forbidden p t k rev m h = rw h

module _ (e : Env) (overrides : Overrides) {type_of : ℕ → ActionType} {p : PolicyProfile} where
  simulate_action-Obeys :
      (decision : PolicyDecision) (action : Action) (r : Run)
      → IsTyped type_of action
      → IsPermitted p action
      → Obeys type_of p r
      → Obeys type_of p (simulate_action e decision action r)
  unfolding simulate_action
  simulate_action-Obeys decision action r t fine h = record {
    profile = h.profile;
    not_demanded = h.not_demanded;
    typed = All-replace_in (IsTyped type_of) _ r.planned_actions t h.typed;
    permitted = All-snoc (IsPermitted p) r.executed_actions _ h.permitted fine;
  }

  complete_action-Obeys :
      (decision : PolicyDecision) (action : Action) (r : Run)
      → IsTyped type_of action
      → IsPermitted p action
      → Obeys type_of p r
      → Obeys type_of p (complete_action e decision action r)
  unfolding complete_action
  complete_action-Obeys decision action r t fine h = record {
    profile = h.profile;
    not_demanded = h.not_demanded;
    typed = All-replace_in (IsTyped type_of) _ r.planned_actions t h.typed;
    permitted = All-snoc (IsPermitted p) r.executed_actions _ h.permitted fine;
  }

  marked-Obeys :
      (action : Action) (r : Run)
      → IsTyped type_of action
      → Obeys type_of p r
      → Obeys type_of p (replace_action e action r)
  unfolding replace_action
  marked-Obeys action r t h = record {
    profile = h.profile;
    not_demanded = h.not_demanded;
    typed = All-replace_in (IsTyped type_of) action r.planned_actions t h.typed;
    permitted = h.permitted;
  }

  approve_found-Obeys :
      (i : ℕ) (name notes : String) (a : Action) (r : Run)
      → IsTyped type_of a
      → Obeys type_of p r
      → Obeys type_of p (approve_found e i name notes a r)
  unfolding approve_found
  approve_found-Obeys i name notes a r t h = record {
    profile = h.profile;
    not_demanded = h.not_demanded;
    typed = All-replace_in (IsTyped type_of) _ r.planned_actions t h.typed;
    permitted = h.permitted;
  }

  complete_approved-Obeys :
      (i : ℕ) (r : Run)
      → listed p.forbidden_actions (type_of i) ≡ false
      → Obeys type_of p r
      → OnOutcome (Obeys type_of p) (complete_approved e i r)
  complete_approved-Obeys i r fine h = go (find_action i r.planned_actions) refl
    where
      go :
          (f : Option Action)
          → find_action i r.planned_actions ≡ f
          → OnOutcome (Obeys type_of p) (complete_approved e i r)
      go none eq = rw (eq, OnOutcome) tt
      go (some a) eq =
          let t = All-find_action (IsTyped type_of) i r.planned_actions a h.typed eq in
          let named = find_action-id i r.planned_actions a eq in
          let allowed = ap (listed p.forbidden_actions) (t ∙ ap type_of named) ∙ fine in
          rw (eq, OnOutcome) (complete_action-Obeys requires_review a r t allowed h)

  pre_approve-Obeys :
      (name : String) (action : Action) (r : Run)
      → listed p.forbidden_actions (type_of action.id) ≡ false
      → Obeys type_of p r
      → OnOutcome (Obeys type_of p) (pre_approve e name action r)
  unfolding pre_approve
  pre_approve-Obeys name action r fine h = go (find_action action.id r.planned_actions) refl
    where
      go :
          (f : Option Action)
          → find_action action.id r.planned_actions ≡ f
          → OnOutcome (Obeys type_of p) (pre_approve e name action r)
      go none eq = rw (eq, OnOutcome) tt
      go (some a) eq =
          let t = All-find_action (IsTyped type_of) action.id r.planned_actions a h.typed eq in
          rw (eq, OnOutcome)
            (complete_approved-Obeys action.id (approve_found e action.id name "pre-approved" a r)
              fine (approve_found-Obeys action.id name "pre-approved" a r t h))

  carry_out-Obeys :
      (d : PolicyDecision) (action : Action) (r : Run)
      → (d ≢ deny → IsPermitted p action)
      → IsTyped type_of action
      → Obeys type_of p r
      → OnOutcome (Obeys type_of p) (carry_out e overrides d action r)
  unfolding carry_out reject_action await_review
  carry_out-Obeys deny action r fine t h = record {
    profile = h.profile;
    not_demanded = h.not_demanded;
    typed = All-replace_in (IsTyped type_of) _ r.planned_actions t h.typed;
    permitted = h.permitted;
  }
  carry_out-Obeys simulate action r fine t h =
      simulate_action-Obeys simulate action r t (fine (λ q. cc)) h
  carry_out-Obeys allow action r fine t h = elim (Bool-cases (is_dry r.execution_mode)) [
    | inl dry ↦ rw dry (simulate_action-Obeys allow action r t (fine (λ q. cc)) h)
    | inr wet ↦ rw wet (complete_action-Obeys allow action r t (fine (λ q. cc)) h)
  ]
  carry_out-Obeys requires_review action r fine t h = elim (Bool-cases (is_dry r.execution_mode)) [
    | inl dry ↦ rw dry (simulate_action-Obeys requires_review action r t (fine (λ q. cc)) h)
    | inr wet ↦ rw wet (review (overrides action.id))
  ]
    where
      review : (o : Option Override) → OnOutcome (Obeys type_of p) (review_action e o action r)
      review none = record {
        profile = h.profile;
        not_demanded = h.not_demanded;
        typed = All-replace_in (IsTyped type_of) _ r.planned_actions t h.typed;
        permitted = h.permitted;
      }
      review (some o) =
          pre_approve-Obeys (reviewer_name o) action r
            (ap (listed p.forbidden_actions) (sym t) ∙ fine (λ q. cc)) h

  effective_decision-IsPermitted :
      (action : Action) (r : Run)
      → Obeys type_of p r
      → effective_decision r action ≢ deny
      → IsPermitted p action
  unfolding effective_decision
  effective_decision-IsPermitted action r h open_ =
      elim (Bool-cases (listed p.forbidden_actions action.action_type)) [
        | inr fine ↦ fine
        | inl forbidden ↦ absurd (
            open_ (
              ground (
                arith,
                h.profile,
                h.not_demanded,
                decide_action-forbidden r.policy_profile action.action_type action.risk_level
                    action.reversible (some r.execution_mode),
              )))
      ]

  -- Only the four fields matter.
  Obeys-of :
      {r s : Run}
      → s.policy_profile ≡ r.policy_profile
      → s.approval_required ≡ r.approval_required
      → s.planned_actions ≡ r.planned_actions
      → s.executed_actions ≡ r.executed_actions
      → Obeys type_of p r
      → Obeys type_of p s
  Obeys-of {r = r} {s} a b c d h = record {
    profile = a ∙ h.profile;
    not_demanded = b ∙ h.not_demanded;
    typed = rw c h.typed;
    permitted = rw d h.permitted;
  }

  process-Obeys :
      (action : Action) (r : Run)
      → IsTyped type_of action
      → Obeys type_of p r
      → OnOutcome (Obeys type_of p) (process e overrides action r)
  unfolding process append_trace
  process-Obeys action r t h =
      carry_out-Obeys (effective_decision r action) action
        (append_trace e TraceKind.policy_checked (some action.id)
          (checked action.action_type action.risk_level (effective_decision r action)) r)
        (effective_decision-IsPermitted action r h) t (Obeys-of {r = r} refl refl refl refl h)

  Obeys-Rule : Rule e overrides (IsTyped type_of) (Obeys type_of p)
  unfolding finish interrupt start
  Obeys-Rule = record {
    at_process = process-Obeys;
    at_finish = λ r h. Obeys-of {r = r} refl refl refl refl h;
    at_interrupt = λ reason by action r _ h. Obeys-of {r = r} refl refl refl refl h;
    at_start = λ r h. ground arith;
  }

-- If a run has executed nothing that its policy forbids, does not itself demand approval, and the
-- ids of its plan determine the types of its actions, `execute` returns a run with that policy of
-- which the same is true.
pub execute-Obeys :
    (e : Env) (overrides : Overrides) (limit : Option ℕ) (type_of : ℕ → ActionType) (r : Run)
    → Obeys type_of r.policy_profile r
    → Returns (Obeys type_of r.policy_profile) (execute e overrides limit r)
execute-Obeys e overrides limit type_of r h =
    execute-Returns (Obeys type_of r.policy_profile) e overrides limit r
      (execute-OnOk (Obeys-Rule e overrides) limit r (unfold start in ground (arith, h.typed)) h)
