-- ===== src/Automation/Policy/Decisions.antt =====
-- When the policy of src/proof_cli/automation.py allows an action.
use mathlib.Core.Logic.{◌↔◌}
use proof_cli.Base.{◌≡◌, Bool, true, false, some, [], ◌⊎◌, arith}
use proof_cli.Automation.Types.{
  ExecutionMode, supervised, RiskLevel, low, medium, ActionType, allow, deny, PolicyProfile,
}
use proof_cli.Automation.Policy.{decide_action, listed, nonempty, is_dry}

-- Everything that an action needs to be carried out without a review.
pub record IsFree (p : PolicyProfile) (t : ActionType) (k : RiskLevel) (reversible : Bool)
    (mode : ExecutionMode) : Type 0 where
  pub not_forbidden : listed p.forbidden_actions t ≡ false
  pub known : (p.allowed_actions ≡ []) ⊎ (listed p.allowed_actions t ≡ true)
  pub can_undo : (p.allow_reversible_only ≡ false) ⊎ (reversible ≡ true)
  pub in_supervision : mode ≡ supervised
  pub no_approval : listed p.approval_required_for t ≡ false
  pub low_risk : (k ≡ low) ⊎ (k ≡ medium)

-- The policy allows an action exactly when it is not forbidden, is listed where a list of allowed
-- actions is given, is reversible where only such are wanted, the mode is supervised, no approval
-- is required for its type and its risk is low or medium.
pub decide_action-allow :
    (p : PolicyProfile) (t : ActionType) (k : RiskLevel) (reversible : Bool) (mode : ExecutionMode)
    → (decide_action p t k reversible (some mode) ≡ allow) ↔ IsFree p t k reversible mode
unfolding decide_action
decide_action-allow p t k reversible mode = (λ h. ground arith, λ h. ground arith)

-- The policy denies an action exactly when it is forbidden, or the run is no dry run and there is
-- a list of allowed actions without it.
pub decide_action-deny :
    (p : PolicyProfile) (t : ActionType) (k : RiskLevel) (reversible : Bool) (mode : ExecutionMode)
    → (decide_action p t k reversible (some mode) ≡ deny) ↔ (
        (listed p.forbidden_actions t ≡ true)
        ⊎ ((is_dry mode ≡ false)
            × (nonempty p.allowed_actions ≡ true)
            × (listed p.allowed_actions t ≡ false)))
unfolding decide_action
decide_action-deny p t k reversible mode = (λ h. ground arith, λ h. ground arith)
