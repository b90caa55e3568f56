-- ===== src/Automation/Policy.antt =====
-- `AutomationPolicyProfile.decide` of src/proof_cli/automation.py.
pub mod Decisions
use proof_cli.Base.{
  Bool, true, false, not, ◌&&◌, decide, Option, List, [], ◌∷◌, any, or_default, if◌then◌else◌,
}
use proof_cli.Automation.Types.{
  ExecutionMode, dry_run, approval_required, RiskLevel, high, trust_sensitive, ActionType,
  PolicyDecision, allow, requires_review, deny, simulate, PolicyProfile,
}

pub ActionType-discrete : Discrete ActionType
ActionType-discrete = hlevel

-- `action_type in actions`
unfoldable pub listed : List ActionType → ActionType → Bool
unfolding ActionType-discrete
listed actions a = any (λ x. decide (ActionType-discrete x a)) actions

abbrev pub is_dry : ExecutionMode → Bool
is_dry dry_run = true
is_dry _ = false

abbrev pub asks_approval : ExecutionMode → Bool
asks_approval approval_required = true
asks_approval _ = false

abbrev pub is_risky : RiskLevel → Bool
is_risky high = true
is_risky trust_sensitive = true
is_risky _ = false

abbrev pub nonempty {ℓ} : {A : Type ℓ} → List A → Bool
nonempty [] = false
nonempty (x ∷ xs) = true

unfoldable pub decide_action :
    PolicyProfile → ActionType → RiskLevel → Bool → Option ExecutionMode → PolicyDecision
decide_action p action_type risk_level reversible execution_mode =
    let mode = or_default execution_mode p.execution_mode in
    if listed p.forbidden_actions action_type
    then deny
    else if is_dry mode
    then simulate
    else if nonempty p.allowed_actions && not (listed p.allowed_actions action_type)
    then deny
    else if p.allow_reversible_only && not reversible
    then requires_review
    else if asks_approval mode
    then requires_review
    else if listed p.approval_required_for action_type
    then requires_review
    else if is_risky risk_level
    then requires_review
    else allow
