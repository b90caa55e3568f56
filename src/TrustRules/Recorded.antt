-- ===== src/TrustRules/Recorded.antt =====
-- How a decision on a Trust rule is checked in proof_cli/trust_rules.py, and the line that records it.
use proof_cli.Base.{
  ℕ, String, Bool, true, false, not, Option, none, some, List, [], ◌∷◌, if◌then◌else◌,
}
use proof_cli.TrustRules.Conditions.{Condition, Item, validate_all, dump_all}
use proof_cli.TrustRules.Folded.{Decision, declare, amend, retire, unknown, Entry, Rule, find_rule}

-- What is read of the surroundings: whether a folder stands where the file goes, which names are
-- plain tokens, and which texts are blank.
pub record Surroundings : Type 0 where
  pub file_is_folder : Bool
  pub is_safe_name : ℕ → Bool
  pub is_blank : String → Bool

pub data TrustRuleError : Type 0 where
  invalid_decision file_blocked rationale_required invalid_condition empty : TrustRuleError
  invalid_name name_taken not_found already_retired : ℕ → TrustRuleError

pub data Checked : Type 0 where
  accepted : List Condition → Checked
  refused : TrustRuleError → Checked

abbrev pub resolve : Option (List Condition) → Checked
resolve none = refused invalid_condition
resolve (some []) = refused empty
resolve (some (c ∷ cs)) = accepted (c ∷ cs)

abbrev pub check_against : ℕ → Decision → List Item → Option Rule → Checked
check_against name unknown items existing = refused invalid_decision
check_against name declare items none = resolve (validate_all items)
check_against name declare items (some r) = refused (name_taken name)
check_against name amend items none = refused (not_found name)
check_against name amend items (some r) =
    if r.retired then refused (already_retired name) else resolve (validate_all items)
check_against name retire items none = refused (not_found name)
check_against name retire items (some r) =
    if r.retired then refused (already_retired name) else accepted []

abbrev pub is_decision : Decision → Bool
is_decision unknown = false
is_decision _ = true

unfoldable pub check_rule_decision :
    Surroundings → List Rule → ℕ → Decision → List Item → String → Checked
unfolding find_rule validate_all
check_rule_decision u rules name decision items rationale =
    if not (is_decision decision)
    then refused invalid_decision
    else if u.file_is_folder
    then refused file_blocked
    else if not (u.is_safe_name name)
    then refused (invalid_name name)
    else if u.is_blank rationale
    then refused rationale_required
    else check_against name decision items (find_rule name rules)

-- The line that records a decision.
abbrev pub entry_of : ℕ → Decision → List Condition → ℕ → String → ℕ → Entry
entry_of name decision conditions reviewer rationale now = record {
  is_trust_rule = true;
  name = name;
  decision = decision;
  reviewer = reviewer;
  rationale = rationale;
  decided_at = now;
  conditions = some (dump_all conditions);
}
