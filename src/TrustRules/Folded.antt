-- ===== src/TrustRules/Folded.antt =====
-- The lines of the file of Trust rules in proof_cli/trust_rules.py, the rules, and `_fold`. Of a line
-- the number that orders it and its own id are left out. Names and reviewers are numbers.
use proof_cli.Base.{
  ℕ, String, Bool, true, false, Option, none, some, List, [], ◌∷◌, ◌++◌, ◌==◌, if◌then◌else◌,
}
use proof_cli.TrustRules.Conditions.{Condition, Item, validate_all}

-- Of a text that is no decision on a rule only that is kept.
pub data Decision : Type 0 where
  declare amend retire unknown : Decision

-- A line of trust-rules.jsonl: whether it is of the kind `trust_rule`, and its payload's conditions.
pub record Entry : Type 0 where
  pub is_trust_rule : Bool
  pub name : ℕ
  pub decision : Decision
  pub reviewer : ℕ
  pub rationale : String
  pub decided_at : ℕ
  pub conditions : Option (List Item)

pub record Rule : Type 0 where
  pub name : ℕ
  pub rationale : String
  pub conditions : List Condition
  pub declared_by : ℕ
  pub declared_at : ℕ
  pub changed_by : ℕ
  pub changed_at : ℕ
  pub retired : Bool

abbrev pub read_payload : Decision → List Item → Option (List Condition)
read_payload unknown items = none
read_payload retire items = some []
read_payload declare items = validate_all items
read_payload amend items = validate_all items

abbrev pub read_conditions : Decision → Option (List Item) → Option (List Condition)
read_conditions decision none = none
read_conditions decision (some items) = read_payload decision items

-- `_readable`
unfoldable pub readable : Entry → Option (List Condition)
unfolding validate_all
readable e = if e.is_trust_rule then read_conditions e.decision e.conditions else none

unfoldable pub find_rule : ℕ → List Rule → Option Rule
find_rule name [] = none
find_rule name (r ∷ rules) = if r.name == name then some r else find_rule name rules

-- `rules[name] = rule` for a name that is there.
unfoldable pub replace_rule : Rule → List Rule → List Rule
replace_rule rule [] = []
replace_rule rule (r ∷ rules) = (if r.name == rule.name then rule else r) ∷ replace_rule rule rules

abbrev pub declared : Entry → List Condition → Rule
declared e conditions = record {
  name = e.name;
  rationale = e.rationale;
  conditions = conditions;
  declared_by = e.reviewer;
  declared_at = e.decided_at;
  changed_by = e.reviewer;
  changed_at = e.decided_at;
  retired = false;
}

abbrev pub amended : Entry → List Condition → Rule → Rule
amended e conditions r = record r {
  rationale = e.rationale;
  conditions = conditions;
  changed_by = e.reviewer;
  changed_at = e.decided_at;
}

abbrev pub retired_by : Entry → Rule → Rule
retired_by e r = record r { retired = true; changed_by = e.reviewer; changed_at = e.decided_at }

abbrev pub change : Decision → Entry → List Condition → Option Rule → List Rule → List Rule
change declare e conditions none rules = rules ++ declared e conditions ∷ []
change amend e conditions (some r) rules =
    if r.retired then rules else replace_rule (amended e conditions r) rules
change retire e conditions (some r) rules =
    if r.retired then rules else replace_rule (retired_by e r) rules
change _ e conditions _ rules = rules

abbrev pub fold_readable : Entry → Option (List Condition) → List Rule → List Rule
fold_readable e none rules = rules
fold_readable e (some conditions) rules =
    change e.decision e conditions (find_rule e.name rules) rules

-- The body of the loop of `_fold`.
unfoldable pub fold_entry : Entry → List Rule → List Rule
unfolding readable find_rule replace_rule
fold_entry e rules = fold_readable e (readable e) rules

-- `_fold`, from the rules of the lines before.
unfoldable pub fold_on : List Rule → List Entry → List Rule
fold_on rules [] = rules
fold_on rules (e ∷ entries) = fold_on (fold_entry e rules) entries
