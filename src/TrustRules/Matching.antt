-- ===== src/TrustRules/Matching.antt =====
-- Which citations a Trust rule of proof_cli/trust_rules.py covers, and which rules are in force.
-- Whether an identifier has a DOI or an arXiv id, which a regular expression says, is a field of
-- the reference. A source's version is a number.
use proof_cli.Base.{
  ℕ, String, Bool, true, false, not, ◌||◌, Option, none, some, List, [], ◌∷◌, ◌==◌, any, all,
  if◌then◌else◌,
}
use text.Mathlib.Text.{◌==◌ as str_eq}
use proof_cli.TrustRules.Conditions.{
  Condition, source_already_reviewed, source_type_in, identifier_has_doi, identifier_has_arxiv,
  has_text, nonempty,
}
use proof_cli.TrustRules.Folded.{Rule}

pub record ReferenceRecord : Type 0 where
  pub source_type : String
  pub has_doi : Bool
  pub has_arxiv : Bool

pub record SiblingCitation : Type 0 where
  pub source_version : Option ℕ
  pub explicit_state : String

abbrev pub same_version : Option ℕ → Option ℕ → Bool
same_version none none = true
same_version (some v) (some w) = v == w
same_version _ _ = false

abbrev pub same_source : Option ℕ → List SiblingCitation → List SiblingCitation
same_source version [] = []
same_source version (c ∷ cs) =
    let rest = same_source version cs in
    if same_version c.source_version version then c ∷ rest else rest

abbrev pub any_in : String → List SiblingCitation → Bool
any_in state cs = any (λ c. str_eq c.explicit_state state) cs

unfoldable pub condition_holds :
    Condition → Option ℕ → ReferenceRecord → List SiblingCitation → Bool
condition_holds c version reference siblings = elim c.kind [
  | source_already_reviewed ↦
      if any_in "no-longer-callable" (same_source version siblings)
      then false
      else any_in "reviewed" (same_source version siblings)
  | source_type_in ↦ has_text c.values reference.source_type
  | identifier_has_doi ↦ reference.has_doi
  | identifier_has_arxiv ↦ reference.has_arxiv
]

unfoldable pub rule_matches : Rule → Option ℕ → Option ReferenceRecord → List SiblingCitation → Bool
unfolding condition_holds
rule_matches rule version none siblings = false
rule_matches rule version (some reference) siblings =
    if rule.retired || not (nonempty rule.conditions)
    then false
    else all (λ c. condition_holds c version reference siblings) rule.conditions

unfoldable pub list_trust_rules : Bool → List Rule → List Rule
list_trust_rules include_retired [] = []
list_trust_rules include_retired (r ∷ rules) =
    let rest = list_trust_rules include_retired rules in
    if include_retired || not r.retired then r ∷ rest else rest
