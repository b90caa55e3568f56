-- ===== src/TrustRules/Tests.antt =====
-- Runs of the operations on Trust rules, and where their theorems apply.
use proof_cli.Base.{
  not, ℕ, none, Option, ◌==◌, if◌then◌else◌, inr, ◌↔◌, All, ◌≡◌, refl, true, false, some, List, [],
  ◌∷◌,
}
use text.Mathlib.Text.{◌==◌ as str_eq}
use proof_cli.TrustRules.Conditions.{
  Condition, source_type_in, source_already_reviewed, identifier_has_doi, nonempty, Item, object,
  dump_all,
}
use proof_cli.TrustRules.Folded.{
  Decision, declare, amend, retire, Entry, Rule, find_rule, fold_on, fold_entry,
}
use proof_cli.TrustRules.Recorded.{Surroundings, accepted, check_rule_decision, entry_of}
use proof_cli.TrustRules.File.{Json, read_file, rules_of, record_rule_decision}
use proof_cli.TrustRules.Kept.{decided, record_rule_decision-decided, record_rule_decision_lost}
use proof_cli.TrustRules.Final.{fold_on-retired}
use proof_cli.TrustRules.Matching.{ReferenceRecord, SiblingCitation, rule_matches}
use proof_cli.TrustRules.Covers.{IsMet, rule_matches-IsMet}

abbrev folder : Surroundings
folder = record { file_is_folder = false; is_safe_name = λ n. true; is_blank = λ t. str_eq t "" }

abbrev doi : Condition
doi = record { kind = identifier_has_doi; values = [] }

-- One type twice, which the check makes one.
abbrev books : List Item
books = object "source_type_in" ("textbook" ∷ "textbook" ∷ []) ∷ []

abbrev textbook : List Condition
textbook = record { kind = source_type_in; values = "textbook" ∷ [] } ∷ []

abbrev first_line : Entry
first_line = entry_of 7 declare (doi ∷ []) 1 "a DOI is enough" 100

abbrev last_line : Entry
last_line = entry_of 7 retire [] 2 "no more" 200

abbrev amendment : Entry
amendment = entry_of 7 amend textbook 2 "books only" 150

-- A JSON with a letter for each of the two entries: `{D}` and `{A}`.
abbrev letter_of : Decision → ℕ
letter_of amend = 65
letter_of _ = 68

abbrev letter_in : List ℕ → Option Entry
letter_in (brace ∷ letter ∷ cs) =
    if not (brace == 123)
    then none
    else if letter == 65
    then some amendment
    else if letter == 68
    then some first_line
    else none
letter_in _ = none

abbrev letters : Json
letters = record { dump = λ e. 123 ∷ letter_of e.decision ∷ 125 ∷ []; parse = letter_in }

-- The file of the first line.
abbrev one_line : List ℕ
one_line = 123 ∷ 68 ∷ 125 ∷ 10 ∷ []

books_accepted :
    check_rule_decision folder (rules_of letters (some one_line)) 7 amend books "books only"
    ≡ accepted textbook
unfolding check_rule_decision fold_on read_file fold_entry proof_cli.TrustRules.Conditions.validate
    proof_cli.TrustRules.Conditions.has_shape
books_accepted = refl

record_rule_decision-decided_example :
    find_rule 7 (
      rules_of letters
        (record_rule_decision letters 7 amend textbook 2 "books only" 150 (some one_line)))
    ≡ decided amend amendment textbook (find_rule 7 (rules_of letters (some one_line)))
record_rule_decision-decided_example =
    record_rule_decision-decided letters folder (some one_line) 7 amend books 2 "books only" 150
      textbook books_accepted (inr (123 ∷ 68 ∷ 125 ∷ [], refl)) (refl, refl) refl

-- A JSON that has U+2028 as a text of the amendment has it.
abbrev split_letters : Json
split_letters = record {
  dump = λ e. 123 ∷ 34 ∷ 8232 ∷ letter_of e.decision ∷ 125 ∷ [];
  parse = letter_in;
}

record_rule_decision_lost_example :
    rules_of split_letters
      (record_rule_decision split_letters 7 amend textbook 2 "books only" 150 (some one_line))
    ≡ rules_of split_letters (some one_line)
record_rule_decision_lost_example =
    record_rule_decision_lost split_letters (some one_line) 7 amend 2 "books only" 150 textbook
      (123 ∷ 34 ∷ []) (65 ∷ 125 ∷ []) 8232 (inr (123 ∷ 68 ∷ 125 ∷ [], refl)) refl refl refl
      (refl, refl) (refl, refl) refl refl

abbrev retired_rule : Rule
retired_rule = record {
  name = 7;
  rationale = "a DOI is enough";
  conditions = doi ∷ [];
  declared_by = 1;
  declared_at = 100;
  changed_by = 2;
  changed_at = 200;
  retired = true;
}

retired_found : find_rule 7 (fold_on [] (first_line ∷ last_line ∷ [])) ≡ some retired_rule
unfolding fold_on find_rule fold_entry proof_cli.TrustRules.Conditions.validate
    proof_cli.TrustRules.Conditions.has_shape
retired_found = refl

fold_on-retired_example :
    find_rule 7 (
      fold_on
        (fold_on [] (first_line ∷ last_line ∷ []))
        (entry_of 7 amend textbook 3 "again" 300 ∷ entry_of 7 declare textbook 3 "again" 301 ∷ []))
    ≡ some retired_rule
fold_on-retired_example =
    fold_on-retired
      (entry_of 7 amend textbook 3 "again" 300 ∷ entry_of 7 declare textbook 3 "again" 301 ∷ []) 7
      (fold_on [] (first_line ∷ last_line ∷ [])) retired_rule retired_found refl

abbrev reviewed_rule : Rule
reviewed_rule = record retired_rule {
  conditions = record { kind = source_already_reviewed; values = [] } ∷ doi ∷ [];
  retired = false;
}

abbrev paper : ReferenceRecord
paper = record { source_type = "research_paper"; has_doi = true; has_arxiv = false }

abbrev citations : List SiblingCitation
citations =
    record { source_version = some 1; explicit_state = "no-longer-callable" }
    ∷ record { source_version = some 2; explicit_state = "reviewed" }
    ∷ []

rule_matches_second : rule_matches reviewed_rule (some 2) (some paper) citations ≡ true
unfolding rule_matches
rule_matches_second = refl

rule_matches_first : rule_matches reviewed_rule (some 1) (some paper) citations ≡ false
unfolding rule_matches
rule_matches_first = refl

rule_matches-IsMet_example : (rule_matches reviewed_rule (some 2) (some paper) citations ≡ true) ↔ (
    (reference : ReferenceRecord) × (some paper ≡ some reference)
    × (reviewed_rule.retired ≡ false)
    × (nonempty reviewed_rule.conditions ≡ true)
    × All (IsMet (some 2) reference citations) reviewed_rule.conditions)
rule_matches-IsMet_example = rule_matches-IsMet reviewed_rule (some 2) (some paper) citations
