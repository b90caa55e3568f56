-- ===== src/TrustRules/File.antt =====
-- The file of Trust rules: `append_line`, `_read_file` and `load_trust_rule_entries` of
-- proof_cli/reviews.py, and what proof_cli/trust_rules.py reads of it and writes to it. A character
-- is its code point. The JSON of an entry, which pydantic writes and reads, is a parameter. What
-- `_read_file` remembers of a file that did not change is left out.
use proof_cli.Base.{
  ℕ, String, Bool, false, ◌&&◌, ◌||◌, Option, none, some, or_default, List, [], ◌∷◌, ◌++◌, ◌==◌,
  leb, ◌+◌, contains, all, if◌then◌else◌,
}
use proof_cli.TrustRules.Conditions.{Condition}
use proof_cli.TrustRules.Folded.{Decision, Entry, Rule, fold_on}
use proof_cli.TrustRules.Recorded.{entry_of}

-- `model_dump_json` and `model_validate_json`, which may raise.
pub record Json : Type 0 where
  pub dump : Entry → List ℕ
  pub parse : List ℕ → Option Entry

-- Where `splitlines` ends a line: the control characters, U+0085, U+2028 and U+2029.
abbrev pub is_break : ℕ → Bool
is_break c = contains (10 ∷ 11 ∷ 12 ∷ 13 ∷ 28 ∷ 29 ∷ 30 ∷ 133 ∷ 8232 ∷ 8233 ∷ []) c

abbrev pub is_space : ℕ → Bool
is_space c =
    is_break c
    || contains (9 ∷ 31 ∷ 32 ∷ 160 ∷ 5760 ∷ 8239 ∷ 8287 ∷ 12288 ∷ []) c
    || leb 8192 c && leb c 8202

-- `not line.strip()`
abbrev pub is_blank_line : List ℕ → Bool
is_blank_line line = all is_space line

abbrev pub last_line : List ℕ → List (List ℕ)
last_line [] = []
last_line (c ∷ cs) = (c ∷ cs) ∷ []

-- `splitlines`, with the line that is being read; a line feed right after a carriage return ends
-- no other line.
unfoldable pub split_lines : Bool → List ℕ → List ℕ → List (List ℕ)
split_lines after_return line [] = last_line line
split_lines after_return line (c ∷ cs) =
    let skipped = split_lines false [] cs in
    let broken = split_lines (c == 13) [] cs in
    let longer = split_lines false (line ++ c ∷ []) cs in
    if after_return && c == 10 then skipped else if is_break c then line ∷ broken else longer

abbrev pub cons_read : Option Entry → List Entry → List Entry
cons_read none es = es
cons_read (some e) es = e ∷ es

-- The entries, and the numbers of the lines that are problems.
unfoldable pub entries_in : Json → List (List ℕ) → List Entry
entries_in j [] = []
entries_in j (line ∷ lines) =
    let rest = entries_in j lines in
    if is_blank_line line then rest else cons_read (j.parse line) rest

abbrev pub problems_in : Json → ℕ → List (List ℕ) → List ℕ
problems_in j number [] = []
problems_in j number (line ∷ lines) =
    let rest = problems_in j (number + 1) lines in
    if is_blank_line line
    then rest
    else elim (j.parse line) [ none ↦ number ∷ rest | some e ↦ rest ]

unfoldable pub read_file : Json → List ℕ → List Entry × List ℕ
unfolding split_lines entries_in
read_file j text =
    let lines = split_lines false [] text in (entries_in j lines, problems_in j 1 lines)

-- No file is the file with nothing in it.
abbrev pub load_trust_rule_entries : Json → Option (List ℕ) → List Entry × List ℕ
load_trust_rule_entries j none = ([], [])
load_trust_rule_entries j (some text) = read_file j text

abbrev pub append_line : Json → Entry → Option (List ℕ) → List ℕ
append_line j e file = or_default file [] ++ (j.dump e ++ 10 ∷ [])

-- `_rules`
abbrev pub rules_of : Json → Option (List ℕ) → List Rule
rules_of j file = fold_on [] (load_trust_rule_entries j file).0

unfoldable pub record_rule_decision :
    Json → ℕ → Decision → List Condition → ℕ → String → ℕ → Option (List ℕ) → Option (List ℕ)
record_rule_decision j name decision conditions reviewer rationale now file =
    some (append_line j (entry_of name decision conditions reviewer rationale now) file)
