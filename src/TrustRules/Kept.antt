-- ===== src/TrustRules/Kept.antt =====
-- What the rules in force are after a decision on a Trust rule that was checked and recorded.
use proof_cli.Base.{
  ℕ, String, Bool, true, false, not, ◌≡◌, ◌∙◌, refl, ap, subst, Option, none, some, List, [], ◌∷◌,
  ◌++◌, ◌==◌, if◌then◌else◌, Bool-cases, inl, inr, arith, some-injective,
}
use proof_cli.TrustRules.Conditions.{Condition, Item, validate_all}
use proof_cli.TrustRules.Folded.{
  Decision, declare, amend, retire, unknown, Entry, Rule, readable, find_rule, replace_rule,
  declared, amended, retired_by, change, fold_readable, fold_entry, fold_on,
}
use proof_cli.TrustRules.Recorded.{
  Surroundings, Checked, accepted, refused, TrustRuleError, resolve, check_against,
  check_rule_decision, entry_of,
}
use proof_cli.TrustRules.File.{
  Json, is_break, load_trust_rule_entries, rules_of, record_rule_decision,
}
use proof_cli.TrustRules.Lines.{IsEnded, IsOneLine, append_line-read, append_line-lost}
use proof_cli.TrustRules.Rounds.{validate_all-dump_all}

-- The rule that a decision makes of the one of its name.
abbrev pub decided : Decision → Entry → List Condition → Option Rule → Option Rule
decided declare e cs none = some (declared e cs)
decided amend e cs (some r) = some (amended e cs r)
decided retire e cs (some r) = some (retired_by e r)
decided _ e cs existing = existing

-- Whether the fold takes the decision on.
abbrev pub applies : Decision → Option Rule → Bool
applies declare none = true
applies amend (some r) = not r.retired
applies retire (some r) = not r.retired
applies _ _ = false

pub fold_on-++ :
    (rules : List Rule) (before after : List Entry)
    → fold_on rules (before ++ after) ≡ fold_on (fold_on rules before) after
unfolding fold_on
fold_on-++ rules [] after = refl
fold_on-++ rules (e ∷ before) after = fold_on-++ (fold_entry e rules) before after

pub find_rule-named :
    (n : ℕ) (rules : List Rule) (r : Rule) → find_rule n rules ≡ some r → (r.name == n) ≡ true
unfolding find_rule
find_rule-named n [] r h = cc
find_rule-named n (x ∷ rules) r h = elim (Bool-cases (x.name == n)) [
  | inl at ↦
      let same : x ≡ r = some-injective (rw at at h) in subst (λ z. (z.name == n) ≡ true) same at
  | inr off ↦ find_rule-named n rules r (rw off at h)
]

find_rule-snoc :
    (n : ℕ) (rules : List Rule) (r : Rule)
    → find_rule n rules ≡ none
    → (r.name == n) ≡ true
    → find_rule n (rules ++ r ∷ []) ≡ some r
unfolding find_rule
find_rule-snoc n [] r h at = rw at refl
find_rule-snoc n (x ∷ rules) r h at = elim (Bool-cases (x.name == n)) [
  | inl met ↦ let no : some x ≡ none = rw met at h in cc
  | inr off ↦ rw off (find_rule-snoc n rules r (rw off at h) at)
]

find_rule-replace_rule :
    (n : ℕ) (rules : List Rule) (r new : Rule)
    → find_rule n rules ≡ some r
    → (new.name == n) ≡ true
    → find_rule n (replace_rule new rules) ≡ some new
unfolding find_rule replace_rule
find_rule-replace_rule n [] r new h at = cc
find_rule-replace_rule n (x ∷ rules) r new h at = elim (Bool-cases (x.name == n)) [
  | inl met ↦ let same : (x.name == new.name) ≡ true = ground (arith, met, at) in rw (same, at) refl
  | inr off ↦
      let differ : (x.name == new.name) ≡ false = ground (arith, off, at) in
      rw (differ, off) (find_rule-replace_rule n rules r new (rw off at h) at)
]

resolve-accepted :
    (o : Option (List Condition)) (cs : List Condition) → resolve o ≡ accepted cs → o ≡ some cs
resolve-accepted none cs h = cc
resolve-accepted (some []) cs h = cc
resolve-accepted (some (c ∷ ds)) cs h =
    ap (λ q. elim q [ accepted ds ↦ some ds | refused e ↦ none ]) h

if-off {ℓ} : {A : Type ℓ} (b : Bool) (x : A) {y : A} → not b ≡ true → (if b then x else y) ≡ y
if-off b x h = ground (arith, h)

change-decided :
    (d : Decision) (e : Entry) (cs : List Condition) (existing : Option Rule) (rules : List Rule)
    → find_rule e.name rules ≡ existing
    → applies d existing ≡ true
    → find_rule e.name (change d e cs existing rules) ≡ decided d e cs existing
change-decided declare e cs none rules h can =
    find_rule-snoc e.name rules (declared e cs) h (ground arith)
change-decided declare e cs (some r) rules h can = cc
change-decided amend e cs none rules h can = cc
change-decided amend e cs (some r) rules h can =
    ap (find_rule e.name) (if-off r.retired _ can)
    ∙ find_rule-replace_rule e.name rules r (amended e cs r) h (find_rule-named e.name rules r h)
change-decided retire e cs none rules h can = cc
change-decided retire e cs (some r) rules h can =
    ap (find_rule e.name) (if-off r.retired _ can)
    ∙ find_rule-replace_rule e.name rules r (retired_by e r) h (find_rule-named e.name rules r h)
change-decided unknown e cs existing rules h can = cc

check_against-applies :
    (name : ℕ) (d : Decision) (items : List Item) (existing : Option Rule) (cs : List Condition)
    → check_against name d items existing ≡ accepted cs
    → applies d existing ≡ true
check_against-applies name unknown items existing cs h = cc
check_against-applies name declare items none cs h = refl
check_against-applies name declare items (some r) cs h = cc
check_against-applies name amend items none cs h = cc
check_against-applies name amend items (some r) cs h = ground (arith, h)
check_against-applies name retire items none cs h = cc
check_against-applies name retire items (some r) cs h = ground (arith, h)

accepted-injective : {cs ds : List Condition} → accepted cs ≡ accepted ds → cs ≡ ds
accepted-injective {cs} e = ap (λ q. elim q [ accepted ds ↦ ds | refused x ↦ cs ]) e

-- What the check accepted is what the line that records it is read as.
check_against-readable :
    (name : ℕ) (d : Decision) (items : List Item) (existing : Option Rule) (cs : List Condition)
    (by : ℕ) (rationale : String) (now : ℕ)
    → check_against name d items existing ≡ accepted cs
    → readable (entry_of name d cs by rationale now) ≡ some cs
unfolding readable
check_against-readable name unknown items existing cs by rationale now h = cc
check_against-readable name declare items none cs by rationale now h =
    validate_all-dump_all items cs (resolve-accepted (validate_all items) cs h)
check_against-readable name declare items (some r) cs by rationale now h = cc
check_against-readable name amend items none cs by rationale now h = cc
check_against-readable name amend items (some r) cs by rationale now h =
    validate_all-dump_all items cs (resolve-accepted (validate_all items) cs (open_ r.retired _ h))
  where
    open_ :
        (b : Bool) {o : Checked} (x : TrustRuleError)
        → (if b then refused x else o) ≡ accepted cs
        → o ≡ accepted cs
    open_ true x e = cc
    open_ false x e = e
check_against-readable name retire items none cs by rationale now h = cc
check_against-readable name retire items (some r) cs by rationale now h =
    elim (Bool-cases r.retired) [
      | inl done ↦ let no : refused _ ≡ accepted cs = rw done at h in cc
      | inr open_ ↦ ap some (accepted-injective (rw open_ at h))
    ]

check_rule_decision-check_against :
    (u : Surroundings) (rules : List Rule) (name : ℕ) (d : Decision) (items : List Item)
    (rationale : String) (cs : List Condition)
    → check_rule_decision u rules name d items rationale ≡ accepted cs
    → check_against name d items (find_rule name rules) ≡ accepted cs
unfolding check_rule_decision
check_rule_decision-check_against u rules name d items rationale cs h = ground (arith, h)

-- If `check_rule_decision` accepted a decision on a rule against the rules of the file, the file's
-- last line is ended, and the JSON of the decision's line has no line separator and is read back as
-- what was written, then the rules of the file with the line that `record_rule_decision` appends
-- have the declared, amended or retired rule under that name, with the accepted conditions, and with
-- the reviewer, rationale and time of the decision.
pub record_rule_decision-decided :
    (j : Json) (u : Surroundings) (file : Option (List ℕ)) (name : ℕ) (d : Decision)
    (items : List Item) (by : ℕ) (rationale : String) (now : ℕ) (cs : List Condition)
    → check_rule_decision u (rules_of j file) name d items rationale ≡ accepted cs
    → IsEnded file
    → IsOneLine (j.dump (entry_of name d cs by rationale now))
    → j.parse (j.dump (entry_of name d cs by rationale now))
      ≡ some (entry_of name d cs by rationale now)
    → find_rule name (rules_of j (record_rule_decision j name d cs by rationale now file))
      ≡ decided d (entry_of name d cs by rationale now) cs (find_rule name (rules_of j file))
unfolding record_rule_decision fold_on fold_entry
record_rule_decision-decided j u file name d items by rationale now cs h ended line back =
    let rules = rules_of j file in
    let e = entry_of name d cs by rationale now in
    let ok_ = check_rule_decision-check_against u rules name d items rationale cs h in
    ap (find_rule name) (
      ap (fold_on []) (append_line-read j e file ended line back)
      ∙ fold_on-++ [] (load_trust_rule_entries j file).0 (e ∷ [])
      ∙ ap (λ o. fold_readable e o rules)
          (check_against-readable name d items (find_rule name rules) cs by rationale now ok_))
    ∙ change-decided d e cs (find_rule name rules) rules refl
        (check_against-applies name d items (find_rule name rules) cs ok_)

-- If instead the JSON of the line is two texts around a line separator that is no carriage return,
-- neither blank nor read as an entry nor split further, then the decision is lost: the file has the
-- entries, and so the rules, that it had.
pub record_rule_decision_lost :
    (j : Json) (file : Option (List ℕ)) (name : ℕ) (d : Decision) (by : ℕ) (rationale : String)
    (now : ℕ) (cs : List Condition) (a b : List ℕ) (separator : ℕ)
    → IsEnded file
    → j.dump (entry_of name d cs by rationale now) ≡ a ++ separator ∷ b
    → is_break separator ≡ true
    → (separator == 13) ≡ false
    → IsOneLine a
    → IsOneLine b
    → j.parse a ≡ none
    → j.parse b ≡ none
    → rules_of j (record_rule_decision j name d cs by rationale now file) ≡ rules_of j file
unfolding record_rule_decision
record_rule_decision_lost j file name d by rationale now cs a b separator ended parts break other
      one two h k =
    ap (fold_on []) (
      append_line-lost j (entry_of name d cs by rationale now) a b separator file ended parts break
        other one two h k)
