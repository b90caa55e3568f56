-- ===== src/TrustRules/Final.antt =====
-- That a retired Trust rule stays as it is: the fold takes no decision on it any more.
use proof_cli.Base.{
  ℕ, Bool, true, false, ◌≡◌, ◌∙◌, refl, sym, ap, subst, Option, none, some, List, [], ◌∷◌, ◌++◌,
  ◌==◌, if◌then◌else◌, Bool-cases, inl, inr, arith, some-injective,
}
use proof_cli.TrustRules.Conditions.{Condition}
use proof_cli.TrustRules.Folded.{
  Decision, declare, amend, retire, unknown, Entry, Rule, readable, find_rule, replace_rule,
  amended, retired_by, change, fold_readable, fold_entry, fold_on,
}
use proof_cli.TrustRules.Kept.{find_rule-named}

find_rule-++ :
    (n : ℕ) (rules more : List Rule) (r : Rule)
    → find_rule n rules ≡ some r
    → find_rule n (rules ++ more) ≡ some r
unfolding find_rule
find_rule-++ n [] more r h = cc
find_rule-++ n (x ∷ rules) more r h = ground (arith, h, find_rule-++ n rules more r)

replace_rule-elsewhere :
    (n : ℕ) (rules : List Rule) (new : Rule)
    → (new.name == n) ≡ false
    → find_rule n (replace_rule new rules) ≡ find_rule n rules
unfolding find_rule replace_rule
replace_rule-elsewhere n [] new off = refl
replace_rule-elsewhere n (x ∷ rules) new off = elim (Bool-cases (x.name == new.name)) [
  | inl met ↦
      let differ : (x.name == n) ≡ false = ground (arith, met, off) in
      rw (met, off, differ) (replace_rule-elsewhere n rules new off)
  | inr other ↦
      rw other
        (ap (λ z. if x.name == n then some x else z) (replace_rule-elsewhere n rules new off))
]

-- A change under a name does nothing to a retired rule, of that name or of another.
replaced-kept :
    (n : ℕ) (rules : List Rule) (r x new : Rule)
    → find_rule n rules ≡ some r
    → r.retired ≡ true
    → find_rule new.name rules ≡ some x
    → find_rule n (if x.retired then rules else replace_rule new rules) ≡ some r
replaced-kept n rules r x new h done e = elim (Bool-cases (new.name == n)) [
  | inl met ↦
      let at : new.name ≡ n = ground (arith, met) in
      let same : x ≡ r = some-injective (sym e ∙ ap (λ m. find_rule m rules) at ∙ h) in
      let off : x.retired ≡ true = ap (λ z. z.retired) same ∙ done in rw off h
  | inr differ ↦ if-both x.retired _ _ h (replace_rule-elsewhere n rules new differ ∙ h)
]
  where
    if-both :
        (b : Bool) (a c : List Rule)
        → find_rule n a ≡ some r
        → find_rule n c ≡ some r
        → find_rule n (if b then a else c) ≡ some r
    if-both true a c p q = p
    if-both false a c p q = q

found-again :
    (n : ℕ) (rules : List Rule) (x : Rule)
    → find_rule n rules ≡ some x
    → find_rule x.name rules ≡ some x
found-again n rules x h =
    let named = find_rule-named n rules x h in
    let at : n ≡ x.name = ground arith in subst (λ m. find_rule m rules ≡ some x) at h

change-kept :
    (d : Decision) (e : Entry) (cs : List Condition) (existing : Option Rule) (n : ℕ)
    (rules : List Rule) (r : Rule)
    → find_rule n rules ≡ some r
    → r.retired ≡ true
    → find_rule e.name rules ≡ existing
    → find_rule n (change d e cs existing rules) ≡ some r
change-kept declare e cs none n rules r h done is = find_rule-++ n rules _ r h
change-kept declare e cs (some x) n rules r h done is = h
change-kept amend e cs none n rules r h done is = h
change-kept amend e cs (some x) n rules r h done is =
    replaced-kept n rules r x (amended e cs x) h done (found-again e.name rules x is)
change-kept retire e cs none n rules r h done is = h
change-kept retire e cs (some x) n rules r h done is =
    replaced-kept n rules r x (retired_by e x) h done (found-again e.name rules x is)
change-kept unknown e cs none n rules r h done is = h
change-kept unknown e cs (some x) n rules r h done is = h

fold_readable-kept :
    (e : Entry) (o : Option (List Condition)) (n : ℕ) (rules : List Rule) (r : Rule)
    → find_rule n rules ≡ some r
    → r.retired ≡ true
    → find_rule n (fold_readable e o rules) ≡ some r
fold_readable-kept e none n rules r h done = h
fold_readable-kept e (some cs) n rules r h done =
    change-kept e.decision e cs (find_rule e.name rules) n rules r h done refl

-- If a rule is retired, then whatever lines the file of decisions has after it, the fold of them
-- keeps the rule under its name as it was.
pub fold_on-retired :
    (entries : List Entry) (n : ℕ) (rules : List Rule) (r : Rule)
    → find_rule n rules ≡ some r
    → r.retired ≡ true
    → find_rule n (fold_on rules entries) ≡ some r
unfolding fold_on fold_entry
fold_on-retired [] n rules r h done = h
fold_on-retired (e ∷ entries) n rules r h done =
    fold_on-retired entries n (fold_entry e rules) r
      (fold_readable-kept e (readable e) n rules r h done) done
