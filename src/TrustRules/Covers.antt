-- ===== src/TrustRules/Covers.antt =====
-- Which citations a Trust rule covers, said without the tests of the matcher.
use proof_cli.Base.{
  ℕ, String, Bool, true, false, ◌&&◌, ◌≡◌, refl, Option, none, some, List, [], ◌∷◌, ◌↔◌, ◌⊎◌,
  some-injective, sym, subst, if◌then◌else◌, Bool-cases, inl, inr, arith, All, all,
}
use text.Mathlib.Text.{◌==◌ as str_eq}
use proof_cli.TrustRules.Conditions.{
  Condition, ConditionKind, source_already_reviewed, source_type_in, identifier_has_doi,
  identifier_has_arxiv, has_text, nonempty,
}
use proof_cli.TrustRules.Folded.{Rule}
use proof_cli.TrustRules.Matching.{
  ReferenceRecord, SiblingCitation, same_version, same_source, any_in, condition_holds,
  rule_matches,
}

-- Another citation of the source, of the same version, reads as the state.
abbrev pub IsFound : String → Option ℕ → List SiblingCitation → Type 0
IsFound state version [] = false ≡ true
IsFound state version (c ∷ cs) =
    (same_version c.source_version version && str_eq c.explicit_state state) ≡ true
    ⊎ IsFound state version cs

-- What a condition asks of a citation: of the other citations of the source, that one is reviewed and
-- that none is no longer callable.
abbrev pub IsMet : Option ℕ → ReferenceRecord → List SiblingCitation → Condition → Type 0
IsMet version reference siblings c = elim c.kind [
  | source_already_reviewed ↦
      IsFound "reviewed" version siblings × (IsFound "no-longer-callable" version siblings → ⊥)
  | source_type_in ↦ has_text c.values reference.source_type ≡ true
  | identifier_has_doi ↦ reference.has_doi ≡ true
  | identifier_has_arxiv ↦ reference.has_arxiv ≡ true
]

any_in-IsFound :
    (state : String) (version : Option ℕ) (cs : List SiblingCitation)
    → any_in state (same_source version cs) ≡ true
    → IsFound state version cs
any_in-IsFound state version [] h = h
any_in-IsFound state version (c ∷ cs) h =
    elim (Bool-cases (same_version c.source_version version)) [
      | inl same ↦ elim (Bool-cases (str_eq c.explicit_state state)) [
        | inl reads ↦ inl (rw (same, reads) refl)
        | inr not_ ↦ inr (any_in-IsFound state version cs (rw (same, not_) at h))
      ]
      | inr other ↦ inr (any_in-IsFound state version cs (rw other at h))
    ]

IsFound-any_in :
    (state : String) (version : Option ℕ) (cs : List SiblingCitation)
    → IsFound state version cs
    → any_in state (same_source version cs) ≡ true
IsFound-any_in state version [] h = h
IsFound-any_in state version (c ∷ cs) (inl h) = ground (arith, h)
IsFound-any_in state version (c ∷ cs) (inr h) =
    let rest = IsFound-any_in state version cs h in ground (arith, rest)

reviewed-IsMet :
    (version : Option ℕ) (cs : List SiblingCitation)
    → ((if any_in "no-longer-callable" (same_source version cs)
          then false
          else any_in "reviewed" (same_source version cs))
        ≡ true)
      ↔ (IsFound "reviewed" version cs × (IsFound "no-longer-callable" version cs → ⊥))
reviewed-IsMet version cs = (
  λ e. (
    any_in-IsFound "reviewed" version cs (ground (arith, e)),
    λ f.
        let bad = IsFound-any_in "no-longer-callable" version cs f in
        let no : false ≡ true = rw bad at e in cc,
  ),
  λ m.
      let good = IsFound-any_in "reviewed" version cs m.0 in
      elim (Bool-cases (any_in "no-longer-callable" (same_source version cs))) [
        | inl bad ↦ elim (m.1 (any_in-IsFound "no-longer-callable" version cs bad)) [ ]
        | inr clean ↦ rw (clean, good) refl
      ],
)

condition_holds-IsMet :
    (c : Condition) (version : Option ℕ) (reference : ReferenceRecord)
    (siblings : List SiblingCitation)
    → (condition_holds c version reference siblings ≡ true) ↔ IsMet version reference siblings c
unfolding condition_holds
condition_holds-IsMet c version reference siblings = by_kind c.kind refl
  where
    by_kind :
        (k : ConditionKind)
        → c.kind ≡ k
        → (condition_holds c version reference siblings ≡ true) ↔ IsMet version reference siblings c
    by_kind source_already_reviewed e = rw e (reviewed-IsMet version siblings)
    by_kind source_type_in e = rw e (λ h. h, λ h. h)
    by_kind identifier_has_doi e = rw e (λ h. h, λ h. h)
    by_kind identifier_has_arxiv e = rw e (λ h. h, λ h. h)

module _ {P : Condition → Type 0} (p : Condition → Bool) where
  all-All :
      ((c : Condition) → (p c ≡ true) ↔ P c) → (cs : List Condition) → (all p cs ≡ true) ↔ All P cs
  all-All h [] = (λ e. tt, λ e. refl)
  all-All h (c ∷ cs) =
      let rest = all-All h cs in
      (
        λ e. ((h c).0 (ground (arith, e)), rest.0 (ground (arith, e))),
        λ e. let at = (h c).1 e.0 in let on = rest.1 e.1 in rw (at, on) refl,
      )

-- A rule covers a citation exactly if the citation's reference is known, the rule is not retired and
-- has a condition, and each of its conditions is met.
pub rule_matches-IsMet :
    (rule : Rule) (version : Option ℕ) (known : Option ReferenceRecord)
    (siblings : List SiblingCitation)
    → (rule_matches rule version known siblings ≡ true) ↔ (
        (reference : ReferenceRecord) × (known ≡ some reference)
        × (rule.retired ≡ false)
        × (nonempty rule.conditions ≡ true)
        × All (IsMet version reference siblings) rule.conditions)
unfolding rule_matches
rule_matches-IsMet rule version none siblings =
    (λ e. absurd (cc), λ (reference, h, _, _, _). absurd (cc))
rule_matches-IsMet rule version (some reference) siblings =
    let met =
      all-All (λ c. condition_holds c version reference siblings)
        (λ c. condition_holds-IsMet c version reference siblings) rule.conditions in
    (
      λ e. (reference, refl, ground (arith, e), ground (arith, e), met.0 (ground (arith, e))),
      λ (other, same, open_, some_, fine).
          let on = met.1 (
            subst (λ z. All (IsMet version z siblings) rule.conditions) (sym (some-injective same))
              fine) in
          rw (open_, some_, on) refl,
    )
