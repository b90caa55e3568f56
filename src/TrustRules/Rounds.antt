-- ===== src/TrustRules/Rounds.antt =====
-- What the file of Trust rules gives back of a decision that was checked and recorded.
use proof_cli.Base.{
  String, true, ◌≡◌, refl, ap, Option, none, some, List, [], ◌∷◌, Bool-cases, inl, inr, subst,
  Option-cases, some-injective,
}
use proof_cli.TrustRules.Conditions.{
  Condition, ConditionKind, source_already_reviewed, source_type_in, identifier_has_doi,
  identifier_has_arxiv, Item, object, other, text_of, kind_of, has_text, distinct, has_shape,
  if_shaped, with_kind, validate, validate_all, dump, dump_all, cons_valid,
}

-- The text of a kind is read as that kind.
pub kind_of-text_of : (k : ConditionKind) → kind_of (text_of k) ≡ some k
unfolding kind_of
kind_of-text_of source_already_reviewed = refl
kind_of-text_of source_type_in = refl
kind_of-text_of identifier_has_doi = refl
kind_of-text_of identifier_has_arxiv = refl

-- Texts that are distinct already stay as they are.
pub distinct-distinct :
    (seen ts : List String) → distinct seen (distinct seen ts) ≡ distinct seen ts
unfolding distinct
distinct-distinct seen [] = refl
distinct-distinct seen (t ∷ ts) = elim (Bool-cases (has_text seen t)) [
  | inl met ↦ rw met (distinct-distinct seen ts)
  | inr new ↦ rw (new, new) (ap (λ z. t ∷ z) (distinct-distinct (t ∷ seen) ts))
]

if_shaped-kept : (c : Condition) → has_shape c ≡ true → if_shaped c ≡ some c
if_shaped-kept c h = rw h refl

with_kind-again :
    (k : ConditionKind) (values : List String) (d : Condition)
    → with_kind values (some k) ≡ some d
    → validate (dump d) ≡ some d
unfolding validate
with_kind-again k values d h =
    let c : Condition = record { kind = k; values = distinct [] values } in
    elim (Bool-cases (has_shape c)) [
      | inl shaped ↦
          let same : c ≡ d = some-injective (rw shaped at h) in
          subst (λ z. validate (dump z) ≡ some z) same
            (rw (kind_of-text_of k, distinct-distinct [] values) (if_shaped-kept c shaped))
      | inr not_ ↦ let no : none ≡ some d = rw not_ at h in cc
    ]

-- A condition that was read from the JSON is read back from its own JSON.
validate-dump : (i : Item) (c : Condition) → validate i ≡ some c → validate (dump c) ≡ some c
unfolding validate
validate-dump other c h = cc
validate-dump (object kind values) c h = elim (Option-cases (kind_of kind)) [
  | inl none_ ↦ let no : none ≡ some c = rw none_ at h in cc
  | inr (k, e) ↦ with_kind-again k values c (rw e at h)
]

cons_valid-again :
    (o : Option Condition) (os : Option (List Condition)) (cs : List Condition)
    → cons_valid o os ≡ some cs
    → ((c : Condition) → o ≡ some c → validate (dump c) ≡ some c)
    → ((ds : List Condition) → os ≡ some ds → validate_all (dump_all ds) ≡ some ds)
    → validate_all (dump_all cs) ≡ some cs
unfolding validate_all
cons_valid-again none os cs h one rest = cc
cons_valid-again (some c) none cs h one rest = cc
cons_valid-again (some c) (some ds) cs h one rest =
    subst (λ z. validate_all (dump_all z) ≡ some z) (some-injective h)
      (rw (one c refl, rest ds refl) refl)

-- The conditions that a decision carries are read back from their own JSON.
pub validate_all-dump_all :
    (is : List Item) (cs : List Condition)
    → validate_all is ≡ some cs
    → validate_all (dump_all cs) ≡ some cs
unfolding validate_all
validate_all-dump_all [] cs h =
    subst (λ z. validate_all (dump_all z) ≡ some z) (some-injective h) refl
validate_all-dump_all (i ∷ is) cs h =
    cons_valid-again (validate i) (validate_all is) cs h (validate-dump i)
      (validate_all-dump_all is)
