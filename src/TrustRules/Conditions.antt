-- ===== src/TrustRules/Conditions.antt =====
-- The conditions of a Trust rule in proof_cli/trust_rules.py and their JSON.
use proof_cli.Base.{
  String, Bool, true, false, not, ◌&&◌, Option, none, some, List, [], ◌∷◌, any, all, if◌then◌else◌,
}
use text.Mathlib.Text.{◌==◌ as str_eq}

pub data ConditionKind : Type 0 where
  source_already_reviewed source_type_in identifier_has_doi identifier_has_arxiv : ConditionKind

-- The texts of the enumeration.
abbrev pub text_of : ConditionKind → String
text_of source_already_reviewed = "source_already_reviewed"
text_of source_type_in = "source_type_in"
text_of identifier_has_doi = "identifier_has_doi"
text_of identifier_has_arxiv = "identifier_has_arxiv"

unfoldable pub kind_of : String → Option ConditionKind
kind_of t =
    if str_eq t "source_already_reviewed"
    then some source_already_reviewed
    else if str_eq t "source_type_in"
    then some source_type_in
    else if str_eq t "identifier_has_doi"
    then some identifier_has_doi
    else if str_eq t "identifier_has_arxiv"
    then some identifier_has_arxiv
    else none

pub record Condition : Type 0 where
  pub kind : ConditionKind
  pub values : List String

-- A value of the JSON of a decision: an object with these two fields, or anything else.
pub data Item : Type 0 where
  object : (kind : String) (values : List String) → Item
  other : Item

abbrev pub has_text : List String → String → Bool
has_text ts t = any (λ x. str_eq x t) ts

-- `list(dict.fromkeys(values))`
unfoldable pub distinct : List String → List String → List String
distinct seen [] = []
distinct seen (t ∷ ts) =
    let met = distinct seen ts in
    let new = distinct (t ∷ seen) ts in if has_text seen t then met else t ∷ new

-- The members of `ReferenceSourceType`.
abbrev pub source_types : List String
source_types =
    "standard_reference" ∷ "research_paper" ∷ "textbook" ∷ "survey" ∷ "monograph" ∷ "website"
    ∷ "other" ∷ []

abbrev pub nonempty {ℓ} : {A : Type ℓ} → List A → Bool
nonempty [] = false
nonempty (x ∷ xs) = true

-- `_shape`
unfoldable pub has_shape : Condition → Bool
has_shape c = elim c.kind [
  | source_type_in ↦ nonempty c.values && all (has_text source_types) c.values
  | _ ↦ not (nonempty c.values)
]

abbrev pub if_shaped : Condition → Option Condition
if_shaped c = if has_shape c then some c else none

abbrev pub with_kind : List String → Option ConditionKind → Option Condition
with_kind values none = none
with_kind values (some kind) = if_shaped (record { kind = kind; values = distinct [] values })

-- `TrustCondition.model_validate`
unfoldable pub validate : Item → Option Condition
unfolding kind_of distinct
validate other = none
validate (object kind values) = with_kind values (kind_of kind)

-- `condition.model_dump(mode="json")`
abbrev pub dump : Condition → Item
dump c = object (text_of c.kind) c.values

abbrev pub dump_all : List Condition → List Item
dump_all [] = []
dump_all (c ∷ cs) = dump c ∷ dump_all cs

abbrev pub cons_valid : Option Condition → Option (List Condition) → Option (List Condition)
cons_valid (some c) (some cs) = some (c ∷ cs)
cons_valid _ _ = none

unfoldable pub validate_all : List Item → Option (List Condition)
validate_all [] = some []
validate_all (i ∷ is) = cons_valid (validate i) (validate_all is)
