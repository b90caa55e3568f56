-- ===== src/ProofMap/Types.antt =====
-- The records of src/proof_cli/domain.py that the operations of the proof map use, the events and
-- errors of src/proof_cli/proof_map.py, and a store. Node ids and names of actors are numbers, since
-- the code only compares them; times are numbers.
use proof_cli.Base.{ℕ, String, Bool, true, false, Option, List}

pub data NodeKind : Type 0 where
  theorem lemma claim imported_result : NodeKind

pub data Medium : Type 0 where
  latex computation : Medium

pub data TrustLevel : Type 0 where
  foundational project_verified external_reference temporary_admit : TrustLevel

-- `RESEARCHER`; any other actor is an agent.
abbrev pub researcher : ℕ
researcher = 0

pub record Node : Type 0 where
  pub id : ℕ
  pub kind : NodeKind
  pub display_label : String
  pub statement : String
  pub assumptions : List String
  pub definitions : List ℕ
  pub dependencies : List ℕ
  pub source_locator : Option String
  pub source_version : Option String
  pub trust_level : Option TrustLevel
  pub reference_id : Option ℕ
  pub derived_from : Option ℕ
  pub medium : Option Medium
  pub created_by : ℕ
  pub created_at : ℕ
  pub updated_at : ℕ

pub record Claim : Type 0 where
  pub id : ℕ
  pub node_id : ℕ
  pub claimant_id : ℕ
  pub session_id : String
  pub claimed_at : ℕ
  pub released_at : Option ℕ
  pub released_by : Option ℕ
  pub release_reason : Option String

-- A pinned edge; what it pins is not read here.
pub record Pin : Type 0 where
  pub node_id : ℕ
  pub target_node_id : ℕ

-- The events that the operations append, with their payloads. The messages are left out.
pub data Happening : Type 0 where
  node_created : NodeKind → (created_by : ℕ) → Happening
  trusted_by_rule : (rule : ℕ) → Happening
  node_split : (child_ids : List ℕ) (created_by : ℕ) → Happening
  dependency_added : (dependency_id edited_by : ℕ) (before after : List ℕ) → Happening
  dependency_removed :
      (dependency_id edited_by : ℕ) (before after : List ℕ) (resplit : Bool) → Happening
  dependency_moved :
      (dependency_id to edited_by : ℕ) (before after to_before to_after : List ℕ) → Happening
  node_claimed : (claim_id claimant_id : ℕ) → Happening
  claim_reassigned : (claim_id claimant_id previous_claimant_id : ℕ) → Happening
  claim_released : (claim_id original_claimant_id released_by : ℕ) (reason : String) → Happening

pub record Event : Type 0 where
  pub entity_id : ℕ
  pub what : Happening

pub record Store : Type 0 where
  pub nodes : List Node
  pub claims : List Claim
  pub pins : List Pin
  pub events : List Event
  pub definitions : List ℕ
  pub references : List ℕ

-- `ProofMapError`, by its code, with the details that name nodes and actors.
pub data Error : Type 0 where
  node_not_found : ℕ → Error
  invalid_node_id node_already_exists derived_from_not_found : ℕ → Error
  imported_result_has_no_dependencies : ℕ → Error
  dependency_not_found : ℕ → Error
  imported_result_requires_source medium_not_applicable reference_id_not_imported_result : Error
  reference_not_found definition_not_found : ℕ → Error
  duplicate_theorem : Error
  node_rejected node_accepted node_already_accepted immutable_node : ℕ → Error
  already_a_dependency not_a_dependency : (dependency_id node_id : ℕ) → Error
  same_node : ℕ → Error
  dependency_cycle : (node_id : ℕ) (cycle : List ℕ) → Error
  not_claimant claim_conflict : (node_id assignee : ℕ) → Error
  currently_claimed : ℕ → Error
  no_active_claim : ℕ → Error
  split_requires_children : Error
  -- A search that did not end, or met a missing key: `Edges` shows that none does.
  unending : Error

-- A transaction that raises leaves the store as it was, so an error carries no store.
pub data Result {ℓ} (A : Type ℓ) : Type ℓ where
  ok : A → Result A
  err : Error → Result A

-- `if problem: raise error`
unfoldable pub refuse_if : Bool → Error → Result (Unit {0})
refuse_if true problem = err problem
refuse_if false _ = ok tt

infixl 5 ◌>>=◌
-- A later statement runs on the value of an earlier one, unless that raised.
unfoldable pub ◌>>=◌ {ℓ κ} : {A : Type ℓ} {B : Type κ} → Result A → (A → Result B) → Result B
err problem >>= _ = err problem
ok value >>= rest = rest value

infixl 5 ◌>>◌
abbrev pub ◌>>◌ {κ} : {B : Type κ} (check : Result (Unit {0})) (rest : Result B) → Result B
check >> rest = check >>= λ done. rest

pub data Acceptance : Type 0 where
  unreviewed accepted rejected : Acceptance

-- What the operations read of the Review decisions, the Challenges and the restatements, which
-- other records of the project keep.
pub record Decisions : Type 0 where
  pub acceptance : Store → ℕ → Acceptance
  pub has_open_challenge : Store → ℕ → Bool
  pub verification_time : Store → ℕ → Option ℕ
  pub false_since : Store → ℕ → List ℕ
  pub is_fixed : Store → ℕ → Bool
  pub is_promoted : Store → ℕ → Bool
  pub trust_rules_of : Store → ℕ → List ℕ

-- What a call reads of its surroundings: the clock, fresh ids, which node ids name a folder, and
-- which texts are blank.
pub record World : Type 0 where
  pub now : ℕ
  pub fresh : ℕ → ℕ
  pub names_folder : ℕ → Bool
  pub is_blank : String → Bool
