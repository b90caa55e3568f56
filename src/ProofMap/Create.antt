-- ===== src/ProofMap/Create.antt =====
-- `create_node` of src/proof_cli/proof_map.py and `note_trust_rule_matches`, which it calls. The
-- kind, the Medium and the trust level are typed, so that the code's refusals of other texts have
-- no counterpart; the working files of the node's folder are not part of the store.
use proof_cli.Base.{
  ℕ, or_default, String, Bool, true, false, not, ◌&&◌, ◌||◌, Option, none, some, List, [], ◌∷◌,
  ◌==◌, any, contains, is_some, if◌then◌else◌,
}
use proof_cli.ProofMap.Types.{
  NodeKind, Medium, latex, TrustLevel, Node, Event, Store, Happening, node_created, trusted_by_rule,
  Error, invalid_node_id, node_already_exists, derived_from_not_found, dependency_not_found,
  imported_result_has_no_dependencies, imported_result_requires_source, medium_not_applicable,
  reference_id_not_imported_result, reference_not_found, definition_not_found, duplicate_theorem,
  Result, ok, err, ◌>>=◌, ◌>>◌, refuse_if, Decisions, World,
}
use proof_cli.ProofMap.Tables.{
  is_theorem, is_imported, exists_in, insert_proof_map_node, append_event,
}
use proof_cli.ProofMap.Edges.{list_nodes}

-- The keyword arguments of `create_node`.
pub record Fields : Type 0 where
  pub node_id : ℕ
  pub kind : NodeKind
  pub display_label : String
  pub statement : String
  pub assumptions : List String
  pub definitions : List ℕ
  pub dependencies : List ℕ
  pub source_locator : Option String
  pub source_version : Option String
  pub trust_level : Option TrustLevel
  pub reference_id : Option ℕ
  pub derived_from : Option ℕ
  pub medium : Option Medium
  pub created_by : ℕ

abbrev pub is_some_and {ℓ} : {A : Type ℓ} → (A → Bool) → Option A → Bool
is_some_and p none = false
is_some_and p (some a) = p a

-- `not (text or "").strip()`
abbrev pub is_unsaid : World → Option String → Bool
is_unsaid w none = true
is_unsaid w (some text) = w.is_blank text

abbrev pub nonempty {ℓ} : {A : Type ℓ} → List A → Bool
nonempty [] = false
nonempty (x ∷ xs) = true

-- Refuse the first of the ids that the test does not know.
unfoldable pub refuse_unknown : (ℕ → Bool) → (ℕ → Error) → List ℕ → Result (Unit {0})
refuse_unknown known problem [] = ok tt
refuse_unknown known problem (i ∷ is) = do
  refuse_if (not (known i)) (problem i)
  refuse_unknown known problem is

unfoldable pub resolve_medium : NodeKind → Option Medium → Result (Option Medium)
resolve_medium kind none = ok (if is_imported kind then none else some latex)
resolve_medium kind (some medium) =
    if is_imported kind then err medium_not_applicable else ok (some medium)

unfoldable pub check_reference : Store → NodeKind → Option ℕ → Result (Unit {0})
check_reference s kind none = ok tt
check_reference s kind (some reference_id) = do
  refuse_if (not (is_imported kind)) reference_id_not_imported_result
  refuse_if (not (contains s.references reference_id)) (reference_not_found reference_id)

-- `list(dict.fromkeys(…))`: each once, in the order named.
unfoldable pub once : List ℕ → List ℕ → List ℕ
once seen [] = []
once seen (d ∷ ds) =
    let met = once seen ds in
    let new = once (d ∷ seen) ds in if contains seen d then met else d ∷ new

abbrev pub created_node : World → Fields → Option Medium → Node
created_node w f medium = record {
  id = f.node_id;
  kind = f.kind;
  display_label = f.display_label;
  statement = f.statement;
  assumptions = f.assumptions;
  definitions = once [] f.definitions;
  dependencies = f.dependencies;
  source_locator = f.source_locator;
  source_version = f.source_version;
  trust_level = f.trust_level;
  reference_id = f.reference_id;
  derived_from = f.derived_from;
  medium = medium;
  created_by = f.created_by;
  created_at = w.now;
  updated_at = w.now;
}

-- The insertion under the primary key and the unique index on the kind `theorem`.
unfoldable pub insert_row : Node → Store → Result Store
insert_row node s =
    if exists_in s node.id || (is_theorem node.kind && any (λ n. is_theorem n.kind) s.nodes)
    then err (if is_theorem node.kind then duplicate_theorem else node_already_exists node.id)
    else ok (insert_proof_map_node node s)

abbrev pub names_rule : ℕ → Happening → Bool
names_rule rule (trusted_by_rule other) = other == rule
names_rule rule _ = false

abbrev pub is_noted : List Event → ℕ → ℕ → Bool
is_noted events node_id rule = any (λ e. e.entity_id == node_id && names_rule rule e.what) events

-- The events for the rules that a node meets and that are not on record.
abbrev pub note_rules : List Event → ℕ → List ℕ → Store → Store
note_rules noted node_id [] s = s
note_rules noted node_id (rule ∷ rules) s =
    note_rules noted node_id rules
      (if is_noted noted node_id rule then s else append_event node_id (trusted_by_rule rule) s)

abbrev pub note_nodes : Decisions → Store → List ℕ → List Node → Store → Store
note_nodes d read wanted [] s = s
note_nodes d read wanted (n ∷ nodes) s = note_nodes d read wanted nodes (
    if is_imported n.kind && contains wanted n.id
    then note_rules read.events n.id (d.trust_rules_of read n.id) s
    else s)

unfoldable pub note_trust_rule_matches : Decisions → List ℕ → Store → Store → Store
unfolding list_nodes
note_trust_rule_matches d wanted seen s = note_nodes d seen wanted (list_nodes d seen) s

-- The checks of `create_node` before its transaction, in their order; they end with the Medium.
unfoldable pub check_fields : World → Fields → Store → Result (Option Medium)
unfolding refuse_unknown check_reference
check_fields w f s = do
  refuse_if (not (w.names_folder f.node_id)) (invalid_node_id f.node_id)
  refuse_if (exists_in s f.node_id) (node_already_exists f.node_id)
  refuse_if (is_some_and (λ i. not (exists_in s i)) f.derived_from)
      (derived_from_not_found (or_default f.derived_from f.node_id))
  refuse_if (is_imported f.kind && nonempty f.dependencies)
      (imported_result_has_no_dependencies f.node_id)
  refuse_unknown (λ i. exists_in s i) dependency_not_found f.dependencies
  refuse_if (is_imported f.kind && (is_unsaid w f.source_locator || is_unsaid w f.source_version))
      imported_result_requires_source
  medium ← resolve_medium f.kind f.medium
  check_reference s f.kind f.reference_id
  ok medium

-- The node's row and its event, in one transaction.
unfoldable pub write_node : Node → Store → Result Store
unfolding refuse_unknown
write_node node s = do
  refuse_unknown (λ i. contains s.definitions i) definition_not_found node.definitions
  written ← insert_row node s
  ok (append_event node.id (node_created node.kind node.created_by) written)

-- A read on another connection than the transaction's sees what is committed, `seen`.
abbrev pub after_creation : Decisions → Node → Store → Store → Store
after_creation d node seen s =
    if is_imported node.kind && is_some node.reference_id
    then note_trust_rule_matches d (node.id ∷ []) seen s
    else s

-- The checks on what is committed, and the writes.
unfoldable pub create_row : World → Fields → Store → Store → Result (Store × Node)
unfolding check_fields write_node
create_row w f seen s = do
  medium ← check_fields w f seen
  let node = created_node w f medium
  written ← write_node node s
  ok (written, node)

-- `create_node` on its own: its transaction is committed before the Trust rules are looked at.
unfoldable pub create_node : Decisions → World → Fields → Store → Result (Store × Node)
unfolding create_row
create_node d w f s = do
  made ← create_row w f s s
  ok (after_creation d made.1 made.0 made.0, made.1)

-- `create_node` inside a transaction, which none of its reads but the one of the definitions sees.
unfoldable pub create_node_within :
    Decisions → World → Fields → Store → Store → Result (Store × Node)
unfolding create_row
create_node_within d w f seen s = do
  made ← create_row w f seen s
  ok (after_creation d made.1 seen made.0, made.1)
