-- ===== src/ProofMap/Split.antt =====
-- `split_node` and `create_node_under_parent` of src/proof_cli/proof_map.py. Each runs in one
-- transaction, so that a refusal leaves no node behind. A read that is not given the transaction's
-- connection sees what is committed: the store `seen`, without what the transaction wrote.
use proof_cli.Base.{ℕ, String, Bool, false, Option, none, some, List, [], ◌∷◌, ◌++◌, if◌then◌else◌}
use proof_cli.ProofMap.Types.{
  claim, Medium, Node, Store, node_split, immutable_node, node_rejected, node_accepted,
  dependency_cycle, split_requires_children, unending, Result, ok, err, ◌>>=◌, ◌>>◌, refuse_if,
  Decisions, World,
}
use proof_cli.ProofMap.Tables.{
  is_imported, exists_in, require_node, update_proof_map_node, append_event,
}
use proof_cli.ProofMap.Edges.{dependency_path, refuse_path}
use proof_cli.ProofMap.Claims.{is_accepted, is_rejected, structure_editable}
use proof_cli.ProofMap.Edit.{hold, gain_dependency}
use proof_cli.ProofMap.Create.{Fields, create_node_within}

-- One of `child_specs`.
pub record Spec : Type 0 where
  pub id : ℕ
  pub statement : String
  pub display_label : String
  pub assumptions : List String
  pub dependencies : List ℕ
  pub medium : Option Medium
  pub definitions : List ℕ

abbrev pub child_fields : ℕ → ℕ → Spec → Fields
child_fields parent_id created_by spec = record {
  node_id = spec.id;
  kind = claim;
  display_label = spec.display_label;
  statement = spec.statement;
  assumptions = spec.assumptions;
  definitions = spec.definitions;
  dependencies = spec.dependencies;
  source_locator = none;
  source_version = none;
  trust_level = none;
  reference_id = none;
  derived_from = some parent_id;
  medium = spec.medium;
  created_by = created_by;
}

-- `if path is not None: raise _cycle(spec["id"], [spec["id"], *path, spec["id"]])`
abbrev pub refuse_round : ℕ → Option (Option (List ℕ)) → Result (Unit {0})
refuse_round child none = err unending
refuse_round child (some none) = ok tt
refuse_round child (some (some path)) = err (dependency_cycle child (child ∷ path ++ child ∷ []))

-- No dependency of a child may rest on the parent; one that does not exist is refused later.
unfoldable pub refuse_resting : Store → ℕ → ℕ → List ℕ → Result (Unit {0})
refuse_resting s child parent_id [] = ok tt
refuse_resting s child parent_id (d ∷ ds) = do
  if exists_in s d then refuse_round child (dependency_path s d parent_id) else ok tt
  refuse_resting s child parent_id ds

-- The children, in order, with what they made of the store.
unfoldable pub create_children :
    Decisions → World → ℕ → ℕ → List Spec → Store → Store → Result (Store × List ℕ)
create_children d w parent_id created_by [] seen s = ok (s, [])
create_children d w parent_id created_by (spec ∷ specs) seen s = do
  refuse_resting seen spec.id parent_id spec.dependencies
  made ← create_node_within d w (child_fields parent_id created_by spec) seen s
  rest ← create_children d w parent_id created_by specs seen made.0
  ok (rest.0, made.1.id ∷ rest.1)

-- The parent resting on its children, and the event.
unfoldable pub write_split : Node → List ℕ → ℕ → Store → Store
write_split parent children created_by s =
    append_event parent.id (node_split children created_by)
      (update_proof_map_node (record parent { dependencies = parent.dependencies ++ children }) s)

unfoldable pub split :
    Decisions → World → ℕ → List Spec → ℕ → Bool → Store → Result (Store × List ℕ)
unfolding create_children write_split
split d w parent_id specs created_by reassign s = do
  parent ← require_node d s parent_id
  refuse_if (is_imported parent.kind) (immutable_node parent_id)
  refuse_if (is_rejected (d.acceptance s parent_id)) (node_rejected parent_id)
  refuse_if (is_accepted (d.acceptance s parent_id)) (node_accepted parent_id)
  held ← hold w false s parent_id created_by reassign
  made ← create_children d w parent_id created_by specs s held
  ok (write_split parent made.1 created_by made.0, made.1)

unfoldable pub split_node :
    Decisions → World → ℕ → List Spec → ℕ → Bool → Store → Result (Store × List ℕ)
unfolding split
split_node d w parent_id [] created_by reassign s =
    require_node d s parent_id >>= λ _. err split_requires_children
split_node d w parent_id (spec ∷ specs) created_by reassign s =
    split d w parent_id (spec ∷ specs) created_by reassign s

-- The cycle that the parent's new edge would close runs through the new node's own dependencies.
unfoldable pub refuse_below : Store → ℕ → ℕ → List ℕ → Result (Unit {0})
refuse_below s parent_id node_id [] = ok tt
refuse_below s parent_id node_id (d ∷ ds) = do
  refuse_path parent_id (parent_id ∷ node_id ∷ []) (dependency_path s d parent_id)
  refuse_below s parent_id node_id ds

unfoldable pub create_node_under_parent :
    Decisions → World → ℕ → Fields → Bool → Store → Result (Store × Node)
unfolding refuse_below
create_node_under_parent d w parent_id f reassign s = do
  made ← create_node_within d w f s s
  parent ← require_node d s parent_id
  structure_editable d s parent
  refuse_below s parent_id made.1.id made.1.dependencies
  held ← hold w false made.0 parent_id f.created_by reassign
  ok (gain_dependency w parent made.1.id f.created_by held, made.1)
