-- ===== src/NodeStates/Seals.antt =====
-- What a seal or an unseal would do, by `_seal_after_unseal` and `seal_preview` of
-- src/proof_cli/node_states.py.
use proof_cli.Base.{
  ℕ, Bool, false, not, ◌&&◌, Option, none, some, List, [], ◌∷◌, ◌==◌, contains, keep, any,
  if◌then◌else◌,
}
use proof_cli.Graph.Walk.{Walked, value, cycle, missing, stuck}
use proof_cli.ProofMap.Types.{Node, Store, Decisions}
use proof_cli.ProofMap.Tables.{is_imported, get_node}
use proof_cli.ProofMap.Edges.{node_ids, rests_on, list_nodes}
use proof_cli.NodeStates.Types.{Seal, unsealed, sealed_true, sealed_false, Challenge, Readings}
use proof_cli.NodeStates.Conclusion.{is_expert}
use proof_cli.NodeStates.Own.{is_unsealed, is_uncallable, stands_open, sorted, coverers}
use proof_cli.NodeStates.Walk.{NodeStates, node_states}
use proof_cli.ProofMap.Tables.{exists_in}

abbrev pub others : ℕ → List ℕ → List ℕ
others i ids = keep (λ j. not (j == i)) ids

-- `"sealed-true" if […] else "unsealed"`
abbrev pub covered_seal : List ℕ → Seal
covered_seal [] = unsealed
covered_seal (i ∷ is) = sealed_true

unfoldable pub seal_after_unseal : Readings → Store → Node → ℕ → Seal
unfolding coverers
seal_after_unseal r s node unsealed_id =
    let own = if node.id == unsealed_id then unsealed else r.direct_seal node.id in
    let seal =
      if is_unsealed own
        && is_imported node.kind
        && is_uncallable (r.reference_review_state node.id)
      then sealed_false
      else own in
    if is_unsealed seal then covered_seal (others unsealed_id (coverers r s node.id)) else seal

-- The readings once the seal line of the node is undone, with what it covered.
abbrev pub after_unseal : ℕ → Readings → Readings
after_unseal i r = record r {
  direct_seal = λ j. if j == i then unsealed else r.direct_seal j;
  covered_nodes = λ j. if j == i then [] else r.covered_nodes j;
}

-- What `seal_preview` lists.
pub data Preview : Type 0 where
  sealing_true : (covers unverified challenged : List ℕ) → Preview
  sealing_false : (direct_users verified : List ℕ) → Preview
  unsealing : (releases : List ℕ) → Preview

pub data SealAction : Type 0 where
  seal_true seal_false unseal : SealAction

-- `[n for n in ids if …]`, where reading a node's states may raise.
abbrev pub keep_read : ℕ → Bool → Walked (List ℕ) → Walked (List ℕ)
keep_read i wanted (value is) = value (if wanted then i ∷ is else is)
keep_read i wanted (cycle path) = cycle path
keep_read i wanted (missing j) = missing j
keep_read i wanted stuck = stuck

abbrev pub keep_by : (NodeStates → Bool) → ℕ → Walked NodeStates → Walked (List ℕ) → Walked (List ℕ)
keep_by p i (value states) rest = keep_read i (p states) rest
keep_by p i (cycle path) rest = cycle path
keep_by p i (missing j) rest = missing j
keep_by p i stuck rest = stuck

unfoldable pub keep_states :
    (NodeStates → Bool) → (ℕ → Walked NodeStates) → List ℕ → Walked (List ℕ)
keep_states p read [] = value []
keep_states p read (i ∷ is) = keep_by p i (read i) (keep_states p read is)

abbrev pub is_verified_node : NodeStates → Bool
is_verified_node states = is_expert states.own.proof_layer

abbrev pub then_preview : Walked (List ℕ) → (List ℕ → Preview) → Walked Preview
then_preview (value is) f = value (f is)
then_preview (cycle path) f = cycle path
then_preview (missing j) f = missing j
then_preview stuck f = stuck

-- `set(…)`: each id once.
abbrev pub distinct : List ℕ → List ℕ
distinct [] = []
distinct (i ∷ is) = let rest = distinct is in if contains is i then rest else i ∷ rest

abbrev pub is_released : Readings → Store → ℕ → Option Node → Bool
is_released r s unsealed_id none = false
is_released r s unsealed_id (some node) = is_unsealed (seal_after_unseal r s node unsealed_id)

abbrev pub preview_true :
    Readings → Decisions → Store → (Challenge → Bool) → Option (List ℕ) → Walked Preview
preview_true r d s decides none = stuck
preview_true r d s decides (some found) =
    let covers = sorted found in
    then_preview (keep_states (λ n. not (is_verified_node n)) (node_states r d s decides) covers)
      (λ unverified.
        sealing_true covers unverified
          (keep (λ i. any (λ c. stands_open c.status) (r.challenges i)) covers))

unfoldable pub seal_preview :
    Readings → Decisions → Store → (Challenge → Bool) → ℕ → SealAction → Walked Preview
unfolding keep_states list_nodes
seal_preview r d s decides node_id action =
    if not (exists_in s node_id) then missing node_id else (elim action [
      | seal_true ↦ preview_true r d s decides (rests_on s node_id)
      | seal_false ↦
          let users =
            sorted (node_ids (keep (λ n. contains n.dependencies node_id) (list_nodes d s))) in
          then_preview (keep_states is_verified_node (node_states r d s decides) users)
            (λ verified. sealing_false users verified)
      | unseal ↦ value (
          unsealing (
            sorted (
              keep (λ i. is_released r s node_id (get_node d s i))
                (distinct (node_id ∷ r.covered_nodes node_id)))))
    ])
