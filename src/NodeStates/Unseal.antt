-- ===== src/NodeStates/Unseal.antt =====
-- What `seal_preview` of src/proof_cli/node_states.py says of an unseal before the click is what
-- the states are after it.
use proof_cli.Base.{
  ◌∙◌, ap, subst, ◌||◌, ◌&&◌, some, ℕ, ◌≡◌, refl, Bool, true, List, [], ◌∷◌, ◌==◌, contains, keep,
  is_some, if◌then◌else◌, Bool-cases, inl, inr, arith,
}
use proof_cli.ProofMap.Types.{Node, Store, Decisions}
use proof_cli.ProofMap.Tables.{get_node}
use proof_cli.Graph.Walk.{value}
use proof_cli.ProofMap.Tables.{exists_in}
use proof_cli.ProofMap.Edges.{node_ids}
use proof_cli.NodeStates.Types.{unsealed, sealed_true, Challenge, Readings}
use proof_cli.NodeStates.Own.{
  insert_sorted, first, sorted, coverers, own_seal, sealed_by, own_states, is_unsealed,
}
use proof_cli.NodeStates.Seals.{
  seal_preview, unseal, unsealing, distinct, is_released, others, covered_seal, seal_after_unseal,
  after_unseal,
}

coverers-after_unseal :
    (r : Readings) (i u : ℕ) (ids : List ℕ)
    → keep (λ j. contains ((after_unseal u r).covered_nodes j) i) ids
      ≡ others u (keep (λ j. contains (r.covered_nodes j) i) ids)
coverers-after_unseal r i u [] = refl
coverers-after_unseal r i u (j ∷ ids) = elim (Bool-cases (j == u)) [
  | inl at ↦ elim (Bool-cases (contains (r.covered_nodes j) i)) [
    | inl covers ↦ rw (at, covers) (rw at (coverers-after_unseal r i u ids))
    | inr bare ↦ rw (at, bare) (coverers-after_unseal r i u ids)
  ]
  | inr off ↦ elim (Bool-cases (contains (r.covered_nodes j) i)) [
    | inl covers ↦ rw (off, covers) (rw (off, coverers-after_unseal r i u ids) refl)
    | inr bare ↦ rw (off, bare) (coverers-after_unseal r i u ids)
  ]
]

covered_seal-first :
    (is : List ℕ) → (if is_some (first is) then sealed_true else unsealed) ≡ covered_seal is
covered_seal-first [] = refl
covered_seal-first (i ∷ is) = refl

-- The Seal that `_seal_after_unseal` foretells for a node is the one that its states read once the
-- seal line of the unsealed node, with what it covered, is undone.
pub seal_after_unseal-own_states :
    (r : Readings) (s : Store) (decides : Challenge → Bool) (node : Node) (unsealed_id : ℕ)
    → (own_states (after_unseal unsealed_id r) s decides node).seal
      ≡ seal_after_unseal r s node unsealed_id
unfolding own_states own_seal sealed_by coverers seal_after_unseal
seal_after_unseal-own_states r s decides node u =
    rw (coverers-after_unseal r node.id u (sorted (node_ids s.nodes))) (
      ground (
        arith,
        covered_seal-first (
            others u
              (keep (λ j. contains (r.covered_nodes j) node.id) (sorted (node_ids s.nodes)))),
      ))

contains-insert_sorted :
    (i : ℕ) (js : List ℕ) (x : ℕ) → contains (insert_sorted i js) x ≡ (i == x) || contains js x
contains-insert_sorted i [] x = refl
contains-insert_sorted i (j ∷ js) x = ground (arith, contains-insert_sorted i js x)

contains-sorted : (is : List ℕ) (x : ℕ) → contains (sorted is) x ≡ contains is x
contains-sorted [] x = refl
contains-sorted (i ∷ is) x =
    contains-insert_sorted i (sorted is) x ∙ ap (λ b. (i == x) || b) (contains-sorted is x)

contains-distinct : (is : List ℕ) (x : ℕ) → contains (distinct is) x ≡ contains is x
contains-distinct [] x = refl
contains-distinct (i ∷ is) x = elim (Bool-cases (contains is i)) [
  | inr new ↦ rw new (ap (λ b. (i == x) || b) (contains-distinct is x))
  | inl old ↦ elim (Bool-cases (i == x)) [
    | inr other ↦ rw (old, other) (contains-distinct is x)
    | inl same ↦
        let eq : i ≡ x = ground arith in
        rw (old, same) (contains-distinct is x ∙ subst (λ z. contains is z ≡ true) eq old)
  ]
]

contains-keep : (p : ℕ → Bool) (is : List ℕ) (x : ℕ) → contains (keep p is) x ≡ contains is x && p x
contains-keep p [] x = refl
contains-keep p (i ∷ is) x = elim (Bool-cases (i == x)) [
  | inl same ↦ let eq : i ≡ x = ground arith in rw (← eq) (ground (arith, contains-keep p is i))
  | inr other ↦ ground (arith, contains-keep p is x)
]

-- What `seal_preview` lists for the unseal of a node of the map are, among the node and those that
-- its seal covers, the ones whose Seal reads unsealed once that seal is undone.
pub seal_preview-unseal :
    (r : Readings) (d : Decisions) (s : Store) (decides : Challenge → Bool) (node_id : ℕ)
    → exists_in s node_id ≡ true
    → (releases : List ℕ) × (seal_preview r d s decides node_id unseal ≡ value (unsealing releases))
      × ((i : ℕ) (node : Node)
          → get_node d s i ≡ some node
          → contains releases i
            ≡ contains (node_id ∷ r.covered_nodes node_id) i
              && is_unsealed (own_states (after_unseal node_id r) s decides node).seal)
unfolding seal_preview
seal_preview-unseal r d s decides u is =
    let mine = u ∷ r.covered_nodes u in
    let released : ℕ → Bool = λ i. is_released r s u (get_node d s i) in
    (
      sorted (keep released (distinct mine)),
      rw is refl,
      λ i node found.
          contains-sorted (keep released (distinct mine)) i
          ∙ contains-keep released (distinct mine) i
          ∙ rw (contains-distinct mine i, found, seal_after_unseal-own_states r s decides node u)
              refl,
    )
