-- ===== src/NodeStates/Stopped.antt =====
-- `_stopped`, `stopped_by` and `counterexamples` of src/proof_cli/node_states.py: which nodes wait
-- for a node that is challenged as false.
use proof_cli.Base.{
  ℕ, Bool, false, not, ◌&&◌, Option, none, some, List, [], ◌∷◌, ◌++◌, all, contains, keep,
  if◌then◌else◌,
}
use proof_cli.Graph.Under.{spread_from}
use proof_cli.ProofMap.Types.{Node, Store, Decisions}
use proof_cli.ProofMap.Tables.{is_imported}
use proof_cli.ProofMap.Edges.{dependencies_of, dependents_of, list_nodes, node_ids, rests_on}
use proof_cli.ProofMap.Claims.{is_rejected}
use proof_cli.NodeStates.Types.{Challenge, Readings}
use proof_cli.NodeStates.Conclusion.{is_challenged}
use proof_cli.NodeStates.Own.{stands_open, against_proof, two_sided, sorted, own_states}

-- The open Challenges that are not against the proof.
abbrev pub statement_challenges : Readings → ℕ → List Challenge
statement_challenges r i =
    keep (λ c. stands_open c.status && not (against_proof c.kind)) (r.challenges i)

abbrev pub examples_of : List Challenge → List ℕ
examples_of [] = []
examples_of (c ∷ cs) = elim c.counterexample_id [
  | none ↦ examples_of cs
  | some i ↦ i ∷ examples_of cs
]

unfoldable pub counterexamples : Readings → Node → List ℕ
unfolding two_sided
counterexamples r node =
    let open_ones = statement_challenges r node.id in
    if not (all two_sided open_ones)
    then []
    else if not (is_imported node.kind) && is_rejected (r.acceptance_state node.id)
    then []
    else examples_of open_ones

abbrev pub joined : Option (List ℕ) → Option (List ℕ) → Option (List ℕ)
joined (some found) (some rest) = some (found ++ rest)
joined _ _ = none

-- The union of what each of the sides rests on.
abbrev pub union_of : Store → List ℕ → Option (List ℕ)
union_of s [] = some []
union_of s (i ∷ is) = joined (rests_on s i) (union_of s is)

-- `seen` as the branch starts: the two sides with what they rest on, where there are two.
abbrev pub worked_on : Store → ℕ → List ℕ → Option (List ℕ)
worked_on s challenged [] = some []
worked_on s challenged (i ∷ is) = union_of s (challenged ∷ i ∷ is)

abbrev pub branch_from : Store → ℕ → Option (List ℕ) → Option (List ℕ)
branch_from s challenged none = none
branch_from s challenged (some seen) =
    spread_from (dependencies_of s.nodes) (node_ids s.nodes) seen (dependents_of s.nodes challenged)

-- What a challenged node stops; the order in which its users are walked is not seen.
unfoldable pub branch_of : Readings → Store → Node → Option (List ℕ)
branch_of r s node = branch_from s node.id (worked_on s node.id (counterexamples r node))

abbrev pub stops : Option (List ℕ) → ℕ → Bool
stops none i = false
stops (some branch) i = contains branch i

abbrev pub is_challenged_false : Readings → Store → (Challenge → Bool) → Node → Bool
is_challenged_false r s decides node = is_challenged (own_states r s decides node).statement_layer

abbrev pub stoppers : Readings → Store → (Challenge → Bool) → ℕ → List Node → List ℕ
stoppers r s decides i [] = []
stoppers r s decides i (n ∷ nodes) =
    let rest = stoppers r s decides i nodes in
    if is_challenged_false r s decides n && stops (branch_of r s n) i then n.id ∷ rest else rest

unfoldable pub stopped_by : Readings → Decisions → Store → (Challenge → Bool) → ℕ → List ℕ
unfolding branch_of
stopped_by r d s decides i = sorted (stoppers r s decides i (list_nodes d s))
