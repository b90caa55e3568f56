-- ===== src/ProofMap/Integrity.antt =====
-- What a node rests on unsettled, which nodes are Provisional, the integrity axis and the frontier:
-- `_unsettled_support`, `is_provisional`, `conditional_on`, `get_integrity_state` and `get_frontier` of
-- src/proof_cli/proof_map.py.
pub mod Supports
pub mod Current
pub mod Frontier
pub mod Tests
use proof_cli.Base.{
  ℕ, Bool, true, false, not, ◌&&◌, ◌||◌, Option, none, some, List, [], ◌∷◌, ◌==◌, ltb, is_none,
  is_some, any, all, map, keep, contains, if◌then◌else◌,
}
use proof_cli.ProofMap.Types.{Node, Pin, Store, Error, Result, ok, ◌>>=◌, Decisions}
use proof_cli.ProofMap.Tables.{is_imported, get_node, require_node, get_active_claim}
use proof_cli.ProofMap.Edges.{dependencies_of, targets, list_nodes}
use proof_cli.ProofMap.Claims.{is_accepted, is_rejected, not_pickable}
use proof_cli.ProofMap.Support.{support_from}
use proof_cli.ProofMap.Workflow.{
  Records, ReferenceReview, unreviewed, CandidateProof, Check, dependency_satisfied,
  is_unsettled_upstream, already_accepted, awaiting_decision, asks_revision_of,
}

-- `_unsettled_support` with the memo of the read, which does not change the answer.
unfoldable pub support_with :
    Decisions → Records → Store → List (ℕ × List ℕ) → ℕ → Option (List (ℕ × List ℕ) × List ℕ)
unfolding dependency_satisfied
support_with d r s memo i =
    support_from (dependencies_of s.nodes) (dependency_satisfied d r s) (i ∷ targets s.nodes) i memo

-- What was found; the empty list for a walk that does not end stands for nothing on a map without
-- cycles: `Supports` shows that each ends.
abbrev pub set_found : Option (List (ℕ × List ℕ) × List ℕ) → List ℕ
set_found none = []
set_found (some (memo, found)) = found

unfoldable pub unsettled_support : Decisions → Records → Store → ℕ → List ℕ
unsettled_support d r s i = set_found (support_with d r s [] i)

abbrev pub pinned_targets : ℕ → List Pin → List ℕ
pinned_targets i [] = []
pinned_targets i (p ∷ pins) =
    let rest = pinned_targets i pins in if p.node_id == i then p.target_node_id ∷ rest else rest

abbrev pub same_set : List ℕ → List ℕ → Bool
same_set xs ys = all (contains ys) xs && all (contains xs) ys

-- The node's dependencies are those that its snapshot was requested on.
unfoldable pub snapshot_dependencies_stand : Store → Node → CandidateProof → Bool
snapshot_dependencies_stand s n p = elim p.dependencies [
  | none ↦ same_set (pinned_targets n.id s.pins) n.dependencies
  | some recorded ↦ same_set recorded n.dependencies
]

abbrev pub is_of : Option ℕ → ℕ → Bool
is_of none sha = false
is_of (some i) sha = i == sha

abbrev pub last_passed : Bool → List Check → Bool
last_passed before [] = before
last_passed before (c ∷ checks) = last_passed c.passed checks

-- The Verifier's newest check on this very snapshot passed; the checks stand oldest first.
unfoldable pub verifier_passed : Records → Store → CandidateProof → Bool
verifier_passed r s p =
    last_passed false
      (keep (λ c. c.is_by_verifier && is_of c.candidate_proof_sha256 p.sha256) (r.checks_of s p.id))

abbrev pub sent_back_row : Decisions → Records → Store → Option Node → Bool
sent_back_row d r s none = false
sent_back_row d r s (some n) =
    if is_imported n.kind
    then r.is_not_callable s n.id
    else if is_rejected (d.acceptance s n.id)
    then true
    else asks_revision_of (r.latest s n.id) && is_none (awaiting_decision d r s n)

-- The researcher's newest decision withdrew the node as support.
unfoldable pub sent_back : Decisions → Records → Store → ℕ → Bool
sent_back d r s i = sent_back_row d r s (get_node d s i)

unfoldable pub support_withdrawn : Decisions → Records → Store → ℕ → Bool
unfolding sent_back unsettled_support
support_withdrawn d r s i = any (sent_back d r s) (unsettled_support d r s i)

abbrev pub is_before : CandidateProof → Option ℕ → Bool
is_before p none = false
is_before p (some t) = ltb p.created_at t

abbrev pub restated_row : Decisions → Records → Store → ℕ → Option CandidateProof → Bool
restated_row d r s i none = false
restated_row d r s i (some p) = is_before p (r.restated_at s i) && not (d.is_fixed s i)

unfoldable pub snapshot_restated_under : Decisions → Records → Store → ℕ → Bool
snapshot_restated_under d r s i = restated_row d r s i (r.current_proof s i)

abbrev pub is_unreviewed : ReferenceReview → Bool
is_unreviewed unreviewed = true
is_unreviewed _ = false

abbrev pub passes : Decisions → Records → Store → Node → Option CandidateProof → Bool
passes d r s n none = false
passes d r s n (some p) =
    snapshot_dependencies_stand s n p
    && verifier_passed r s p
    && not (support_withdrawn d r s n.id)
    && not (snapshot_restated_under d r s n.id)

abbrev pub provisional_row : Decisions → Records → Store → Option Node → Bool
provisional_row d r s none = false
provisional_row d r s (some n) =
    if is_imported n.kind
    then is_unreviewed (r.reference_review s n.id)
    else if is_accepted (d.acceptance s n.id) || d.has_open_challenge s n.id
    then false
    else passes d r s n (awaiting_decision d r s n)

unfoldable pub provisional_itself : Decisions → Records → Store → ℕ → Bool
unfolding support_withdrawn
provisional_itself d r s i = provisional_row d r s (get_node d s i)

-- An unaccepted node may be rested on for work, and so may all that it rests on unsettled.
unfoldable pub is_provisional : Decisions → Records → Store → ℕ → Bool
unfolding provisional_itself unsettled_support
is_provisional d r s i =
    provisional_itself d r s i && all (provisional_itself d r s) (unsettled_support d r s i)

-- The Provisional nodes that the node rests on.
unfoldable pub conditional_on : Decisions → Records → Store → ℕ → Result (List ℕ)
unfolding is_provisional
conditional_on d r s i = require_node d s i >>= λ n.
    ok (
      if already_accepted d s n
      then []
      else keep (is_provisional d r s) (unsettled_support d r s i))

pub data IntegrityState : Type 0 where
  current potentially_stale challenged : IntegrityState

unfoldable pub integrity_of : Decisions → Records → Store → ℕ → Node → IntegrityState
unfolding support_withdrawn snapshot_restated_under
integrity_of d r s i n =
    if d.has_open_challenge s i
    then challenged
    else if is_accepted (d.acceptance s i) && is_unsettled_upstream d r s i
    then potentially_stale
    else if is_some (awaiting_decision d r s n) && support_withdrawn d r s i
    then potentially_stale
    else if snapshot_restated_under d r s i
    then potentially_stale
    else current

unfoldable pub get_integrity_state : Decisions → Records → Store → ℕ → Result IntegrityState
unfolding integrity_of
get_integrity_state d r s i = require_node d s i >>= λ n. ok (integrity_of d r s i n)

-- The node is ready to be worked.
unfoldable pub is_ready : Decisions → Records → Store → Node → Bool
unfolding is_provisional
is_ready d r s n =
    is_none (get_active_claim s n.id)
    && is_none (not_pickable d s n)
    && is_none (awaiting_decision d r s n)
    && all (λ i. dependency_satisfied d r s i || is_provisional d r s i) n.dependencies

unfoldable pub get_frontier : Decisions → Records → Store → List Node
unfolding is_ready
get_frontier d r s = keep (is_ready d r s) (list_nodes d s)
