-- ===== src/ProofMap/Workflow.antt =====
-- The workflow axis of src/proof_cli/proof_map.py: what a node starts and what unsettles it from
-- upstream, whether a dependency is settled, `get_workflow_state` and `get_blocked_reason`.
pub mod Causes
pub mod Blocked
pub mod Tests
use proof_cli.Base.{
  ℕ, Bool, true, false, not, ◌&&◌, ◌||◌, Option, none, some, List, [], ◌∷◌, ◌==◌, is_some, any,
  if◌then◌else◌,
}
use proof_cli.ProofMap.Types.{Node, Pin, Store, Result, ok, ◌>>=◌, Decisions}
use proof_cli.ProofMap.Tables.{is_imported, get_node, require_node, get_active_claim}
use proof_cli.ProofMap.Edges.{dependencies_of, targets}
use proof_cli.ProofMap.Claims.{is_accepted, is_rejected}
use proof_cli.ProofMap.Upstream.{Cause, clear, stale, challenged, Memo, cause_from}

pub data ReferenceReview : Type 0 where
  unreviewed reviewed trusted_by_rule no_longer_callable : ReferenceReview

-- The newest Human Review decision of a node, if one counts: whether it asks for a revision, and
-- the Candidate proof that its payload names.
pub record Verdict : Type 0 where
  pub asks_revision : Bool
  pub candidate_proof_id : Option ℕ

pub record CandidateProof : Type 0 where
  pub id : ℕ
  pub sha256 : ℕ
  pub created_at : ℕ
  pub dependencies : Option (List ℕ)

-- An Evidence check of a Candidate proof.
pub record Check : Type 0 where
  pub is_by_verifier : Bool
  pub candidate_proof_sha256 : Option ℕ
  pub passed : Bool

-- What these states read of the reviews, the pins, the snapshots and the texts, which other records
-- of the project keep.
pub record Records : Type 0 where
  pub reference_review : Store → ℕ → ReferenceReview
  pub is_not_callable : Store → ℕ → Bool
  pub pin_of : (s : Store) (node_id target : ℕ) → Option Pin
  pub pin_is_current : Store → Pin → Bool
  pub latest : Store → ℕ → Option Verdict
  pub current_proof : Store → ℕ → Option CandidateProof
  pub checks_of : Store → ℕ → List Check
  pub restated_at : Store → ℕ → Option ℕ

abbrev pub is_changed : Records → Store → Option Pin → Bool
is_changed r s none = false
is_changed r s (some p) = not (r.pin_is_current s p)

unfoldable pub stale_pin : Records → Store → ℕ → List ℕ → Bool
stale_pin r s i ds = any (λ d. is_changed r s (r.pin_of s i d)) ds

abbrev pub cause_of_row : Records → Store → ℕ → Option Node → Cause
cause_of_row r s i none = clear
cause_of_row r s i (some n) =
    if is_imported n.kind && r.is_not_callable s i
    then challenged
    else if stale_pin r s i n.dependencies
    then stale
    else clear

-- What the node itself starts.
unfoldable pub own_cause : Decisions → Records → Store → ℕ → Cause
unfolding stale_pin
own_cause d r s i =
    if d.has_open_challenge s i then challenged else cause_of_row r s i (get_node d s i)

-- `_upstream_cause`, with the memo of the read.
unfoldable pub upstream_cause : Decisions → Records → Store → Memo → ℕ → Option (Memo × Cause)
unfolding own_cause
upstream_cause d r s memo i =
    cause_from (dependencies_of s.nodes) (own_cause d r s) (i ∷ targets s.nodes) i memo

-- The cause that was found. `clear` for a walk that does not end stands for nothing: `Causes` shows
-- that each ends.
abbrev pub cause_found : Option (Memo × Cause) → Cause
cause_found none = clear
cause_found (some (memo, c)) = c

-- A sound memo does not change the cause (`Causes`), so each call here begins with an empty one.
unfoldable pub cause_at : Decisions → Records → Store → ℕ → Cause
cause_at d r s i = cause_found (upstream_cause d r s [] i)

abbrev pub is_clear : Cause → Bool
is_clear clear = true
is_clear _ = false

abbrev pub is_stale : Cause → Bool
is_stale stale = true
is_stale _ = false

unfoldable pub is_unsettled_upstream : Decisions → Records → Store → ℕ → Bool
is_unsettled_upstream d r s i = not (is_clear (cause_at d r s i))

abbrev pub stands_reviewed : ReferenceReview → Bool
stands_reviewed reviewed = true
stands_reviewed trusted_by_rule = true
stands_reviewed _ = false

-- The dependency reached the standing that unblocks: an Acceptance, or a Reference review.
abbrev pub has_standing : Decisions → Records → Store → Node → Bool
has_standing d r s n =
    if is_imported n.kind
    then stands_reviewed (r.reference_review s n.id)
    else is_accepted (d.acceptance s n.id)

abbrev pub satisfied_row : Decisions → Records → Store → Option Node → Bool
satisfied_row d r s none = true
satisfied_row d r s (some n) = has_standing d r s n && not (is_unsettled_upstream d r s n.id)

unfoldable pub dependency_satisfied : Decisions → Records → Store → ℕ → Bool
unfolding is_unsettled_upstream
dependency_satisfied d r s i = satisfied_row d r s (get_node d s i)

unfoldable pub has_unresolved_dependency : Decisions → Records → Store → Node → Bool
has_unresolved_dependency d r s n = any (λ i. not (dependency_satisfied d r s i)) n.dependencies

abbrev pub already_accepted : Decisions → Store → Node → Bool
already_accepted d s n = not (is_imported n.kind) && is_accepted (d.acceptance s n.id)

abbrev pub covers_proof : CandidateProof → Option Verdict → Bool
covers_proof p none = false
covers_proof p (some v) = elim v.candidate_proof_id [ none ↦ false | some i ↦ i == p.id ]

abbrev pub uncovered :
    Decisions → Records → Store → Node → Option CandidateProof → Option CandidateProof
uncovered d r s n none = none
uncovered d r s n (some p) =
    if is_rejected (d.acceptance s n.id)
    then none
    else if covers_proof p (r.latest s n.id)
    then none
    else some p

-- The node's snapshot if no decision that counts covers_proof it yet.
unfoldable pub awaiting_decision : Decisions → Records → Store → Node → Option CandidateProof
awaiting_decision d r s n =
    if is_imported n.kind then none else uncovered d r s n (r.current_proof s n.id)

pub data WorkflowState : Type 0 where
  open_ claimed review_needed revision_requested blocked : WorkflowState

abbrev pub asks_revision_of : Option Verdict → Bool
asks_revision_of none = false
asks_revision_of (some v) = v.asks_revision

unfoldable pub workflow_of : Decisions → Records → Store → Node → WorkflowState
unfolding has_unresolved_dependency awaiting_decision
workflow_of d r s n =
    if not (already_accepted d s n) && has_unresolved_dependency d r s n
    then blocked
    else if is_some (get_active_claim s n.id)
    then claimed
    else if is_imported n.kind
    then open_
    else if is_rejected (d.acceptance s n.id)
    then open_
    else if is_some (awaiting_decision d r s n)
    then review_needed
    else if asks_revision_of (r.latest s n.id)
    then revision_requested
    else open_

unfoldable pub get_workflow_state : Decisions → Records → Store → ℕ → Result WorkflowState
unfolding workflow_of
get_workflow_state d r s i = require_node d s i >>= λ n. ok (workflow_of d r s n)

pub data BlockedReason : Type 0 where
  not_callable dependency_challenged dependency_stale not_accepted : BlockedReason

abbrev pub not_callable_row : Records → Store → Option Node → Bool
not_callable_row r s none = false
not_callable_row r s (some n) = is_imported n.kind && r.is_not_callable s n.id

-- The loop over the dependencies; `seen` says whether a stale one was met.
unfoldable pub reason_from : Decisions → Records → Store → List ℕ → Bool → BlockedReason
reason_from d r s [] seen = if seen then dependency_stale else not_accepted
reason_from d r s (i ∷ is) seen =
    let skip = reason_from d r s is seen in
    let rest = reason_from d r s is (seen || is_stale (cause_at d r s i)) in
    if dependency_satisfied d r s i
    then skip
    else elim (cause_at d r s i) [ challenged ↦ dependency_challenged | _ ↦ rest ]

unfoldable pub reason_of : Decisions → Records → Store → Node → Option BlockedReason
unfolding reason_from
reason_of d r s n =
    if already_accepted d s n || not (has_unresolved_dependency d r s n)
    then none
    else if any (λ i. not_callable_row r s (get_node d s i)) n.dependencies
    then some not_callable
    else some (reason_from d r s n.dependencies false)

unfoldable pub get_blocked_reason : Decisions → Records → Store → ℕ → Result (Option BlockedReason)
unfolding reason_of
get_blocked_reason d r s i = require_node d s i >>= λ n. ok (reason_of d r s n)
