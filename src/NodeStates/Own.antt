-- ===== src/NodeStates/Own.antt =====
-- A node's own states in src/proof_cli/node_states.py: `own_seal`, `sealed_by`,
-- `verification_holds`, `lapses`, `counterexample_decides` and `own_states`. What reads a
-- counterexample's conclusion is a parameter of `counterexample_decides`, and whether a Challenge's
-- counterexample decides it one of `own_states`.
use proof_cli.Base.{
  ℕ, Bool, true, false, not, ◌&&◌, ◌||◌, Option, none, some, List, [], ◌∷◌, ◌==◌, ltb, leb, any,
  keep, contains, is_some, if◌then◌else◌,
}
use proof_cli.ProofMap.Types.{Node, Claim, Store, researcher}
use proof_cli.ProofMap.Tables.{is_imported, get_active_claim, find_node}
use proof_cli.ProofMap.Edges.{node_ids, rests_on}
use proof_cli.ProofMap.Claims.{is_accepted, is_rejected}
use proof_cli.NodeStates.Types.{
  Seal, unsealed, sealed_true, sealed_false, StatementLayer, unchallenged, challenged_as_false,
  found_false, ProofLayer, incomplete, checks_passed, expert_verified, Conclusion, is_true,
  verified_true, ChallengeStatus, is_open, dismissed, ChallengeKind, proof, statement, Challenge,
  ReferenceReview, no_longer_callable, reviewed, trusted_by_rule, Readings, OwnStates,
}
use proof_cli.NodeStates.Conclusion.{is_found_false}

abbrev pub is_unsealed : Seal → Bool
is_unsealed unsealed = true
is_unsealed _ = false

abbrev pub is_uncallable : ReferenceReview → Bool
is_uncallable no_longer_callable = true
is_uncallable _ = false

abbrev pub is_relied_on : ReferenceReview → Bool
is_relied_on reviewed = true
is_relied_on trusted_by_rule = true
is_relied_on _ = false

abbrev pub stands_open : ChallengeStatus → Bool
stands_open is_open = true
stands_open _ = false

abbrev pub is_dismissed : ChallengeStatus → Bool
is_dismissed dismissed = true
is_dismissed _ = false

abbrev pub against_proof : Option ChallengeKind → Bool
against_proof (some proof) = true
against_proof _ = false

abbrev pub against_statement : Option ChallengeKind → Bool
against_statement (some statement) = true
against_statement _ = false

unfoldable pub own_seal : Readings → Node → Seal
own_seal r node =
    let seal = r.direct_seal node.id in
    if is_unsealed seal && is_imported node.kind && is_uncallable (r.reference_review_state node.id)
    then sealed_false
    else seal

-- `sorted(…)` on ids.
abbrev pub insert_sorted : ℕ → List ℕ → List ℕ
insert_sorted i [] = i ∷ []
insert_sorted i (j ∷ js) = let rest = insert_sorted i js in if leb i j then i ∷ j ∷ js else j ∷ rest

abbrev pub sorted : List ℕ → List ℕ
sorted [] = []
sorted (i ∷ is) = insert_sorted i (sorted is)

-- `_covered(store).get(node_id)`: the nodes whose true seal covers this one, by id.
unfoldable pub coverers : Readings → Store → ℕ → List ℕ
coverers r s node_id =
    keep (λ sealed. contains (r.covered_nodes sealed) node_id) (sorted (node_ids s.nodes))

abbrev pub first : List ℕ → Option ℕ
first [] = none
first (i ∷ is) = some i

unfoldable pub sealed_by : Readings → Store → ℕ → Option ℕ
unfolding coverers
sealed_by r s node_id = first (coverers r s node_id)

abbrev pub same_version : Option ℕ → Option ℕ → Bool
same_version (some a) (some b) = a == b
same_version _ _ = false

-- Whether some decision verifies the node, whatever was found of its dependencies.
abbrev pub decided : Readings → Node → Bool
decided r node =
    (if is_imported node.kind
      then is_relied_on (r.reference_review_state node.id)
      else is_accepted (r.acceptance_state node.id)
        && same_version (r.current_version node.id) (r.accepted_version node.id))
    || is_some (r.researcher_verification_time node.id)

abbrev pub is_void : Readings → Node → Option ℕ → Bool
is_void r node none = false
is_void r node (some since) =
    any (λ i. any (λ found. ltb since found) (r.false_since i)) node.dependencies

-- Whether a verification holds before any Challenge lapses it, and when it was made.
unfoldable pub verification_holds : Readings → Node → Bool × Option ℕ
verification_holds r node =
    let since = r.verification_time node.id in
    if not (decided r node)
    then (false, none)
    else if is_void r node since
    then (false, none)
    else (true, since)

abbrev pub is_after : Option ℕ → ℕ → Bool
is_after none t = true
is_after (some since) t = ltb since t

unfoldable pub lapses : Readings → Challenge → Option ℕ → Bool
lapses r c since =
    not (c.opened_by == researcher)
    && not (is_dismissed c.status)
    && not (contains r.restored_challenges c.id)
    && is_after since c.created_at

unfoldable pub two_sided : Challenge → Bool
two_sided c =
    against_statement c.kind && is_some c.counterexample_id && not (c.opened_by == researcher)

abbrev pub is_above_uncertain : Option Conclusion → Bool
is_above_uncertain (some is_true) = true
is_above_uncertain (some verified_true) = true
is_above_uncertain _ = false

-- Its own statement is in question.
abbrev pub is_questioned : Readings → ℕ → Bool
is_questioned r i = any (λ c. stands_open c.status && not (against_proof c.kind)) (r.challenges i)

abbrev pub rests : Option (List ℕ) → ℕ → Bool
rests none target = false
rests (some found) target = contains found target

-- `read` is the conclusion of a node where the Challenges `deciding` read undecided, or none where
-- the walk meets a cycle.
abbrev pub example_decides :
    Readings
    → Store
    → (read : List ℕ → ℕ → Option Conclusion) → List ℕ
    → Challenge
    → Option ℕ
    → Bool
example_decides r s read deciding c none = false
example_decides r s read deciding c (some i) =
    is_some (find_node i s.nodes)
    && not (is_questioned r i)
    && not (rests (rests_on s i) c.target_node_id)
    && not (contains deciding c.id)
    && is_above_uncertain (read (c.id ∷ deciding) i)

unfoldable pub counterexample_decides :
    Readings → Store → (read : List ℕ → ℕ → Option Conclusion) → List ℕ → Challenge → Bool
counterexample_decides r s read deciding c =
    against_statement c.kind
    && stands_open c.status
    && example_decides r s read deciding c c.counterexample_id

abbrev pub Layers : Type 0
Layers = StatementLayer × ProofLayer

-- One turn of the loop over the node's Challenges.
unfoldable pub read_challenge : (Challenge → Bool) → Challenge → Layers → Layers
unfolding two_sided
read_challenge decides c (statement_layer, proof_layer) =
    if not (stands_open c.status)
    then (statement_layer, proof_layer)
    else if against_proof c.kind
    then (statement_layer, incomplete)
    else (
      if is_found_false statement_layer
          then statement_layer
          else if decides c
          then found_false
          else challenged_as_false,
      if two_sided c && not (decides c) then incomplete else proof_layer,
    )

unfoldable pub read_challenges : (Challenge → Bool) → List Challenge → Layers → Layers
read_challenges decides [] layers = layers
read_challenges decides (c ∷ cs) layers =
    read_challenges decides cs (read_challenge decides c layers)

-- The layers before the open Challenges are read.
unfoldable pub statement_layer_before : Readings → Node → StatementLayer
statement_layer_before r node =
    if not (is_imported node.kind) && is_rejected (r.acceptance_state node.id)
    then challenged_as_false
    else unchallenged

unfoldable pub is_verified : Readings → Node → Bool
unfolding verification_holds
is_verified r node =
    let (holds, since) = verification_holds r node in
    holds && not (any (λ c. lapses r c since) (r.challenges node.id))

unfoldable pub proof_layer_before : Readings → Node → ProofLayer
unfolding is_verified
proof_layer_before r node =
    if is_verified r node
    then expert_verified
    else if is_imported node.kind
    then checks_passed
    else if r.has_passing_check node.id
    then checks_passed
    else incomplete

abbrev pub claimant : Option Claim → Option ℕ
claimant none = none
claimant (some c) = some c.claimant_id

unfoldable pub own_states : Readings → Store → (Challenge → Bool) → Node → OwnStates
unfolding own_seal sealed_by
own_states r s decides node =
    let seal = own_seal r node in
    let layers =
      read_challenges decides (r.challenges node.id)
        (statement_layer_before r node, proof_layer_before r node) in
    record {
      seal = if is_unsealed seal && is_some (sealed_by r s node.id) then sealed_true else seal;
      statement_layer = layers.0;
      proof_layer = layers.1;
      assignee = claimant (get_active_claim s node.id);
    }
