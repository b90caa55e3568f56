-- ===== src/ProofMap/Claims.antt =====
-- Claims: `claim_node` and `release_node` of src/proof_cli/proof_map.py, and the checks and the
-- taking over that the structural edits share with them. An operation runs in one transaction, so
-- an error leaves the store as it was.
pub mod Single
pub mod Holding
pub mod Holders
pub mod Refinement
use proof_cli.Base.{
  ℕ, or_default, or_text, String, Bool, true, false, not, ◌&&◌, Option, none, some, ◌==◌, ltb, any,
  if◌then◌else◌,
}
use proof_cli.ProofMap.Types.{
  Node, Claim, Store, Happening, node_claimed, claim_reassigned, claim_released, Acceptance,
  accepted, rejected, Error, immutable_node, node_rejected, node_already_accepted, node_accepted,
  imported_result_has_no_dependencies, not_claimant, claim_conflict, currently_claimed,
  no_active_claim, Result, ok, err, ◌>>=◌, ◌>>◌, refuse_if, Decisions, World,
}
use proof_cli.ProofMap.Tables.{
  is_imported, require_node, get_active_claim, mark_claim_released, new_claim, insert_claim,
  append_event,
}

abbrev pub is_rejected : Acceptance → Bool
is_rejected rejected = true
is_rejected _ = false

abbrev pub is_accepted : Acceptance → Bool
is_accepted accepted = true
is_accepted _ = false

-- A direct dependency of the node was found false after its verification.
unfoldable pub verification_void : Decisions → Store → Node → Bool
verification_void d s node = elim (d.verification_time s node.id) [
  | none ↦ false
  | some since ↦ any (λ i. any (λ found. ltb since found) (d.false_since s i)) node.dependencies
]

-- The Acceptance of a node stands in the way of working on it: no open Challenge invites a
-- revision, and no dependency found false voided the verification.
unfoldable pub stands_accepted : Decisions → Store → Node → Bool
unfolding verification_void
stands_accepted d s node =
    is_accepted (d.acceptance s node.id)
    && not (d.has_open_challenge s node.id)
    && not (verification_void d s node)

-- Why nobody may claim `node`, or none if anyone may.
unfoldable pub not_pickable : Decisions → Store → Node → Option Error
not_pickable d s node =
    if is_imported node.kind
    then some (immutable_node node.id)
    else if is_rejected (d.acceptance s node.id)
    then some (node_rejected node.id)
    else if stands_accepted d s node
    then some (node_already_accepted node.id)
    else none

-- Whether the dependencies of `node` may be edited at all.
unfoldable pub structure_editable : Decisions → Store → Node → Result (Unit {0})
structure_editable d s node = do
  refuse_if (is_imported node.kind) (imported_result_has_no_dependencies node.id)
  refuse_if (is_rejected (d.acceptance s node.id)) (node_rejected node.id)
  refuse_if (stands_accepted d s node) (node_accepted node.id)

-- The claim that `actor` must take over to change the structure of the node, or none.
abbrev pub other_holder : ℕ → ℕ → Bool → Option Claim → Result (Option Claim)
other_holder node_id actor reassign none = ok none
other_holder node_id actor reassign (some c) =
    if c.claimant_id == actor
    then ok none
    else if reassign
    then ok (some c)
    else err (not_claimant node_id c.claimant_id)

unfoldable pub held_by_another : Store → ℕ → ℕ → Bool → Result (Option Claim)
held_by_another s node_id actor reassign =
    other_holder node_id actor reassign (get_active_claim s node_id)

-- Move `claim` to `actor`, recorded as a reassignment.
unfoldable pub take_over : World → Claim → ℕ → Store → Store
take_over w claim actor s =
    let released = mark_claim_released w claim.id actor "reassigned" s in
    let taken = new_claim w claim.node_id actor "" released in
    append_event claim.node_id (claim_reassigned taken.id actor claim.claimant_id)
      (insert_claim taken released)

abbrev pub take_over_held : World → Option Claim → ℕ → Store → Store
take_over_held w none actor s = s
take_over_held w (some claim) actor s = take_over w claim actor s

-- The insertion broke the unique index on active claims: the transaction is undone, and the claim
-- that is active on the store as it was is the claimant's own, or names the holder.
abbrev pub on_conflict : Claim → Store → Option Claim → Result (Store × Claim)
on_conflict c before none = err (currently_claimed c.node_id)
on_conflict c before (some existing) =
    if existing.claimant_id == c.claimant_id
    then ok (before, existing)
    else err (claim_conflict c.node_id existing.claimant_id)

-- The insertion under the unique index, into the store that the call began with or one where the
-- former claim was released.
abbrev pub insert_unique : Happening → Claim → Store → Store → Option Claim → Result (Store × Claim)
insert_unique what c before s none = ok (append_event c.node_id what (insert_claim c s), c)
insert_unique what c before s (some other) =
    on_conflict c before (get_active_claim before c.node_id)

abbrev pub write_claim : Happening → Claim → Store → Store → Result (Store × Claim)
write_claim what c before s = insert_unique what c before s (get_active_claim s c.node_id)

-- `claim_node` once the node is known to be pickable or its holder to be someone else.
abbrev pub claim_from :
    World → ℕ → ℕ → String → Bool → Option Claim → Store → Result (Store × Claim)
claim_from w node_id claimant_id session_id reassign none s =
    let c = new_claim w node_id claimant_id session_id s in
    write_claim (node_claimed c.id claimant_id) c s s
claim_from w node_id claimant_id session_id reassign (some existing) s =
    if reassign
    then (let released = mark_claim_released w existing.id claimant_id "reassigned" s in
        let c = new_claim w node_id claimant_id session_id released in
        write_claim (claim_reassigned c.id claimant_id existing.claimant_id) c s released)
    else err (claim_conflict node_id existing.claimant_id)

abbrev pub or_refuse : Option Error → Result (Unit {0})
or_refuse none = ok tt
or_refuse (some e) = err e

abbrev pub is_held_by : ℕ → Option Claim → Bool
is_held_by actor none = false
is_held_by actor (some c) = c.claimant_id == actor

abbrev pub claim_pickable :
    Decisions → World → Node → ℕ → String → Bool → Option Claim → Store → Result (Store × Claim)
claim_pickable d w node claimant_id session_id reassign existing s =
    or_refuse (not_pickable d s node)
    >> claim_from w node.id claimant_id session_id reassign existing s

abbrev pub claim_existing :
    Decisions → World → Node → ℕ → String → Bool → Option Claim → Store → Result (Store × Claim)
claim_existing d w node claimant_id session_id reassign none s =
    claim_pickable d w node claimant_id session_id reassign none s
claim_existing d w node claimant_id session_id reassign (some c) s =
    if c.claimant_id == claimant_id
    then ok (s, c)
    else claim_pickable d w node claimant_id session_id reassign (some c) s

unfoldable pub claim_node :
    Decisions → World → ℕ → ℕ → String → Bool → Store → Result (Store × Claim)
unfolding not_pickable
claim_node d w node_id claimant_id session_id reassign s = do
  node ← require_node d s node_id
  claim_existing d w node claimant_id session_id reassign (get_active_claim s node_id) s

-- `reason or (…)`: an empty reason counts as none.
abbrev pub release_reason_of : ℕ → Option String → Claim → String
release_reason_of claimant_id reason c =
    or_text (or_default reason "")
      (if c.claimant_id == claimant_id then "released by claimant" else "unassigned")

abbrev pub release_active :
    World → ℕ → ℕ → Option String → Option Claim → Store → Result (Store × Claim)
release_active w node_id claimant_id reason none s = err (no_active_claim node_id)
release_active w node_id claimant_id reason (some c) s =
    let why = release_reason_of claimant_id reason c in
    ok (
      append_event node_id (claim_released c.id c.claimant_id claimant_id why)
          (mark_claim_released w c.id claimant_id why s),
      record c {
        released_by = some claimant_id;
        release_reason = some why;
        released_at = some w.now;
      },
    )

unfoldable pub release_node :
    Decisions → World → ℕ → ℕ → Option String → Store → Result (Store × Claim)
release_node d w node_id claimant_id reason s = do
  _ ← require_node d s node_id
  release_active w node_id claimant_id reason (get_active_claim s node_id) s
