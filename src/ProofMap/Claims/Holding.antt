-- ===== src/ProofMap/Claims/Holding.antt =====
-- Who holds a node after `claim_node` and `release_node`, and when a claim is granted.
use proof_cli.Base.{
  ℕ, ◌≡◌, refl, ap, subst, String, Bool, true, Option, none, some, ◌==◌, ◌⊎◌, Bool-cases, inl, inr,
  arith,
}
use proof_cli.ProofMap.Types.{Node, Claim, Store, ok, ◌>>=◌, Decisions, World}
use proof_cli.ProofMap.Tables.{get_active_claim, require_node}
use proof_cli.ProofMap.Claims.{
  claim_node, release_node, release_active, claim_existing, claim_pickable, or_refuse, not_pickable,
  release_reason_of,
}
use proof_cli.ProofMap.Claims.Single.{
  HasSingleClaims, IsHeldBy, Outcome, claim_from-IsHeldBy, release_in-HasSingleClaims,
  release_in-active,
}
use proof_cli.ProofMap.Edit.Writes.{require_node-IsRow}
use proof_cli.ProofMap.Results.{OnOk, OnOk-eq, OnOk-bind}

claim_pickable-IsHeldBy :
    (d : Decisions) (w : World) (node : Node) (claimant_id : ℕ) (session_id : String)
    (reassign : Bool) (existing : Option Claim) (s : Store)
    → HasSingleClaims s.claims
    → get_active_claim s node.id ≡ existing
    → OnOk
        (Outcome node.id claimant_id)
        (claim_pickable d w node claimant_id session_id reassign existing s)
claim_pickable-IsHeldBy d w node claimant_id session_id reassign existing s single e =
    OnOk-bind (Outcome node.id claimant_id) (or_refuse (not_pickable d s node)) _
      λ _ _. claim_from-IsHeldBy w node.id claimant_id session_id reassign existing s single e

claim_existing-IsHeldBy :
    (d : Decisions) (w : World) (node : Node) (claimant_id : ℕ) (session_id : String)
    (reassign : Bool) (existing : Option Claim) (s : Store)
    → HasSingleClaims s.claims
    → get_active_claim s node.id ≡ existing
    → OnOk
        (Outcome node.id claimant_id)
        (claim_existing d w node claimant_id session_id reassign existing s)
claim_existing-IsHeldBy d w node claimant_id session_id reassign none s single e =
    claim_pickable-IsHeldBy d w node claimant_id session_id reassign none s single e
claim_existing-IsHeldBy d w node claimant_id session_id reassign (some c) s single e =
    elim (Bool-cases (c.claimant_id == claimant_id)) [
      | inl same ↦ rw same (record { single = single; holder = ground arith; active = e })
      | inr other ↦
          rw other
            (claim_pickable-IsHeldBy d w node claimant_id session_id reassign (some c) s single e)
    ]

-- If the table has at most one active claim for each node, a claim that `claim_node` grants is the
-- active claim on the node, held by the claimant, and the table still has at most one for each.
pub claim_node-IsHeldBy :
    (d : Decisions) (w : World) (node_id claimant_id : ℕ) (session_id : String) (reassign : Bool)
    (s s' : Store) (c : Claim)
    → claim_node d w node_id claimant_id session_id reassign s ≡ ok (s', c)
    → HasSingleClaims s.claims
    → IsHeldBy node_id claimant_id s' c
unfolding claim_node
claim_node-IsHeldBy d w node_id claimant_id session_id reassign s s' c h single =
    OnOk-eq (Outcome node_id claimant_id) (claim_node d w node_id claimant_id session_id reassign s)
      h
      (OnOk-bind (Outcome node_id claimant_id) (require_node d s node_id) _ λ node found.
        let named = (require_node-IsRow d s node_id node found).named in
        subst
          (λ i. OnOk (Outcome i claimant_id) (
            claim_existing d w node claimant_id session_id reassign (get_active_claim s node_id) s))
          named
          (claim_existing-IsHeldBy d w node claimant_id session_id reassign
            (get_active_claim s node_id) s single (ap (get_active_claim s) named)))

-- Nobody holds the node, and no claim is active twice.
pub record IsFree (node_id : ℕ) (s : Store) : Type 0 where
  pub single : HasSingleClaims s.claims
  pub inactive : get_active_claim s node_id ≡ none

-- If the table has at most one active claim for each node, nobody holds the node after a
-- `release_node` that returned, whoever asked for it, and the table still has at most one.
pub release_node-IsFree :
    (d : Decisions) (w : World) (node_id claimant_id : ℕ) (reason : Option String) (s s' : Store)
    (c : Claim)
    → release_node d w node_id claimant_id reason s ≡ ok (s', c)
    → HasSingleClaims s.claims
    → IsFree node_id s'
unfolding release_node
release_node-IsFree d w node_id claimant_id reason s s' c h single =
    OnOk-eq (λ (r : Store × Claim). IsFree node_id r.0)
      (release_node d w node_id claimant_id reason s) h
      (OnOk-bind (λ (r : Store × Claim). IsFree node_id r.0) (require_node d s node_id) _
        λ node found. released (get_active_claim s node_id) refl)
  where
    released :
        (a : Option Claim)
        → get_active_claim s node_id ≡ a
        → OnOk
            (λ (r : Store × Claim). IsFree node_id r.0)
            (release_active w node_id claimant_id reason a s)
    released none e = tt
    released (some b) e = record {
      single =
          release_in-HasSingleClaims w.now b.id claimant_id (release_reason_of claimant_id reason b)
            s.claims single;
      inactive =
          release_in-active w.now claimant_id (release_reason_of claimant_id reason b) node_id
            s.claims b single e;
    }

-- If the table has at most one active claim for each node, `claim_node` grants an existing node
-- that may be worked on to whoever asks for it, if it is free or the asker reassigns it.
pub claim_node_grants :
    (d : Decisions) (w : World) (node_id claimant_id : ℕ) (session_id : String) (reassign : Bool)
    (s : Store) (node : Node)
    → HasSingleClaims s.claims
    → require_node d s node_id ≡ ok node
    → not_pickable d s node ≡ none
    → (reassign ≡ true) ⊎ (get_active_claim s node_id ≡ none)
    → (r : Store × Claim) × (claim_node d w node_id claimant_id session_id reassign s ≡ ok r)
unfolding claim_node ◌>>=◌
claim_node_grants d w node_id claimant_id session_id reassign s node single found pickable fine =
    rw found (grant (get_active_claim s node_id) refl)
  where
    named : node.id ≡ node_id
    named = (require_node-IsRow d s node_id node found).named

    grant :
        (a : Option Claim)
        → get_active_claim s node_id ≡ a
        → (r : Store × Claim) × (claim_existing d w node claimant_id session_id reassign a s ≡ ok r)
    grant none e = rw (pickable, named, e) (_, refl)
    grant (some c) e = elim (Bool-cases (c.claimant_id == claimant_id)) [
      | inl same ↦ rw same (_, refl)
      | inr other ↦
          let again : reassign ≡ true = ground arith in
          let gone = release_in-active w.now claimant_id "reassigned" node_id s.claims c single e in
          rw (other, pickable, again, named, gone) (_, refl)
    ]
