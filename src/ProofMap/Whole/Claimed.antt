-- ===== src/ProofMap/Whole/Claimed.antt =====
-- Claiming and releasing keep the map whole.
use proof_cli.Base.{
  ℕ, ◌≡◌, refl, sym, subst, Bool-cases, inl, inr, none, some, String, Bool, true, false, Option,
  ◌==◌,
}
use proof_cli.ProofMap.Types.{Store, Node, Claim, Happening, ok, Decisions, World}
use proof_cli.ProofMap.Claims.{
  claim_node, claim_from, write_claim, insert_unique, on_conflict, claim_existing, or_refuse,
  not_pickable, release_node, release_active,
}
use proof_cli.ProofMap.Claims.Single.{HasSingleClaims}
use proof_cli.ProofMap.Claims.Holding.{claim_node-IsHeldBy, release_node-IsFree}
use proof_cli.ProofMap.Tables.{require_node, get_active_claim}
use proof_cli.Graph.Reach.{IsAcyclic}
use proof_cli.ProofMap.Edges.{dependencies_of}
use proof_cli.ProofMap.Results.{OnOk, OnOk-eq, OnOk-bind}
use proof_cli.ProofMap.Whole.{IsTable, IsWhole}

-- Neither operation on claims writes a node.
abbrev KeepsNodes : Store → Store × Claim → Type 0
KeepsNodes s r = r.0.nodes ≡ s.nodes

write_claim-KeepsNodes :
    (what : Happening) (c : Claim) (before s : Store)
    → s.nodes ≡ before.nodes
    → OnOk (KeepsNodes before) (write_claim what c before s)
write_claim-KeepsNodes what c before s same = insert (get_active_claim s c.node_id)
  where
    conflict : (existing : Option Claim) → OnOk (KeepsNodes before) (on_conflict c before existing)
    conflict none = tt
    conflict (some b) = elim (Bool-cases (b.claimant_id == c.claimant_id)) [
      | inl e ↦ rw e refl
      | inr e ↦ rw e tt
    ]

    insert : (a : Option Claim) → OnOk (KeepsNodes before) (insert_unique what c before s a)
    insert none = same
    insert (some other) = conflict (get_active_claim before c.node_id)

claim_from-KeepsNodes :
    (w : World) (i by : ℕ) (session : String) (reassign : Bool) (existing : Option Claim)
    (s : Store)
    → OnOk (KeepsNodes s) (claim_from w i by session reassign existing s)
claim_from-KeepsNodes w i by session reassign none s = write_claim-KeepsNodes _ _ s s refl
claim_from-KeepsNodes w i by session false (some c) s = tt
claim_from-KeepsNodes w i by session true (some c) s = write_claim-KeepsNodes _ _ s _ refl

claim_existing-KeepsNodes :
    (d : Decisions) (w : World) (node : Node) (by : ℕ) (session : String) (reassign : Bool)
    (existing : Option Claim) (s : Store)
    → OnOk (KeepsNodes s) (claim_existing d w node by session reassign existing s)
claim_existing-KeepsNodes d w node by session reassign none s =
    OnOk-bind (KeepsNodes s) (or_refuse (not_pickable d s node)) _
      λ _ _. claim_from-KeepsNodes w node.id by session reassign none s
claim_existing-KeepsNodes d w node by session reassign (some c) s =
    elim (Bool-cases (c.claimant_id == by)) [
      | inl e ↦ rw e refl
      | inr e ↦ rw e (
          OnOk-bind (KeepsNodes s) (or_refuse (not_pickable d s node)) _
            λ _ _. claim_from-KeepsNodes w node.id by session reassign (some c) s)
    ]

same_nodes-IsWhole :
    (s t : Store) → t.nodes ≡ s.nodes → HasSingleClaims t.claims → IsWhole s → IsWhole t
same_nodes-IsWhole s t same single whole = record {
  table = subst IsTable (sym same) whole.table;
  acyclic = subst (λ z. IsAcyclic (dependencies_of z)) (sym same) whole.acyclic;
  single = single;
}

pub claim_node-IsWhole :
    (d : Decisions) (w : World) (i by : ℕ) (session : String) (reassign : Bool) (s t : Store)
    (c : Claim)
    → claim_node d w i by session reassign s ≡ ok (t, c)
    → IsWhole s
    → IsWhole t
unfolding claim_node
claim_node-IsWhole d w i by session reassign s t c h whole =
    same_nodes-IsWhole s t
      (OnOk-eq (KeepsNodes s) (claim_node d w i by session reassign s) h (
        OnOk-bind (KeepsNodes s) (require_node d s i) _ λ node _.
          claim_existing-KeepsNodes d w node by session reassign (get_active_claim s i) s))
      (claim_node-IsHeldBy d w i by session reassign s t c h whole.single).single whole

pub release_node-IsWhole :
    (d : Decisions) (w : World) (i by : ℕ) (reason : Option String) (s t : Store) (c : Claim)
    → release_node d w i by reason s ≡ ok (t, c)
    → IsWhole s
    → IsWhole t
unfolding release_node
release_node-IsWhole d w i by reason s t c h whole =
    same_nodes-IsWhole s t
      (OnOk-eq (KeepsNodes s) (release_node d w i by reason s) h
        (OnOk-bind (KeepsNodes s) (require_node d s i) _ λ _ _. active (get_active_claim s i)))
      (release_node-IsFree d w i by reason s t c h whole.single).single whole
  where
    active : (a : Option Claim) → OnOk (KeepsNodes s) (release_active w i by reason a s)
    active none = tt
    active (some b) = refl
