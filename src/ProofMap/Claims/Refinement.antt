-- ===== src/ProofMap/Claims/Refinement.antt =====
-- `claim_node` and `release_node` refine the abstract operations: a node changes hands, or is let go.
use proof_cli.Base.{
  ℕ, ◌≡◌, ◌∙◌, refl, sym, ap, subst, String, Bool, true, false, is_none, Option, none, some, List,
  ◌==◌, if◌then◌else◌, Bool-cases, inl, inr, arith,
}
use proof_cli.ProofMap.Types.{Node, Claim, Store, Happening, ok, Decisions, World}
use proof_cli.ProofMap.Tables.{
  find_active, get_active_claim, mark_claim_released, new_claim, require_node,
}
use proof_cli.ProofMap.Claims.{
  claim_node, claim_from, claim_existing, claim_pickable, write_claim, not_pickable, or_refuse,
  release_node, release_active, release_reason_of,
}
use proof_cli.ProofMap.Claims.Single.{HasSingleClaims, release_in-active}
use proof_cli.ProofMap.Claims.Holders.{
  holder, given_to, let_go, has_id, HasIds, Refines, has_id-release_in, insert-Refines,
  release-Refines,
}
use proof_cli.ProofMap.Edit.Writes.{require_node-IsRow}
use proof_cli.ProofMap.Results.{OnOk, OnOk-eq, OnOk-map, OnOk-bind}

-- The clock makes no id that a claim has.
abbrev pub IsFresh : World → List Claim → Type 0
IsFresh w claims = (i : ℕ) → has_id (w.fresh i) claims ≡ false

abbrev Gives : ℕ → ℕ → Store → Store × Claim → Type 0
Gives n by s r = Refines (given_to n by (holder s.claims)) r.0.claims

write_claim-Gives :
    (what : Happening) (c : Claim) (before s : Store)
    → get_active_claim s c.node_id ≡ none
    → has_id c.id s.claims ≡ false
    → HasIds s.claims
    → c.released_at ≡ none
    → OnOk (Gives c.node_id c.claimant_id s) (write_claim what c before s)
write_claim-Gives what c before s free new ids open_ =
    rw free (insert-Refines s.claims c free (ap is_none open_) new ids)

claim_from-Gives :
    (w : World) (n by : ℕ) (session : String) (reassign : Bool) (existing : Option Claim)
    (s : Store)
    → HasSingleClaims s.claims
    → HasIds s.claims
    → IsFresh w s.claims
    → get_active_claim s n ≡ existing
    → OnOk (Gives n by s) (claim_from w n by session reassign existing s)
claim_from-Gives w n by session reassign none s single ids fresh e =
    write_claim-Gives _ (new_claim w n by session s) s s e (fresh _) ids refl
claim_from-Gives w n by session false (some c) s single ids fresh e = tt
claim_from-Gives w n by session true (some c) s single ids fresh e =
    let released = mark_claim_released w c.id by "reassigned" s in
    let let_it_go = release-Refines w.now by "reassigned" n s.claims c single ids e in
    OnOk-map (Gives n by released) (Gives n by s) (claim_from w n by session true (some c) s)
      (λ r h. record {
        holds = λ m. h.holds m ∙ given_again (holder s.claims) m (let_it_go.holds m);
        ids = h.ids;
      })
      (write_claim-Gives _ (new_claim w n by session released) s released
        (release_in-active w.now by "reassigned" n s.claims c single e)
        (has_id-release_in w.now c.id by "reassigned" (new_claim w n by session released).id
            s.claims
          ∙ fresh _)
        let_it_go.ids refl)
  where
    given_again :
        (before : ℕ → Option ℕ) (m : ℕ) {after : Option ℕ}
        → after ≡ let_go n before m
        → (if m == n then some by else after) ≡ given_to n by before m
    given_again before m h = elim (Bool-cases (m == n)) [
      | inl at ↦ rw at refl
      | inr off ↦ ground (arith, h, off)
    ]

claim_pickable-Gives :
    (d : Decisions) (w : World) (node : Node) (by : ℕ) (session : String) (reassign : Bool)
    (existing : Option Claim) (s : Store)
    → HasSingleClaims s.claims
    → HasIds s.claims
    → IsFresh w s.claims
    → get_active_claim s node.id ≡ existing
    → OnOk (Gives node.id by s) (claim_pickable d w node by session reassign existing s)
claim_pickable-Gives d w node by session reassign existing s single ids fresh e =
    OnOk-bind (Gives node.id by s) (or_refuse (not_pickable d s node)) _
      λ _ _. claim_from-Gives w node.id by session reassign existing s single ids fresh e

claim_existing-Gives :
    (d : Decisions) (w : World) (node : Node) (by : ℕ) (session : String) (reassign : Bool)
    (existing : Option Claim) (s : Store)
    → HasSingleClaims s.claims
    → HasIds s.claims
    → IsFresh w s.claims
    → get_active_claim s node.id ≡ existing
    → OnOk (Gives node.id by s) (claim_existing d w node by session reassign existing s)
claim_existing-Gives d w node by session reassign none s single ids fresh e =
    claim_pickable-Gives d w node by session reassign none s single ids fresh e
claim_existing-Gives d w node by session reassign (some c) s single ids fresh e =
    elim (Bool-cases (c.claimant_id == by)) [
      | inl mine ↦ rw mine (record { holds = λ m. kept m mine; ids = ids })
      | inr other ↦
          rw other (claim_pickable-Gives d w node by session reassign (some c) s single ids fresh e)
    ]
  where
    kept :
        (m : ℕ)
        → (c.claimant_id == by) ≡ true
        → holder s.claims m ≡ given_to node.id by (holder s.claims) m
    kept m mine = elim (Bool-cases (m == node.id)) [
      | inl at ↦
          let same : m ≡ node.id = ground arith in
          let held : find_active m s.claims ≡ some c =
            subst (λ z. find_active z s.claims ≡ some c) (sym same) e in
          let who : c.claimant_id ≡ by = ground arith in rw (held, at) (ap some who)
      | inr off ↦ rw off refl
    ]

-- If at most one claim on a node is active, no two claims have one id and the ids that the call
-- makes are new, then after a `claim_node` that returned the node is held by the claimant, every
-- other node by whom it was, and no two claims have one id.
pub claim_node-Refines :
    (d : Decisions) (w : World) (n by : ℕ) (session : String) (reassign : Bool) (s : Store)
    (r : Store × Claim)
    → claim_node d w n by session reassign s ≡ ok r
    → HasSingleClaims s.claims
    → HasIds s.claims
    → IsFresh w s.claims
    → Refines (given_to n by (holder s.claims)) r.0.claims
unfolding claim_node
claim_node-Refines d w n by session reassign s r h single ids fresh =
    OnOk-eq (Gives n by s) (claim_node d w n by session reassign s) h (
      OnOk-bind (Gives n by s) (require_node d s n) _ λ node found.
        let named = (require_node-IsRow d s n node found).named in
        subst
          (λ i.
            OnOk (Gives i by s)
              (claim_existing d w node by session reassign (get_active_claim s n) s))
          named
          (claim_existing-Gives d w node by session reassign (get_active_claim s n) s single ids
            fresh (ap (get_active_claim s) named)))

-- If at most one claim on a node is active and no two claims have one id, then after a
-- `release_node` that returned nobody holds the node, every other node is held by whom it was, and
-- no two claims have one id.
pub release_node-Refines :
    (d : Decisions) (w : World) (n by : ℕ) (reason : Option String) (s : Store) (r : Store × Claim)
    → release_node d w n by reason s ≡ ok r
    → HasSingleClaims s.claims
    → HasIds s.claims
    → Refines (let_go n (holder s.claims)) r.0.claims
unfolding release_node
release_node-Refines d w n by reason s r h single ids =
    OnOk-eq (λ (z : Store × Claim). Refines (let_go n (holder s.claims)) z.0.claims)
      (release_node d w n by reason s) h
      (OnOk-bind (λ (z : Store × Claim). Refines (let_go n (holder s.claims)) z.0.claims)
        (require_node d s n) _ λ node found. released (get_active_claim s n) refl)
  where
    released :
        (a : Option Claim)
        → get_active_claim s n ≡ a
        → OnOk
            (λ (z : Store × Claim). Refines (let_go n (holder s.claims)) z.0.claims)
            (release_active w n by reason a s)
    released none e = tt
    released (some c) e =
        release-Refines w.now by (release_reason_of by reason c) n s.claims c single ids e
