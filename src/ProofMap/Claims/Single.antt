-- ===== src/ProofMap/Claims/Single.antt =====
-- At most one claim on a node is active, and who holds a node after an operation.
use proof_cli.Base.{
  ℕ, ◌≡◌, refl, String, Bool, true, false, ◌&&◌, Option, none, some, List, [], ◌∷◌, ◌++◌, is_some,
  is_none, if◌then◌else◌, arith,
}
use proof_cli.ProofMap.Types.{Claim, Store, Happening, ◌>>=◌, World}
use proof_cli.ProofMap.Tables.{
  find_active, is_active_on, release_in, get_active_claim, new_claim, mark_claim_released,
}
use proof_cli.ProofMap.Claims.{claim_from, write_claim}
use proof_cli.ProofMap.Results.{OnOk}

-- The unique index on active claims holds of the table.
abbrev pub HasSingleClaims : List Claim → Type 0
HasSingleClaims [] = Unit
HasSingleClaims (c ∷ claims) =
    (is_none c.released_at && is_some (find_active c.node_id claims) ≡ false)
    × HasSingleClaims claims

pub release_in-none :
    (now i by : ℕ) (reason : String) (n : ℕ) (claims : List Claim)
    → find_active n claims ≡ none
    → find_active n (release_in now i by reason claims) ≡ none
unfolding find_active release_in
release_in-none now i by reason n [] h = h
release_in-none now i by reason n (c ∷ claims) h =
    ground (arith, release_in-none now i by reason n claims)

pub release_in-HasSingleClaims :
    (now i by : ℕ) (reason : String) (claims : List Claim)
    → HasSingleClaims claims
    → HasSingleClaims (release_in now i by reason claims)
unfolding release_in
release_in-HasSingleClaims now i by reason [] h = tt
release_in-HasSingleClaims now i by reason (c ∷ claims) h = (
  ground (arith, h.0, release_in-none now i by reason c.node_id claims),
  release_in-HasSingleClaims now i by reason claims h.1,
)

pub find_active-snoc :
    (n : ℕ) (claims : List Claim) (c : Claim)
    → find_active n (claims ++ c ∷ []) ≡ (
        if is_some (find_active n claims)
        then find_active n claims
        else if is_active_on n c
        then some c
        else none)
unfolding find_active
find_active-snoc n [] c = ground arith
find_active-snoc n (x ∷ claims) c = ground (arith, find_active-snoc n claims c)

pub insert-HasSingleClaims :
    (claims : List Claim) (c : Claim)
    → find_active c.node_id claims ≡ none
    → HasSingleClaims claims
    → HasSingleClaims (claims ++ c ∷ [])
unfolding find_active
insert-HasSingleClaims [] c h k = (ground arith, tt)
insert-HasSingleClaims (x ∷ claims) c h k = (
  ground (arith, k.0, find_active-snoc x.node_id claims c, h),
  insert-HasSingleClaims claims c (ground (arith, h)) k.1,
)

-- Releasing the active claim of a node leaves the node without one.
pub release_in-active :
    (now by : ℕ) (reason : String) (n : ℕ) (claims : List Claim) (c : Claim)
    → HasSingleClaims claims
    → find_active n claims ≡ some c
    → find_active n (release_in now c.id by reason claims) ≡ none
unfolding find_active release_in
release_in-active now by reason n [] c k h = cc
release_in-active now by reason n (x ∷ claims) c k h = ground (
  arith,
  k.0,
  release_in-active now by reason n claims c k.1,
  release_in-none now c.id by reason n claims,
)

pub find_active-node :
    (n : ℕ) (claims : List Claim) (c : Claim) → find_active n claims ≡ some c → c.node_id ≡ n
unfolding find_active
find_active-node n [] c h = cc
find_active-node n (x ∷ claims) c h = ground (arith, find_active-node n claims c)

-- `actor` holds the node, by the claim `c`, and no claim is active twice.
pub record IsHeldBy (node_id actor : ℕ) (s : Store) (c : Claim) : Type 0 where
  pub single : HasSingleClaims s.claims
  pub holder : c.claimant_id ≡ actor
  pub active : get_active_claim s node_id ≡ some c

abbrev pub Outcome : ℕ → ℕ → Store × Claim → Type 0
Outcome node_id actor (s, c) = IsHeldBy node_id actor s c

write_claim-IsHeldBy :
    (what : Happening) (c : Claim) (before s : Store)
    → HasSingleClaims s.claims
    → is_none c.released_at ≡ true
    → get_active_claim s c.node_id ≡ none
    → OnOk (Outcome c.node_id c.claimant_id) (write_claim what c before s)
unfolding ◌>>=◌
write_claim-IsHeldBy what c before s single open_ free = rw free (record {
  single = insert-HasSingleClaims s.claims c free single;
  holder = refl;
  active = ground (arith, find_active-snoc c.node_id s.claims c, free, open_);
})

pub claim_from-IsHeldBy :
    (w : World) (node_id claimant_id : ℕ) (session_id : String) (reassign : Bool)
    (existing : Option Claim) (s : Store)
    → HasSingleClaims s.claims
    → get_active_claim s node_id ≡ existing
    → OnOk
        (Outcome node_id claimant_id)
        (claim_from w node_id claimant_id session_id reassign existing s)
claim_from-IsHeldBy w node_id claimant_id session_id reassign none s single e =
    write_claim-IsHeldBy _ (new_claim w node_id claimant_id session_id s) s s single refl e
claim_from-IsHeldBy w node_id claimant_id session_id false (some c) s single e = tt
claim_from-IsHeldBy w node_id claimant_id session_id true (some c) s single e =
    let released = mark_claim_released w c.id claimant_id "reassigned" s in
    write_claim-IsHeldBy _ (new_claim w node_id claimant_id session_id released) s released
      (release_in-HasSingleClaims w.now c.id claimant_id "reassigned" s.claims single) refl
      (release_in-active w.now claimant_id "reassigned" node_id s.claims c single e)
