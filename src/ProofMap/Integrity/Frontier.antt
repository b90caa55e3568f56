-- ===== src/ProofMap/Integrity/Frontier.antt =====
-- Whoever asks for a node of the frontier gets it.
use proof_cli.Base.{
  ℕ, ◌≡◌, refl, sym, subst, String, Bool, true, false, Option, none, some, List, [], ◌∷◌, ◌==◌,
  is_none, contains, keep, map, All, All-map_of, Bool-cases, inl, inr, arith,
}
use proof_cli.Graph.Reach.{In}
use proof_cli.ProofMap.Types.{Node, Claim, Store, ok, Decisions, World}
use proof_cli.ProofMap.Tables.{find_node, get_node, require_node, get_active_claim, as_counted}
use proof_cli.ProofMap.Edges.{list_nodes, node_ids}
use proof_cli.ProofMap.Edges.Dual.{HasKeys}
use proof_cli.ProofMap.Claims.{claim_node, not_pickable}
use proof_cli.ProofMap.Claims.Single.{HasSingleClaims, IsHeldBy}
use proof_cli.ProofMap.Claims.Holding.{claim_node_grants, claim_node-IsHeldBy}
use proof_cli.ProofMap.Workflow.{Records}
use proof_cli.ProofMap.Workflow.Blocked.{as_counted-id}
use proof_cli.ProofMap.Integrity.{is_ready, get_frontier}

-- The row is what its id finds.
abbrev IsFound : List Node → Node → Type 0
IsFound nodes n = (find_node n.id nodes ≡ some n) × In n.id (node_ids nodes)

IsFound-cons :
    (m : Node) (nodes : List Node) (n : Node)
    → contains (node_ids nodes) m.id ≡ false
    → IsFound nodes n
    → IsFound (m ∷ nodes) n
unfolding find_node
IsFound-cons m nodes n new (found, there) = elim (Bool-cases (m.id == n.id)) [
  | inl e ↦
      let same : m.id ≡ n.id = ground arith in
      let twice : contains (node_ids nodes) m.id ≡ true =
        subst (λ z. In z (node_ids nodes)) (sym same) there in
      absurd (ground arith)
  | inr e ↦ (ground (arith, found), ground (arith, there))
]

rows-IsFound : (nodes : List Node) → HasKeys nodes → All (IsFound nodes) nodes
unfolding find_node
rows-IsFound [] k = tt
rows-IsFound (m ∷ nodes) k = (
  (ground arith, ground arith),
  All-map_of (IsFound nodes) (IsFound (m ∷ nodes)) nodes (λ n h. IsFound-cons m nodes n k.0 h)
      (rows-IsFound nodes k.1),
)

All-keep {ℓ κ} :
    {A : Type ℓ} (P : A → Type κ) (p : A → Bool) (xs : List A)
    → All (λ x. p x ≡ true → P x) xs
    → All P (keep p xs)
All-keep P p [] h = tt
All-keep P p (x ∷ xs) h = elim (Bool-cases (p x)) [
  | inl e ↦ rw e (h.0 e, All-keep P p xs h.1)
  | inr e ↦ rw e (All-keep P p xs h.1)
]

All-map {ℓ κ μ} :
    {A : Type ℓ} {B : Type κ} (P : B → Type μ) (f : A → B) (xs : List A)
    → All (λ x. P (f x)) xs
    → All P (map f xs)
All-map P f [] h = tt
All-map P f (x ∷ xs) h = (h.0, All-map P f xs h.1)

is_none_lem {ℓ} : {A : Type ℓ} (x : Option A) → is_none x ≡ true → x ≡ none
is_none_lem none h = refl
is_none_lem (some a) h = absurd (cc)

-- The claim on the node is granted, and the claimant holds it.
abbrev pub IsGranted : Decisions → World → ℕ → String → Store → Node → Type 0
IsGranted d w claimant_id session_id s n =
    (r : Store × Claim) × (claim_node d w n.id claimant_id session_id false s ≡ ok r)
    × IsHeldBy n.id claimant_id r.0 r.1

ready-IsGranted :
    (d : Decisions) (w : World) (r : Records) (claimant_id : ℕ) (session_id : String) (s : Store)
    (n : Node)
    → HasSingleClaims s.claims
    → require_node d s n.id ≡ ok n
    → is_ready d r s n ≡ true
    → IsGranted d w claimant_id session_id s n
unfolding is_ready
ready-IsGranted d w r claimant_id session_id s n single found h =
    let free = is_none_lem (get_active_claim s n.id) (ground (arith, h)) in
    let pickable = is_none_lem (not_pickable d s n) (ground (arith, h)) in
    let (granted, e) =
      claim_node_grants d w n.id claimant_id session_id false s n single found pickable
        (inr free) in
    (
      granted,
      e,
      claim_node-IsHeldBy d w n.id claimant_id session_id false s granted.0 granted.1 e single,
    )

counted-found :
    (d : Decisions) (s : Store) (m : Node)
    → IsFound s.nodes m
    → require_node d s (as_counted d s m).id ≡ ok (as_counted d s m)
unfolding require_node get_node
counted-found d s m (found, _) = rw (as_counted-id d s m, found) refl

-- If the ids are distinct and at most one claim on a node is active, every node of the frontier is
-- granted to whoever asks for it, without taking it from anyone: `claim_node` returns, and the
-- claimant holds the node.
pub get_frontier-IsGranted :
    (d : Decisions) (w : World) (r : Records) (claimant_id : ℕ) (session_id : String) (s : Store)
    → HasKeys s.nodes
    → HasSingleClaims s.claims
    → All (IsGranted d w claimant_id session_id s) (get_frontier d r s)
unfolding get_frontier list_nodes
get_frontier-IsGranted d w r claimant_id session_id s keys single =
    All-keep (IsGranted d w claimant_id session_id s) (is_ready d r s)
      (map (as_counted d s) s.nodes)
      (All-map (λ n. is_ready d r s n ≡ true → IsGranted d w claimant_id session_id s n)
        (as_counted d s) s.nodes
        (All-map_of (IsFound s.nodes) _ s.nodes
          (λ m found ready.
            ready-IsGranted d w r claimant_id session_id s (as_counted d s m) single
              (counted-found d s m found) ready)
          (rows-IsFound s.nodes keys)))
