-- ===== src/NodeStates/Through.antt =====
-- What a conclusion of src/proof_cli/node_states.py says of everything that the node rests on.
use proof_cli.Base.{
  ℕ, ◌≡◌, ◌≢◌, refl, sym, subst, Bool, List, map, ◌==◌, ◌⊎◌, inl, inr, arith, Bool-cases, All,
}
use proof_cli.Graph.Reach.{In, Reach, here, step}
use proof_cli.Graph.Denotes.{Denotes, nothing, also}
use proof_cli.ProofMap.Types.{Store, Decisions}
use proof_cli.ProofMap.Tables.{get_node}
use proof_cli.ProofMap.Edges.{dependencies_of}
use proof_cli.NodeStates.Types.{
  sealed_true, expert_verified, verified_true, Challenge, Readings, OwnStates,
}
use proof_cli.NodeStates.Weakest.{conclusion-verified_true}
use proof_cli.NodeStates.Walk.{NodeStates, own_of, states_from}
use proof_cli.ProofMap.Tables.{exists_in}
use proof_cli.NodeStates.Reading.{AreStatesOf}

Reach-first :
    {next : ℕ → List ℕ} {a b : ℕ}
    → Reach next a b
    → (a ≡ b) ⊎ ((c : ℕ) × In c (next a) × Reach next c b)
Reach-first here = inl refl
Reach-first {next} {a} (step {b} {c} p e) = elim (Reach-first p) [
  | inl same ↦ inr (c, subst (λ z. In c (next z)) (sym same) e, here)
  | inr (x, k, q) ↦ inr (x, k, step q e)
]

module _ (r : Readings) (d : Decisions) (s : Store) (decides : Challenge → Bool) where
  -- The own states of a node, as the walk reads them.
  abbrev pub own_at : ℕ → OwnStates
  own_at i = own_of r s decides (get_node d s i)

  abbrev AllVerified : List NodeStates → Type 0
  AllVerified vs = All (λ c. c ≡ verified_true) (map (λ (n : NodeStates). n.conclusion) vs)

  verified_below :
      {ds : List ℕ} {vs : List NodeStates}
      → Denotes (dependencies_of s.nodes) (exists_in s) (states_from r d s decides) ds vs
      → ((i : ℕ) → (own_at i).seal ≢ sealed_true)
      → AllVerified vs
      → (x b : ℕ) → In x ds
      → Reach (dependencies_of s.nodes) x b
      → (own_at b).proof_layer ≡ expert_verified
  unfolding states_from
  verified_below nothing unsealed all x b h p = cc
  verified_below (also {i} {ds} {vs} {rest} e below others) unsealed all x b h p =
      elim (Bool-cases (i == x)) [
        | inr differs ↦ verified_below others unsealed all.1 x b (rw differs at h) p
        | inl same ↦
            let is : x ≡ i = ground arith in
            let reach : Reach (dependencies_of s.nodes) i b =
              subst (λ z. Reach (dependencies_of s.nodes) z b) is p in
            elim ((conclusion-verified_true (own_at i).seal (own_at i).statement_layer
                (own_at i).proof_layer (map (λ n. n.conclusion) vs)).0
              all.0) [
                | inl sealed ↦ absurd (unsealed i sealed)
                | inr (u, st, expert, all_below) ↦ elim (Reach-first reach) [
                  | inl ends ↦ rw (← ends) expert
                  | inr (c, k, q) ↦ verified_below below unsealed all_below c b k q
                ]
              ]
      ]

-- If no node is sealed true and a node is verified true, every node that it rests on, itself
-- included, reads expert-verified.
pub verified_true_through :
    (r : Readings) (d : Decisions) (s : Store) (decides : Challenge → Bool) (i b : ℕ)
    (states : NodeStates)
    → AreStatesOf r d s decides i states
    → ((j : ℕ) → (own_of r s decides (get_node d s j)).seal ≢ sealed_true)
    → states.conclusion ≡ verified_true
    → Reach (dependencies_of s.nodes) i b
    → (own_of r s decides (get_node d s b)).proof_layer ≡ expert_verified
verified_true_through r d s decides i b states are unsealed verified p =
    verified_below r d s decides are unsealed (verified, tt) i b (ground arith) p
