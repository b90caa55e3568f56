-- ===== src/Graph/Acyclic.antt =====
-- Changes of a graph that make no cycle.
use proof_cli.Base.{ℕ, ◌≡◌, List, ◌⊎◌, inl, inr, subst}
use proof_cli.Graph.Reach.{In, Reach, here, step, Reach-trans, Reach-edge, Reach-mono, IsAcyclic}

-- Fewer edges make no cycle.
pub IsAcyclic-fewer :
    {next next' : ℕ → List ℕ}
    → IsAcyclic next
    → ((x d : ℕ) → In d (next' x) → In d (next x))
    → IsAcyclic next'
IsAcyclic-fewer acyclic fewer a b e p = acyclic a b (fewer a b e) (Reach-mono fewer p)

module _ {next next' : ℕ → List ℕ} (node : ℕ) (new : List ℕ)
    (only : (x d : ℕ) → In d (next' x) → In d (next x) ⊎ ((x ≡ node) × In d new)) where
  -- A way in the larger graph is one in the smaller, or runs through `node` to a new target.
  pub Reach-new :
      {a b : ℕ}
      → Reach next' a b
      → Reach next a b ⊎ (Reach next a node × ((c : ℕ) × In c new × Reach next c b))
  Reach-new here = inl here
  Reach-new {a} (step {b} {c} p e) = elim (only b c e) [
    | inl old ↦ elim (Reach-new p) [
      | inl q ↦ inl (step q old)
      | inr (q, (d, k, r)) ↦ inr (q, (d, k, step r old))
    ]
    | inr (same, k) ↦ elim (Reach-new p) [
      | inl q ↦ inr (subst (λ z. Reach next a z) same q, (c, k, here))
      | inr (q, _) ↦ inr (q, (c, k, here))
    ]
  ]

  -- Edges from `node` to targets that do not reach it make no cycle.
  pub IsAcyclic-new :
      IsAcyclic next → ((c : ℕ) → In c new → Reach next c node → ⊥) → IsAcyclic next'
  IsAcyclic-new acyclic unreached a b e p = elim (only a b e) [
    | inl old ↦ elim (Reach-new p) [
      | inl q ↦ acyclic a b old q
      | inr (q, (c, k, r)) ↦ unreached c k (Reach-trans r (Reach-edge old q))
    ]
    | inr (same, k) ↦ elim (Reach-new p) [
      | inl q ↦ unreached b k (subst (λ z. Reach next b z) same q)
      | inr (q, _) ↦ unreached b k q
    ]
  ]
