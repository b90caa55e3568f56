-- ===== src/ProofMap/Upstream/Mass.antt =====
-- What is left of the walk shrinks with every node that is seen.
use proof_cli.Base.{
  ℕ, suc, ◌+◌, ◌≤◌, ◌≡◌, Bool, true, false, List, [], ◌∷◌, ◌==◌, length, Bool-cases, inl, inr,
  arith,
}
use proof_cli.Graph.Reach.{In}
use proof_cli.ProofMap.Upstream.{mass, push_all}

module _ (next : ℕ → List ℕ) where
  -- Seeing more leaves no more.
  pub mass-more :
      (seen seen' : ℕ → Bool) (all : List ℕ)
      → ((u : ℕ) → seen u ≡ true → seen' u ≡ true)
      → mass next seen' all ≤ mass next seen all
  unfolding mass
  mass-more seen seen' [] h = omega arith
  mass-more seen seen' (u ∷ us) h = ground (arith, h u, mass-more seen seen' us h)

  -- Seeing a new node takes its dependencies off, and two.
  pub mass-new :
      (seen seen' : ℕ → Bool) (i : ℕ) (all : List ℕ)
      → ((u : ℕ) → seen u ≡ true → seen' u ≡ true)
      → seen i ≡ false
      → seen' i ≡ true
      → In i all
      → suc (suc (length (next i))) + mass next seen' all ≤ mass next seen all
  unfolding mass
  mass-new seen seen' i [] h off on k = cc
  mass-new seen seen' i (u ∷ us) h off on k = elim (Bool-cases (u == i)) [
    | inl e ↦ ground (arith, mass-more seen seen' us h)
    | inr e ↦ ground (arith, h u, mass-new seen seen' i us h off on)
  ]

pub length-push_all :
    (ds pending : List ℕ) → length (push_all ds pending) ≡ length ds + length pending
length-push_all [] pending = omega arith
length-push_all (d ∷ ds) pending = omega (arith, length-push_all ds (d ∷ pending))
