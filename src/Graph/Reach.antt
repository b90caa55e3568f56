-- ===== src/Graph/Reach.antt =====
-- Reachability along the edges of a graph, given by the successors of each identifier.
use proof_cli.Base.{ℕ, ◌≡◌, refl, sym, subst, ◌⊎◌, inl, inr, true, List, contains}

abbrev pub In : ℕ → List ℕ → Type 0
In x xs = contains xs x ≡ true

pub data Reach (next : ℕ → List ℕ) (a : ℕ) : ℕ → Type 0 where
  here : Reach next a a
  step : {b c : ℕ} → Reach next a b → In c (next b) → Reach next a c

module _ {next : ℕ → List ℕ} where
  pub Reach-trans : {a b c : ℕ} → Reach next a b → Reach next b c → Reach next a c
  Reach-trans p here = p
  Reach-trans p (step q e) = step (Reach-trans p q) e

  pub Reach-edge : {a b c : ℕ} → In b (next a) → Reach next b c → Reach next a c
  Reach-edge e p = Reach-trans (step here e) p

  -- A set that holds `a` and the successors of its members holds whatever `a` reaches.
  pub Reach-closed :
      (found : List ℕ) {a b : ℕ}
      → In a found
      → ((x d : ℕ) → In x found → In d (next x) → In d found)
      → Reach next a b
      → In b found
  Reach-closed found h closed here = h
  Reach-closed found h closed (step {b} {c} p e) = closed b c (Reach-closed found h closed p) e

-- A way is empty or begins with an edge.
pub Reach-first :
    {next : ℕ → List ℕ} {a b : ℕ}
    → Reach next a b
    → (a ≡ b) ⊎ ((c : ℕ) × In c (next a) × Reach next c b)
Reach-first here = inl refl
Reach-first {next} {a} (step {b} {c} p e) = elim (Reach-first p) [
  | inl same ↦ inr (c, subst (λ z. In c (next z)) (sym same) e, here)
  | inr (d, k, q) ↦ inr (d, k, step q e)
]

-- More edges reach more.
pub Reach-mono :
    {next next' : ℕ → List ℕ} {a b : ℕ}
    → ((x d : ℕ) → In d (next x) → In d (next' x))
    → Reach next a b
    → Reach next' a b
Reach-mono more here = here
Reach-mono more (step {b} {c} p e) = step (Reach-mono more p) (more b c e)

-- No identifier reaches itself along an edge and more.
abbrev pub IsAcyclic : (ℕ → List ℕ) → Type 0
IsAcyclic next = (a b : ℕ) → In b (next a) → Reach next b a → ⊥
