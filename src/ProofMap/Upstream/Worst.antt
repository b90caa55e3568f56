-- ===== src/ProofMap/Upstream/Worst.antt =====
-- The worst cause that is met from a node on.
use proof_cli.Base.{ℕ, ◌≡◌, ◌≤◌, refl, subst, sym, true, List, ◌⊎◌, inl, inr, arith}
use proof_cli.Graph.Reach.{In, Reach, Reach-edge, Reach-first}
use proof_cli.ProofMap.Upstream.{Cause, clear, stale, challenged, cause_rank, worse, is_challenged}

pub cause_rank-challenged : (c : Cause) → cause_rank c ≤ cause_rank challenged
cause_rank-challenged clear = omega arith
cause_rank-challenged stale = omega arith
cause_rank-challenged challenged = omega arith

pub is_challenged_lem : (c : Cause) → is_challenged c ≡ true → c ≡ challenged
is_challenged_lem clear h = cc
is_challenged_lem stale h = cc
is_challenged_lem challenged h = refl

pub cause_rank-clear : (c : Cause) → cause_rank c ≤ cause_rank clear → c ≡ clear
cause_rank-clear clear h = refl
cause_rank-clear stale h = ground arith
cause_rank-clear challenged h = ground arith

pub worse-left : (a b : Cause) → cause_rank a ≤ cause_rank (worse a b)
unfolding worse
worse-left a b = ground arith

pub worse-right : (a b : Cause) → cause_rank b ≤ cause_rank (worse a b)
unfolding worse
worse-right a b = ground arith

pub worse-either : (a b : Cause) → (worse a b ≡ a) ⊎ (worse a b ≡ b)
unfolding worse
worse-either a b = ground arith

module _ (next : ℕ → List ℕ) (own : ℕ → Cause) where
  -- No node that `a` leads to starts a worse cause.
  abbrev pub Bounded : ℕ → Cause → Type 0
  Bounded a c = (b : ℕ) → Reach next a b → cause_rank (own b) ≤ cause_rank c

  -- Some node that `a` leads to, which may be `a`, starts the cause.
  abbrev pub Attained : ℕ → Cause → Type 0
  Attained a c = (b : ℕ) × Reach next a b × (own b ≡ c)

  -- The worst cause that any node starts that `a` leads to.
  pub record IsWorst (a : ℕ) (c : Cause) : Type 0 where
    pub bounded : Bounded a c
    pub attained : Attained a c

  pub Bounded-weaken :
      (a : ℕ) (c c' : Cause) → cause_rank c ≤ cause_rank c' → Bounded a c → Bounded a c'
  Bounded-weaken a c c' le h b p = let small = h b p in omega (arith, small, le)

  pub Attained-edge : (a b : ℕ) (c : Cause) → In b (next a) → Attained b c → Attained a c
  Attained-edge a b c e (x, p, same) = (x, Reach-edge e p, same)

  pub Attained-worse :
      (a : ℕ) (c c' : Cause) → Attained a c → Attained a c' → Attained a (worse c c')
  Attained-worse a c c' h k = elim (worse-either c c') [
    | inl e ↦ subst (Attained a) (sym e) h
    | inr e ↦ subst (Attained a) (sym e) k
  ]

  -- A cause that bounds the node itself and its successors bounds it.
  pub Bounded-successors :
      (a : ℕ) (c : Cause)
      → cause_rank (own a) ≤ cause_rank c
      → ((d : ℕ) → In d (next a) → Bounded d c)
      → Bounded a c
  Bounded-successors a c le h b p = elim (Reach-first p) [
    | inl same ↦ subst (λ z. cause_rank (own z) ≤ cause_rank c) same le
    | inr (d, e, q) ↦ h d e b q
  ]
