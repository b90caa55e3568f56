-- ===== src/NodeStates/Weakest.antt =====
-- A conclusion is never above the weakest dependency, and no lower than it and the node's own
-- layers make it.
use proof_cli.Base.{
  ◌≤◌, ◌≡◌, ◌≢◌, refl, false, List, [], ◌∷◌, map, ◌↔◌, ◌⊎◌, inl, inr, arith, Bool-cases, ltb, All,
}
use proof_cli.NodeStates.Types.{
  Seal, unsealed, sealed_true, sealed_false, StatementLayer, unchallenged, challenged_as_false,
  found_false, ProofLayer, incomplete, checks_passed, expert_verified, Conclusion, uncertain,
  is_true, verified_true, is_false,
}
use proof_cli.NodeStates.Conclusion.{rank, capped, own_conclusion, min_by_rank, conclusion}

-- A member of the list.
pub data Among {ℓ} {A : Type ℓ} (a : A) : List A → Type ℓ where
  head : {xs : List A} → Among a (a ∷ xs)
  tail : {x : A} {xs : List A} → Among a xs → Among a (x ∷ xs)

min_by_rank-le : (c : Conclusion) (cs : List Conclusion) → rank (min_by_rank c cs) ≤ rank c
unfolding min_by_rank
min_by_rank-le c [] = omega arith
min_by_rank-le c (d ∷ cs) = elim (Bool-cases (ltb (rank d) (rank c))) [
  | inl less ↦ rw less (grind (arith, min_by_rank-le d cs, less))
  | inr more ↦ rw more (min_by_rank-le c cs)
]

min_by_rank-each :
    (c : Conclusion) (ds : List Conclusion) {d : Conclusion}
    → Among d ds
    → rank (min_by_rank c (map capped ds)) ≤ rank (capped d)
unfolding min_by_rank
min_by_rank-each c [] h = elim h [ ]
min_by_rank-each c (d ∷ ds) head = elim (Bool-cases (ltb (rank (capped d)) (rank c))) [
  | inl less ↦ rw (less, min_by_rank) (min_by_rank-le (capped d) (map capped ds))
  | inr more ↦ rw (more, min_by_rank) (grind (arith, min_by_rank-le c (map capped ds), more))
]
min_by_rank-each c (x ∷ ds) (tail h) = elim (Bool-cases (ltb (rank (capped x)) (rank c))) [
  | inl less ↦ rw (less, min_by_rank) (min_by_rank-each (capped x) ds h)
  | inr more ↦ rw (more, min_by_rank) (min_by_rank-each c ds h)
]

-- It is one of the conclusions that it was taken of.
abbrev pub IsOneOf : Conclusion → List Conclusion → Conclusion → Type 0
IsOneOf own ds c = (c ≡ own) ⊎ ((d : Conclusion) × Among d ds × (c ≡ capped d))

IsOneOf-tail :
    {own x c : Conclusion} {ds : List Conclusion} → IsOneOf own ds c → IsOneOf own (x ∷ ds) c
IsOneOf-tail (inl same) = inl same
IsOneOf-tail (inr (d, h, same)) = inr (d, tail h, same)

IsOneOf-head :
    {own x c : Conclusion} {ds : List Conclusion} → IsOneOf (capped x) ds c → IsOneOf own (x ∷ ds) c
IsOneOf-head {x = x} (inl same) = inr (x, head, same)
IsOneOf-head (inr (d, h, same)) = inr (d, tail h, same)

min_by_rank-IsOneOf :
    (c : Conclusion) (ds : List Conclusion) → IsOneOf c ds (min_by_rank c (map capped ds))
unfolding min_by_rank
min_by_rank-IsOneOf c [] = inl refl
min_by_rank-IsOneOf c (x ∷ ds) = elim (Bool-cases (ltb (rank (capped x)) (rank c))) [
  | inl less ↦ rw (less, min_by_rank) (IsOneOf-head (min_by_rank-IsOneOf (capped x) ds))
  | inr more ↦ rw (more, min_by_rank) (IsOneOf-tail (min_by_rank-IsOneOf c ds))
]

-- `c` is the weakest of `own` and the dependencies' conclusions, a false one counted as uncertain.
pub record IsWeakest (own : Conclusion) (dependencies : List Conclusion) (c : Conclusion)
    : Type 0 where
  pub below_own : rank c ≤ rank own
  pub below_each : (d : Conclusion) → Among d dependencies → rank c ≤ rank (capped d)
  pub one_of : IsOneOf own dependencies c

-- The conclusion of an unsealed node whose statement was not found false is the weakest of what its
-- own layers say and of its dependencies' conclusions, a false one counted as uncertain.
pub conclusion-IsWeakest :
    (statement_layer : StatementLayer) (proof_layer : ProofLayer) (dependencies : List Conclusion)
    → statement_layer ≢ found_false
    → IsWeakest
        (own_conclusion statement_layer proof_layer)
        dependencies
        (conclusion unsealed statement_layer proof_layer dependencies)
unfolding conclusion
conclusion-IsWeakest found_false proof_layer ds other = absurd (other refl)
conclusion-IsWeakest unchallenged proof_layer ds other =
    weakest (own_conclusion unchallenged proof_layer) ds
  where
    weakest :
        (own : Conclusion) (ds : List Conclusion)
        → IsWeakest own ds (min_by_rank own (map capped ds))
    weakest own ds = record {
      below_own = min_by_rank-le own (map capped ds);
      below_each = λ d h. min_by_rank-each own ds h;
      one_of = min_by_rank-IsOneOf own ds;
    }
conclusion-IsWeakest challenged_as_false proof_layer ds other = record {
  below_own = min_by_rank-le (own_conclusion challenged_as_false proof_layer) (map capped ds);
  below_each = λ d h. min_by_rank-each (own_conclusion challenged_as_false proof_layer) ds h;
  one_of = min_by_rank-IsOneOf (own_conclusion challenged_as_false proof_layer) ds;
}

-- The node and all that it rests on directly are verified, and nothing speaks against it.
abbrev pub IsVerifiedThrough : Seal → StatementLayer → ProofLayer → List Conclusion → Type 0
IsVerifiedThrough seal statement_layer proof_layer dependencies =
    (seal ≡ unsealed)
    × (statement_layer ≡ unchallenged)
    × (proof_layer ≡ expert_verified)
    × All (λ d. d ≡ verified_true) dependencies

verified_above :
    (c d : Conclusion)
    → c ≡ verified_true
    → ltb (rank (capped d)) (rank c) ≡ false
    → d ≡ verified_true
verified_above c d top more = ground (arith, top, more)

min_by_rank-verified :
    (c : Conclusion) (ds : List Conclusion)
    → min_by_rank c (map capped ds) ≡ verified_true
    → (c ≡ verified_true) × All (λ d. d ≡ verified_true) ds
unfolding min_by_rank
min_by_rank-verified c [] h = (h, tt)
min_by_rank-verified c (d ∷ ds) h = elim (Bool-cases (ltb (rank (capped d)) (rank c))) [
  | inl less ↦
      let (top, rest) = min_by_rank-verified (capped d) ds (rw (less, min_by_rank) at h) in
      absurd (ground (arith, less, top))
  | inr more ↦
      let (top, rest) = min_by_rank-verified c ds (rw (more, min_by_rank) at h) in
      (top, (verified_above c d top more, rest))
]

verified-min_by_rank :
    (ds : List Conclusion)
    → All (λ d. d ≡ verified_true) ds
    → min_by_rank verified_true (map capped ds) ≡ verified_true
unfolding min_by_rank
verified-min_by_rank [] h = refl
verified-min_by_rank (d ∷ ds) h = rw h.0 (verified-min_by_rank ds h.1)

-- A node is verified true exactly when it is sealed true, or it is unsealed and unchallenged, its
-- proof is expert-verified and each of its dependencies is verified true.
pub conclusion-verified_true :
    (seal : Seal) (statement_layer : StatementLayer) (proof_layer : ProofLayer)
    (dependencies : List Conclusion)
    → (conclusion seal statement_layer proof_layer dependencies ≡ verified_true)
      ↔ ((seal ≡ sealed_true) ⊎ IsVerifiedThrough seal statement_layer proof_layer dependencies)
unfolding conclusion own_conclusion
conclusion-verified_true seal st pf ds = (only seal st pf, when seal st pf)
  where
    only :
        (seal : Seal) (st : StatementLayer) (pf : ProofLayer)
        → conclusion seal st pf ds ≡ verified_true
        → (seal ≡ sealed_true) ⊎ IsVerifiedThrough seal st pf ds
    only sealed_true st pf h = inl refl
    only sealed_false st pf h = cc
    only unsealed found_false pf h = cc
    only unsealed challenged_as_false pf h =
        let (top, rest) = min_by_rank-verified uncertain ds h in cc
    only unsealed unchallenged incomplete h =
        let (top, rest) = min_by_rank-verified uncertain ds h in cc
    only unsealed unchallenged checks_passed h =
        let (top, rest) = min_by_rank-verified is_true ds h in cc
    only unsealed unchallenged expert_verified h =
        let (top, rest) = min_by_rank-verified verified_true ds h in inr (refl, refl, refl, rest)

    when :
        (seal : Seal) (st : StatementLayer) (pf : ProofLayer)
        → (seal ≡ sealed_true) ⊎ IsVerifiedThrough seal st pf ds
        → conclusion seal st pf ds ≡ verified_true
    when seal st pf (inl sealed) = rw sealed refl
    when seal st pf (inr (a, b, c, rest)) = rw (a, b, c) (verified-min_by_rank ds rest)

true_so_far :
    (c : Conclusion) (ds : List Conclusion)
    → c ≢ is_false
    → min_by_rank c (map capped ds) ≢ is_false
unfolding min_by_rank
true_so_far c [] other h = other h
true_so_far c (d ∷ ds) other h = elim (Bool-cases (ltb (rank (capped d)) (rank c))) [
  | inl less ↦ true_so_far (capped d) ds (λ e. ground arith) (rw (less, min_by_rank) at h)
  | inr more ↦ true_so_far c ds other (rw (more, min_by_rank) at h)
]

-- A node is false exactly when it is sealed false, or it is unsealed and its statement was found
-- false: never through a dependency.
pub conclusion-is_false :
    (seal : Seal) (statement_layer : StatementLayer) (proof_layer : ProofLayer)
    (dependencies : List Conclusion)
    → (conclusion seal statement_layer proof_layer dependencies ≡ is_false)
      ↔ ((seal ≡ sealed_false) ⊎ ((seal ≡ unsealed) × (statement_layer ≡ found_false)))
unfolding conclusion own_conclusion
conclusion-is_false seal st pf ds = (only seal st pf, λ h. ground (arith, h))
  where
    only :
        (seal : Seal) (st : StatementLayer) (pf : ProofLayer)
        → conclusion seal st pf ds ≡ is_false
        → (seal ≡ sealed_false) ⊎ ((seal ≡ unsealed) × (st ≡ found_false))
    only sealed_true st pf h = cc
    only sealed_false st pf h = inl refl
    only unsealed found_false pf h = inr (refl, refl)
    only unsealed challenged_as_false pf h = absurd (true_so_far uncertain ds (λ e. cc) h)
    only unsealed unchallenged incomplete h = absurd (true_so_far uncertain ds (λ e. cc) h)
    only unsealed unchallenged checks_passed h = absurd (true_so_far is_true ds (λ e. cc) h)
    only unsealed unchallenged expert_verified h = absurd (true_so_far verified_true ds (λ e. cc) h)
