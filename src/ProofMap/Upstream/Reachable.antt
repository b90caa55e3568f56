-- ===== src/ProofMap/Upstream/Reachable.antt =====
-- `_reachable_cause` ends with the worst cause met from a node on.
use proof_cli.Base.{
  ℕ, zero, suc, ◌+◌, ◌≤◌, ◌≡◌, ◌∙◌, refl, sym, subst, true, false, some, List, [], ◌∷◌, ◌==◌, ◌⊎◌,
  contains, length, Bool-cases, inl, inr, arith,
}
use proof_cli.Graph.Reach.{In, Reach, here, step, Reach-closed}
use proof_cli.ProofMap.Upstream.{
  Cause, clear, cause_rank, worse, is_challenged, mass, push_all, reach_on, reachable_cause,
}
use proof_cli.ProofMap.Upstream.Worst.{
  Bounded, Attained, IsWorst, worse-left, worse-right, worse-either, Attained-worse,
  cause_rank-clear, cause_rank-challenged, is_challenged_lem,
}
use proof_cli.ProofMap.Upstream.Mass.{mass-new, length-push_all}

push_all-In : (x : ℕ) (ds pending : List ℕ) → In x (push_all ds pending) → In x ds ⊎ In x pending
push_all-In x [] pending h = inr h
push_all-In x (d ∷ ds) pending h = ground (arith, push_all-In x ds (d ∷ pending) h)

In-push_all : (x : ℕ) (ds pending : List ℕ) → In x ds ⊎ In x pending → In x (push_all ds pending)
In-push_all x [] pending h = ground (arith)
In-push_all x (d ∷ ds) pending h =
    In-push_all x ds (d ∷ pending)
      (elim (Bool-cases (d == x)) [ inl e ↦ inr (ground (arith)) | inr e ↦ ground (arith, h) ])

pub In-uncons : (x i : ℕ) (xs : List ℕ) → In x (i ∷ xs) → (i ≡ x) ⊎ In x xs
In-uncons x i xs h = elim (Bool-cases (i == x)) [
  | inl e ↦ inl (ground arith)
  | inr e ↦ inr (ground (arith, h))
]

module _ (next : ℕ → List ℕ) (own : ℕ → Cause) (all : List ℕ)
    (closed : (x d : ℕ) → In d (next x) → In d all) (start : ℕ) where
  -- A point of the loop: what is visited is bounded, and its dependencies are visited or pending.
  record IsPoint (fuel : ℕ) (visited pending : List ℕ) (worst : Cause) : Type 0 where
    inside : (x : ℕ) → In x pending → In x all
    reached : (x : ℕ) → In x pending → Reach next start x
    bounded : (x : ℕ) → In x visited → cause_rank (own x) ≤ cause_rank worst
    opened : (x d : ℕ) → In x visited → In d (next x) → In d visited ⊎ In d pending
    begun : In start visited ⊎ In start pending
    attained : Attained next own start worst ⊎ (worst ≡ clear)
    left : suc (length pending + mass next (contains visited) all) ≤ fuel

  -- Nothing is pending.
  at_end-IsWorst :
      (fuel : ℕ) (visited : List ℕ) (worst : Cause)
      → IsPoint fuel visited [] worst
      → IsWorst next own start worst
  at_end-IsWorst fuel visited worst p = record { bounded = bound; attained = met p.attained }
    where
      only : (d : ℕ) → In d visited ⊎ In d [] → In d visited
      only d (inl h) = h
      only d (inr h) = absurd (cc)

      bound : Bounded next own start worst
      bound b r =
          p.bounded b
            (Reach-closed visited (only start p.begun) (λ x d h e. only d (p.opened x d h e)) r)

      met : Attained next own start worst ⊎ (worst ≡ clear) → Attained next own start worst
      met (inl h) = h
      met (inr e) = (
        start,
        here,
        cause_rank-clear (own start)
              (subst (λ z. cause_rank (own start) ≤ cause_rank z) e (bound start here))
            ∙ sym e,
      )

  again :
      (fuel : ℕ) (visited : List ℕ) (i : ℕ) (pending : List ℕ) (worst : Cause)
      → IsPoint (suc fuel) visited (i ∷ pending) worst
      → In i visited
      → IsPoint fuel visited pending worst
  again fuel visited i pending worst p seen = record {
    inside = λ x h. p.inside x (ground (arith, h));
    reached = λ x h. p.reached x (ground (arith, h));
    bounded = p.bounded;
    opened = λ x d h e. unless d (p.opened x d h e);
    begun = unless start p.begun;
    attained = p.attained;
    left = let k = p.left in omega (arith, k);
  }
    where
      unless : (d : ℕ) → In d visited ⊎ In d (i ∷ pending) → In d visited ⊎ In d pending
      unless d (inl k) = inl k
      unless d (inr k) = elim (In-uncons d i pending k) [
        | inl at ↦ inl (subst (λ z. In z visited) at seen)
        | inr k ↦ inr k
      ]

  visit :
      (fuel : ℕ) (visited : List ℕ) (i : ℕ) (pending : List ℕ) (worst : Cause)
      → IsPoint (suc fuel) visited (i ∷ pending) worst
      → contains visited i ≡ false
      → IsPoint fuel (i ∷ visited) (push_all (next i) pending) (worse worst (own i))
  visit fuel visited i pending worst p new = record {
    inside = λ x h. elim (push_all-In x (next i) pending h) [
      | inl e ↦ closed i x e
      | inr k ↦ p.inside x (ground (arith, k))
    ];
    reached = λ x h. elim (push_all-In x (next i) pending h) [
      | inl e ↦ step (p.reached i (ground arith)) e
      | inr k ↦ p.reached x (ground (arith, k))
    ];
    bounded = λ x h. elim (In-uncons x i visited h) [
      | inl at ↦ subst (λ z. cause_rank (own z) ≤ cause_rank worst') at (worse-right worst (own i))
      | inr k ↦
          let small = p.bounded x k in
          let more = worse-left worst (own i) in omega (arith, small, more)
    ];
    opened = λ x d h e. elim (In-uncons x i visited h) [
      | inl at ↦ inr (In-push_all d (next i) pending (inl (subst (λ z. In d (next z)) (sym at) e)))
      | inr k ↦ onward d (p.opened x d k e)
    ];
    begun = onward start p.begun;
    attained = met p.attained;
    left =
        let k = p.left in
        let size = length-push_all (next i) pending in
        let shrunk =
          mass-new next (contains visited) (contains (i ∷ visited)) i all (λ u h. ground (arith, h))
            new (ground arith) (p.inside i (ground arith)) in
        omega (arith, k, size, shrunk);
  }
    where
      worst' : Cause
      worst' = worse worst (own i)

      onward :
          (d : ℕ)
          → In d visited ⊎ In d (i ∷ pending)
          → In d (i ∷ visited) ⊎ In d (push_all (next i) pending)
      onward d (inl k) = inl (ground (arith, k))
      onward d (inr k) = elim (In-uncons d i pending k) [
        | inl at ↦ inl (ground (arith))
        | inr k ↦ inr (In-push_all d (next i) pending (inr k))
      ]

      here_i : Attained next own start (own i)
      here_i = (i, p.reached i (ground arith), refl)

      met :
          Attained next own start worst ⊎ (worst ≡ clear)
          → Attained next own start worst' ⊎ (worst' ≡ clear)
      met (inl h) = inl (Attained-worse next own start worst (own i) h here_i)
      met (inr e) = elim (worse-either worst (own i)) [
        | inl q ↦ inr (q ∙ e)
        | inr q ↦ inl (subst (Attained next own start) (sym q) here_i)
      ]

  -- Nothing is worse than a Challenge.
  settled :
      (fuel : ℕ) (visited pending : List ℕ) (worst : Cause)
      → IsPoint fuel visited pending worst
      → is_challenged worst ≡ true
      → IsWorst next own start worst
  settled fuel visited pending worst p e = record {
    bounded = λ b r.
        subst (λ z. cause_rank (own b) ≤ cause_rank z) (sym (is_challenged_lem worst e))
          (cause_rank-challenged (own b));
    attained = met p.attained;
  }
    where
      met : Attained next own start worst ⊎ (worst ≡ clear) → Attained next own start worst
      met (inl h) = h
      met (inr k) = cc

  -- The loop ends with the worst cause.
  reach_on-IsWorst :
      (fuel : ℕ) (visited pending : List ℕ) (worst : Cause)
      → IsPoint fuel visited pending worst
      → (c : Cause) × (reach_on next own fuel visited pending worst ≡ some c)
        × IsWorst next own start c
  unfolding reach_on
  reach_on-IsWorst zero visited pending worst p = let k = p.left in absurd (omega (arith, k))
  reach_on-IsWorst (suc fuel) visited [] worst p =
      (worst, refl, at_end-IsWorst (suc fuel) visited worst p)
  reach_on-IsWorst (suc fuel) visited (i ∷ pending) worst p =
      elim (Bool-cases (contains visited i)) [
        | inl seen ↦ rw seen (
            reach_on-IsWorst fuel visited pending worst (again fuel visited i pending worst p seen))
        | inr new ↦ elim (Bool-cases (is_challenged (worse worst (own i)))) [
          | inl e ↦
              rw (new, e)
                (
                  worse worst (own i),
                  refl,
                  settled fuel (i ∷ visited) (push_all (next i) pending) (worse worst (own i))
                      (visit fuel visited i pending worst p new) e,
                )
          | inr e ↦
              rw (new, e)
                (reach_on-IsWorst fuel (i ∷ visited) (push_all (next i) pending)
                  (worse worst (own i)) (visit fuel visited i pending worst p new))
        ]
      ]

  -- `_reachable_cause` ends with the worst cause that the node or one that it leads to starts.
  pub reachable_cause-IsWorst :
      In start all
      → (c : Cause) × (reachable_cause next own all start ≡ some c) × IsWorst next own start c
  reachable_cause-IsWorst there =
      reach_on-IsWorst (suc (suc (mass next (λ i. false) all))) [] (start ∷ []) clear (record {
        inside = λ x h. elim (In-uncons x start [] h) [
          | inl at ↦ subst (λ z. In z all) at there
          | inr k ↦ absurd (cc)
        ];
        reached = λ x h. elim (In-uncons x start [] h) [
          | inl at ↦ subst (λ z. Reach next start z) at here
          | inr k ↦ absurd (cc)
        ];
        bounded = λ x h. absurd (cc);
        opened = λ x d h e. absurd (cc);
        begun = inr (ground arith);
        attained = inr refl;
        left = omega arith;
      })
