-- ===== src/ProofMap/Upstream/Sound.antt =====
-- The memo and the path of the walk of `_upstream_cause`.
use proof_cli.Base.{
  ℕ, ◌≤◌, ◌≡◌, ◌∙◌, refl, sym, ap, subst, Bool, true, false, not, Option, none, some, List, [], ◌∷◌,
  ◌==◌, ◌⊎◌, keep, Bool-cases, inl, inr, arith,
}
use proof_cli.Graph.Reach.{In, here}
use proof_cli.ProofMap.Upstream.{
  Cause, challenged, cause_rank, worse, Memo, read_of, Frame, mark_path, learn,
}
use proof_cli.ProofMap.Upstream.Worst.{
  Bounded, Attained, IsWorst, Bounded-weaken, Attained-edge, Attained-worse, Bounded-successors,
  worse-left, worse-right, cause_rank-challenged,
}
use proof_cli.ProofMap.Upstream.Reachable.{In-uncons}

dropped :
    (p : ℕ → Bool) (i : ℕ) (memo : Memo)
    → p i ≡ true
    → read_of i (keep (λ e. not (p e.0)) memo) ≡ none
dropped p i [] h = refl
dropped p i ((j, c) ∷ memo) h = ground (arith, dropped p i memo h)

kept :
    (p : ℕ → Bool) (i : ℕ) (memo : Memo)
    → p i ≡ false
    → read_of i (keep (λ e. not (p e.0)) memo) ≡ read_of i memo
kept p i [] h = refl
kept p i ((j, c) ∷ memo) h = ground (arith, kept p i memo h)

module _ (next : ℕ → List ℕ) (own : ℕ → Cause) where
  -- Every cause that the memo holds is the worst met from its node on.
  abbrev pub IsSound : Memo → Type 0
  IsSound memo = (i : ℕ) (c : Cause) → read_of i memo ≡ some c → IsWorst next own i c

  pub IsSound-cons :
      (i : ℕ) (c : Cause) (memo : Memo)
      → IsWorst next own i c
      → IsSound memo
      → IsSound ((i, c) ∷ memo)
  IsSound-cons i c memo h sound j c' e = elim (Bool-cases (i == j)) [
    | inl at ↦
        let same : i ≡ j = ground arith in
        let kept : c ≡ c' = ground (arith, e) in
        subst (λ z. IsWorst next own z c') same (subst (IsWorst next own i) kept h)
    | inr off ↦ sound j c' (ground (arith, e))
  ]

  pub Attained-IsWorst : (i : ℕ) → Attained next own i challenged → IsWorst next own i challenged
  Attained-IsWorst i h = record { bounded = λ b p. cause_rank-challenged (own b); attained = h }

  -- A frame above which the walk is at `child`.
  pub record IsFrame (child : Option ℕ) (f : Frame) : Type 0 where
    pub attained : Attained next own f.0 f.2
    pub own_le : cause_rank (own f.0) ≤ cause_rank f.2
    pub ahead : (x : ℕ) → In x f.1 → In x (next f.0)
    pub below : (x : ℕ) → child ≡ some x → In x (next f.0)
    pub covered : (d : ℕ) → In d (next f.0) → In d f.1 ⊎ (child ≡ some d) ⊎ Bounded next own d f.2

  module _ (start : ℕ) where
    -- A path down from `start`.
    abbrev pub IsPath : Option ℕ → List Frame → Type 0
    IsPath child [] = (x : ℕ) → child ≡ some x → x ≡ start
    IsPath child (f ∷ stack) = IsFrame child f × IsPath (some f.0) stack

    -- The top learns the cause of the node above it.
    pub learn-IsPath :
        (i : ℕ) (c : Cause) (stack : List Frame)
        → IsWorst next own i c
        → IsPath (some i) stack
        → IsPath none (learn c stack)
    learn-IsPath i c [] worst p = λ x e. absurd (cc)
    learn-IsPath i c ((j, todo, w) ∷ stack) worst (f, p) = (
      record {
        attained =
            Attained-worse next own j w c f.attained
              (Attained-edge next own j i c (f.below i refl) worst.attained);
        own_le = let a = f.own_le in let b = worse-left w c in omega (arith, a, b);
        ahead = f.ahead;
        below = λ x e. absurd (cc);
        covered = λ d e. cover d (f.covered d e);
      },
      p,
    )
      where
        cover :
            (d : ℕ)
            → In d todo ⊎ (some i ≡ some d) ⊎ Bounded next own d w
            → In d todo ⊎ (none ≡ some d) ⊎ Bounded next own d (worse w c)
        cover d (inl h) = inl h
        cover d (inr (inl e)) =
            let same : i ≡ d = ground (arith) in
            inr (
              inr (
                Bounded-weaken next own d c (worse w c) (worse-right w c)
                  (subst (λ z. Bounded next own z c) same worst.bounded)))
        cover d (inr (inr h)) =
            inr (inr (Bounded-weaken next own d w (worse w c) (worse-left w c) h))

    -- The walk looks at the first dependency ahead.
    pub look-IsPath :
        (i d : ℕ) (ds : List ℕ) (w : Cause) (stack : List Frame)
        → IsPath none ((i, d ∷ ds, w) ∷ stack)
        → IsPath (some d) ((i, ds, w) ∷ stack)
    look-IsPath i d ds w stack (f, p) = (
      record {
        attained = f.attained;
        own_le = f.own_le;
        ahead = λ x h. f.ahead x (ground (arith, h));
        below = λ x e. f.ahead x (ground (arith, e));
        covered = λ x e. cover x (f.covered x e);
      },
      p,
    )
      where
        cover :
            (x : ℕ)
            → In x (d ∷ ds) ⊎ (none ≡ some x) ⊎ Bounded next own x w
            → In x ds ⊎ (some d ≡ some x) ⊎ Bounded next own x w
        cover x (inl h) = elim (In-uncons x d ds h) [
          | inl at ↦ inr (inl (ap some at))
          | inr k ↦ inl k
        ]
        cover x (inr (inl e)) = absurd (cc)
        cover x (inr (inr h)) = inr (inr h)

    -- The cause of that dependency is known.
    pub know-IsPath :
        (i d : ℕ) (ds : List ℕ) (w c : Cause) (stack : List Frame)
        → IsPath none ((i, d ∷ ds, w) ∷ stack)
        → IsWorst next own d c
        → IsPath none ((i, ds, worse w c) ∷ stack)
    know-IsPath i d ds w c stack path worst =
        learn-IsPath d c ((i, ds, w) ∷ stack) worst (look-IsPath i d ds w stack path)

    -- It enters that dependency.
    pub enter-IsPath :
        (d : ℕ) (stack : List Frame)
        → IsPath (some d) stack
        → IsPath none ((d, next d, own d) ∷ stack)
    enter-IsPath d stack p = (
      record {
        attained = (d, here, refl);
        own_le = omega arith;
        ahead = λ x h. h;
        below = λ x e. absurd (cc);
        covered = λ x e. inl e;
      },
      p,
    )

    -- Every dependency of the top was seen: its cause is settled.
    pub settled-IsWorst :
        (i : ℕ) (w : Cause) (stack : List Frame)
        → IsPath none ((i, [], w) ∷ stack)
        → IsWorst next own i w
    settled-IsWorst i w stack (f, p) = record {
      bounded = Bounded-successors next own i w f.own_le (λ d e. cover d (f.covered d e));
      attained = f.attained;
    }
      where
        cover : (d : ℕ) → In d [] ⊎ (none ≡ some d) ⊎ Bounded next own d w → Bounded next own d w
        cover d (inl h) = absurd (cc)
        cover d (inr (inl e)) = absurd (cc)
        cover d (inr (inr h)) = h

    -- A Challenge above the path is met from every node of it on.
    pub mark_path-IsSound :
        (c : ℕ) (stack : List Frame) (memo : Memo)
        → IsPath (some c) stack
        → Attained next own c challenged
        → IsSound memo
        → Attained next own start challenged × IsSound (mark_path stack memo)
    mark_path-IsSound c [] memo p h sound =
        (subst (λ z. Attained next own z challenged) (p c refl) h, sound)
    mark_path-IsSound c ((i, todo, w) ∷ stack) memo (f, p) h sound =
        let met = Attained-edge next own i c challenged (f.below c refl) h in
        let (first, marked) = mark_path-IsSound i stack memo p met sound in
        (first, IsSound-cons i challenged (mark_path stack memo) (Attained-IsWorst i met) marked)

  pub drop_path-IsSound :
      (p : ℕ → Bool) (memo : Memo) → IsSound memo → IsSound (keep (λ e. not (p e.0)) memo)
  drop_path-IsSound p memo sound i c e = elim (Bool-cases (p i)) [
    | inl off ↦ let nothing = dropped p i memo off in cc
    | inr on ↦ sound i c (sym (kept p i memo on) ∙ e)
  ]
