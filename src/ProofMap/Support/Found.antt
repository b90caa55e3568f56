-- ===== src/ProofMap/Support/Found.antt =====
-- The memo and the path of the walk of `_unsettled_support`.
use proof_cli.Base.{
  ℕ, ◌≡◌, refl, ap, subst, Bool, true, false, not, Option, none, some, List, [], ◌∷◌, ◌++◌, ◌==◌,
  ◌⊎◌, ◌↔◌, keep, Bool-cases, inl, inr, arith,
}
use proof_cli.Graph.Reach.{In, Reach, here, Reach-trans, Reach-edge, Reach-first, IsAcyclic}
use proof_cli.Graph.Push.{In-append, In-append_left, In-append_right}
use proof_cli.ProofMap.Support.{Memo, read_of, Frame, on_path, gather}
use proof_cli.ProofMap.Upstream.Reachable.{In-uncons}

pub keep-In : (p : ℕ → Bool) (x : ℕ) (xs : List ℕ) → In x (keep p xs) → In x xs × (p x ≡ true)
keep-In p x [] h = absurd (cc)
keep-In p x (y ∷ xs) h = elim (Bool-cases (y == x)) [
  | inl e ↦ ground (arith, h, keep-In p x xs)
  | inr e ↦ ground (arith, h, keep-In p x xs)
]

pub In-keep : (p : ℕ → Bool) (x : ℕ) (xs : List ℕ) → In x xs → p x ≡ true → In x (keep p xs)
In-keep p x [] h e = cc
In-keep p x (y ∷ xs) h e = ground (arith, In-keep p x xs)

module _ (next : ℕ → List ℕ) (settled : ℕ → Bool) where
  -- The edges to what is not settled.
  abbrev pub unsettled : ℕ → List ℕ
  unsettled i = keep (λ d. not (settled d)) (next i)

  -- `i` rests on `b` by a chain of nodes that are not settled.
  abbrev pub RestsOn : ℕ → ℕ → Type 0
  RestsOn i b = (d : ℕ) × In d (unsettled i) × Reach unsettled d b

  pub RestsOn-trans : (i a b : ℕ) → RestsOn i a → RestsOn a b → RestsOn i b
  RestsOn-trans i a b (d, e, p) (d', e', q) = (d, e, Reach-trans p (Reach-edge e' q))

  pub RestsOn-edge : (i a b : ℕ) → In a (unsettled i) → RestsOn a b → RestsOn i b
  RestsOn-edge i a b e (d, e', p) = (a, e, Reach-edge e' p)

  -- The set holds exactly what the node rests on unsettled.
  abbrev pub IsSupport : ℕ → List ℕ → Type 0
  IsSupport i found = (b : ℕ) → In b found ↔ RestsOn i b

  abbrev pub IsSound : Memo → Type 0
  IsSound memo = (i : ℕ) (found : List ℕ) → read_of i memo ≡ some found → IsSupport i found

  pub IsSound-cons :
      (i : ℕ) (found : List ℕ) (memo : Memo)
      → IsSupport i found
      → IsSound memo
      → IsSound ((i, found) ∷ memo)
  IsSound-cons i found memo h sound j found' e = elim (Bool-cases (i == j)) [
    | inl at ↦
        let same : i ≡ j = ground arith in
        let kept : found ≡ found' = ground (arith, e) in
        subst (λ z. IsSupport z found') same (subst (IsSupport i) kept h)
    | inr off ↦ sound j found' (ground (arith, e))
  ]

  -- Of a dependency that was seen, all that it rests on was found, and itself.
  abbrev pub IsSeen : ℕ → List ℕ → Type 0
  IsSeen d found = In d found × ((b : ℕ) → RestsOn d b → In b found)

  -- A frame above which the walk is at `child`.
  pub record IsFrame (child : Option ℕ) (f : Frame) : Type 0 where
    pub sound : (b : ℕ) → In b f.2 → RestsOn f.0 b
    pub ahead : (x : ℕ) → In x f.1 → In x (next f.0)
    pub below : (x : ℕ) → child ≡ some x → In x (unsettled f.0) × In x f.2
    pub covered : (d : ℕ) → In d (unsettled f.0) → In d f.1 ⊎ (child ≡ some d) ⊎ IsSeen d f.2

  abbrev pub IsPath : Option ℕ → List Frame → Type 0
  IsPath child [] = Unit
  IsPath child (f ∷ stack) = IsFrame child f × IsPath (some f.0) stack

  -- Every dependency of the top was seen: what was found is its support.
  pub done-IsSupport :
      (i : ℕ) (found : List ℕ) (stack : List Frame)
      → IsPath none ((i, [], found) ∷ stack)
      → IsSupport i found
  done-IsSupport i found stack (f, p) b = (f.sound b, λ (d, e, q). from d q (f.covered d e))
    where
      from : (d : ℕ) → Reach unsettled d b → In d [] ⊎ (none ≡ some d) ⊎ IsSeen d found → In b found
      from d q (inl h) = absurd (cc)
      from d q (inr (inl h)) = absurd (cc)
      from d q (inr (inr (self, rest))) = elim (Reach-first q) [
        | inl same ↦ subst (λ z. In z found) same self
        | inr (c, e, q') ↦ rest b (c, e, q')
      ]

  -- The top gathers what was found under the node above it.
  pub gather-IsPath :
      (i : ℕ) (found : List ℕ) (stack : List Frame)
      → IsSupport i found
      → IsPath (some i) stack
      → IsPath none (gather found stack)
  gather-IsPath i found [] support p = tt
  gather-IsPath i found ((j, todo, more_) ∷ stack) support (f, p) = (
    record {
      sound = λ b h. elim (In-append b found more_ h) [
        | inl k ↦ RestsOn-edge j i b (f.below i refl).0 ((support b).0 k)
        | inr k ↦ f.sound b k
      ];
      ahead = f.ahead;
      below = λ x e. absurd (cc);
      covered = λ d e. cover d (f.covered d e);
    },
    p,
  )
    where
      cover :
          (d : ℕ)
          → In d todo ⊎ (some i ≡ some d) ⊎ IsSeen d more_
          → In d todo ⊎ (none ≡ some d) ⊎ IsSeen d (found ++ more_)
      cover d (inl h) = inl h
      cover d (inr (inl e)) =
          let same : i ≡ d = ground (arith) in
          inr (
            inr (
              subst (λ z. IsSeen z (found ++ more_)) same
                (
                  In-append_right i found more_ (f.below i refl).1,
                  λ b h. In-append_left b found more_ ((support b).1 h),
                )))
      cover d (inr (inr (self, rest))) = inr (
          inr (In-append_right d found more_ self, λ b h. In-append_right b found more_ (rest b h)))

  -- The walk passes a settled dependency.
  pub pass-IsPath :
      (i d : ℕ) (ds found : List ℕ) (stack : List Frame)
      → settled d ≡ true
      → IsPath none ((i, d ∷ ds, found) ∷ stack)
      → IsPath none ((i, ds, found) ∷ stack)
  pass-IsPath i d ds found stack on (f, p) = (
    record {
      sound = f.sound;
      ahead = λ x h. f.ahead x (ground (arith, h));
      below = λ x e. absurd (cc);
      covered = λ x e. cover x e (f.covered x e);
    },
    p,
  )
    where
      cover :
          (x : ℕ)
          → In x (unsettled i)
          → In x (d ∷ ds) ⊎ (none ≡ some x) ⊎ IsSeen x found
          → In x ds ⊎ (none ≡ some x) ⊎ IsSeen x found
      cover x e (inr h) = inr h
      cover x e (inl h) = elim (In-uncons x d ds h) [
        | inl at ↦
            let off : not (settled x) ≡ true = (keep-In (λ d. not (settled d)) x (next i) e).1 in
            let on' : settled x ≡ true = subst (λ z. settled z ≡ true) at on in
            absurd (ground arith)
        | inr k ↦ inl k
      ]

  -- It notes an unsettled one, and looks at it.
  pub look-IsPath :
      (i d : ℕ) (ds found : List ℕ) (stack : List Frame)
      → settled d ≡ false
      → IsPath none ((i, d ∷ ds, found) ∷ stack)
      → IsPath (some d) ((i, ds, d ∷ found) ∷ stack)
  look-IsPath i d ds found stack off (f, p) = (
    record {
      sound = λ b h. elim (In-uncons b d found h) [
        | inl at ↦ subst (RestsOn i) at (d, edge, here)
        | inr k ↦ f.sound b k
      ];
      ahead = λ x h. f.ahead x (ground (arith, h));
      below = λ x e.
          let at : d ≡ x = ground (arith) in
          subst (λ z. In z (unsettled i) × In z (d ∷ found)) at (edge, ground arith);
      covered = λ x e. cover x (f.covered x e);
    },
    p,
  )
    where
      edge : In d (unsettled i)
      edge = In-keep (λ d. not (settled d)) d (next i) (f.ahead d (ground arith)) (ap not off)

      cover :
          (x : ℕ)
          → In x (d ∷ ds) ⊎ (none ≡ some x) ⊎ IsSeen x found
          → In x ds ⊎ (some d ≡ some x) ⊎ IsSeen x (d ∷ found)
      cover x (inl h) = elim (In-uncons x d ds h) [
        | inl at ↦ inr (inl (ap some at))
        | inr k ↦ inl k
      ]
      cover x (inr (inl e)) = absurd (cc)
      cover x (inr (inr (self, rest))) =
          inr (inr (ground (arith, self), λ b h. let k = rest b h in ground (arith, k)))

  -- It enters that dependency.
  pub enter-IsPath :
      (d : ℕ) (stack : List Frame) → IsPath (some d) stack → IsPath none ((d, next d, []) ∷ stack)
  enter-IsPath d stack p = (
    record {
      sound = λ b h. absurd (cc);
      ahead = λ x h. h;
      below = λ x e. absurd (cc);
      covered = λ x e. inl (keep-In (λ d. not (settled d)) x (next d) e).0;
    },
    p,
  )

  -- A node of the path leads to the node above the path.
  path-edge :
      (c : ℕ) (stack : List Frame) (d : ℕ)
      → IsPath (some c) stack
      → on_path stack d ≡ true
      → RestsOn d c
  path-edge c [] d p h = absurd (cc)
  path-edge c ((i, todo, found) ∷ stack) d (f, p) h = elim (Bool-cases (i == d)) [
    | inl e ↦
        let same : i ≡ d = ground arith in
        subst (λ z. RestsOn z c) same (c, (f.below c refl).0, here)
    | inr e ↦
        RestsOn-trans d i c (path-edge i stack d p (ground (arith, h)))
          (c, (f.below c refl).0, here)
  ]

  -- Without cycles, the dependency looked at is not on the path.
  pub fresh_ahead :
      (d : ℕ) (stack : List Frame)
      → IsAcyclic unsettled
      → IsPath (some d) stack
      → on_path stack d ≡ false
  fresh_ahead d stack acyclic p = elim (Bool-cases (on_path stack d)) [
    | inl on ↦ let (x, e, q) = path-edge d stack d p on in absurd (acyclic d x e q)
    | inr off ↦ off
  ]
