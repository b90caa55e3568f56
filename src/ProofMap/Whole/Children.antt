-- ===== src/ProofMap/Whole/Children.antt =====
-- The children of a Split: each is a node, and none rests on the parent.
use proof_cli.Base.{
  ℕ, ◌≡◌, ◌∙◌, refl, sym, ap, subst, true, false, List, [], ◌∷◌, ◌==◌, Option, none, some, is_some,
  if◌then◌else◌, inl, inr, Bool-cases, arith,
}
use proof_cli.Graph.Reach.{In, Reach, here, step}
use proof_cli.Graph.Acyclic.{Reach-new}
use proof_cli.Graph.Path.{Answers}
use proof_cli.ProofMap.Types.{Node, Store, ok}
use proof_cli.ProofMap.Tables.{find_node, exists_in}
use proof_cli.ProofMap.Edges.{dependencies_of, dependency_path}
use proof_cli.ProofMap.Edges.Search.{Reach-exists, dependency_path-Answers}
use proof_cli.ProofMap.Split.{refuse_round, refuse_resting}
use proof_cli.ProofMap.Results.{OnOk-eq, OnOk-of, OnOk-bind}
use proof_cli.ProofMap.Whole.{IsWhole}
use proof_cli.ProofMap.Whole.Tables.{snoc-edges, is_some-snoc, dependencies_of-snoc}
use proof_cli.ProofMap.Whole.Creation.{IsCreated}

-- None of the ids rests on `goal`.
abbrev pub NoneReaches : Store → ℕ → List ℕ → Type 0
NoneReaches s goal ids = (c : ℕ) → In c ids → Reach (dependencies_of s.nodes) c goal → ⊥

refuse_round-unreached :
    (s : Store) (start goal child : ℕ) (answer : Option (Option (List ℕ))) (done : Unit {0})
    → Answers (dependencies_of s.nodes) start goal answer
    → refuse_round child answer ≡ ok done
    → Reach (dependencies_of s.nodes) start goal
    → ⊥
refuse_round-unreached s start goal child none done h e = absurd h
refuse_round-unreached s start goal child (some none) done h e = h
refuse_round-unreached s start goal child (some (some path)) done h e = cc

refuse_one :
    (s : Store) (child goal d : ℕ) (done : Unit {0})
    → (if exists_in s d then refuse_round child (dependency_path s d goal) else ok tt) ≡ ok done
    → exists_in s d ≡ true
    → Reach (dependencies_of s.nodes) d goal
    → ⊥
refuse_one s child goal d done e there =
    refuse_round-unreached s d goal child (dependency_path s d goal) done
      (dependency_path-Answers s d goal) (rw there at e)

-- No dependency of a child that the check let pass rests on the parent.
pub refuse_resting-NoneReaches :
    (s : Store) (child goal : ℕ) (ds : List ℕ) (done : Unit {0})
    → refuse_resting s child goal ds ≡ ok done
    → ((c : ℕ) → In c ds → exists_in s c ≡ true)
    → NoneReaches s goal ds
unfolding refuse_resting
refuse_resting-NoneReaches s child goal [] done h known c k = cc
refuse_resting-NoneReaches s child goal (d ∷ ds) done h known c k =
    OnOk-eq P (refuse_resting s child goal (d ∷ ds)) h (
      OnOk-bind P _ _ λ judged e. OnOk-of P (refuse_resting s child goal ds) λ done' e'.
        first_or_rest (refuse_one s child goal d judged e)
          (refuse_resting-NoneReaches s child goal ds done' e'))
  where
    P : Unit {0} → Type 0
    P _ = Reach (dependencies_of s.nodes) c goal → ⊥

    first_or_rest :
        (exists_in s d ≡ true → Reach (dependencies_of s.nodes) d goal → ⊥)
        → (((x : ℕ) → In x ds → exists_in s x ≡ true) → NoneReaches s goal ds)
        → Reach (dependencies_of s.nodes) c goal
        → ⊥
    first_or_rest first rest = elim (Bool-cases (d == c)) [
      | inl at ↦
          let same : d ≡ c = ground arith in
          subst (λ z. Reach (dependencies_of s.nodes) z goal → ⊥) same
            (first (known d (ground (arith))))
      | inr off ↦ rest (λ x i. known x (ground (arith, i))) c (ground (arith, k))
    ]

-- An id with no edges leads nowhere.
Reach-alone : {next : ℕ → List ℕ} {a b : ℕ} → next a ≡ [] → Reach next a b → a ≡ b
Reach-alone e here = refl
Reach-alone {next} {a} e (step {b} {c} p k) =
    let gone : In c (next a) = subst (λ z. In c (next z)) (sym (Reach-alone e p)) k in
    let nothing : In c [] = subst (λ ds. In c ds) e gone in absurd (cc)

pub dependencies_of-absent :
    (nodes : List Node) (i : ℕ) → is_some (find_node i nodes) ≡ false → dependencies_of nodes i ≡ []
unfolding dependencies_of
dependencies_of-absent nodes i h = ground arith

-- The node that was made is in the map.
pub IsCreated-there : (s t : Store) (n : Node) → IsCreated s t n → exists_in t n.id ≡ true
IsCreated-there s t n made =
    subst (λ z. is_some (find_node n.id z) ≡ true) (sym made.nodes)
      (rw (is_some-snoc n s.nodes n.id) (ground arith))

module _ (s t : Store) (n : Node) (goal : ℕ) (made : IsCreated s t n) (whole : IsWhole s)
    (there : exists_in s goal ≡ true) where
  pub IsCreated-stays : (i : ℕ) → exists_in s i ≡ true → exists_in t i ≡ true
  IsCreated-stays i h =
      subst (λ z. is_some (find_node i z) ≡ true) (sym made.nodes)
        (rw (is_some-snoc n s.nodes i, h))

  -- The row of the goal has the edges that it had.
  pub IsCreated-row : dependencies_of t.nodes goal ≡ dependencies_of s.nodes goal
  IsCreated-row =
      ap (λ z. dependencies_of z goal) made.nodes ∙ dependencies_of-snoc n s.nodes goal there

  -- What did not rest on the goal does not, once the node is made.
  pub IsCreated-NoneReaches :
      (ids : List ℕ)
      → ((c : ℕ) → In c ids → exists_in s c ≡ true)
      → NoneReaches s goal ids
      → NoneReaches t goal ids
  IsCreated-NoneReaches ids known none_reaches c k p =
      elim (Reach-new n.id n.dependencies (snoc-edges n s.nodes)
        (subst (λ z. Reach (dependencies_of z) c goal) made.nodes p)) [
          | inl q ↦ none_reaches c k q
          | inr (q, _) ↦
              let met : exists_in s n.id ≡ true = Reach-exists s whole.table.closed (known c k) q in
              let new = made.new in ground arith
        ]

  -- Nor does the node itself, if its dependencies did not.
  pub IsCreated-unreached :
      NoneReaches s goal n.dependencies → Reach (dependencies_of t.nodes) n.id goal → ⊥
  IsCreated-unreached none_reaches p =
      elim (Reach-new n.id n.dependencies (snoc-edges n s.nodes)
        (subst (λ z. Reach (dependencies_of z) n.id goal) made.nodes p)) [
          | inl q ↦
              let same = Reach-alone (dependencies_of-absent s.nodes n.id made.new) q in
              let met : exists_in s n.id ≡ true =
                subst (λ z. exists_in s z ≡ true) (sym same) there in
              let new = made.new in ground arith
          | inr (_, (c, k, r)) ↦ none_reaches c k r
        ]
