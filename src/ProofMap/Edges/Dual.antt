-- ===== src/ProofMap/Edges/Dual.antt =====
-- The search for what rests on a node is the search for what it rests on, turned round.
use proof_cli.Base.{
  ℕ, ◌≡◌, false, some, List, [], ◌∷◌, ◌==◌, ◌↔◌, contains, Bool-cases, inl, inr, arith, subst,
}
use proof_cli.Graph.Reach.{In, Reach, here, step, Reach-edge}
use proof_cli.Graph.Push.{In-append_left, In-append_right, In-append}
use proof_cli.Graph.Closure.{closure_lem}
use proof_cli.ProofMap.Types.{Node, Store}
use proof_cli.ProofMap.Tables.{find_node}
use proof_cli.ProofMap.Edges.{
  dependencies_of, dependents_of, uses_in, node_ids, rests_on, resting_on,
}
use proof_cli.ProofMap.Edges.Search.{rests_on_lem}

-- The primary key: no two nodes of the table have one id.
abbrev pub HasKeys : List Node → Type 0
HasKeys [] = Unit
HasKeys (n ∷ nodes) = (contains (node_ids nodes) n.id ≡ false) × HasKeys nodes

uses_in-user : (user i x : ℕ) (ds : List ℕ) → In x (uses_in user i ds) → (user ≡ x) × In i ds
unfolding uses_in
uses_in-user user i x [] h = cc
uses_in-user user i x (d ∷ ds) h = ground (arith, uses_in-user user i x ds)

uses_in_self : (user i : ℕ) (ds : List ℕ) → In i ds → In user (uses_in user i ds)
unfolding uses_in
uses_in_self user i [] h = cc
uses_in_self user i (d ∷ ds) h = ground (arith, uses_in_self user i ds)

dependents_of-node_ids :
    (nodes : List Node) (i x : ℕ) → In x (dependents_of nodes i) → In x (node_ids nodes)
unfolding dependents_of
dependents_of-node_ids [] i x h = cc
dependents_of-node_ids (n ∷ nodes) i x h = elim (In-append x (uses_in n.id i n.dependencies) _ h) [
  | inl a ↦ ground (arith, uses_in-user n.id i x n.dependencies)
  | inr b ↦ ground (arith, dependents_of-node_ids nodes i x b)
]

dependents_of→dependencies_of :
    (nodes : List Node) (i x : ℕ)
    → HasKeys nodes
    → In x (dependents_of nodes i)
    → In i (dependencies_of nodes x)
unfolding dependents_of dependencies_of find_node
dependents_of→dependencies_of [] i x k h = cc
dependents_of→dependencies_of (n ∷ nodes) i x k h =
    elim (In-append x (uses_in n.id i n.dependencies) _ h) [
      | inl a ↦ ground (arith, uses_in-user n.id i x n.dependencies)
      | inr b ↦ elim (Bool-cases (n.id == x)) [
        | inl e ↦ ground (arith, dependents_of-node_ids nodes i x b, k.0)
        | inr e ↦ rw (dependencies_of, find_node, e) (dependents_of→dependencies_of nodes i x k.1 b)
      ]
    ]

dependencies_of→dependents_of :
    (nodes : List Node) (i x : ℕ) → In i (dependencies_of nodes x) → In x (dependents_of nodes i)
unfolding dependents_of dependencies_of find_node
dependencies_of→dependents_of [] i x h = cc
dependencies_of→dependents_of (n ∷ nodes) i x h = elim (Bool-cases (n.id == x)) [
  | inl e ↦
      let same : n.id ≡ x = ground arith in
      In-append_left x (uses_in n.id i n.dependencies) (dependents_of nodes i) (
        subst (λ z. In z (uses_in n.id i n.dependencies)) same
          (uses_in_self n.id i n.dependencies (ground (arith, h))))
  | inr e ↦
      In-append_right x (uses_in n.id i n.dependencies) (dependents_of nodes i)
        (dependencies_of→dependents_of nodes i x (ground (arith, h)))
]

module _ (nodes : List Node) where
  turn_up :
      {a b : ℕ}
      → HasKeys nodes
      → Reach (dependents_of nodes) a b
      → Reach (dependencies_of nodes) b a
  turn_up k here = here
  turn_up k (step {b} {c} p e) =
      Reach-edge (dependents_of→dependencies_of nodes b c k e) (turn_up k p)

  turn_down : {b a : ℕ} → Reach (dependencies_of nodes) b a → Reach (dependents_of nodes) a b
  turn_down here = here
  turn_down (step {b} {c} p e) =
      Reach-edge (dependencies_of→dependents_of nodes c b e) (turn_down p)

-- If the nodes have distinct ids, `resting_on` and `rests_on` end, and `b` is in what rests on `a`
-- exactly when `a` is in what `b` rests on.
pub resting_on-rests_on :
    (s : Store) (a b : ℕ)
    → HasKeys s.nodes
    → (up down : List ℕ) × (resting_on s a ≡ some up)
      × (rests_on s b ≡ some down)
      × (In b up ↔ In a down)
unfolding resting_on
resting_on-rests_on s a b k =
    let (up, found_up, up_iff) =
      closure_lem (dependents_of s.nodes) (node_ids s.nodes) a
        (λ x d h. dependents_of-node_ids s.nodes x d h) in
    let (down, found_down, down_iff) = rests_on_lem s b in
    (
      up,
      down,
      found_up,
      found_down,
      (
        λ h. (down_iff a).1 (turn_up s.nodes k ((up_iff b).0 h)),
        λ h. (up_iff b).1 (turn_down s.nodes ((down_iff a).0 h)),
      ),
    )
