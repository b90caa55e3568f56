-- ===== src/ProofMap/Edges/Search.antt =====
-- What the searches along dependencies find.
use proof_cli.Base.{
  true, ℕ, ◌≡◌, refl, Option, none, some, List, [], ◌∷◌, ◌==◌, ◌↔◌, Bool-cases, inl, inr, arith,
}
use proof_cli.Graph.Reach.{In, Reach, here, step}
use proof_cli.Graph.Push.{In-append_left, In-append_right}
use proof_cli.Graph.Closure.{closure_lem}
use proof_cli.Graph.Chain.{Chain}
use proof_cli.Graph.Path.{Answers, path_between-Answers}
use proof_cli.ProofMap.Types.{Node, Store, dependency_cycle, Result, ok, err}
use proof_cli.ProofMap.Tables.{find_node, exists_in}
use proof_cli.ProofMap.Edges.{
  dependencies_of, targets, rests_on, dependency_path, refuse_path, refuse_cycle,
}

pub dependencies_of-targets :
    (nodes : List Node) (x d : ℕ) → In d (dependencies_of nodes x) → In d (targets nodes)
unfolding dependencies_of find_node targets
dependencies_of-targets [] x d h = cc
dependencies_of-targets (n ∷ nodes) x d h = elim (Bool-cases (n.id == x)) [
  | inl e ↦ In-append_left d n.dependencies (targets nodes) (ground (arith, h))
  | inr e ↦
      In-append_right d n.dependencies (targets nodes)
        (dependencies_of-targets nodes x d (ground (arith, h)))
]

-- `rests_on` ends, and the set that it returns holds exactly what a chain of dependencies, empty or
-- not, leads to from the node.
pub rests_on_lem :
    (s : Store) (a : ℕ)
    → (result : List ℕ) × (rests_on s a ≡ some result)
      × ((b : ℕ) → In b result ↔ Reach (dependencies_of s.nodes) a b)
unfolding rests_on
rests_on_lem s a =
    closure_lem (dependencies_of s.nodes) (targets s.nodes) a (dependencies_of-targets s.nodes)

pub dependency_path-Answers :
    (s : Store) (start goal : ℕ)
    → Answers (dependencies_of s.nodes) start goal (dependency_path s start goal)
unfolding dependency_path
dependency_path-Answers s start goal =
    path_between-Answers (dependencies_of s.nodes) (targets s.nodes) start goal
      (dependencies_of-targets s.nodes)

-- What `refuse_cycle` says of the edge from `node_id` to `dependency_id`: no refusal if it would
-- close no cycle, and otherwise a cycle that it would close.
abbrev pub JudgesEdge : Store → ℕ → ℕ → Result (Unit {0}) → Type 0
JudgesEdge s node_id dependency_id (ok _) =
    Reach (dependencies_of s.nodes) dependency_id node_id → ⊥
JudgesEdge s node_id dependency_id (err e) =
    (path : List ℕ) × (e ≡ dependency_cycle node_id (node_id ∷ path))
    × Chain (dependencies_of s.nodes) dependency_id node_id path

-- `refuse_cycle` lets an edge pass only if its target does not rest on its source, and otherwise
-- refuses it, naming the source and a chain of dependencies from the target to the source.
pub refuse_cycle-JudgesEdge :
    (s : Store) (node_id dependency_id : ℕ)
    → JudgesEdge s node_id dependency_id (refuse_cycle s node_id dependency_id)
unfolding refuse_cycle
refuse_cycle-JudgesEdge s node_id dependency_id =
    judge (dependency_path s dependency_id node_id)
      (dependency_path-Answers s dependency_id node_id)
  where
    judge :
        (a : Option (Option (List ℕ)))
        → Answers (dependencies_of s.nodes) dependency_id node_id a
        → JudgesEdge s node_id dependency_id (refuse_path node_id (node_id ∷ []) a)
    judge none h = absurd h
    judge (some none) h = h
    judge (some (some path)) h = (path, refl, h)

-- Every dependency is a node of the map.
abbrev pub IsClosedMap : Store → Type 0
IsClosedMap s = (i d : ℕ) → In d (dependencies_of s.nodes i) → exists_in s d ≡ true

pub Reach-exists :
    (s : Store) {a b : ℕ}
    → IsClosedMap s
    → exists_in s a ≡ true
    → Reach (dependencies_of s.nodes) a b
    → exists_in s b ≡ true
Reach-exists s closed h here = h
Reach-exists s closed h (step {b} {c} p e) = closed b c e
