-- ===== src/ProofMap/Edges.antt =====
-- The dependency edges of the map, and the searches of src/proof_cli/proof_map.py along them:
-- `rests_on`, `_resting_on`, `_dependency_path`, `_refuse_cycle`, `dependents` and `siblings`.
pub mod Search
pub mod Dual
use proof_cli.Base.{
  ℕ, ◌≡◌, Bool, true, false, not, Option, none, some, List, [], ◌∷◌, ◌++◌, map, ◌==◌, contains,
  keep, if◌then◌else◌, any, ◌&&◌,
}
use proof_cli.Graph.Closure.{closure}
use proof_cli.Graph.Chain.{path_between}
use proof_cli.ProofMap.Types.{
  Node, Store, Error, dependency_cycle, unending, Result, ok, err, ◌>>=◌, ◌>>◌, Decisions,
}
use proof_cli.ProofMap.Tables.{find_node, require_node, get_node, as_counted}

abbrev pub dependencies_or_none : Option Node → List ℕ
dependencies_or_none none = []
dependencies_or_none (some n) = n.dependencies

-- `node.dependencies if node is not None else []`
unfoldable pub dependencies_of : List Node → ℕ → List ℕ
dependencies_of nodes i = dependencies_or_none (find_node i nodes)

-- Every identifier that some node depends on: the bound of the searches.
unfoldable pub targets : List Node → List ℕ
targets [] = []
targets (n ∷ nodes) = n.dependencies ++ targets nodes

-- `node_id` and every node it rests on.
unfoldable pub rests_on : Store → ℕ → Option (List ℕ)
rests_on s node_id = closure (dependencies_of s.nodes) (targets s.nodes) node_id

unfoldable pub uses_in : ℕ → ℕ → List ℕ → List ℕ
uses_in user i [] = []
uses_in user i (d ∷ ds) = let rest = uses_in user i ds in if d == i then user ∷ rest else rest

-- `dependents_of.get(i, [])`, in the order of the map.
unfoldable pub dependents_of : List Node → ℕ → List ℕ
dependents_of [] i = []
dependents_of (n ∷ nodes) i = uses_in n.id i n.dependencies ++ dependents_of nodes i

abbrev pub node_ids : List Node → List ℕ
node_ids nodes = map (λ n. n.id) nodes

-- `node_id` and every node that rests on it.
unfoldable pub resting_on : Store → ℕ → Option (List ℕ)
resting_on s node_id = closure (dependents_of s.nodes) (node_ids s.nodes) node_id

-- A chain of dependencies from `start` down to `goal`, both included.
unfoldable pub dependency_path : Store → ℕ → ℕ → Option (Option (List ℕ))
dependency_path s start goal = path_between (dependencies_of s.nodes) (targets s.nodes) start goal

-- `if path is not None: raise _cycle(node_id, [*before, *path])`
abbrev pub refuse_path : ℕ → List ℕ → Option (Option (List ℕ)) → Result (Unit {0})
refuse_path node_id before none = err unending
refuse_path node_id before (some none) = ok tt
refuse_path node_id before (some (some path)) = err (dependency_cycle node_id (before ++ path))

-- Refuse the edge `node_id` → `dependency_id` if `dependency_id` already rests on `node_id`.
unfoldable pub refuse_cycle : Store → ℕ → ℕ → Result (Unit {0})
refuse_cycle s node_id dependency_id =
    refuse_path node_id (node_id ∷ []) (dependency_path s dependency_id node_id)

-- The nodes as they count, in the order of the map.
unfoldable pub list_nodes : Decisions → Store → List Node
list_nodes d s = map (as_counted d s) s.nodes

-- The nodes that rest on `node_id` directly, and the other dependencies of those.
unfoldable pub dependents : Decisions → Store → ℕ → Result (List Node)
unfolding list_nodes
dependents d s node_id = do
  _ ← require_node d s node_id
  ok (keep (λ n. contains n.dependencies node_id) (list_nodes d s))

abbrev pub wanted_beside : ℕ → List Node → List ℕ
wanted_beside node_id [] = []
wanted_beside node_id (p ∷ parents) =
    keep (λ i. not (i == node_id)) p.dependencies ++ wanted_beside node_id parents

unfoldable pub siblings : Decisions → Store → ℕ → Result (List Node)
unfolding dependents list_nodes
siblings d s node_id = do
  _ ← require_node d s node_id
  parents ← dependents d s node_id
  ok (keep (λ n. contains (wanted_beside node_id parents) n.id) (list_nodes d s))
