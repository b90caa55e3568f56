-- ===== src/ProofMap/Edit/Grants.antt =====
-- When `add_dependency` of src/proof_cli/proof_map.py adds the edge.
use proof_cli.Base.{
  subst, sym, ℕ, ◌≡◌, refl, Bool, true, false, Option, none, some, List, [], ◌∷◌, ◌++◌, ◌==◌,
  is_none, contains, Bool-cases, inl, inr, arith,
}
use proof_cli.Graph.Reach.{Reach}
use proof_cli.Graph.Chain.{Chain→Reach}
use proof_cli.ProofMap.Types.{
  Node, Claim, Store, Result, ok, err, ◌>>=◌, refuse_if, Decisions, World,
}
use proof_cli.ProofMap.Tables.{
  or_missing, map_found, as_counted, find_node, update_in, get_proof_map_node, require_node,
  get_active_claim,
}
use proof_cli.ProofMap.Edges.{dependencies_of, refuse_cycle}
use proof_cli.ProofMap.Edges.Search.{JudgesEdge, refuse_cycle-JudgesEdge}
use proof_cli.ProofMap.Claims.{structure_editable, held_by_another, other_holder, take_over_held}
use proof_cli.ProofMap.Edit.{
  with_dependencies, hold, own_split_edge, gain_dependency, add_dependency,
}
use proof_cli.ProofMap.Edit.Writes.{require_node-IsRow, nodes-hold}

refuse_cycle-ok :
    (s : Store) (a b : ℕ) → (Reach (dependencies_of s.nodes) b a → ⊥) → refuse_cycle s a b ≡ ok tt
refuse_cycle-ok s a b safe = judge (refuse_cycle s a b) (refuse_cycle-JudgesEdge s a b)
  where
    judge : (x : Result (Unit {0})) → JudgesEdge s a b x → x ≡ ok tt
    judge (ok u) h = refl
    judge (err e) (path, named, chain) = absurd (safe (Chain→Reach chain))

-- With leave to take the node over, it is held.
pub hold-ok :
    (w : World) (own : Bool) (s : Store) (i by : ℕ) → (t : Store) × (hold w own s i by true ≡ ok t)
unfolding ◌>>=◌ held_by_another
hold-ok w true s i by = (s, refl)
hold-ok w false s i by = go (get_active_claim s i)
  where
    go :
        (c : Option Claim)
        → (t : Store) × ((other_holder i by true c >>= λ x. ok (take_over_held w x by s)) ≡ ok t)
    go none = (s, refl)
    go (some c) = elim (Bool-cases (c.claimant_id == by)) [
      | inl same ↦ rw same (_, refl)
      | inr other ↦ rw other (_, refl)
    ]

dependencies_of-update_in :
    (node : Node) (nodes : List Node) (n : Node)
    → find_node node.id nodes ≡ some n
    → dependencies_of (update_in node nodes) node.id ≡ node.dependencies
unfolding dependencies_of find_node update_in
dependencies_of-update_in node [] n h = cc
dependencies_of-update_in node (x ∷ nodes) n h =
    ground (arith, dependencies_of-update_in node nodes n)

pub require_node-found :
    (d : Decisions) (s : Store) (i : ℕ) (n : Node)
    → require_node d s i ≡ ok n
    → (m : Node) × (find_node i s.nodes ≡ some m)
unfolding require_node
require_node-found d s i n h = found (find_node i s.nodes) h
  where
    found :
        (f : Option Node)
        → or_missing i (map_found (as_counted d s) f) ≡ ok n
        → (m : Node) × (f ≡ some m)
    found none e = cc
    found (some m) e = (m, refl)

pub dependencies_of-gain_dependency :
    (w : World) (s t : Store) (node m : Node) (dependency_id by : ℕ)
    → t.nodes ≡ s.nodes
    → find_node node.id s.nodes ≡ some m
    → dependencies_of (gain_dependency w node dependency_id by t).nodes node.id
      ≡ node.dependencies ++ dependency_id ∷ []
unfolding gain_dependency
dependencies_of-gain_dependency w s t node m dependency_id by same found = rw same (
    dependencies_of-update_in (with_dependencies w node (node.dependencies ++ dependency_id ∷ []))
      s.nodes m found)

-- `add_dependency`, told to take the node over if someone else holds it, adds the edge behind the
-- dependencies of an existing node whose structure may be edited, if the dependency is a node of the
-- map, is none of its dependencies yet, and does not rest on it.
pub add_dependency_adds :
    (d : Decisions) (w : World) (node_id dependency_id edited_by : ℕ) (s : Store) (node : Node)
    → require_node d s node_id ≡ ok node
    → structure_editable d s node ≡ ok tt
    → is_none (get_proof_map_node s dependency_id) ≡ false
    → contains node.dependencies dependency_id ≡ false
    → (Reach (dependencies_of s.nodes) dependency_id node_id → ⊥)
    → (s' : Store) × (add_dependency d w node_id dependency_id edited_by true s ≡ ok s')
      × (dependencies_of s'.nodes node_id ≡ node.dependencies ++ dependency_id ∷ [])
unfolding add_dependency ◌>>=◌ refuse_if
add_dependency_adds d w node_id dependency_id edited_by s node found editable known new safe =
    let (t, held) =
      hold-ok w (own_split_edge d s node dependency_id edited_by) s node_id edited_by in
    let row = require_node-IsRow d s node_id node found in
    let (m, at) = require_node-found d s node_id node found in
    let same = nodes-hold w _ s node_id edited_by true t held in
    (
      gain_dependency w node dependency_id edited_by t,
      rw (found, editable, known, new, refuse_cycle-ok s node_id dependency_id safe, held) refl,
      subst
          (λ z.
            dependencies_of (gain_dependency w node dependency_id edited_by t).nodes z
            ≡ node.dependencies ++ dependency_id ∷ [])
          row.named
          (dependencies_of-gain_dependency w s t node m dependency_id edited_by same
            (subst (λ z. find_node z s.nodes ≡ some m) (sym row.named) at)),
    )
