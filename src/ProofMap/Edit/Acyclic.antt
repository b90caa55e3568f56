-- ===== src/ProofMap/Edit/Acyclic.antt =====
-- No edit of a node's dependencies closes a cycle.
use proof_cli.Base.{
  ℕ, ◌≡◌, ◌∙◌, subst, Bool, List, [], ◌∷◌, ◌++◌, ◌⊎◌, contains, if◌then◌else◌, Bool-cases, inl, inr,
  arith,
}
use proof_cli.Graph.Reach.{In, Reach, IsAcyclic}
use proof_cli.Graph.Push.{In-append}
use proof_cli.Graph.Acyclic.{IsAcyclic-fewer, IsAcyclic-new}
use proof_cli.ProofMap.Types.{Node, Store, ok, Decisions, World}
use proof_cli.ProofMap.Tables.{update_in, require_node}
use proof_cli.ProofMap.Edges.{dependencies_of, refuse_cycle}
use proof_cli.ProofMap.Edges.Search.{JudgesEdge, refuse_cycle-JudgesEdge}
use proof_cli.ProofMap.Claims.{structure_editable, held_by_another, take_over_held}
use proof_cli.ProofMap.Edit.{
  without, with_dependencies, gain_dependency, add_dependency, remove_dependency, move_dependency,
  hold, write_move,
}
use proof_cli.ProofMap.Edit.Writes.{
  IsRow, require_node-IsRow, update_in-edges, nodes-hold, nodes-take_over_held, In-without,
}
use proof_cli.ProofMap.Results.{OnOk-eq, OnOk-bind, OnOk-guard}

abbrev pub IsAcyclicMap : Store → Type 0
IsAcyclicMap s = IsAcyclic (dependencies_of s.nodes)

unreached :
    (s : Store) (a b : ℕ) → refuse_cycle s a b ≡ ok tt → Reach (dependencies_of s.nodes) b a → ⊥
unreached s a b e = subst (JudgesEdge s a b) e (refuse_cycle-JudgesEdge s a b)

-- The edge written by `add_dependency`, on a store with the nodes of `s`.
pub gain_dependency-IsAcyclicMap :
    (w : World) (s t : Store) (i : ℕ) (node : Node) (dependency_id by : ℕ)
    → IsRow s i node
    → t.nodes ≡ s.nodes
    → (Reach (dependencies_of s.nodes) dependency_id i → ⊥)
    → IsAcyclicMap s
    → IsAcyclicMap (gain_dependency w node dependency_id by t)
unfolding gain_dependency
gain_dependency-IsAcyclicMap w s t i node dependency_id by row same safe acyclic =
    rw same (IsAcyclic-new i (dependency_id ∷ []) only acyclic only_safe)
  where
    only :
        (x c : ℕ)
        → In c (
            dependencies_of
              (update_in
                (with_dependencies w node (node.dependencies ++ dependency_id ∷ []))
                s.nodes)
              x)
        → In c (dependencies_of s.nodes x) ⊎ ((x ≡ i) × In c (dependency_id ∷ []))
    only x c h =
        elim (update_in-edges (with_dependencies w node (node.dependencies ++ dependency_id ∷ []))
          s.nodes x c h) [
            | inl (_, old) ↦ inl old
            | inr (at, k) ↦ elim (In-append c node.dependencies (dependency_id ∷ []) k) [
              | inl old ↦ inl (ground (arith, row.named, row.edges))
              | inr new ↦ inr (ground (arith, row.named), new)
            ]
          ]

    only_safe : (c : ℕ) → In c (dependency_id ∷ []) → Reach (dependencies_of s.nodes) c i → ⊥
    only_safe c k =
        let same : dependency_id ≡ c = ground arith in
        subst (λ z. Reach (dependencies_of s.nodes) z i → ⊥) same safe

-- A map without cycles has none after an `add_dependency` that returned.
pub add_dependency-IsAcyclicMap :
    (d : Decisions) (w : World) (node_id dependency_id edited_by : ℕ) (reassign : Bool)
    (s s' : Store)
    → add_dependency d w node_id dependency_id edited_by reassign s ≡ ok s'
    → IsAcyclicMap s
    → IsAcyclicMap s'
unfolding add_dependency
add_dependency-IsAcyclicMap d w node_id dependency_id edited_by reassign s s' h acyclic =
    OnOk-eq IsAcyclicMap (add_dependency d w node_id dependency_id edited_by reassign s) h (
      OnOk-bind IsAcyclicMap (require_node d s node_id) _ λ node found.
        OnOk-bind IsAcyclicMap (structure_editable d s node) _ λ _ _.
          OnOk-guard IsAcyclicMap _ _ _ λ _. OnOk-guard IsAcyclicMap _ _ _ λ _.
            OnOk-bind IsAcyclicMap (refuse_cycle s node_id dependency_id) _ λ _ safe.
              OnOk-bind IsAcyclicMap (hold w _ s node_id edited_by reassign) _ λ t held.
                gain_dependency-IsAcyclicMap w s t node_id node dependency_id edited_by
                  (require_node-IsRow d s node_id node found)
                  (nodes-hold w _ s node_id edited_by reassign t held)
                  (unreached s node_id dependency_id safe) acyclic)

remove-IsAcyclicMap :
    (w : World) (s t : Store) (i : ℕ) (node : Node) (dependency_id : ℕ)
    → IsRow s i node
    → t.nodes ≡ s.nodes
    → IsAcyclicMap s
    → IsAcyclic (
        dependencies_of
          (update_in (with_dependencies w node (without dependency_id node.dependencies)) t.nodes))
remove-IsAcyclicMap w s t i node dependency_id row same acyclic =
    rw same (IsAcyclic-fewer acyclic fewer)
  where
    node' : Node
    node' = with_dependencies w node (without dependency_id node.dependencies)

    fewer :
        (x c : ℕ)
        → In c (dependencies_of (update_in node' s.nodes) x)
        → In c (dependencies_of s.nodes x)
    fewer x c h = elim (update_in-edges node' s.nodes x c h) [
      | inl (_, old) ↦ old
      | inr (at, k) ↦
          let old = In-without dependency_id c node.dependencies k in
          ground (arith, row.named, row.edges)
    ]

-- A map without cycles has none after a `remove_dependency` that returned.
pub remove_dependency-IsAcyclicMap :
    (d : Decisions) (w : World) (node_id dependency_id edited_by : ℕ) (reassign : Bool)
    (s s' : Store)
    → remove_dependency d w node_id dependency_id edited_by reassign s ≡ ok s'
    → IsAcyclicMap s
    → IsAcyclicMap s'
unfolding remove_dependency
remove_dependency-IsAcyclicMap d w node_id dependency_id edited_by reassign s s' h acyclic =
    OnOk-eq IsAcyclicMap (remove_dependency d w node_id dependency_id edited_by reassign s) h (
      OnOk-bind IsAcyclicMap (require_node d s node_id) _ λ node found.
        OnOk-bind IsAcyclicMap (structure_editable d s node) _ λ _ _.
          OnOk-guard IsAcyclicMap _ _ _ λ _.
            OnOk-bind IsAcyclicMap (hold w _ s node_id edited_by reassign) _ λ t held.
              remove-IsAcyclicMap w s t node_id node dependency_id
                (require_node-IsRow d s node_id node found)
                (nodes-hold w _ s node_id edited_by reassign t held) acyclic)

abbrev pub new_at : Node → ℕ → List ℕ
new_at child i = if contains child.dependencies i then [] else i ∷ []

write_move-IsAcyclicMap :
    (w : World) (s t : Store) (i j : ℕ) (node child : Node) (dependency_id by : ℕ)
    → IsRow s i node
    → IsRow s j child
    → t.nodes ≡ s.nodes
    → (if contains child.dependencies dependency_id then ok tt else refuse_cycle s j dependency_id)
      ≡ ok tt
    → IsAcyclicMap s
    → IsAcyclicMap (write_move w node child dependency_id by t)
unfolding write_move
write_move-IsAcyclicMap w s t i j node child dependency_id by row row' same safe acyclic =
    rw same (IsAcyclic-new j (new_at child dependency_id) only acyclic only_safe)
  where
    node' : Node
    node' = with_dependencies w node (without dependency_id node.dependencies)

    child' : Node
    child' = with_dependencies w child (child.dependencies ++ new_at child dependency_id)

    only :
        (x c : ℕ)
        → In c (dependencies_of (update_in child' (update_in node' s.nodes)) x)
        → In c (dependencies_of s.nodes x) ⊎ ((x ≡ j) × In c (new_at child dependency_id))
    only x c h = elim (update_in-edges child' (update_in node' s.nodes) x c h) [
      | inl (_, k) ↦ elim (update_in-edges node' s.nodes x c k) [
        | inl (_, old) ↦ inl old
        | inr (at, k) ↦
            let old = In-without dependency_id c node.dependencies k in
            inl (ground (arith, row.named, row.edges))
      ]
      | inr (at, k) ↦ elim (In-append c child.dependencies (new_at child dependency_id) k) [
        | inl old ↦ inl (ground (arith, row'.named, row'.edges))
        | inr new ↦ inr (ground (arith, row'.named), new)
      ]
    ]

    only_safe :
        (c : ℕ) → In c (new_at child dependency_id) → Reach (dependencies_of s.nodes) c j → ⊥
    only_safe c k = elim (Bool-cases (contains child.dependencies dependency_id)) [
      | inl has ↦ let none_new : In c [] = rw has at k in absurd (cc)
      | inr hasnt ↦
          let one_new : In c (dependency_id ∷ []) = rw hasnt at k in
          let same : dependency_id ≡ c = ground arith in
          subst (λ z. Reach (dependencies_of s.nodes) z j → ⊥) same
            (unreached s j dependency_id (rw hasnt at safe))
    ]

-- A map without cycles has none after a `move_dependency` that returned.
pub move_dependency-IsAcyclicMap :
    (d : Decisions) (w : World) (node_id dependency_id to edited_by : ℕ) (reassign : Bool)
    (s s' : Store)
    → move_dependency d w node_id dependency_id to edited_by reassign s ≡ ok s'
    → IsAcyclicMap s
    → IsAcyclicMap s'
unfolding move_dependency
move_dependency-IsAcyclicMap d w node_id dependency_id to edited_by reassign s s' h acyclic =
    OnOk-eq IsAcyclicMap (move_dependency d w node_id dependency_id to edited_by reassign s) h (
      OnOk-bind IsAcyclicMap (require_node d s node_id) _ λ node found.
        OnOk-bind IsAcyclicMap (require_node d s to) _ λ child found'.
          OnOk-bind IsAcyclicMap (structure_editable d s node) _ λ _ _.
            OnOk-guard IsAcyclicMap _ _ _ λ _. OnOk-guard IsAcyclicMap _ _ _ λ _.
              OnOk-guard IsAcyclicMap _ _ _ λ _.
                OnOk-bind IsAcyclicMap (structure_editable d s child) _ λ _ _.
                  OnOk-bind IsAcyclicMap _ _ λ _ safe.
                    OnOk-bind IsAcyclicMap (held_by_another s node_id edited_by reassign) _ λ a _.
                      OnOk-bind IsAcyclicMap (held_by_another s to edited_by reassign) _ λ b _.
                        write_move-IsAcyclicMap w s
                          (take_over_held w b edited_by (take_over_held w a edited_by s)) node_id to
                          node child dependency_id edited_by
                          (require_node-IsRow d s node_id node found)
                          (require_node-IsRow d s to child found')
                          (nodes-take_over_held w b edited_by (take_over_held w a edited_by s)
                            ∙ nodes-take_over_held w a edited_by s)
                          safe acyclic)
