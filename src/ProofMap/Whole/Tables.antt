-- ===== src/ProofMap/Whole/Tables.antt =====
-- Updating a row and appending one keep the table of nodes.
use proof_cli.Base.{
  ℕ, ◌≡◌, refl, true, false, ◌&&◌, ◌||◌, List, [], ◌∷◌, ◌++◌, any, contains, ◌==◌, ◌⊎◌, inl, inr,
  is_some, arith,
}
use proof_cli.Graph.Reach.{In}
use proof_cli.ProofMap.Types.{Node}
use proof_cli.ProofMap.Tables.{find_node, update_in, is_theorem}
use proof_cli.ProofMap.Edges.{dependencies_of, node_ids}
use proof_cli.ProofMap.Edges.Dual.{HasKeys}
use proof_cli.ProofMap.Edit.Writes.{update_in-edges}
use proof_cli.ProofMap.Whole.{HasOneTheorem, IsTable}

pub node_ids-update_in :
    (node : Node) (nodes : List Node) → node_ids (update_in node nodes) ≡ node_ids nodes
unfolding update_in
node_ids-update_in node [] = refl
node_ids-update_in node (n ∷ nodes) = ground (arith, node_ids-update_in node nodes)

HasKeys-update_in :
    (node : Node) (nodes : List Node) → HasKeys nodes → HasKeys (update_in node nodes)
unfolding update_in
HasKeys-update_in node [] h = tt
HasKeys-update_in node (n ∷ nodes) h =
    (ground (arith, h.0, node_ids-update_in node nodes), HasKeys-update_in node nodes h.1)

any_theorem-update_in :
    (node : Node) (nodes : List Node)
    → any (λ m. is_theorem m.kind) (update_in node nodes) ≡ any (λ m. is_theorem m.kind) nodes
unfolding update_in
any_theorem-update_in node [] = refl
any_theorem-update_in node (n ∷ nodes) = ground (arith, any_theorem-update_in node nodes)

HasOneTheorem-update_in :
    (node : Node) (nodes : List Node) → HasOneTheorem nodes → HasOneTheorem (update_in node nodes)
unfolding update_in
HasOneTheorem-update_in node [] h = tt
HasOneTheorem-update_in node (n ∷ nodes) h =
    (ground (arith, h.0, any_theorem-update_in node nodes), HasOneTheorem-update_in node nodes h.1)

pub is_some-update_in :
    (node : Node) (nodes : List Node) (i : ℕ)
    → is_some (find_node i (update_in node nodes)) ≡ is_some (find_node i nodes)
unfolding find_node update_in
is_some-update_in node [] i = refl
is_some-update_in node (n ∷ nodes) i = ground (arith, is_some-update_in node nodes i)

-- Writing a row whose dependencies are rows.
pub update_in-IsTable :
    (node : Node) (nodes : List Node)
    → IsTable nodes
    → ((c : ℕ) → In c node.dependencies → is_some (find_node c nodes) ≡ true)
    → IsTable (update_in node nodes)
update_in-IsTable node nodes h known = record {
  keys = HasKeys-update_in node nodes h.keys;
  theorems = HasOneTheorem-update_in node nodes h.theorems;
  closed = λ i d e. rw (is_some-update_in node nodes d) (elim (update_in-edges node nodes i d e) [
    | inl (_, old) ↦ h.closed i d old
    | inr (_, k) ↦ known d k
  ]);
}

module _ (n : Node) where
  node_ids-snoc :
      (nodes : List Node) (i : ℕ)
      → contains (node_ids (nodes ++ n ∷ [])) i ≡ (contains (node_ids nodes) i || n.id == i)
  node_ids-snoc [] i = ground arith
  node_ids-snoc (m ∷ nodes) i = ground (arith, node_ids-snoc nodes i)

  HasKeys-snoc :
      (nodes : List Node)
      → is_some (find_node n.id nodes) ≡ false
      → HasKeys nodes
      → HasKeys (nodes ++ n ∷ [])
  unfolding find_node
  HasKeys-snoc [] e h = (refl, tt)
  HasKeys-snoc (m ∷ nodes) e h =
      (ground (arith, node_ids-snoc nodes m.id, h.0, e), HasKeys-snoc nodes (ground (arith, e)) h.1)

  any_theorem-snoc :
      (nodes : List Node)
      → any (λ m. is_theorem m.kind) (nodes ++ n ∷ [])
        ≡ (any (λ m. is_theorem m.kind) nodes || is_theorem n.kind)
  any_theorem-snoc [] = ground arith
  any_theorem-snoc (m ∷ nodes) = ground (arith, any_theorem-snoc nodes)

  HasOneTheorem-snoc :
      (nodes : List Node)
      → is_theorem n.kind && any (λ m. is_theorem m.kind) nodes ≡ false
      → HasOneTheorem nodes
      → HasOneTheorem (nodes ++ n ∷ [])
  HasOneTheorem-snoc [] e h = (ground arith, tt)
  HasOneTheorem-snoc (m ∷ nodes) e h = (
    ground (arith, any_theorem-snoc nodes, h.0, e),
    HasOneTheorem-snoc nodes (ground (arith, e)) h.1,
  )

  pub is_some-snoc :
      (nodes : List Node) (i : ℕ)
      → is_some (find_node i (nodes ++ n ∷ [])) ≡ (is_some (find_node i nodes) || n.id == i)
  unfolding find_node
  is_some-snoc [] i = ground arith
  is_some-snoc (m ∷ nodes) i = ground (arith, is_some-snoc nodes i)

  -- The edges of a row that stood before.
  pub dependencies_of-snoc :
      (nodes : List Node) (i : ℕ)
      → is_some (find_node i nodes) ≡ true
      → dependencies_of (nodes ++ n ∷ []) i ≡ dependencies_of nodes i
  unfolding dependencies_of find_node
  dependencies_of-snoc [] i h = cc
  dependencies_of-snoc (m ∷ nodes) i h = ground (arith, dependencies_of-snoc nodes i)

  pub snoc-edges :
      (nodes : List Node) (x d : ℕ)
      → In d (dependencies_of (nodes ++ n ∷ []) x)
      → In d (dependencies_of nodes x) ⊎ ((x ≡ n.id) × In d n.dependencies)
  unfolding dependencies_of find_node
  snoc-edges [] x d h = ground (arith, h)
  snoc-edges (m ∷ nodes) x d h = ground (arith, snoc-edges nodes x d)

  -- Appending a new row whose dependencies are rows.
  pub snoc-IsTable :
      (nodes : List Node)
      → IsTable nodes
      → is_some (find_node n.id nodes) ≡ false
      → is_theorem n.kind && any (λ m. is_theorem m.kind) nodes ≡ false
      → ((c : ℕ) → In c n.dependencies → is_some (find_node c nodes) ≡ true)
      → IsTable (nodes ++ n ∷ [])
  snoc-IsTable nodes h new one known = record {
    keys = HasKeys-snoc nodes new h.keys;
    theorems = HasOneTheorem-snoc nodes one h.theorems;
    closed = λ i d e. elim (snoc-edges nodes i d e) [
      | inl old ↦ rw (is_some-snoc nodes d, h.closed i d old)
      | inr (_, k) ↦ rw (is_some-snoc nodes d, known d k)
    ];
  }
