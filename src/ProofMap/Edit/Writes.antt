-- ===== src/ProofMap/Edit/Writes.antt =====
-- What the writes of the edits do to the edges of the map.
use proof_cli.Base.{
  ℕ, ◌≡◌, refl, Bool, true, false, Option, none, some, List, [], ◌∷◌, ◌==◌, ◌⊎◌, arith,
}
use proof_cli.Graph.Reach.{In}
use proof_cli.ProofMap.Types.{Node, Claim, Store, Result, ok, err, ◌>>=◌, Decisions, World}
use proof_cli.ProofMap.Tables.{
  find_node, update_in, require_node, or_missing, map_found, as_counted,
}
use proof_cli.ProofMap.Edges.{dependencies_of}
use proof_cli.ProofMap.Claims.{take_over, take_over_held, held_by_another}
use proof_cli.ProofMap.Edit.{without, hold}

-- The edges of an updated table: those of the row, at the row, and the old ones elsewhere.
pub update_in-edges :
    (node : Node) (nodes : List Node) (x d : ℕ)
    → In d (dependencies_of (update_in node nodes) x)
    → ((node.id == x) ≡ false) × In d (dependencies_of nodes x)
      ⊎ ((x ≡ node.id) × In d node.dependencies)
unfolding dependencies_of find_node update_in
update_in-edges node [] x d h = cc
update_in-edges node (n ∷ nodes) x d h = ground (arith, update_in-edges node nodes x d)

pub update_in-elsewhere :
    (node : Node) (nodes : List Node) (x : ℕ)
    → (node.id == x) ≡ false
    → dependencies_of (update_in node nodes) x ≡ dependencies_of nodes x
unfolding dependencies_of find_node update_in
update_in-elsewhere node [] x h = refl
update_in-elsewhere node (n ∷ nodes) x h = ground (arith, update_in-elsewhere node nodes x)

pub find_node-id : (i : ℕ) (nodes : List Node) (n : Node) → find_node i nodes ≡ some n → n.id ≡ i
unfolding find_node
find_node-id i [] n h = cc
find_node-id i (m ∷ nodes) n h = ground (arith, find_node-id i nodes n)

-- The node that is required is that of the table, up to the kind as which it counts.
pub record IsRow (s : Store) (i : ℕ) (n : Node) : Type 0 where
  pub named : n.id ≡ i
  pub edges : dependencies_of s.nodes i ≡ n.dependencies

pub require_node-IsRow :
    (d : Decisions) (s : Store) (i : ℕ) (n : Node) → require_node d s i ≡ ok n → IsRow s i n
unfolding require_node dependencies_of
require_node-IsRow d s i n h = row (find_node i s.nodes) refl h
  where
    row :
        (f : Option Node)
        → find_node i s.nodes ≡ f
        → or_missing i (map_found (as_counted d s) f) ≡ ok n
        → IsRow s i n
    row none e h = cc
    row (some m) e h = record {
      named = ground (arith, find_node-id i s.nodes m e);
      edges = ground (arith, e);
    }

-- Taking over a claim leaves the nodes alone.
pub nodes-take_over_held :
    (w : World) (c : Option Claim) (actor : ℕ) (s : Store)
    → (take_over_held w c actor s).nodes ≡ s.nodes
unfolding take_over
nodes-take_over_held w none actor s = refl
nodes-take_over_held w (some c) actor s = refl

pub nodes-hold :
    (w : World) (own : Bool) (s : Store) (i actor : ℕ) (reassign : Bool) (s' : Store)
    → hold w own s i actor reassign ≡ ok s'
    → s'.nodes ≡ s.nodes
unfolding ◌>>=◌
nodes-hold w true s i actor reassign s' h = cc
nodes-hold w false s i actor reassign s' h = go (held_by_another s i actor reassign) h
  where
    go :
        (r : Result (Option Claim))
        → (r >>= λ c. ok (take_over_held w c actor s)) ≡ ok s'
        → s'.nodes ≡ s.nodes
    go (ok c) k = ground (arith, nodes-take_over_held w c actor s)
    go (err e) k = cc

pub In-without : (i x : ℕ) (ds : List ℕ) → In x (without i ds) → In x ds
In-without i x [] h = cc
In-without i x (d ∷ ds) h = ground (arith, In-without i x ds)
