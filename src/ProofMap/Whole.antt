-- ===== src/ProofMap/Whole.antt =====
-- What every operation of the proof map keeps of it: distinct ids, one theorem, dependencies that
-- exist, no cycle, and at most one active claim on a node.
pub mod Tables
pub mod Held
pub mod Edits
pub mod Moves
pub mod Creation
pub mod Children
pub mod Splitting
pub mod Under
pub mod Claimed
pub mod History
pub mod Tests
use proof_cli.Base.{ℕ, ◌≡◌, true, false, ◌&&◌, List, [], ◌∷◌, any, is_some}
use proof_cli.Graph.Reach.{In}
use proof_cli.ProofMap.Types.{Node, Store}
use proof_cli.ProofMap.Tables.{find_node, is_theorem}
use proof_cli.ProofMap.Edges.{dependencies_of}
use proof_cli.ProofMap.Edges.Dual.{HasKeys}
use proof_cli.ProofMap.Edit.Acyclic.{IsAcyclicMap}
use proof_cli.ProofMap.Claims.Single.{HasSingleClaims}

-- The unique index: at most one node is of the kind `theorem`.
abbrev pub HasOneTheorem : List Node → Type 0
HasOneTheorem [] = Unit
HasOneTheorem (n ∷ nodes) =
    (is_theorem n.kind && any (λ m. is_theorem m.kind) nodes ≡ false) × HasOneTheorem nodes

-- A table of nodes with its keys, its index, and dependencies that are rows of it.
pub record IsTable (nodes : List Node) : Type 0 where
  pub keys : HasKeys nodes
  pub theorems : HasOneTheorem nodes
  pub closed : (i d : ℕ) → In d (dependencies_of nodes i) → is_some (find_node d nodes) ≡ true

pub record IsWhole (s : Store) : Type 0 where
  pub table : IsTable s.nodes
  pub acyclic : IsAcyclicMap s
  pub single : HasSingleClaims s.claims
