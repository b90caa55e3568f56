-- ===== src/ProofMap.antt =====
-- The proof map: proof_cli/proof_map.py over the tables of proof_cli/storage.py. `Types` has the
-- records, `Tables` the tables of nodes and claims, `Edges` the searches along dependencies,
-- `Claims` and `Edit` the operations.
pub mod Types
pub mod Results
pub mod Tables
pub mod Edges
pub mod Claims
pub mod Edit
pub mod Create
pub mod Split
pub mod Whole
pub mod Upstream
pub mod Support
pub mod Workflow
pub mod Integrity
pub mod Samples
pub mod Tests
