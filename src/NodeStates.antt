-- ===== src/NodeStates.antt =====
-- proof_cli/node_states.py: a node's four states and its conclusion. `Types` has the states and
-- what is read of the records, `Conclusion` the table of conclusions, `Own` the states of a node
-- by itself, `Walk` those of a node over what it rests on.
pub mod Types
pub mod Conclusion
pub mod Weakest
pub mod Own
pub mod Layers
pub mod Grounds
pub mod Verified
pub mod Walk
pub mod Reading
pub mod Through
pub mod Seals
pub mod Unseal
pub mod Stopped
pub mod Sides
pub mod Branch
pub mod Tests
