-- ===== src/Automation.antt =====
-- proof_cli/automation.py: bounded automation runs. `Types` has the enumerations and the records,
-- `Policy` the policy profile, `Run` the methods of a run `Execute` its loop, and
-- `Build` how a run is set up.
pub mod Types
pub mod Policy
pub mod Run
pub mod Execute
pub mod Build
pub mod Keeps
pub mod DryRun
pub mod Flag
pub mod Find
pub mod Total
pub mod Consent
pub mod Forbidden
pub mod Indexes
pub mod Bounds
pub mod Order
pub mod Progress
pub mod Override
pub mod Tests
