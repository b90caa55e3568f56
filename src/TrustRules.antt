-- ===== src/TrustRules.antt =====
-- proof_cli/trust_rules.py: the vocabulary of conditions and its JSON, the fold of the file of
-- decisions, the matcher, and how a decision is checked and recorded.
pub mod Conditions
pub mod Folded
pub mod Matching
pub mod Recorded
pub mod File
pub mod Lines
pub mod Rounds
pub mod Kept
pub mod Covers
pub mod Final
pub mod Tests
