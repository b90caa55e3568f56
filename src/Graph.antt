-- ===== src/Graph.antt =====
-- Directed graphs over identifiers and the worklist searches that proof_cli/proof_map.py runs on
-- them: `Reach` says what a search is to find, `Push` is the inner loop of the searches and
-- `Closure` the search for everything that is reached.
pub mod Reach
pub mod Push
pub mod Closure
pub mod Chain
pub mod Path
pub mod Acyclic
pub mod Walk
pub mod Denotes
pub mod Answer
pub mod Spread
pub mod Under
