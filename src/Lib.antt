-- ===== src/Lib.antt =====
-- proof-cli keeps a map of a proof: nodes (theorems, lemmas, claims, imported results) that rest
-- on each other, the decisions taken on them, and the agents and people who hold them. Beside
-- the map it runs bounded automation: plans of actions that a policy, a reviewer and a limit
-- keep in check. This library models the parts of it that decide something.
--
-- The parts, and the files that model them:
--
-- `Base` has the lists, tests and conditionals that all parts share.
--
-- `Automation` is proof_cli/automation.py. `Types` has its enumerations and records, `Policy`
-- has `AutomationPolicyProfile.decide`, `Run` the methods of `AutomationAction` and
-- `AutomationRun`, `Execute` the loop of `AutomationRun.execute` and `resume`, `Build` the
-- functions that set a run up. One turn of the loop is `process`, whose outcome is to stop with
-- a run, to go on with one, or to raise; `loop` is the `for` loop, by recursion on the actions
-- as they stood when the call began. `Keeps` is the rule that an invariant of the turns is one
-- of the call; `Find` is about looking actions up by id; the other files are about what
-- `execute` keeps or does.
--
-- `Graph` is about graphs given by the successors of each identifier: `Reach` and `Chain`
-- describe walks, `Push`, `Closure` and `Path` are the two worklists of proof_cli/proof_map.py,
-- `Walk` the one of proof_cli/node_states.py with `Denotes` and `Answer` about it, `Spread` and
-- `Under` another one there, and `Acyclic` the changes that make no cycle. A worklist runs on
-- fuel: one more than the number of edge targets (or of nodes), which is enough, since each turn
-- that does not shorten the list finds a new one.
--
-- `ProofMap` is proof_cli/proof_map.py over the tables of proof_cli/storage.py. `Types` has the
-- records of proof_cli/domain.py, the events and the errors; `Tables` the tables; `Edges` the
-- searches along dependencies; `Claims` has `claim_node` and `release_node`; `Edit` the edits of
-- dependencies; `Create` has `create_node`, and `Split` has `split_node` and
-- `create_node_under_parent`. A read that is not given the connection of a transaction sees what
-- is committed: within one, `Create` and `Split` read the store `seen` and write to another. An
-- operation of the map runs in one transaction, so that an error leaves the store as it was: it
-- returns a new store or an error. What the operations read of review decisions, challenges and
-- restatements is the record `Decisions` of functions on the store. `Claims/Holders` says what
-- the table of claims stands for. `Whole` is about all these operations: `Whole/History` has a
-- call as a data type, and a sequence of them as a run of the store.
--
-- `ProofMap/Upstream` and `ProofMap/Support` are the walks of `_upstream_cause` and
-- `_unsettled_support`, each with its explicit path, the memo of a read, which is an argument
-- and a result here, and the plain search that it falls back on. Each has fuel for the edges of
-- the nodes on its path and, for each node that is not seen, its edges and two more. `Workflow`
-- has `get_workflow_state` and `get_blocked_reason` over the first, `Integrity` has
-- `is_provisional`, `conditional_on`, `get_integrity_state` and `get_frontier` over both. What
-- they read of reviews, pins, snapshots, checks and texts is the record `Records`.
--
-- `NodeStates` is proof_cli/node_states.py. `Types` has the states, `Conclusion` the table of
-- conclusions, `Own` the states of a node by itself: its seal, its verifications and what its
-- Challenges do to them; `Walk` has `node_states`, an instance of the walk of `Graph/Walk`,
-- which has fuel to enter and to leave every node once; `Seals` has `seal_preview`, `Stopped`
-- `stopped_by` (with `Sides` about what is worked on meanwhile), by the walk of `Graph/Spread`
-- with fuel for every node and edge. What they read of the other records is the record
-- `Readings`. Whether a Challenge's counterexample decides it is a parameter of `own_states`,
-- and how the conclusion of a counterexample is read one of `counterexample_decides`: that a
-- counterexample is read by `node_states` again, the guard that ends this and the errors that
-- come of it are left out. What the code keeps of one walk for the next in a read scope is not
-- modelled there: a walk starts with nothing read.
--
-- `TrustRules` is proof_cli/trust_rules.py. `Conditions` has the vocabulary of conditions and
-- its JSON, `Folded` the decisions in trust-rules.jsonl and `_fold`, `Recorded` the check of a
-- decision and its line, `File` the text of the file with what proof_cli/reviews.py reads and
-- appends, in which the JSON of a line is a parameter, `Matching` the citations that a rule
-- covers. `Rounds` is about the JSON of conditions, `Lines` about the lines of the file, `Kept`
-- about what the file gives back, `Final` about retired rules, `Covers` about the matcher.
--
-- Simplifications that hold everywhere: the rows of a table are read in the order of their
-- insertion, where the code sorts nodes by id; ids and the names of actors are numbers, since
-- the code only compares them; a call reads the clock once; fresh ids are a function of a count;
-- texts that only go into messages are left out, and so are the interpolated names in reasons. A
-- dictionary payload that is carried along and not read is a text.
--
-- Not modelled: text, files and I/O (cli.py, commands.py, export.py, rendering.py, vault.py,
-- exchange.py, publication.py, the package latex-agent), the ranking by scores of memory.py and
-- retrieval.py, the calls of external provers (verification_broker.py, formal_bridge.py), the
-- SQL of storage.py and the contention of concurrent connections. Of proof_map.py the reviews
-- and the challenges, pinning, archiving, work logs and the causes that are shown for a stale
-- node are not modelled, nor are the working files of a node.
pub mod Base
pub mod Automation
pub mod Graph
pub mod ProofMap
pub mod TrustRules
pub mod NodeStates
