-- ===== src/ProofMap/Samples.antt =====
-- A concrete map: node 1 rests on 2 and 3, node 2 rests on 3, and node 2 is claimed by the agent 7; node
-- 4 stands alone.
use proof_cli.Base.{ℕ, ◌<◌, ◌≤◌, true, false, none, List, [], ◌∷◌, ◌+◌, arith}
use proof_cli.Graph.Reach.{In, Reach, here, step}
use proof_cli.ProofMap.Types.{
  NodeKind, theorem, lemma, Node, Claim, Store, Result, ok, err, unreviewed, Decisions, World,
  researcher,
}
use proof_cli.ProofMap.Tables.{find_node}
use proof_cli.ProofMap.Edges.{dependencies_of}
use proof_cli.ProofMap.Edit.Acyclic.{IsAcyclicMap}

abbrev pub node : ℕ → NodeKind → List ℕ → Node
node i kind dependencies = record {
  id = i;
  kind = kind;
  display_label = "";
  statement = "";
  assumptions = [];
  definitions = [];
  dependencies = dependencies;
  source_locator = none;
  source_version = none;
  trust_level = none;
  reference_id = none;
  derived_from = none;
  medium = none;
  created_by = researcher;
  created_at = 1;
  updated_at = 1;
}

abbrev pub held_2 : Claim
held_2 = record {
  id = 50;
  node_id = 2;
  claimant_id = 7;
  session_id = "";
  claimed_at = 1;
  released_at = none;
  released_by = none;
  release_reason = none;
}

abbrev pub sample : Store
sample = record {
  nodes =
      node 1 theorem (2 ∷ 3 ∷ []) ∷ node 2 lemma (3 ∷ []) ∷ node 3 lemma [] ∷ node 4 lemma [] ∷ [];
  claims = held_2 ∷ [];
  pins = [];
  events = [];
  definitions = [];
  references = [];
}

-- Nothing is reviewed yet.
abbrev pub no_decisions : Decisions
no_decisions = record {
  acceptance = λ s i. unreviewed;
  has_open_challenge = λ s i. false;
  verification_time = λ s i. none;
  false_since = λ s i. [];
  is_fixed = λ s i. false;
  is_promoted = λ s i. false;
  trust_rules_of = λ s i. [];
}

abbrev pub world : World
world = record { now = 9; fresh = λ i. 100 + i; names_folder = λ i. true; is_blank = λ t. false }

-- The value of a result, or `a` for an error.
abbrev pub value_or {ℓ} : {A : Type ℓ} → A → Result A → A
value_or a (ok b) = b
value_or a (err e) = a

-- Dependencies lead from smaller ids to larger ones.
pub larger : (x d : ℕ) → In d (dependencies_of sample.nodes x) → x < d
unfolding dependencies_of find_node
larger x d h = ground arith

pub rising : {x d : ℕ} → Reach (dependencies_of sample.nodes) x d → x ≤ d
rising here = omega arith
rising (step {b} {c} q k) = omega (arith, rising q, larger b c k)

pub sample-IsAcyclicMap : IsAcyclicMap sample
sample-IsAcyclicMap a b e p = absurd (omega (arith, larger a b e, rising p))
