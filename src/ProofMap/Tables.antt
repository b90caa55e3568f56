-- ===== src/ProofMap/Tables.antt =====
-- The tables of src/proof_cli/storage.py that the proof map reads and writes: a primary key, a
-- partial unique index and an update are written out on lists.
use proof_cli.Base.{
  ℕ, ◌+◌, String, Bool, true, false, not, ◌&&◌, Option, none, some, List, [], ◌∷◌, ◌++◌, ◌==◌,
  is_none, is_some, keep, if◌then◌else◌,
}
use proof_cli.ProofMap.Types.{
  NodeKind, theorem, lemma, claim, imported_result, Node, Claim, Happening, Store, World,
  node_not_found, Result, ok, err, Decisions,
}

abbrev pub is_theorem : NodeKind → Bool
is_theorem theorem = true
is_theorem _ = false

abbrev pub is_claim : NodeKind → Bool
is_claim claim = true
is_claim _ = false

abbrev pub is_imported : NodeKind → Bool
is_imported imported_result = true
is_imported _ = false

-- `SELECT data FROM proof_map_nodes WHERE id = ?`
unfoldable pub find_node : ℕ → List Node → Option Node
find_node i [] = none
find_node i (n ∷ nodes) = if n.id == i then some n else find_node i nodes

-- Whether the table has a row of that id.
abbrev pub exists_in : Store → ℕ → Bool
exists_in s i = is_some (find_node i s.nodes)

abbrev pub get_proof_map_node : Store → ℕ → Option Node
get_proof_map_node s i = find_node i s.nodes

-- `UPDATE proof_map_nodes SET … WHERE id = ?`: the row keeps its kind.
unfoldable pub update_in : Node → List Node → List Node
update_in node [] = []
update_in node (n ∷ nodes) =
    (if n.id == node.id then record node { kind = n.kind } else n) ∷ update_in node nodes

abbrev pub update_proof_map_node : Node → Store → Store
update_proof_map_node node s = record s { nodes = update_in node s.nodes }

abbrev pub insert_proof_map_node : Node → Store → Store
insert_proof_map_node node s = record s { nodes = s.nodes ++ node ∷ [] }

abbrev pub append_event : ℕ → Happening → Store → Store
append_event entity what s = record s {
  events = s.events ++ record { entity_id = entity; what = what } ∷ [];
}

abbrev pub is_active_on : ℕ → Claim → Bool
is_active_on node_id c = c.node_id == node_id && is_none c.released_at

-- `SELECT * FROM claims WHERE node_id = ? AND released_at IS NULL LIMIT 1`
unfoldable pub find_active : ℕ → List Claim → Option Claim
find_active node_id [] = none
find_active node_id (c ∷ claims) =
    if is_active_on node_id c then some c else find_active node_id claims

abbrev pub get_active_claim : Store → ℕ → Option Claim
get_active_claim s node_id = find_active node_id s.claims

-- `UPDATE claims SET … WHERE id = ? AND released_at IS NULL`
unfoldable pub release_in : ℕ → ℕ → ℕ → String → List Claim → List Claim
release_in now claim_id by reason [] = []
release_in now claim_id by reason (c ∷ claims) =
    (if c.id == claim_id && is_none c.released_at
      then record c { released_at = some now; released_by = some by; release_reason = some reason }
      else c)
    ∷ release_in now claim_id by reason claims

abbrev pub mark_claim_released : World → ℕ → ℕ → String → Store → Store
mark_claim_released w claim_id by reason s = record s {
  claims = release_in w.now claim_id by reason s.claims;
}

abbrev pub new_claim : World → ℕ → ℕ → String → Store → Claim
new_claim w node_id claimant_id session_id s = record {
  id = w.fresh (claim_count s.claims);
  node_id = node_id;
  claimant_id = claimant_id;
  session_id = session_id;
  claimed_at = w.now;
  released_at = none;
  released_by = none;
  release_reason = none;
}
  where
    claim_count : List Claim → ℕ
    claim_count [] = 0
    claim_count (c ∷ cs) = claim_count cs + 1

abbrev pub insert_claim : Claim → Store → Store
insert_claim c s = record s { claims = s.claims ++ c ∷ [] }

-- `DELETE FROM dependency_pins WHERE node_id = ? AND target_node_id = ?`
abbrev pub delete_dependency_pin : ℕ → ℕ → Store → Store
delete_dependency_pin node_id target s = record s {
  pins = keep (λ p. not (p.node_id == node_id && p.target_node_id == target)) s.pins;
}

-- `get_node`: a Claim that was promoted counts as a Lemma.
unfoldable pub as_counted : Decisions → Store → Node → Node
as_counted d s n = if is_claim n.kind && d.is_promoted s n.id then record n { kind = lemma } else n

abbrev pub map_found : (Node → Node) → Option Node → Option Node
map_found f none = none
map_found f (some n) = some (f n)

unfoldable pub get_node : Decisions → Store → ℕ → Option Node
unfolding as_counted
get_node d s i = map_found (as_counted d s) (get_proof_map_node s i)

abbrev pub or_missing : ℕ → Option Node → Result Node
or_missing i none = err (node_not_found i)
or_missing i (some n) = ok n

unfoldable pub require_node : Decisions → Store → ℕ → Result Node
unfolding get_node
require_node d s i = or_missing i (get_node d s i)
