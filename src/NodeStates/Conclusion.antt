-- ===== src/NodeStates/Conclusion.antt =====
-- `conclusion` of src/proof_cli/node_states.py.
use proof_cli.Base.{ℕ, Bool, true, false, ◌||◌, List, [], ◌∷◌, map, ltb, if◌then◌else◌}
use proof_cli.NodeStates.Types.{
  Seal, unsealed, sealed_true, sealed_false, StatementLayer, challenged_as_false, found_false,
  ProofLayer, incomplete, expert_verified, Conclusion, uncertain, is_true, verified_true, is_false,
}

-- `_RANK`; false is not on it, and the code looks up no false conclusion.
abbrev pub rank : Conclusion → ℕ
rank uncertain = 0
rank is_true = 1
rank verified_true = 2
rank is_false = 0

-- A false dependency makes the node uncertain.
abbrev pub capped : Conclusion → Conclusion
capped is_false = uncertain
capped c = c

abbrev pub is_challenged : StatementLayer → Bool
is_challenged challenged_as_false = true
is_challenged _ = false

abbrev pub is_found_false : StatementLayer → Bool
is_found_false found_false = true
is_found_false _ = false

abbrev pub is_incomplete : ProofLayer → Bool
is_incomplete incomplete = true
is_incomplete _ = false

abbrev pub is_expert : ProofLayer → Bool
is_expert expert_verified = true
is_expert _ = false

-- What the node's own layers say, its statement not false.
unfoldable pub own_conclusion : StatementLayer → ProofLayer → Conclusion
own_conclusion statement_layer proof_layer =
    if is_challenged statement_layer || is_incomplete proof_layer
    then uncertain
    else if is_expert proof_layer
    then verified_true
    else is_true

-- `min([own, *capped], key=_RANK.__getitem__)`: the first of the least rank.
unfoldable pub min_by_rank : Conclusion → List Conclusion → Conclusion
min_by_rank least [] = least
min_by_rank least (c ∷ cs) = min_by_rank (if ltb (rank c) (rank least) then c else least) cs

abbrev pub unsealed_conclusion : StatementLayer → ProofLayer → List Conclusion → Conclusion
unsealed_conclusion statement_layer proof_layer dependencies =
    if is_found_false statement_layer
    then is_false
    else min_by_rank (own_conclusion statement_layer proof_layer) (map capped dependencies)

unfoldable pub conclusion : Seal → StatementLayer → ProofLayer → List Conclusion → Conclusion
unfolding own_conclusion
conclusion sealed_true statement_layer proof_layer dependencies = verified_true
conclusion sealed_false statement_layer proof_layer dependencies = is_false
conclusion unsealed statement_layer proof_layer dependencies =
    unsealed_conclusion statement_layer proof_layer dependencies
