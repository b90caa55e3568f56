-- ===== src/NodeStates/Layers.antt =====
-- What the loop over a node's Challenges makes of its layers, whatever their order.
use proof_cli.Base.{◌≡◌, ◌∙◌, ap, Bool, not, ◌&&◌, ◌||◌, List, [], ◌∷◌, arith, any, if◌then◌else◌}
use proof_cli.ProofMap.Types.{Node, Store}
use proof_cli.NodeStates.Types.{
  StatementLayer, challenged_as_false, found_false, ProofLayer, incomplete, Challenge, Readings,
}
use proof_cli.NodeStates.Conclusion.{is_found_false}
use proof_cli.NodeStates.Own.{
  stands_open, against_proof, two_sided, read_challenge, read_challenges, statement_layer_before,
  proof_layer_before, own_states, Layers,
}

-- An open Challenge against the statement, or one from before kinds.
abbrev pub disputes : Challenge → Bool
disputes c = stands_open c.status && not (against_proof c.kind)

-- An open Challenge that sends the proof back: against it, or one against the statement that is
-- worked from both sides and that nothing decided.
abbrev pub reopens : (Challenge → Bool) → Challenge → Bool
reopens decides c =
    stands_open c.status && (against_proof c.kind || (two_sided c && not (decides c)))

-- The statement layer by what is among the Challenges, whatever their order.
abbrev pub disputed_layer : (Challenge → Bool) → List Challenge → StatementLayer → StatementLayer
disputed_layer decides cs before =
    if is_found_false before || any (λ c. disputes c && decides c) cs
    then found_false
    else if any disputes cs
    then challenged_as_false
    else before

abbrev pub reopened_layer : (Challenge → Bool) → List Challenge → ProofLayer → ProofLayer
reopened_layer decides cs before = if any (reopens decides) cs then incomplete else before

read_challenges_lem :
    (decides : Challenge → Bool) (cs : List Challenge) (st : StatementLayer) (pf : ProofLayer)
    → read_challenges decides cs (st, pf)
      ≡ (disputed_layer decides cs st, reopened_layer decides cs pf)
unfolding read_challenges read_challenge
read_challenges_lem decides [] st pf = ground arith
read_challenges_lem decides (c ∷ cs) st pf =
    read_challenges_lem decides cs (read_challenge decides c (st, pf)).0
      (read_challenge decides c (st, pf)).1
    ∙ ground arith

-- The layers of a node do not depend on the order of its Challenges. Its statement is found false
-- when a counterexample decides an open Challenge that is not against the proof, is else challenged
-- when there is such a Challenge, and is else as its Acceptance says; its proof is incomplete when
-- an open Challenge is against it, or is worked from both sides undecided, and is else as its
-- verifications and checks say.
pub own_states_layers :
    (r : Readings) (s : Store) (decides : Challenge → Bool) (node : Node)
    → ((own_states r s decides node).statement_layer
        ≡ disputed_layer decides (r.challenges node.id) (statement_layer_before r node))
      × ((own_states r s decides node).proof_layer
          ≡ reopened_layer decides (r.challenges node.id) (proof_layer_before r node))
unfolding own_states
own_states_layers r s decides node =
    let both =
      read_challenges_lem decides (r.challenges node.id) (statement_layer_before r node)
        (proof_layer_before r node) in
    (ap (λ (l : Layers). l.0) both, ap (λ (l : Layers). l.1) both)
