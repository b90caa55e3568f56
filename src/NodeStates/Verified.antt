-- ===== src/NodeStates/Verified.antt =====
-- When a node reads as expert-verified by src/proof_cli/node_states.py, said without the tests of the
-- code.
use proof_cli.Base.{
  ◌≡◌, ◌∙◌, refl, sym, Bool, true, false, not, ◌&&◌, List, ◌↔◌, inl, inr, any, arith, Bool-cases,
}
use proof_cli.ProofMap.Types.{Node, Store}
use proof_cli.NodeStates.Types.{ProofLayer, expert_verified, Challenge, Readings}
use proof_cli.NodeStates.Own.{
  decided, is_void, verification_holds, lapses, is_verified, proof_layer_before, own_states,
}
use proof_cli.NodeStates.Layers.{reopens, reopened_layer, own_states_layers}
use proof_cli.NodeStates.Grounds.{
  IsExpertVerified, any-All, is_void-IsNeverFalse, lapses-IsHarmless, decided-IsDecided,
}

is_verified_lem :
    (r : Readings) (node : Node)
    → is_verified r node ≡ (
        decided r node
        && not (is_void r node (r.verification_time node.id))
        && not (any (λ c. lapses r c (r.verification_time node.id)) (r.challenges node.id)))
unfolding is_verified verification_holds
is_verified_lem r node = elim (Bool-cases (decided r node)) [
  | inr off ↦ rw off refl
  | inl on ↦ elim (Bool-cases (is_void r node (r.verification_time node.id))) [
    | inl void ↦ rw (on, void) refl
    | inr stands ↦ rw (on, stands) refl
  ]
]

split_three :
    (a b c : Bool) → (a && not b && not c ≡ true) ↔ ((a ≡ true) × (b ≡ false) × (c ≡ false))
split_three a b c = (
  λ h. (ground (arith, h), ground (arith, h), ground (arith, h)),
  λ h. let x = h.0 in let y = h.1 in let z = h.2 in rw (x, y, z) refl,
)

-- The layer before the Challenges is the highest exactly if a verification holds.
proof_layer_before-is_verified :
    (r : Readings) (node : Node)
    → (proof_layer_before r node ≡ expert_verified) ↔ (is_verified r node ≡ true)
unfolding proof_layer_before
proof_layer_before-is_verified r node = (λ h. ground (arith, h), λ h. rw h refl)

reopened_layer-expert_verified :
    (decides : Challenge → Bool) (cs : List Challenge) (before : ProofLayer)
    → (reopened_layer decides cs before ≡ expert_verified)
      ↔ ((any (reopens decides) cs ≡ false) × (before ≡ expert_verified))
reopened_layer-expert_verified decides cs before =
    (λ h. (ground (arith, h), ground (arith, h)), λ h. let off = h.0 in rw off h.1)

-- A node reads as expert-verified exactly if a decision verifies it as it stands, none of its
-- dependencies was found false after the verification, every Challenge on it is harmless to the
-- verification, and none sends the proof back: open, and against the proof, or worked from both
-- sides and not decided.
pub own_states-IsExpertVerified :
    (r : Readings) (s : Store) (decides : Challenge → Bool) (node : Node)
    → ((own_states r s decides node).proof_layer ≡ expert_verified)
      ↔ IsExpertVerified r decides node
unfolding proof_layer_before is_verified verification_holds
own_states-IsExpertVerified r s decides node =
    let cs = r.challenges node.id in
    let since = r.verification_time node.id in
    let layer = (own_states_layers r s decides node).1 in
    let top = reopened_layer-expert_verified decides cs (proof_layer_before r node) in
    let before = proof_layer_before-is_verified r node in
    let parts =
      split_three (decided r node) (is_void r node since) (any (λ c. lapses r c since) cs) in
    let harmless = any-All (λ c. lapses r c since) (lapses-IsHarmless r since) cs in
    let calm = any-All (reopens decides) (λ c. (λ h. h, λ h. h)) cs in
    (
      λ h.
          let (off, high) = top.0 (sym layer ∙ h) in
          let (on, stands, kept) = parts.0 (sym (is_verified_lem r node) ∙ before.0 high) in
          record {
            decided_on = (decided-IsDecided r node).0 on;
            never_false = (is_void-IsNeverFalse r node since).0 stands;
            harmless = harmless.0 kept;
            not_reopened = calm.0 off;
          },
      λ m.
          layer
          ∙ top.1 (
            calm.1 m.not_reopened,
            before.1 (
                is_verified_lem r node
                ∙ parts.1 (
                  (decided-IsDecided r node).1 m.decided_on,
                  (is_void-IsNeverFalse r node since).1 m.never_false,
                  harmless.1 m.harmless,
                )),
          ),
    )
