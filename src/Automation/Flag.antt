-- ===== src/Automation/Flag.antt =====
-- The field `dry_run` of a run, which src/proof_cli/automation.py sets and `execute` does not read.
use proof_cli.Base.{
  ℕ, ◌+◌, ◌≡◌, refl, Bool, Option, none, some, List, [], ◌∷◌, Bool-cases, inl, inr, drop,
}
use proof_cli.Automation.Types.{
  PolicyDecision, allow, requires_review, deny, simulate, Action, Run, Env,
}
use proof_cli.Automation.Policy.{is_dry}
use proof_cli.Automation.Run.{
  Result, ok, refused, action_not_found, is_planned, start, interrupt, append_trace, find_action,
  approve_found,
}
use proof_cli.Automation.Execute.{
  Override, reviewer_name, Overrides, Outcome, stop, go, fail, process, effective_decision,
  carry_out, review_action, pre_approve, complete_approved, complete_action, await_review, finish,
  reached, loop, is_terminal, execute,
}

abbrev pub flagged : Bool → Run → Run
flagged b r = record r { dry_run = b }

abbrev pub flagged_result : Bool → Result → Result
flagged_result b (ok r) = ok (flagged b r)
flagged_result b (refused x) = refused x

abbrev flagged_outcome : Bool → Outcome → Outcome
flagged_outcome b (stop r) = stop (flagged b r)
flagged_outcome b (go r) = go (flagged b r)
flagged_outcome b (fail x) = fail x

module _ (e : Env) (overrides : Overrides) (b : Bool) where
  complete_approved-flagged :
      (i : ℕ) (r : Run)
      → complete_approved e i (flagged b r) ≡ flagged_outcome b (complete_approved e i r)
  unfolding complete_action
  complete_approved-flagged i r = found (find_action i r.planned_actions)
    where
      found :
          (f : Option Action)
          → ◌≡◌ {A = Outcome}
              (elim f [
                | none ↦ fail (action_not_found i)
                | some a ↦ go (complete_action e requires_review a (flagged b r))
              ])
              (flagged_outcome b (elim f [
                | none ↦ fail (action_not_found i)
                | some a ↦ go (complete_action e requires_review a r)
              ]))
      found none = refl
      found (some a) = refl

  review_action-flagged :
      (o : Option Override) (a : Action) (r : Run)
      → review_action e o a (flagged b r) ≡ flagged_outcome b (review_action e o a r)
  unfolding pre_approve await_review approve_found
  review_action-flagged none a r = refl
  review_action-flagged (some o) a r = found (find_action a.id r.planned_actions)
    where
      found :
          (f : Option Action)
          → ◌≡◌ {A = Outcome}
              (elim f [
                | none ↦ fail (action_not_found a.id)
                | some x ↦
                    complete_approved e a.id
                      (flagged b (approve_found e a.id (reviewer_name o) "pre-approved" x r))
              ])
              (flagged_outcome b (elim f [
                | none ↦ fail (action_not_found a.id)
                | some x ↦
                    complete_approved e a.id
                      (approve_found e a.id (reviewer_name o) "pre-approved" x r)
              ]))
      found none = refl
      found (some x) =
          complete_approved-flagged a.id (approve_found e a.id (reviewer_name o) "pre-approved" x r)

  carry_out-flagged :
      (d : PolicyDecision) (a : Action) (r : Run)
      → carry_out e overrides d a (flagged b r) ≡ flagged_outcome b (carry_out e overrides d a r)
  unfolding carry_out proof_cli.Automation.Execute.simulate_action
      proof_cli.Automation.Execute.complete_action proof_cli.Automation.Execute.reject_action
  carry_out-flagged deny a r = refl
  carry_out-flagged simulate a r = refl
  carry_out-flagged allow a r = elim (Bool-cases (is_dry r.execution_mode)) [
    | inl dry ↦ rw dry refl
    | inr wet ↦ rw wet refl
  ]
  carry_out-flagged requires_review a r = elim (Bool-cases (is_dry r.execution_mode)) [
    | inl dry ↦ rw dry refl
    | inr wet ↦ rw wet (review_action-flagged (overrides a.id) a r)
  ]

  process-flagged :
      (a : Action) (r : Run)
      → process e overrides a (flagged b r) ≡ flagged_outcome b (process e overrides a r)
  unfolding process append_trace effective_decision carry_out
  process-flagged a r = carry_out-flagged (effective_decision r a) a _

  loop-flagged :
      (limit : Option ℕ) (actions : List Action) (n : ℕ) (r : Run)
      → loop e overrides limit actions n (flagged b r)
        ≡ flagged_result b (loop e overrides limit actions n r)
  unfolding loop finish interrupt
  loop-flagged limit [] n r = refl
  loop-flagged limit (a ∷ actions) n r = elim (Bool-cases (reached limit n)) [
    | inl ends ↦ rw ends refl
    | inr goes ↦
        rw (goes, process-flagged a r)
          (turn (process e overrides a r) (λ m s. loop-flagged limit actions m s))
  ]
    where
      turn :
          (o : Outcome)
          → ((m : ℕ) (s : Run)
              → loop e overrides limit actions m (flagged b s)
                ≡ flagged_result b (loop e overrides limit actions m s))
          → ◌≡◌ {A = Result}
              (elim (flagged_outcome b o) [
                | stop s ↦ ok s
                | go s ↦ loop e overrides limit actions (n + 1) s
                | fail x ↦ refused x
              ])
              (flagged_result b (elim o [
                | stop s ↦ ok s
                | go s ↦ loop e overrides limit actions (n + 1) s
                | fail x ↦ refused x
              ]))
      turn (stop s) rest = refl
      turn (go s) rest = rest (n + 1) s
      turn (fail x) rest = refl

-- The field `dry_run` of a run changes nothing that `execute` does: with the field set either way
-- it returns the same run, but for the field, whatever the mode, the policy, the approvals and the
-- limit.
pub execute-flagged :
    (e : Env) (overrides : Overrides) (limit : Option ℕ) (b : Bool) (r : Run)
    → execute e overrides limit (flagged b r) ≡ flagged_result b (execute e overrides limit r)
unfolding execute start
execute-flagged e overrides limit b r = elim (Bool-cases (is_planned r.status)) [
  | inl fresh ↦
      rw fresh (loop-flagged e overrides b limit (drop r.next_action_index r.planned_actions) 0 _)
  | inr later ↦ rw later (elim (Bool-cases (is_terminal r.status)) [
    | inl ends ↦ rw ends refl
    | inr goes ↦
        rw goes (loop-flagged e overrides b limit (drop r.next_action_index r.planned_actions) 0 r)
  ])
]
