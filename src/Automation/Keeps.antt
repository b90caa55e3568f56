-- ===== src/Automation/Keeps.antt =====
-- The invariant rule for `execute` and `resume`: what every turn of the loop, its end, its
-- interruption and the start of the run keep, a whole call keeps.
use proof_cli.Base.{
  ℕ, ◌+◌, String, Option, some, List, [], ◌∷◌, inl, inr, Bool-cases, drop, All, All-drop,
}
use proof_cli.Automation.Types.{Action, Run, Env}
use proof_cli.Automation.Run.{Result, ok, refused, start, interrupt}
use proof_cli.Automation.Execute.{
  Overrides, Outcome, stop, go, fail, process, finish, reached, loop, is_terminal, execute,
  is_resumable, resume,
}

abbrev pub OnOutcome : (Run → Type 0) → Outcome → Type 0
OnOutcome P (stop r) = P r
OnOutcome P (go r) = P r
OnOutcome P (fail x) = Unit

abbrev pub OnOk : (Run → Type 0) → Result → Type 0
OnOk P (ok r) = P r
OnOk P (refused x) = Unit

-- `Q` is what is known of the actions that the loop goes through.
pub record Rule (e : Env) (overrides : Overrides) (Q : Action → Type 0) (P : Run → Type 0)
    : Type 0 where
  pub at_process :
      (action : Action) (r : Run) → Q action → P r → OnOutcome P (process e overrides action r)
  pub at_finish : (r : Run) → P r → P (finish e r)
  pub at_interrupt :
      (reason by : String) (action : Action) (r : Run)
      → Q action
      → P r
      → P (interrupt e reason by (some action.sequence_index) r)
  pub at_start : (r : Run) → P r → P (start e r)

module _ {e : Env} {overrides : Overrides} {Q : Action → Type 0} {P : Run → Type 0}
    (rule : Rule e overrides Q P) where
  open rule use {at_process, at_finish, at_interrupt, at_start}

  OnOutcome-loop :
      (limit : Option ℕ) (actions : List Action) (processed : ℕ) (outcome : Outcome)
      → ((n : ℕ) (r : Run) → P r → OnOk P (loop e overrides limit actions n r))
      → OnOutcome P outcome
      → OnOk P (elim outcome [
        | stop r ↦ ok r
        | go r ↦ loop e overrides limit actions (processed + 1) r
        | fail x ↦ refused x
      ])
  OnOutcome-loop limit actions processed (stop r) rest h = h
  OnOutcome-loop limit actions processed (go r) rest h = rest (processed + 1) r h
  OnOutcome-loop limit actions processed (fail x) rest h = tt

  loop-OnOk :
      (limit : Option ℕ) (actions : List Action) (processed : ℕ) (r : Run)
      → All Q actions
      → P r
      → OnOk P (loop e overrides limit actions processed r)
  unfolding loop
  loop-OnOk limit [] processed r q h = at_finish r h
  loop-OnOk limit (action ∷ actions) processed r q h = elim (Bool-cases (reached limit processed)) [
    | inl stops ↦ rw stops (at_interrupt _ _ action r q.0 h)
    | inr goes ↦ rw goes (
        OnOutcome-loop limit actions processed (process e overrides action r)
          (λ n r' h'. loop-OnOk limit actions n r' q.1 h') (at_process action r q.0 h))
  ]

  pub execute-OnOk :
      (limit : Option ℕ) (r : Run)
      → All Q (start e r).planned_actions
      → P r
      → OnOk P (execute e overrides limit r)
  unfolding execute
  execute-OnOk limit r q h = elim (Bool-cases (is_terminal (start e r).status)) [
    | inl ends ↦ rw ends (at_start r h)
    | inr goes ↦ rw goes (
        loop-OnOk limit (drop (start e r).next_action_index (start e r).planned_actions) 0
          (start e r) (All-drop Q (start e r).next_action_index _ q) (at_start r h))
  ]

  pub resume-OnOk :
      (limit : Option ℕ) (r : Run)
      → All Q (start e r).planned_actions
      → P r
      → OnOk P (resume e overrides limit r)
  unfolding resume
  resume-OnOk limit r q h = elim (Bool-cases (is_resumable r.status)) [
    | inl goes ↦ rw goes (execute-OnOk limit r q h)
    | inr stays ↦ rw stays h
  ]
