-- ===== src/Automation/DryRun.antt =====
-- A run in the mode `dry_run` has no side effects: everything that it executes is a simulation. The
-- field of that name, which `execute` does not read, is another matter.
use proof_cli.Base.{ℕ, ◌≡◌, refl, Option, All, All-snoc, All-every, arith}
use proof_cli.Automation.Types.{
  dry_run, PolicyDecision, allow, requires_review, deny, simulate, ActionStatus, Action, Run, Env,
}
use proof_cli.Automation.Run.{start, interrupt, append_trace}
use proof_cli.Automation.Execute.{
  Overrides, process, effective_decision, carry_out, reject_action, simulate_action, finish,
  execute, resume,
}
use proof_cli.Automation.Total.{Returns, execute-Returns, resume-Returns}
use proof_cli.Automation.Keeps.{OnOutcome, Rule, execute-OnOk, resume-OnOk}

abbrev pub IsSimulated : Action → Type 0
IsSimulated a = a.status ≡ ActionStatus.simulated

-- The run is in dry-run mode, and whatever it has executed was simulated.
abbrev pub IsDry : Run → Type 0
IsDry r = (r.execution_mode ≡ dry_run) × All IsSimulated r.executed_actions

module _ (e : Env) (overrides : Overrides) where
  simulate_action-IsDry :
      (decision : PolicyDecision) (action : Action) (r : Run)
      → IsDry r
      → IsDry (simulate_action e decision action r)
  unfolding simulate_action
  simulate_action-IsDry decision action r h =
      (h.0, All-snoc IsSimulated r.executed_actions _ h.1 refl)

  carry_out-IsDry :
      (decision : PolicyDecision) (action : Action) (r : Run)
      → IsDry r
      → OnOutcome IsDry (carry_out e overrides decision action r)
  unfolding carry_out reject_action
  carry_out-IsDry allow action r h = simp h.0 (simulate_action-IsDry allow action r h)
  carry_out-IsDry requires_review action r h =
      simp h.0 (simulate_action-IsDry requires_review action r h)
  carry_out-IsDry deny action r h = h
  carry_out-IsDry simulate action r h = simulate_action-IsDry simulate action r h

  IsDry-Rule : Rule e overrides (λ _. Unit {0}) IsDry
  unfolding process append_trace finish interrupt start
  IsDry-Rule = record {
    at_process = λ action r _ h. carry_out-IsDry (effective_decision r action) action _ h;
    at_finish = λ r h. h;
    at_interrupt = λ reason by action r _ h. h;
    at_start = λ r h. ground arith;
  }

-- Executing a run whose `execution_mode` is `dry_run` and on which only simulations were executed
-- returns a run in that mode on which only simulations were executed, whatever the policy, the
-- approvals handed in and the limit.
pub execute-IsDry :
    (e : Env) (overrides : Overrides) (limit : Option ℕ) (r : Run)
    → IsDry r
    → Returns IsDry (execute e overrides limit r)
execute-IsDry e overrides limit r h =
    execute-Returns IsDry e overrides limit r
      (execute-OnOk (IsDry-Rule e overrides) limit r (All-every (λ _. Unit) _ (λ _. tt)) h)

-- Resuming a run whose `execution_mode` is `dry_run` and on which only simulations were executed
-- returns a run in that mode on which only simulations were executed, whatever the policy, the
-- approvals handed in and the limit.
pub resume-IsDry :
    (e : Env) (overrides : Overrides) (limit : Option ℕ) (r : Run)
    → IsDry r
    → Returns IsDry (resume e overrides limit r)
resume-IsDry e overrides limit r h =
    resume-Returns IsDry e overrides limit r
      (resume-OnOk (IsDry-Rule e overrides) limit r (All-every (λ _. Unit) _ (λ _. tt)) h)
