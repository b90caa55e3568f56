-- ===== src/Automation/Order.antt =====
-- The order of execution: the loop executes the planned actions one after the other from the
-- position of the run, each once, and leaves the position behind the last one that it executed.
use mathlib.Core.List.{map-append}
use proof_cli.Base.{
  ℕ, suc, String, ◌≡◌, refl, sym, ap, subst, ◌∙◌, Bool, true, false, Option, some, none, List, [],
  ◌∷◌, ◌++◌, All, arith, Bool-cases, inl, inr,
}
use proof_cli.Automation.Types.{
  RunStatus, TraceKind, checked, PolicyDecision, allow, requires_review, deny, simulate, Action,
  Run, Env,
}
use proof_cli.Automation.Policy.{is_dry}
use proof_cli.Automation.Run.{append_trace, find_action, approve_found}
use proof_cli.Automation.Execute.{
  Outcome, stop, go, fail, Override, reviewer_name, Overrides, process, effective_decision,
  carry_out, review_action, pre_approve, complete_approved, complete_action, reject_action,
  simulate_action, record_done, await_review,
}
use proof_cli.Automation.Find.{ids, ids-replace_in, find_action-id, All-find_action, All-replace_in}

-- The id of a planned action determines its place: the ids of a plan are distinct.
abbrev pub IsPlacedBy : (ℕ → ℕ) → Action → Type 0
IsPlacedBy place a = a.sequence_index ≡ place a.id

-- The ids of the plan and of what was executed, and the position.
pub record Stands (place : ℕ → ℕ) (plan done : List ℕ) (next : ℕ) (r : Run) : Type 0 where
  pub planned : ids r.planned_actions ≡ plan
  pub placed : All (IsPlacedBy place) r.planned_actions
  pub executed : ids r.executed_actions ≡ done
  pub position : r.next_action_index ≡ next

abbrev pub is_completed : RunStatus → Bool
is_completed RunStatus.completed = true
is_completed _ = false

abbrev pub OnTurn : (ℕ → ℕ) → (plan done : List ℕ) (next i : ℕ) → Outcome → Type 0
OnTurn place plan done next i (stop s) =
    Stands place plan done next s × (is_completed s.status ≡ false)
OnTurn place plan done next i (go s) = Stands place plan (done ++ i ∷ []) (suc next) s
OnTurn place plan done next i (fail x) = Unit

module _ (e : Env) (overrides : Overrides) {place : ℕ → ℕ} {plan done : List ℕ} {k : ℕ} where
  record_done-Stands :
      (kind : TraceKind) (d : PolicyDecision) (a : Action) (r : Run)
      → IsPlacedBy place a
      → a.sequence_index ≡ k
      → Stands place plan done k r
      → Stands place plan (done ++ a.id ∷ []) (suc k) (record_done e kind d a r)
  unfolding record_done
  record_done-Stands kind d a r p q h = record {
    planned = ids-replace_in a r.planned_actions ∙ h.planned;
    placed = All-replace_in (IsPlacedBy place) a r.planned_actions p h.placed;
    executed =
        map-append (λ (x : Action). x.id) r.executed_actions (a ∷ [])
        ∙ ap (λ xs. xs ++ a.id ∷ []) h.executed;
    position = omega (arith, q);
  }

  simulate_action-Stands :
      (d : PolicyDecision) (a : Action) (r : Run)
      → IsPlacedBy place a
      → a.sequence_index ≡ k
      → Stands place plan done k r
      → Stands place plan (done ++ a.id ∷ []) (suc k) (simulate_action e d a r)
  unfolding simulate_action
  simulate_action-Stands d a r p q h = record_done-Stands TraceKind.action_simulated d _ r p q h

  complete_action-Stands :
      (d : PolicyDecision) (a : Action) (r : Run)
      → IsPlacedBy place a
      → a.sequence_index ≡ k
      → Stands place plan done k r
      → Stands place plan (done ++ a.id ∷ []) (suc k) (complete_action e d a r)
  unfolding complete_action
  complete_action-Stands d a r p q h = record_done-Stands TraceKind.action_completed d _ r p q h

  complete_approved-Stands :
      (i : ℕ) (r : Run)
      → place i ≡ k
      → Stands place plan done k r
      → OnTurn place plan done k i (complete_approved e i r)
  complete_approved-Stands i r q h = go (find_action i r.planned_actions) refl
    where
      go :
          (f : Option Action)
          → find_action i r.planned_actions ≡ f
          → OnTurn place plan done k i (complete_approved e i r)
      go none eq = rw (eq, OnTurn) tt
      go (some a) eq =
          let p = All-find_action (IsPlacedBy place) i r.planned_actions a h.placed eq in
          let named = find_action-id i r.planned_actions a eq in
          rw (eq, OnTurn)
            (subst
              (λ j.
                Stands place plan (done ++ j ∷ []) (suc k) (complete_action e requires_review a r))
              named (complete_action-Stands requires_review a r p (p ∙ ap place named ∙ q) h))

  pre_approve-Stands :
      (name : String) (action : Action) (r : Run)
      → place action.id ≡ k
      → Stands place plan done k r
      → OnTurn place plan done k action.id (pre_approve e name action r)
  unfolding pre_approve approve_found
  pre_approve-Stands name action r q h = go (find_action action.id r.planned_actions) refl
    where
      go :
          (f : Option Action)
          → find_action action.id r.planned_actions ≡ f
          → OnTurn place plan done k action.id (pre_approve e name action r)
      go none eq = rw (eq, OnTurn) tt
      go (some a) eq =
          let p = All-find_action (IsPlacedBy place) action.id r.planned_actions a h.placed eq in
          rw (eq, OnTurn)
            (complete_approved-Stands action.id (approve_found e action.id name "pre-approved" a r)
              q
              (record {
                planned = ids-replace_in _ r.planned_actions ∙ h.planned;
                placed = All-replace_in (IsPlacedBy place) _ r.planned_actions p h.placed;
                executed = h.executed;
                position = h.position;
              }))

  carry_out-Stands :
      (d : PolicyDecision) (a : Action) (r : Run)
      → IsPlacedBy place a
      → a.sequence_index ≡ k
      → Stands place plan done k r
      → OnTurn place plan done k a.id (carry_out e overrides d a r)
  unfolding carry_out reject_action await_review
  carry_out-Stands deny a r p q h = (
    record {
      planned = ids-replace_in _ r.planned_actions ∙ h.planned;
      placed = All-replace_in (IsPlacedBy place) _ r.planned_actions p h.placed;
      executed = h.executed;
      position = h.position;
    },
    refl,
  )
  carry_out-Stands simulate a r p q h = simulate_action-Stands simulate a r p q h
  carry_out-Stands allow a r p q h = elim (Bool-cases (is_dry r.execution_mode)) [
    | inl dry ↦ rw dry (simulate_action-Stands allow a r p q h)
    | inr wet ↦ rw wet (complete_action-Stands allow a r p q h)
  ]
  carry_out-Stands requires_review a r p q h = elim (Bool-cases (is_dry r.execution_mode)) [
    | inl dry ↦ rw dry (simulate_action-Stands requires_review a r p q h)
    | inr wet ↦ rw wet (review (overrides a.id))
  ]
    where
      review : (o : Option Override) → OnTurn place plan done k a.id (review_action e o a r)
      review none = (
        record {
          planned = ids-replace_in _ r.planned_actions ∙ h.planned;
          placed = All-replace_in (IsPlacedBy place) _ r.planned_actions p h.placed;
          executed = h.executed;
          position = q;
        },
        refl,
      )
      review (some o) = pre_approve-Stands (reviewer_name o) a r (sym p ∙ q) h

  pub process-Stands :
      (a : Action) (r : Run)
      → IsPlacedBy place a
      → a.sequence_index ≡ k
      → Stands place plan done k r
      → OnTurn place plan done k a.id (process e overrides a r)
  unfolding process append_trace
  process-Stands a r p q h =
      carry_out-Stands (effective_decision r a) a
        (append_trace e TraceKind.policy_checked (some a.id)
          (checked a.action_type a.risk_level (effective_decision r a)) r)
        p q
        (record {
          planned = h.planned;
          placed = h.placed;
          executed = h.executed;
          position = h.position;
        })
