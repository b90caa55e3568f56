-- ===== src/Automation/Total.antt =====
-- `execute` and `resume` never raise: the actions that the loop approves are always found.
use proof_cli.Base.{
  ◌∙◌, ℕ, ◌+◌, String, ◌≡◌, refl, true, Option, none, some, List, [], ◌∷◌, contains, inl, inr,
  Bool-cases, All, All-drop, arith,
}
use proof_cli.Automation.Find.{ids, ids-replace_in, find_action-eq_some}
use proof_cli.Automation.Types.{
  Action, Run, Env, PolicyDecision, allow, requires_review, deny, simulate,
}
use proof_cli.Automation.Policy.{is_dry}
use proof_cli.Automation.Keeps.{OnOk}
use proof_cli.Automation.Run.{Result, ok, refused, start, approve_found, append_trace}
use proof_cli.Automation.Execute.{
  is_resumable, resume, Overrides, Override, Outcome, stop, go, fail, process, reached, loop,
  is_terminal, execute, carry_out, review_action, pre_approve, complete_approved, complete_action,
  simulate_action, effective_decision, reviewer_name,
}

-- The outcome of a turn: no refusal, and the ids of the plan as they were.
abbrev KeepsIds : List ℕ → Outcome → Type 0
KeepsIds is (stop r) = Unit
KeepsIds is (go r) = ids r.planned_actions ≡ is
KeepsIds is (fail x) = ⊥

module _ (e : Env) (overrides : Overrides) where
  simulate_action-ids :
      (d : PolicyDecision) (a : Action) (r : Run)
      → ids (simulate_action e d a r).planned_actions ≡ ids r.planned_actions
  unfolding simulate_action
  simulate_action-ids d a r = ids-replace_in _ r.planned_actions

  complete_action-ids :
      (d : PolicyDecision) (a : Action) (r : Run)
      → ids (complete_action e d a r).planned_actions ≡ ids r.planned_actions
  unfolding complete_action
  complete_action-ids d a r = ids-replace_in _ r.planned_actions

  approve_found-ids :
      (i : ℕ) (name notes : String) (a : Action) (r : Run)
      → ids (approve_found e i name notes a r).planned_actions ≡ ids r.planned_actions
  unfolding approve_found
  approve_found-ids i name notes a r = ids-replace_in _ r.planned_actions

  complete_approved-KeepsIds :
      (i : ℕ) (is : List ℕ) (r : Run)
      → ids r.planned_actions ≡ is
      → contains is i ≡ true
      → KeepsIds is (complete_approved e i r)
  complete_approved-KeepsIds i is r same h =
      let (a, found) = find_action-eq_some i r.planned_actions (rw same h) in
      rw (found, KeepsIds) (complete_action-ids requires_review a r ∙ same)

  pre_approve-KeepsIds :
      (name : String) (a : Action) (r : Run)
      → contains (ids r.planned_actions) a.id ≡ true
      → KeepsIds (ids r.planned_actions) (pre_approve e name a r)
  unfolding pre_approve
  pre_approve-KeepsIds name a r h =
      let (b, found) = find_action-eq_some a.id r.planned_actions h in
      rw (found, KeepsIds)
        (complete_approved-KeepsIds a.id _ (approve_found e a.id name "pre-approved" b r)
          (approve_found-ids a.id name "pre-approved" b r) h)

  carry_out-KeepsIds :
      (d : PolicyDecision) (a : Action) (r : Run)
      → contains (ids r.planned_actions) a.id ≡ true
      → KeepsIds (ids r.planned_actions) (carry_out e overrides d a r)
  unfolding carry_out
  carry_out-KeepsIds deny a r h = tt
  carry_out-KeepsIds simulate a r h = simulate_action-ids simulate a r
  carry_out-KeepsIds allow a r h = elim (Bool-cases (is_dry r.execution_mode)) [
    | inl dry ↦ rw dry (simulate_action-ids allow a r)
    | inr wet ↦ rw wet (complete_action-ids allow a r)
  ]
  carry_out-KeepsIds requires_review a r h = elim (Bool-cases (is_dry r.execution_mode)) [
    | inl dry ↦ rw dry (simulate_action-ids requires_review a r)
    | inr wet ↦ rw wet (review (overrides a.id))
  ]
    where
      review : (o : Option Override) → KeepsIds (ids r.planned_actions) (review_action e o a r)
      review none = tt
      review (some o) = pre_approve-KeepsIds (reviewer_name o) a r h

  process-KeepsIds :
      (a : Action) (r : Run)
      → contains (ids r.planned_actions) a.id ≡ true
      → KeepsIds (ids r.planned_actions) (process e overrides a r)
  unfolding process append_trace
  process-KeepsIds a r h = carry_out-KeepsIds (effective_decision r a) a _ h

  abbrev Known : List ℕ → List Action → Type 0
  Known is = All (λ a. contains is a.id ≡ true)

  Known-self :
      (xs : List Action) (is : List ℕ)
      → ((i : ℕ) → contains (ids xs) i ≡ true → contains is i ≡ true)
      → Known is xs
  Known-self [] is h = tt
  Known-self (x ∷ xs) is h = (h x.id (ground arith), Known-self xs is (λ i k. h i (ground arith)))

  pub loop_total :
      (limit : Option ℕ) (actions : List Action) (n : ℕ) (r : Run)
      → Known (ids r.planned_actions) actions
      → (r' : Run) × (loop e overrides limit actions n r ≡ ok r')
  unfolding loop
  loop_total limit [] n r h = (_, refl)
  loop_total limit (a ∷ actions) n r h = elim (Bool-cases (reached limit n)) [
    | inl stops ↦ rw stops (_, refl)
    | inr goes ↦ rw goes (
        turn (process e overrides a r) (process-KeepsIds a r h.0)
          (λ m s k. loop_total limit actions m s k))
  ]
    where
      turn :
          (o : Outcome)
          → KeepsIds (ids r.planned_actions) o
          → ((m : ℕ) (s : Run)
              → Known (ids s.planned_actions) actions
              → (r' : Run) × (loop e overrides limit actions m s ≡ ok r'))
          → (r' : Run) × ((elim o [
            | stop s ↦ ok s
            | go s ↦ loop e overrides limit actions (n + 1) s
            | fail x ↦ refused x
          ])
              ≡ ok r')
      turn (stop s) k rest = (s, refl)
      turn (go s) k rest = rest (n + 1) s (rw k h.1)
      turn (fail x) k rest = absurd k

  -- Whatever the run, the approvals and the limit, `execute` returns a run.
  pub execute_total :
      (limit : Option ℕ) (r : Run) → (r' : Run) × (execute e overrides limit r ≡ ok r')
  unfolding execute
  execute_total limit r = elim (Bool-cases (is_terminal (start e r).status)) [
    | inl ends ↦ rw ends (_, refl)
    | inr goes ↦ rw goes (
        loop_total limit _ 0 (start e r) (
          All-drop _ (start e r).next_action_index _
            (Known-self (start e r).planned_actions _ (λ i k. k))))
  ]

  -- Whatever the run, the approvals and the limit, `resume` returns a run.
  pub resume_total :
      (limit : Option ℕ) (r : Run) → (r' : Run) × (resume e overrides limit r ≡ ok r')
  unfolding resume
  resume_total limit r = elim (Bool-cases (is_resumable r.status)) [
    | inl goes ↦ rw goes (execute_total limit r)
    | inr stays ↦ rw stays (_, refl)
  ]

-- A run comes back, and `P` holds of it.
abbrev pub Returns : (Run → Type 0) → Result → Type 0
Returns P (ok r) = P r
Returns P (refused x) = ⊥

Returns-of : (P : Run → Type 0) (x : Result) {r : Run} → x ≡ ok r → OnOk P x → Returns P x
Returns-of P (ok r) e h = h
Returns-of P (refused x) e h = cc

pub execute-Returns :
    (P : Run → Type 0) (e : Env) (overrides : Overrides) (limit : Option ℕ) (r : Run)
    → OnOk P (execute e overrides limit r)
    → Returns P (execute e overrides limit r)
execute-Returns P e overrides limit r h = Returns-of P _ (execute_total e overrides limit r).1 h

pub resume-Returns :
    (P : Run → Type 0) (e : Env) (overrides : Overrides) (limit : Option ℕ) (r : Run)
    → OnOk P (resume e overrides limit r)
    → Returns P (resume e overrides limit r)
resume-Returns P e overrides limit r h = Returns-of P _ (resume_total e overrides limit r).1 h
