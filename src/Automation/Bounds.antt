-- ===== src/Automation/Bounds.antt =====
-- How many actions a run of src/proof_cli/automation.py may plan, and which it plans.
use proof_cli.Base.{
  suc, ◌+◌, ◌≤◌, ◌<◌, ◌≡◌, ◌∙◌, refl, none, inl, inr, Bool-cases, List, [], ◌∷◌, length,
  length-append, leb, arith, false, map, ◌++◌, ap, sym,
}
use mathlib.Core.List.{append-nil, append_assoc, map-append}
use proof_cli.Automation.Types.{allow, ActionStatus, Action, Run, Env, TraceKind, creation}
use proof_cli.Automation.Run.{ok, refused, too_many_actions, add_action, add_actions, append_trace}
use proof_cli.Automation.Build.{Request, profile_of, empty_run, build_automation_run}
use proof_cli.Automation.Indexes.{IsWellFormed, add_action-IsWellFormed}

-- An action without what planning it sets: its status, its number and its last change.
abbrev pub as_asked : Action → Action
as_asked a = record a {
  status = ActionStatus.planned;
  policy_decision = allow;
  sequence_index = 0;
  updated_at = 0;
}

-- The actions were planned, behind those that were.
pub record HasPlanned (actions : List Action) (r r' : Run) : Type 0 where
  pub form : IsWellFormed r'
  pub planned : length r'.planned_actions ≡ length r.planned_actions + length actions
  pub asked :
      map as_asked r'.planned_actions ≡ map as_asked r.planned_actions ++ map as_asked actions
  pub max : r'.max_actions ≡ r.max_actions
  pub same_id : r'.id ≡ r.id

add_action-fits :
    (e : Env) (a : Action) (r : Run)
    → IsWellFormed r
    → suc (length r.planned_actions) ≤ r.max_actions
    → (r' : Run) × (add_action e a r ≡ ok r') × HasPlanned (a ∷ []) r r'
unfolding add_action
add_action-fits e a r form room =
    let free : leb r.max_actions (length r.planned_actions) ≡ false = ground (arith, room) in
    let kept = add_action-IsWellFormed e a r form in
    (
      _,
      rw free refl,
      record {
        form = rw (add_action, free) at kept;
        planned = length-append r.planned_actions _;
        asked = map-append as_asked r.planned_actions _;
        max = refl;
        same_id = refl;
      },
    )

add_actions-fit :
    (e : Env) (actions : List Action) (r : Run)
    → IsWellFormed r
    → length r.planned_actions + length actions ≤ r.max_actions
    → (r' : Run) × (add_actions e actions r ≡ ok r') × HasPlanned actions r r'
unfolding add_actions
add_actions-fit e [] r form room = (
  r,
  refl,
  record {
    form = form;
    planned = omega arith;
    asked = sym (append-nil _);
    max = refl;
    same_id = refl;
  },
)
add_actions-fit e (a ∷ actions) r form room =
    let (s, e1, one) = add_action-fits e a r form (omega (arith, room)) in
    let p = one.planned in
    let m = one.max in
    let (t, e2, rest) = add_actions-fit e actions s one.form (omega (arith, room, p, m)) in
    let p' = rest.planned in
    (
      t,
      rw e1 e2,
      record {
        form = rest.form;
        planned = omega (arith, p, p');
        asked =
            rest.asked
            ∙ ap (λ z. z ++ map as_asked actions) one.asked
            ∙ append_assoc (map as_asked r.planned_actions) _ _;
        max = rest.max ∙ m;
        same_id = rest.same_id ∙ one.same_id;
      },
    )

add_actions-too_many :
    (e : Env) (actions : List Action) (r : Run)
    → IsWellFormed r
    → r.max_actions < length r.planned_actions + length actions
    → add_actions e actions r ≡ refused (too_many_actions r.id r.max_actions)
unfolding add_actions add_action
add_actions-too_many e [] r form over = let le = form.within_max in absurd (omega (arith, over, le))
add_actions-too_many e (a ∷ actions) r form over =
    elim (Bool-cases (leb r.max_actions (length r.planned_actions))) [
      | inl full ↦ rw full refl
      | inr room ↦
          let (s, e1, one) = add_action-fits e a r form (ground (arith, room)) in
          let p = one.planned in
          let m = one.max in
          let rest = add_actions-too_many e actions s one.form (omega (arith, over, p, m)) in
          rw (e1, rest, m, one.same_id) refl
    ]

-- `build_automation_run` returns a run exactly when the actions are at most as many as the policy
-- allows in a run: then it plans all of them in order, each as it was given but for its status, its
-- decision, its last change and its number, which counts from 0, within the run's bound; otherwise
-- it is refused with that bound.
pub build_automation_run_bounds :
    (e : Env) (q : Request) (actions : List Action)
    → (length actions ≤ (profile_of e q).max_actions_per_run
        → (r : Run) × (build_automation_run e q actions ≡ ok r)
          × IsWellFormed r
          × (length r.planned_actions ≡ length actions)
          × (map as_asked r.planned_actions ≡ map as_asked actions))
      × ((profile_of e q).max_actions_per_run < length actions
          → build_automation_run e q actions
            ≡ refused (too_many_actions q.run_id (profile_of e q).max_actions_per_run))
unfolding build_automation_run append_trace empty_run
build_automation_run_bounds e q actions = (
  λ room.
      let (r, e1, one) =
        add_actions-fit e actions (empty_run e q) empty_form (omega (arith, room)) in
      let p = one.planned in
      (
        append_trace e TraceKind.run_created none
            (creation q.project_id q.scope q.mode (length actions)) r,
        rw e1 refl,
        record {
          numbered = one.form.numbered;
          within_max = one.form.within_max;
          next_in_plan = one.form.next_in_plan;
        },
        omega (arith, p),
        one.asked,
      ),
  λ over. rw (add_actions-too_many e actions (empty_run e q) empty_form (omega (arith, over))) refl,
)
  where
    empty_form : IsWellFormed (empty_run e q)
    empty_form = record { numbered = tt; within_max = omega arith; next_in_plan = omega arith }
