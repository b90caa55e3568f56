-- ===== src/Automation/Indexes.antt =====
-- The plan of a run: its actions are numbered in order, and there are at most `max_actions`.
use proof_cli.Base.{
  ℕ, suc, ◌+◌, ◌≤◌, String, ◌≡◌, refl, ap, List, [], ◌∷◌, ◌++◌, length, length-append, leb, arith,
  Bool-cases, inl, inr,
}
use proof_cli.Automation.Types.{Action, Run, Env}
use proof_cli.Automation.Run.{
  Result, ok, refused, ◌>>=◌, mark, replace_in, rollback, rolled_back_in, add_action, add_actions,
  planned_as,
}
use proof_cli.Automation.Keeps.{OnOk}

-- The actions are numbered from `n` on.
abbrev pub IsNumbered : ℕ → List Action → Type 0
IsNumbered n [] = Unit
IsNumbered n (a ∷ actions) = (a.sequence_index ≡ n) × IsNumbered (suc n) actions

pub record IsWellFormed (r : Run) : Type 0 where
  pub numbered : IsNumbered 0 r.planned_actions
  pub within_max : length r.planned_actions ≤ r.max_actions
  pub next_in_plan : r.next_action_index ≤ length r.planned_actions

IsNumbered-snoc :
    (n : ℕ) (actions : List Action) (a : Action)
    → IsNumbered n actions
    → a.sequence_index ≡ n + length actions
    → IsNumbered n (actions ++ a ∷ [])
IsNumbered-snoc n [] a h e = (omega arith, tt)
IsNumbered-snoc n (x ∷ xs) a h e = (h.0, IsNumbered-snoc (suc n) xs a h.1 (omega arith))

length-replace_in :
    (a : Action) (actions : List Action) → length (replace_in a actions) ≡ length actions
length-replace_in a [] = refl
length-replace_in a (x ∷ xs) = ap suc (length-replace_in a xs)

length-rolled_back_in :
    (e : Env) (is : List ℕ) (actions : List Action)
    → length (rolled_back_in e is actions) ≡ length actions
length-rolled_back_in e is [] = refl
length-rolled_back_in e is (x ∷ xs) = ap suc (length-rolled_back_in e is xs)

IsNumbered-rolled_back_in :
    (e : Env) (is : List ℕ) (n : ℕ) (actions : List Action)
    → IsNumbered n actions
    → IsNumbered n (rolled_back_in e is actions)
unfolding mark
IsNumbered-rolled_back_in e is n [] h = tt
IsNumbered-rolled_back_in e is n (x ∷ xs) h =
    (ground arith, IsNumbered-rolled_back_in e is (suc n) xs h.1)

-- `rollback`, `interrupt` within the plan, `add_action` and `build_automation_run`.
pub rollback-IsWellFormed :
    (e : Env) (reason by : String) (is : List ℕ) (r : Run)
    → IsWellFormed r
    → IsWellFormed (rollback e reason is by r)
unfolding rollback
rollback-IsWellFormed e reason by is r h = record {
  numbered = IsNumbered-rolled_back_in e is 0 r.planned_actions h.numbered;
  within_max = omega (arith, length-rolled_back_in e is r.planned_actions, h.within_max);
  next_in_plan = omega (arith, length-rolled_back_in e is r.planned_actions, h.next_in_plan);
}

pub add_action-IsWellFormed :
    (e : Env) (a : Action) (r : Run) → IsWellFormed r → OnOk IsWellFormed (add_action e a r)
unfolding add_action
add_action-IsWellFormed e a r h = elim (Bool-cases (leb r.max_actions (length r.planned_actions))) [
  | inl full ↦ rw full tt
  | inr room ↦ rw room (record {
    numbered = IsNumbered-snoc 0 r.planned_actions _ h.numbered (omega arith);
    within_max = ground (
      arith,
      length-append r.planned_actions (planned_as e (length r.planned_actions) a ∷ []),
      h.within_max,
    );
    next_in_plan = omega (
      arith,
      length-append r.planned_actions (planned_as e (length r.planned_actions) a ∷ []),
      h.next_in_plan,
    );
  })
]

pub add_actions-IsWellFormed :
    (e : Env) (actions : List Action) (r : Run)
    → IsWellFormed r
    → OnOk IsWellFormed (add_actions e actions r)
unfolding add_actions
add_actions-IsWellFormed e [] r h = h
add_actions-IsWellFormed e (a ∷ actions) r h =
    go (add_action e a r) (add_action-IsWellFormed e a r h)
      (λ s k. add_actions-IsWellFormed e actions s k)
  where
    go :
        (x : Result)
        → OnOk IsWellFormed x
        → ((s : Run) → IsWellFormed s → OnOk IsWellFormed (add_actions e actions s))
        → OnOk IsWellFormed (x >>= λ s. add_actions e actions s)
    go (ok s) k rest = rest s k
    go (refused y) k rest = tt
