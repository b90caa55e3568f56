-- ===== src/Automation/Find.antt =====
-- Finding and replacing actions by their ids.
use proof_cli.Base.{
  subst, ◌==◌, ℕ, ◌≡◌, refl, true, some, List, [], ◌∷◌, map, is_some, contains, inl, inr,
  Bool-cases, All, arith,
}
use proof_cli.Automation.Types.{Action}
use proof_cli.Automation.Run.{find_action, replace_in}

abbrev pub ids : List Action → List ℕ
ids actions = map (λ a. a.id) actions

find_action-is_some :
    (i : ℕ) (actions : List Action) → is_some (find_action i actions) ≡ contains (ids actions) i
find_action-is_some i [] = refl
find_action-is_some i (x ∷ xs) = ground (arith, find_action-is_some i xs)

pub ids-replace_in :
    (action : Action) (actions : List Action) → ids (replace_in action actions) ≡ ids actions
ids-replace_in action [] = refl
ids-replace_in action (x ∷ xs) = ground (arith, ids-replace_in action xs)

pub find_action-eq_some :
    (i : ℕ) (actions : List Action)
    → contains (ids actions) i ≡ true
    → (a : Action) × (find_action i actions ≡ some a)
find_action-eq_some i actions h = ground (arith, find_action-is_some i actions)

-- Looking for an action that was just replaced finds the replacement.
pub find_action-replace_in :
    (i : ℕ) (action : Action) (actions : List Action)
    → action.id ≡ i
    → contains (ids actions) i ≡ true
    → find_action i (replace_in action actions) ≡ some action
find_action-replace_in i action [] e h = cc
find_action-replace_in i action (x ∷ xs) e h = ground (arith, find_action-replace_in i action xs)

pub find_action-id :
    (i : ℕ) (actions : List Action) (a : Action) → find_action i actions ≡ some a → a.id ≡ i
find_action-id i [] a h = cc
find_action-id i (x ∷ xs) a h = ground (arith, find_action-id i xs a)

pub contains-find_action :
    (i : ℕ) (actions : List Action) (a : Action)
    → find_action i actions ≡ some a
    → contains (ids actions) i ≡ true
contains-find_action i actions a h = ground (arith, find_action-is_some i actions)

-- What holds of every action of a list holds of the one that is found.
pub All-find_action :
    (P : Action → Type 0) (i : ℕ) (actions : List Action) (a : Action)
    → All P actions
    → find_action i actions ≡ some a
    → P a
All-find_action P i [] a all h = cc
All-find_action P i (x ∷ xs) a all h = elim (Bool-cases (x.id == i)) [
  | inl e ↦ let same : some x ≡ some a = rw e at h in subst P (cc) all.0
  | inr e ↦ All-find_action P i xs a all.1 (rw e at h)
]

pub All-replace_in :
    (P : Action → Type 0) (action : Action) (actions : List Action)
    → P action
    → All P actions
    → All P (replace_in action actions)
All-replace_in P action [] h all = tt
All-replace_in P action (x ∷ xs) h all = elim (Bool-cases (x.id == action.id)) [
  | inl e ↦ rw e (h, All-replace_in P action xs h all.1)
  | inr e ↦ rw e (all.0, All-replace_in P action xs h all.1)
]
