-- ===== src/Automation/Progress.antt =====
-- What `execute` does to the plan as a whole: nothing is executed twice, out of order or left out.
use native.Mathlib.Nat.{add-zero}
use mathlib.Core.List.{append-nil, append_assoc}
use proof_cli.Base.{
  ℕ, zero, suc, ◌+◌, ◌≤◌, ◌≡◌, refl, sym, ap, subst, ◌∙◌, true, false, Option, some, List, [], ◌∷◌,
  ◌++◌, All, All-drop, length, length-map, drop, arith, Bool-cases, ◌⊎◌, inl, inr,
}
use proof_cli.Automation.Types.{RunStatus, Action, Run, Env}
use proof_cli.Automation.Run.{ok, refused, start, interrupt}
use proof_cli.Automation.Execute.{
  Outcome, stop, go, fail, Overrides, process, finish, execute, reached, loop, is_terminal,
  is_resumable, resume,
}
use proof_cli.Automation.Keeps.{OnOk}
use proof_cli.Automation.Total.{Returns, execute-Returns}
use proof_cli.Automation.Find.{ids}
use proof_cli.Automation.Order.{IsPlacedBy, Stands, OnTurn, is_completed, process-Stands}

-- The places of the ids, counted from `n`.
abbrev pub IsPlan : (ℕ → ℕ) → ℕ → List ℕ → Type 0
IsPlan place n [] = Unit
IsPlan place n (i ∷ is) = (place i ≡ n) × IsPlan place (suc n) is

-- The plan is numbered in order, its ids are distinct, and the position lies in it.
pub record IsOrdered (place : ℕ → ℕ) (r : Run) : Type 0 where
  pub in_order : IsPlan place 0 (ids r.planned_actions)
  pub placed : All (IsPlacedBy place) r.planned_actions
  pub position : r.next_action_index ≤ length (ids r.planned_actions)

-- The ids of the actions that are still to be executed.
abbrev pub left : Run → List ℕ
left r = drop r.next_action_index (ids r.planned_actions)

-- From the plan `plan`, the executed actions and those left make up `all`; a run that completed
-- has none left.
pub record Accounts (place : ℕ → ℕ) (plan all : List ℕ) (s : Run) : Type 0 where
  pub ordered : IsOrdered place s
  pub same_plan : ids s.planned_actions ≡ plan
  pub conserved : ids s.executed_actions ++ left s ≡ all
  pub finished : (is_completed s.status ≡ false) ⊎ (ids s.executed_actions ≡ all)

drop-length : (xs : List ℕ) → drop (length xs) xs ≡ []
drop-length [] = refl
drop-length (x ∷ xs) = drop-length xs

drop-suc : (n : ℕ) (xs : List ℕ) (y : ℕ) (ys : List ℕ) → drop n xs ≡ y ∷ ys → drop (suc n) xs ≡ ys
drop-suc zero [] y ys e = cc
drop-suc zero (x ∷ xs) y ys e = cc
drop-suc (suc n) [] y ys e = cc
drop-suc (suc n) (x ∷ xs) y ys e = drop-suc n xs y ys e

drop-cons-lt : (n : ℕ) (xs : List ℕ) (y : ℕ) (ys : List ℕ) → drop n xs ≡ y ∷ ys → suc n ≤ length xs
drop-cons-lt n [] y ys e = absurd (nope n e)
  where
    nope : (n : ℕ) → drop n [] ≡ y ∷ ys → ⊥
    nope zero e = cc
    nope (suc n) e = cc
drop-cons-lt zero (x ∷ xs) y ys e = omega arith
drop-cons-lt (suc n) (x ∷ xs) y ys e = omega (arith, drop-cons-lt n xs y ys e)

IsPlan-drop :
    (place : ℕ → ℕ) (n k : ℕ) (is : List ℕ) → IsPlan place n is → IsPlan place (n + k) (drop k is)
IsPlan-drop place n zero is h = rw add-zero h
IsPlan-drop place n (suc k) [] h = tt
IsPlan-drop place n (suc k) (i ∷ is) h =
    subst (λ m. IsPlan place m (drop k is)) (omega arith) (IsPlan-drop place (suc n) k is h.1)

module _ (e : Env) (overrides : Overrides) (limit : Option ℕ) {place : ℕ → ℕ} {plan : List ℕ}
    (in_order : IsPlan place 0 plan) where
  -- A run that stands at `k` accounts for what was done and what is left there.
  Stands-Accounts :
      (done : List ℕ) (k : ℕ) (s : Run)
      → k ≤ length plan
      → Stands place plan done k s
      → (is_completed s.status ≡ false) ⊎ (drop k plan ≡ [])
      → Accounts place plan (done ++ drop k plan) s
  Stands-Accounts done k s fits h ends = record {
    ordered = record {
      in_order = rw h.planned in_order;
      placed = h.placed;
      position = rw (h.planned, h.position) fits;
    };
    same_plan = h.planned;
    conserved = rw (h.planned, h.position, h.executed);
    finished = elim ends [
      | inl not_completed ↦ inl not_completed
      | inr none_left ↦ inr (rw none_left (h.executed ∙ sym (append-nil done)))
    ];
  }

  finish-Stands :
      (done : List ℕ) (k : ℕ) (r : Run)
      → Stands place plan done k r
      → Stands place plan done (length plan) (finish e r)
  unfolding finish
  finish-Stands done k r h = record {
    planned = h.planned;
    placed = h.placed;
    executed = h.executed;
    position = sym (length-map (λ (x : Action). x.id) r.planned_actions) ∙ ap length h.planned;
  }

  interrupt-Stands :
      (done : List ℕ) (k : ℕ) (a : Action) (r : Run)
      → a.sequence_index ≡ k
      → Stands place plan done k r
      → Stands place plan done k
          (interrupt e "interrupt requested" "system" (some a.sequence_index) r)
  unfolding interrupt
  interrupt-Stands done k a r q h = record {
    planned = h.planned;
    placed = h.placed;
    executed = h.executed;
    position = q;
  }

  loop-Accounts :
      (actions : List Action) (n k : ℕ) (done : List ℕ) (r : Run)
      → k ≤ length plan
      → drop k plan ≡ ids actions
      → IsPlan place k (ids actions)
      → All (IsPlacedBy place) actions
      → Stands place plan done k r
      → OnOk (Accounts place plan (done ++ drop k plan)) (loop e overrides limit actions n r)
  unfolding loop
  loop-Accounts [] n k done r fits rest order placed h =
      subst (λ xs. Accounts place plan (done ++ xs) (finish e r)) (drop-length plan ∙ sym rest)
        (Stands-Accounts done (length plan) (finish e r) (omega arith) (finish-Stands done k r h)
          (inr (drop-length plan)))
  loop-Accounts (a ∷ actions) n k done r fits rest order placed h =
      elim (Bool-cases (reached limit n)) [
        | inl stops ↦ rw stops (
            Stands-Accounts done k
              (interrupt e "interrupt requested" "system" (some a.sequence_index) r) fits
              (interrupt-Stands done k a r (placed.0 ∙ order.0) h) (inl (unfold interrupt in refl)))
        | inr goes ↦ rw goes (
            turn (process e overrides a r)
              (process-Stands e overrides a r placed.0 (placed.0 ∙ order.0) h)
              (λ s h'.
                loop-Accounts actions (n + 1) (suc k) (done ++ a.id ∷ []) s
                  (drop-cons-lt k plan a.id (ids actions) rest)
                  (drop-suc k plan a.id (ids actions) rest) order.1 placed.1 h'))
      ]
    where
      turn :
          (o : Outcome)
          → OnTurn place plan done k a.id o
          → ((s : Run)
              → Stands place plan (done ++ a.id ∷ []) (suc k) s
              → OnOk
                  (Accounts place plan ((done ++ a.id ∷ []) ++ drop (suc k) plan))
                  (loop e overrides limit actions (n + 1) s))
          → OnOk (Accounts place plan (done ++ drop k plan)) (elim o [
            | stop s ↦ ok s
            | go s ↦ loop e overrides limit actions (n + 1) s
            | fail x ↦ refused x
          ])
      turn (stop s) t next = Stands-Accounts done k s fits t.0 (inl t.1)
      turn (go s) t next =
          subst (λ xs. OnOk (Accounts place plan xs) (loop e overrides limit actions (n + 1) s))
            (append_assoc done (a.id ∷ []) (drop (suc k) plan)
              ∙ ap (λ xs. done ++ xs)
                  (ap (λ xs. a.id ∷ xs) (drop-suc k plan a.id (ids actions) rest) ∙ sym rest))
            (next s t)
      turn (fail x) t next = tt

ids-drop : (n : ℕ) (actions : List Action) → ids (drop n actions) ≡ drop n (ids actions)
ids-drop zero actions = refl
ids-drop (suc n) [] = refl
ids-drop (suc n) (x ∷ xs) = ids-drop n xs

module _ (e : Env) (r : Run) where
  start-planned : (start e r).planned_actions ≡ r.planned_actions
  unfolding start
  start-planned = ground arith

  start-executed : (start e r).executed_actions ≡ r.executed_actions
  unfolding start
  start-executed = ground arith

  start-next : (start e r).next_action_index ≡ r.next_action_index
  unfolding start
  start-next = ground arith

  start-is_terminal : is_terminal (start e r).status ≡ is_terminal r.status
  unfolding start
  start-is_terminal = ground arith

-- `start` only sets the status and stamps the run, so the loop begins where the run stands.
execute-OnOk :
    (e : Env) (overrides : Overrides) (limit : Option ℕ) (place : ℕ → ℕ) (r : Run)
    → is_terminal r.status ≡ false
    → IsOrdered place r
    → OnOk
        (Accounts place (ids r.planned_actions) (ids r.executed_actions ++ left r))
        (execute e overrides limit r)
unfolding execute
execute-OnOk e overrides limit place r open_ h =
    let s = start e r in
    let todo = drop r.next_action_index r.planned_actions in
    let same = ids-drop r.next_action_index r.planned_actions in
    rw (start-is_terminal e r ∙ open_) (
      rw (start-planned e r, start-next e r)
        (loop-Accounts e overrides limit h.in_order todo 0 r.next_action_index
          (ids r.executed_actions) s h.position (sym same)
          (rw same (
            subst (λ m. IsPlan place m (left r)) (omega arith)
              (IsPlan-drop place 0 r.next_action_index (ids r.planned_actions) h.in_order)))
          (All-drop (IsPlacedBy place) r.next_action_index r.planned_actions h.placed)
          (record {
            planned = ap ids (start-planned e r);
            placed = rw (start-planned e r) h.placed;
            executed = ap ids (start-executed e r);
            position = start-next e r;
          })))

-- From a run whose plan is in order and that has not ended, `execute` returns a run with the same
-- plan, in order: what it has executed and what is left are together what they were before, in
-- the same order, and if it completed, it has executed all that was left.
pub execute-Accounts :
    (e : Env) (overrides : Overrides) (limit : Option ℕ) (place : ℕ → ℕ) (r : Run)
    → is_terminal r.status ≡ false
    → IsOrdered place r
    → Returns
        (Accounts place (ids r.planned_actions) (ids r.executed_actions ++ left r))
        (execute e overrides limit r)
execute-Accounts e overrides limit place r open_ h =
    execute-Returns (Accounts place (ids r.planned_actions) (ids r.executed_actions ++ left r)) e
      overrides limit r (execute-OnOk e overrides limit place r open_ h)

Accounts-of :
    (e : Env) (overrides : Overrides) (limit : Option ℕ) (place : ℕ → ℕ) (r : Run) {s : Run}
    → is_terminal r.status ≡ false
    → IsOrdered place r
    → execute e overrides limit r ≡ ok s
    → Accounts place (ids r.planned_actions) (ids r.executed_actions ++ left r) s
Accounts-of e overrides limit place r open_ h eq =
    subst (OnOk (Accounts place (ids r.planned_actions) (ids r.executed_actions ++ left r))) eq
      (execute-OnOk e overrides limit place r open_ h)

-- If a run whose plan is in order and that has not ended halts in `execute` for an interruption or
-- a review, and completes when it is resumed, with approvals and limits of that call, it has then
-- executed exactly what it had before and what was left, in order.
pub resume_completes :
    (e e' : Env) (overrides overrides' : Overrides) (limit limit' : Option ℕ) (place : ℕ → ℕ)
    (r s t : Run)
    → is_terminal r.status ≡ false
    → IsOrdered place r
    → execute e overrides limit r ≡ ok s
    → is_resumable s.status ≡ true
    → resume e' overrides' limit' s ≡ ok t
    → t.status ≡ RunStatus.completed
    → ids t.executed_actions ≡ ids r.executed_actions ++ left r
unfolding resume
resume_completes e e' overrides overrides' limit limit' place r s t open_ h first halted second
      done =
    let a = Accounts-of e overrides limit place r open_ h first in
    let b =
      Accounts-of e' overrides' limit' place s (ground (arith, halted)) a.ordered
        (rw halted at second) in
    elim b.finished [
      | inl not_completed ↦ absurd (ground (arith, done, not_completed))
      | inr all ↦ all ∙ a.conserved
    ]
