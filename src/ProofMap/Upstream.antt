-- ===== src/ProofMap/Upstream.antt =====
-- What unsettles a node from upstream: `_upstream_cause` and `_reachable_cause` of
-- src/proof_cli/proof_map.py, whatever a node itself starts. The memo of a read is handed on. The
-- counter of visits is left out.
pub mod Worst
pub mod Mass
pub mod Reachable
pub mod Sound
pub mod Walk
use proof_cli.Base.{
  ℕ, zero, suc, ◌+◌, Bool, true, false, not, Option, none, some, List, [], ◌∷◌, map, ◌==◌, leb,
  contains, keep, length, if◌then◌else◌,
}

-- `None`, `"stale"` and `"challenged"`.
pub data Cause : Type 0 where
  clear stale challenged : Cause

-- `_CAUSE_RANK`
abbrev pub cause_rank : Cause → ℕ
cause_rank clear = 0
cause_rank stale = 1
cause_rank challenged = 2

unfoldable pub worse : Cause → Cause → Cause
worse a b = if leb (cause_rank b) (cause_rank a) then a else b

abbrev pub is_challenged : Cause → Bool
is_challenged challenged = true
is_challenged _ = false

abbrev pub Memo : Type 0
Memo = List (ℕ × Cause)

abbrev pub read_of : ℕ → Memo → Option Cause
read_of i [] = none
read_of i ((j, c) ∷ memo) = if j == i then some c else read_of i memo

-- A node of the path that is walked, its dependencies still to see, and the worst cause so far. The
-- path has its last node first.
abbrev pub Frame : Type 0
Frame = ℕ × List ℕ × Cause

abbrev pub on_path : List Frame → ℕ → Bool
on_path stack i = contains (map (λ f. f.0) stack) i

-- `for path_id, _, _ in stack: memo[path_id] = "challenged"`
abbrev pub mark_path : List Frame → Memo → Memo
mark_path [] memo = memo
mark_path ((i, todo, c) ∷ stack) memo = (i, challenged) ∷ mark_path stack memo

-- `memo.pop(path_id, None)` for the ids of the path.
abbrev pub drop_path : List Frame → Memo → Memo
drop_path stack memo = keep (λ e. not (on_path stack e.0)) memo

-- The top of what is left learns the cause of the node that was popped.
abbrev pub learn : Cause → List Frame → List Frame
learn cause [] = []
learn cause ((i, todo, c) ∷ stack) = (i, todo, worse c cause) ∷ stack

-- `pending.extend(ids)`, with the end of the list first.
abbrev pub push_all : List ℕ → List ℕ → List ℕ
push_all [] pending = pending
push_all (d ∷ ds) pending = push_all ds (d ∷ pending)

abbrev pub with_memo : Memo → Option Cause → Option (Memo × Cause)
with_memo memo none = none
with_memo memo (some c) = some (memo, c)

module _ (next : ℕ → List ℕ) where
  -- What is left of the walk: the nodes not seen, with their dependencies.
  unfoldable pub mass : (ℕ → Bool) → List ℕ → ℕ
  mass seen [] = 0
  mass seen (u ∷ us) =
      let rest = mass seen us in if seen u then rest else suc (suc (length (next u))) + rest

module _ (next : ℕ → List ℕ) (own : ℕ → Cause) where
  -- `_reachable_cause`, from a point of its loop.
  unfoldable pub reach_on : ℕ → List ℕ → List ℕ → Cause → Option Cause
  reach_on zero visited pending worst = none
  reach_on (suc fuel) visited [] worst = some worst
  reach_on (suc fuel) visited (i ∷ pending) worst =
      let again = reach_on fuel visited pending worst in
      let worst' = worse worst (own i) in
      let rest = reach_on fuel (i ∷ visited) (push_all (next i) pending) worst' in
      if contains visited i then again else if is_challenged worst' then some worst' else rest

  abbrev pub reachable_cause : List ℕ → ℕ → Option Cause
  reachable_cause all start =
      reach_on (suc (suc (mass next (λ i. false) all))) [] (start ∷ []) clear

  module _ (all : List ℕ) (start : ℕ) where
    -- The walk of `_upstream_cause`, from a point of its loop.
    unfoldable pub walk_on : ℕ → Memo → List Frame → Option (Memo × Cause)
    walk_on zero memo stack = none
    walk_on (suc fuel) memo [] = with_memo memo (read_of start memo)
    walk_on (suc fuel) memo ((i, [], worst) ∷ stack) =
        walk_on fuel ((i, worst) ∷ memo) (learn worst stack)
    walk_on (suc fuel) memo ((i, d ∷ ds, worst) ∷ stack) = elim (read_of d memo) [
      | some c ↦
          let rest = walk_on fuel memo ((i, ds, worse worst c) ∷ stack) in
          if is_challenged c
          then some (mark_path ((i, ds, worst) ∷ stack) memo, challenged)
          else rest
      | none ↦
          let cut =
            with_memo (drop_path ((i, ds, worst) ∷ stack) memo) (reachable_cause all start) in
          let rest = walk_on fuel memo ((d, next d, own d) ∷ (i, ds, worst) ∷ stack) in
          if on_path ((i, ds, worst) ∷ stack) d
          then cut
          else if is_challenged (own d)
          then some (mark_path ((i, ds, worst) ∷ stack) ((d, challenged) ∷ memo), challenged)
          else rest
    ]

    unfoldable pub fuel_of : (ℕ → Bool) → List Frame → ℕ
    fuel_of seen [] = suc (mass next seen all)
    fuel_of seen ((i, todo, c) ∷ stack) = suc (length todo) + fuel_of seen stack

    -- `_upstream_cause`, with the memo that it leaves.
    unfoldable pub cause_from : Memo → Option (Memo × Cause)
    cause_from memo = elim (read_of start memo) [
      | some c ↦ some (memo, c)
      | none ↦
          let top : Frame = (start, next start, own start) in
          let rest = walk_on (fuel_of (λ i. false) (top ∷ [])) memo (top ∷ []) in
          if is_challenged (own start) then some ((start, challenged) ∷ memo, challenged) else rest
    ]
