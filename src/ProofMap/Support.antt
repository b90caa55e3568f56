-- ===== src/ProofMap/Support.antt =====
-- What a node rests on unsettled: the walk of `_unsettled_support` and `_reachable_unsettled` of
-- src/proof_cli/proof_map.py, whatever makes a node settled. A set is a list in which only
-- membership counts. The memo of a read is handed on.
pub mod Found
pub mod Walk
use proof_cli.Base.{
  ℕ, zero, suc, ◌+◌, Bool, true, false, not, Option, none, some, List, [], ◌∷◌, ◌++◌, map, ◌==◌,
  contains, keep, length, if◌then◌else◌,
}
use proof_cli.ProofMap.Upstream.{mass, push_all}

abbrev pub Memo : Type 0
Memo = List (ℕ × List ℕ)

abbrev pub read_of : ℕ → Memo → Option (List ℕ)
read_of i [] = none
read_of i ((j, found) ∷ memo) = if j == i then some found else read_of i memo

-- A node of the path that is walked, its dependencies still to see, and what was found under it.
abbrev pub Frame : Type 0
Frame = ℕ × List ℕ × List ℕ

abbrev pub on_path : List Frame → ℕ → Bool
on_path stack i = contains (map (λ f. f.0) stack) i

abbrev pub drop_path : List Frame → Memo → Memo
drop_path stack memo = keep (λ e. not (on_path stack e.0)) memo

-- `stack[-1][2].update(found)`
abbrev pub gather : List ℕ → List Frame → List Frame
gather found [] = []
gather found ((i, todo, more_) ∷ stack) = (i, todo, found ++ more_) ∷ stack

abbrev pub with_memo : Memo → Option (List ℕ) → Option (Memo × List ℕ)
with_memo memo none = none
with_memo memo (some found) = some (memo, found)

module _ (next : ℕ → List ℕ) (settled : ℕ → Bool) where
  -- `_reachable_unsettled`, from a point of its loop.
  unfoldable pub unsettled_on : ℕ → List ℕ → List ℕ → Option (List ℕ)
  unsettled_on zero found pending = none
  unsettled_on (suc fuel) found [] = some found
  unsettled_on (suc fuel) found (i ∷ pending) =
      let skip = unsettled_on fuel found pending in
      let rest = unsettled_on fuel (i ∷ found) (push_all (next i) pending) in
      if contains found i then skip else if settled i then skip else rest

  abbrev pub discard : ℕ → Option (List ℕ) → Option (List ℕ)
  discard i none = none
  discard i (some found) = some (keep (λ x. not (x == i)) found)

  abbrev pub reachable_unsettled : List ℕ → ℕ → Option (List ℕ)
  reachable_unsettled all start = discard start (
      unsettled_on (suc (length (next start) + mass next (λ i. false) all)) []
        (push_all (next start) []))

  module _ (all : List ℕ) (start : ℕ) where
    -- The walk of `_unsettled_support`, from a point of its loop.
    unfoldable pub walk_on : ℕ → Memo → List Frame → Option (Memo × List ℕ)
    walk_on zero memo stack = none
    walk_on (suc fuel) memo [] = with_memo memo (read_of start memo)
    walk_on (suc fuel) memo ((i, [], found) ∷ stack) =
        walk_on fuel ((i, found) ∷ memo) (gather found stack)
    walk_on (suc fuel) memo ((i, d ∷ ds, found) ∷ stack) =
        let skip = walk_on fuel memo ((i, ds, found) ∷ stack) in
        let enter = walk_on fuel memo ((d, next d, []) ∷ (i, ds, d ∷ found) ∷ stack) in
        let cut =
          with_memo (drop_path ((i, ds, found) ∷ stack) memo) (reachable_unsettled all start) in
        if settled d then skip else elim (read_of d memo) [
          | some more_ ↦ walk_on fuel memo ((i, ds, more_ ++ d ∷ found) ∷ stack)
          | none ↦ if on_path ((i, ds, found) ∷ stack) d then cut else enter
        ]

    unfoldable pub fuel_of : (ℕ → Bool) → List Frame → ℕ
    fuel_of seen [] = suc (mass next seen all)
    fuel_of seen ((i, todo, found) ∷ stack) = suc (length todo) + fuel_of seen stack

    -- `_unsettled_support`, with the memo that it leaves.
    unfoldable pub support_from : Memo → Option (Memo × List ℕ)
    support_from memo = elim (read_of start memo) [
      | some found ↦ some (memo, found)
      | none ↦
          let top : Frame = (start, next start, []) in
          walk_on (fuel_of (λ i. false) (top ∷ [])) memo (top ∷ [])
    ]
