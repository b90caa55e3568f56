-- ===== src/ProofMap/Whole/History.antt =====
-- Any sequence of operations, from a whole map. An operation that raises leaves the store as it
-- was; the others commit what they made of it.
use proof_cli.Base.{ℕ, ◌≡◌, refl, String, Bool, Option, List, [], ◌∷◌}
use proof_cli.ProofMap.Types.{Store, Result, ok, err, Decisions, World}
use proof_cli.ProofMap.Claims.{claim_node, release_node}
use proof_cli.ProofMap.Create.{Fields, create_node}
use proof_cli.ProofMap.Split.{Spec, split_node, create_node_under_parent}
use proof_cli.ProofMap.Edit.{add_dependency, remove_dependency, move_dependency}
use proof_cli.ProofMap.Results.{OnOk, OnOk-of}
use proof_cli.ProofMap.Whole.{IsWhole}
use proof_cli.ProofMap.Whole.Claimed.{claim_node-IsWhole, release_node-IsWhole}
use proof_cli.ProofMap.Whole.Edits.{add_dependency-IsWhole, remove_dependency-IsWhole}
use proof_cli.ProofMap.Whole.Moves.{move_dependency-IsWhole}
use proof_cli.ProofMap.Whole.Creation.{create_node-IsWhole}
use proof_cli.ProofMap.Whole.Splitting.{split_node-IsWhole}
use proof_cli.ProofMap.Whole.Under.{create_node_under_parent-IsWhole}

-- A call of an operation, with its arguments.
pub data Call : Type 0 where
  create : Fields → Call
  create_under : (parent_id : ℕ) → Fields → (reassign : Bool) → Call
  split_into : (parent_id : ℕ) → List Spec → (created_by : ℕ) → (reassign : Bool) → Call
  add : (node_id dependency_id edited_by : ℕ) → (reassign : Bool) → Call
  remove : (node_id dependency_id edited_by : ℕ) → (reassign : Bool) → Call
  move : (node_id dependency_id to edited_by : ℕ) → (reassign : Bool) → Call
  claim_for : (node_id claimant_id : ℕ) → String → (reassign : Bool) → Call
  release : (node_id claimant_id : ℕ) → Option String → Call

abbrev pub store_of {ℓ} : {A : Type ℓ} → Result (Store × A) → Result Store
store_of (ok (s, a)) = ok s
store_of (err e) = err e

abbrev pub perform : Decisions → World → Call → Store → Result Store
perform d w (create f) s = store_of (create_node d w f s)
perform d w (create_under p f reassign) s = store_of (create_node_under_parent d w p f reassign s)
perform d w (split_into p specs by reassign) s = store_of (split_node d w p specs by reassign s)
perform d w (add i j by reassign) s = add_dependency d w i j by reassign s
perform d w (remove i j by reassign) s = remove_dependency d w i j by reassign s
perform d w (move i j to by reassign) s = move_dependency d w i j to by reassign s
perform d w (claim_for i by session reassign) s = store_of (claim_node d w i by session reassign s)
perform d w (release i by reason) s = store_of (release_node d w i by reason s)

-- The transaction of a call: committed, or rolled back.
abbrev pub committed : Store → Result Store → Store
committed before (ok after) = after
committed before (err e) = before

-- A call, with the decisions and the surroundings that it meets.
pub record Step : Type 0 where
  pub decisions : Decisions
  pub world : World
  pub call : Call

unfoldable pub run : List Step → Store → Store
run [] s = s
run (step ∷ steps) s = run steps (committed s (perform step.decisions step.world step.call s))

OnOk-store_of {ℓ} :
    {A : Type ℓ} (r : Result (Store × A))
    → ((s : Store) (a : A) → r ≡ ok (s, a) → IsWhole s)
    → OnOk IsWhole (store_of r)
OnOk-store_of (ok (s, a)) h = h s a refl
OnOk-store_of (err e) h = tt

perform-IsWhole :
    (d : Decisions) (w : World) (call : Call) (s : Store)
    → IsWhole s
    → OnOk IsWhole (perform d w call s)
perform-IsWhole d w (create f) s whole =
    OnOk-store_of (create_node d w f s) λ t n e. create_node-IsWhole d w f s t n e whole
perform-IsWhole d w (create_under p f reassign) s whole =
    OnOk-store_of (create_node_under_parent d w p f reassign s)
      λ t n e. create_node_under_parent-IsWhole d w p f reassign s (t, n) e whole
perform-IsWhole d w (split_into p specs by reassign) s whole =
    OnOk-store_of (split_node d w p specs by reassign s)
      λ t children e. split_node-IsWhole d w p specs by reassign s (t, children) e whole
perform-IsWhole d w (add i j by reassign) s whole =
    OnOk-of IsWhole (add_dependency d w i j by reassign s)
      λ t e. add_dependency-IsWhole d w i j by reassign s t e whole
perform-IsWhole d w (remove i j by reassign) s whole =
    OnOk-of IsWhole (remove_dependency d w i j by reassign s)
      λ t e. remove_dependency-IsWhole d w i j by reassign s t e whole
perform-IsWhole d w (move i j to by reassign) s whole =
    OnOk-of IsWhole (move_dependency d w i j to by reassign s)
      λ t e. move_dependency-IsWhole d w i j to by reassign s t e whole
perform-IsWhole d w (claim_for i by session reassign) s whole =
    OnOk-store_of (claim_node d w i by session reassign s)
      λ t c e. claim_node-IsWhole d w i by session reassign s t c e whole
perform-IsWhole d w (release i by reason) s whole =
    OnOk-store_of (release_node d w i by reason s)
      λ t c e. release_node-IsWhole d w i by reason s t c e whole

committed-IsWhole :
    (s : Store) (r : Result Store) → IsWhole s → OnOk IsWhole r → IsWhole (committed s r)
committed-IsWhole s (ok t) whole h = h
committed-IsWhole s (err e) whole h = whole

-- From a whole map, any sequence of calls that create, split, edit dependencies, claim and release,
-- whether they return or raise, ends in a whole map: the ids are distinct, at most one node is a
-- theorem, every dependency exists, no chain of dependencies leads back to its start, and at most
-- one claim on a node is active.
pub run-IsWhole : (steps : List Step) (s : Store) → IsWhole s → IsWhole (run steps s)
unfolding run
run-IsWhole [] s whole = whole
run-IsWhole (step ∷ steps) s whole =
    run-IsWhole steps (committed s (perform step.decisions step.world step.call s)) (
      committed-IsWhole s (perform step.decisions step.world step.call s) whole
        (perform-IsWhole step.decisions step.world step.call s whole))
