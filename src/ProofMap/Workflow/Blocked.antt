-- ===== src/ProofMap/Workflow/Blocked.antt =====
-- When a node is blocked, and the reason that is given.
use proof_cli.Base.{
  ℕ, ◌≡◌, ◌∙◌, refl, sym, ap, subst, Bool, true, false, not, ◌&&◌, ◌||◌, Option, none, some, List,
  [], ◌∷◌, ◌==◌, ◌⊎◌, is_some, any, inl, inr, Bool-cases, arith,
}
use proof_cli.Graph.Reach.{In, Reach}
use proof_cli.ProofMap.Types.{Node, Store, Result, ok, err, ◌>>=◌, Decisions}
use proof_cli.ProofMap.Tables.{exists_in, find_node, get_node, require_node, map_found, as_counted}
use proof_cli.ProofMap.Edges.{dependencies_of}
use proof_cli.ProofMap.Edit.Writes.{find_node-id}
use proof_cli.ProofMap.Upstream.{Cause, clear, stale, challenged}
use proof_cli.ProofMap.Workflow.{
  Records, is_stale, is_clear, has_standing, own_cause, cause_at, is_unsettled_upstream,
  satisfied_row, dependency_satisfied, has_unresolved_dependency, already_accepted, WorkflowState,
  blocked, workflow_of, get_workflow_state, BlockedReason, not_callable, not_callable_row,
  dependency_challenged, reason_from, reason_of, get_blocked_reason,
}
use proof_cli.ProofMap.Workflow.Causes.{cause_at-challenged}

abbrev pub is_blocked : WorkflowState → Bool
is_blocked blocked = true
is_blocked _ = false

is_blocked-workflow_of :
    (d : Decisions) (r : Records) (s : Store) (n : Node)
    → is_blocked (workflow_of d r s n)
      ≡ (not (already_accepted d s n) && has_unresolved_dependency d r s n)
unfolding workflow_of
is_blocked-workflow_of d r s n = ground arith

is_some-reason_of :
    (d : Decisions) (r : Records) (s : Store) (n : Node)
    → is_some (reason_of d r s n)
      ≡ (not (already_accepted d s n) && has_unresolved_dependency d r s n)
unfolding reason_of
is_some-reason_of d r s n = ground arith

-- For every node `get_blocked_reason` gives a reason exactly if `get_workflow_state` reads it as
-- blocked, and each raises exactly if the other does, with the same error.
pub get_blocked_reason-blocked :
    (d : Decisions) (r : Records) (s : Store) (i : ℕ)
    → (get_blocked_reason d r s i >>= λ reason. ok (is_some reason))
      ≡ (get_workflow_state d r s i >>= λ state. ok (is_blocked state))
unfolding get_workflow_state get_blocked_reason ◌>>=◌
get_blocked_reason-blocked d r s i = answer (require_node d s i)
  where
    answer :
        (q : Result Node)
        → ((q >>= λ n. ok (reason_of d r s n)) >>= λ reason. ok (is_some reason))
          ≡ ((q >>= λ n. ok (workflow_of d r s n)) >>= λ state. ok (is_blocked state))
    answer (ok n) = ap ok (is_some-reason_of d r s n ∙ sym (is_blocked-workflow_of d r s n))
    answer (err x) = refl

pub as_counted-id : (d : Decisions) (s : Store) (n : Node) → (as_counted d s n).id ≡ n.id
unfolding as_counted
as_counted-id d s n = ground arith

and_false : (a : Bool) {b : Bool} → b ≡ false → a && b ≡ false
and_false a h = ground (arith, h)

unsatisfied :
    (d : Decisions) (r : Records) (s : Store) (j b : ℕ)
    → exists_in s j ≡ true
    → Reach (dependencies_of s.nodes) j b
    → own_cause d r s b ≡ challenged
    → dependency_satisfied d r s j ≡ false
unfolding dependency_satisfied get_node as_counted is_unsettled_upstream
unsatisfied d r s j b there p e = row (find_node j s.nodes) refl there
  where
    row :
        (f : Option Node)
        → find_node j s.nodes ≡ f
        → is_some f ≡ true
        → satisfied_row d r s (map_found (as_counted d s) f) ≡ false
    row none e' h = cc
    row (some m) e' h =
        let named : m.id ≡ j = find_node-id j s.nodes m e' in
        let worst : cause_at d r s m.id ≡ challenged =
          subst (λ z. cause_at d r s z ≡ challenged) (sym named)
            (cause_at-challenged d r s j b p e) in
        let at : cause_at d r s (as_counted d s m).id ≡ challenged =
          ap (cause_at d r s) (as_counted-id d s m) ∙ worst in
        and_false (has_standing d r s (as_counted d s m)) (ap (λ c. not (not (is_clear c))) at)

any-In : (p : ℕ → Bool) (j : ℕ) (ds : List ℕ) → In j ds → p j ≡ true → any p ds ≡ true
any-In p j [] h e = cc
any-In p j (d ∷ ds) h e = ground (arith, any-In p j ds)

reason_from-later :
    (d : Decisions) (r : Records) (s : Store) (i : ℕ) (is : List ℕ) (seen : Bool)
    → ((seen' : Bool) → reason_from d r s is seen' ≡ dependency_challenged)
    → reason_from d r s (i ∷ is) seen ≡ dependency_challenged
unfolding reason_from
reason_from-later d r s i is seen later = elim (Bool-cases (dependency_satisfied d r s i)) [
  | inl on ↦ rw on (later seen)
  | inr off ↦ rw off (by_cause (cause_at d r s i) (later (seen || is_stale (cause_at d r s i))))
]
  where
    by_cause :
        (c : Cause) {rest : BlockedReason}
        → rest ≡ dependency_challenged
        → elim c as (λ x. BlockedReason) [ challenged ↦ dependency_challenged | _ ↦ rest ]
          ≡ dependency_challenged
    by_cause clear h = h
    by_cause stale h = h
    by_cause challenged h = refl

has_unresolved-In :
    (d : Decisions) (r : Records) (s : Store) (n : Node) (j : ℕ)
    → In j n.dependencies
    → dependency_satisfied d r s j ≡ false
    → has_unresolved_dependency d r s n ≡ true
unfolding has_unresolved_dependency
has_unresolved-In d r s n j h off =
    any-In (λ i. not (dependency_satisfied d r s i)) j n.dependencies h (ap not off)

reason_from-challenged :
    (d : Decisions) (r : Records) (s : Store) (j : ℕ) (ds : List ℕ) (seen : Bool)
    → In j ds
    → dependency_satisfied d r s j ≡ false
    → cause_at d r s j ≡ challenged
    → reason_from d r s ds seen ≡ dependency_challenged
unfolding reason_from
reason_from-challenged d r s j [] seen h off e = cc
reason_from-challenged d r s j (i ∷ is) seen h off e = elim (Bool-cases (i == j)) [
  | inl at ↦
      let same : i ≡ j = ground arith in
      let off' : dependency_satisfied d r s i ≡ false =
        subst (λ z. dependency_satisfied d r s z ≡ false) (sym same) off in
      let e' : cause_at d r s i ≡ challenged =
        subst (λ z. cause_at d r s z ≡ challenged) (sym same) e in
      rw (off', e') refl
  | inr other ↦
      reason_from-later d r s i is seen
        λ seen'. reason_from-challenged d r s j is seen' (ground (arith, h)) off e
]

workflow_of-blocked :
    (d : Decisions) (r : Records) (s : Store) (n : Node)
    → already_accepted d s n ≡ false
    → has_unresolved_dependency d r s n ≡ true
    → workflow_of d r s n ≡ blocked
unfolding workflow_of
workflow_of-blocked d r s n h k = ground (arith, h, k)

reason_of-challenged :
    (d : Decisions) (r : Records) (s : Store) (n : Node)
    → already_accepted d s n ≡ false
    → has_unresolved_dependency d r s n ≡ true
    → reason_from d r s n.dependencies false ≡ dependency_challenged
    → (reason : BlockedReason) × (reason_of d r s n ≡ some reason)
      × ((reason ≡ not_callable) ⊎ (reason ≡ dependency_challenged))
unfolding reason_of
reason_of-challenged d r s n h k e =
    elim (Bool-cases (any (λ i. not_callable_row r s (get_node d s i)) n.dependencies)) [
      | inl on ↦ (not_callable, ground (arith, h, k, on), inl refl)
      | inr off ↦ (dependency_challenged, ground (arith, h, k, off, e), inr refl)
    ]

-- A node that is not accepted, with an existing dependency that is or rests on a node which starts a
-- Challenge, reads as blocked, and the reason that is given is a Challenge or a citation that is no
-- longer callable.
pub blocked_below_challenge :
    (d : Decisions) (r : Records) (s : Store) (i j b : ℕ) (n : Node)
    → require_node d s i ≡ ok n
    → already_accepted d s n ≡ false
    → In j n.dependencies
    → exists_in s j ≡ true
    → Reach (dependencies_of s.nodes) j b
    → own_cause d r s b ≡ challenged
    → (get_workflow_state d r s i ≡ ok blocked)
      × (reason : BlockedReason) × (get_blocked_reason d r s i ≡ ok (some reason))
      × ((reason ≡ not_callable) ⊎ (reason ≡ dependency_challenged))
unfolding get_workflow_state get_blocked_reason ◌>>=◌
blocked_below_challenge d r s i j b n found fresh e there p q =
    let off = unsatisfied d r s j b there p q in
    let unresolved : has_unresolved_dependency d r s n ≡ true = has_unresolved-In d r s n j e off in
    let given =
      reason_from-challenged d r s j n.dependencies false e off
        (cause_at-challenged d r s j b p q) in
    let (reason, at, which) = reason_of-challenged d r s n fresh unresolved given in
    (
      rw found (ap ok (workflow_of-blocked d r s n fresh unresolved)),
      reason,
      rw found (ap ok at),
      which,
    )
