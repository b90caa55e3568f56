-- ===== src/ProofMap/Workflow/Causes.antt =====
-- What `_upstream_cause` finds on the map.
use proof_cli.Base.{ℕ, ◌≤◌, ◌≡◌, refl, subst, List, [], ◌∷◌, arith}
use proof_cli.Graph.Reach.{Reach}
use proof_cli.Graph.Push.{In-cons}
use proof_cli.ProofMap.Types.{Store, Decisions}
use proof_cli.ProofMap.Edges.{dependencies_of, targets}
use proof_cli.ProofMap.Edges.Search.{dependencies_of-targets}
use proof_cli.ProofMap.Upstream.{Cause, clear, stale, challenged, cause_rank, Memo}
use proof_cli.ProofMap.Upstream.Worst.{IsWorst}
use proof_cli.ProofMap.Upstream.Sound.{IsSound}
use proof_cli.ProofMap.Upstream.Walk.{Ends, cause_from-Ends}
use proof_cli.ProofMap.Workflow.{Records, own_cause, upstream_cause, cause_found, cause_at}

-- If every cause in the memo is the worst that its node, or one that it rests on, starts, then
-- `upstream_cause` ends, on any map, with the worst cause that the node or one that it rests on
-- starts, and with a memo of which the same holds.
pub upstream_cause-Ends :
    (d : Decisions) (r : Records) (s : Store) (memo : Memo) (i : ℕ)
    → IsSound (dependencies_of s.nodes) (own_cause d r s) memo
    → Ends
        (dependencies_of s.nodes)
        (own_cause d r s)
        (i ∷ targets s.nodes)
        i
        (upstream_cause d r s memo i)
unfolding upstream_cause
upstream_cause-Ends d r s memo i sound =
    cause_from-Ends (dependencies_of s.nodes) (own_cause d r s) (i ∷ targets s.nodes) i
      (λ x c h. In-cons c i (targets s.nodes) (dependencies_of-targets s.nodes x c h))
      (ground arith) memo sound

pub cause_at-IsWorst :
    (d : Decisions) (r : Records) (s : Store) (i : ℕ)
    → IsWorst (dependencies_of s.nodes) (own_cause d r s) i (cause_at d r s i)
unfolding cause_at
cause_at-IsWorst d r s i =
    let (memo, c, e, _, worst) = upstream_cause-Ends d r s [] i (λ x c e. absurd (cc)) in
    rw (cause_at, e) worst

same_rank : (a b : Cause) → cause_rank a ≤ cause_rank b → cause_rank b ≤ cause_rank a → a ≡ b
same_rank a b h k = ground arith

IsWorst-unique :
    (next : ℕ → List ℕ) (own : ℕ → Cause) (i : ℕ) (a b : Cause)
    → IsWorst next own i a
    → IsWorst next own i b
    → a ≡ b
IsWorst-unique next own i a b h k =
    let (x, p, e) = h.attained in
    let (y, q, e') = k.attained in
    same_rank a b (subst (λ z. cause_rank z ≤ cause_rank b) e (k.bounded x p))
      (subst (λ z. cause_rank z ≤ cause_rank a) e' (h.bounded y q))

-- A memo of causes that are the worst makes no difference to the cause that is found.
pub upstream_cause-memo :
    (d : Decisions) (r : Records) (s : Store) (memo : Memo) (i : ℕ)
    → IsSound (dependencies_of s.nodes) (own_cause d r s) memo
    → cause_found (upstream_cause d r s memo i) ≡ cause_at d r s i
upstream_cause-memo d r s memo i sound =
    let (memo', c, e, _, worst) = upstream_cause-Ends d r s memo i sound in
    rw e (
      IsWorst-unique (dependencies_of s.nodes) (own_cause d r s) i c (cause_at d r s i) worst
        (cause_at-IsWorst d r s i))

at_least_challenged : (c : Cause) → cause_rank challenged ≤ cause_rank c → c ≡ challenged
at_least_challenged clear h = absurd (omega (arith, h))
at_least_challenged stale h = absurd (omega (arith, h))
at_least_challenged challenged h = refl

-- Whatever rests on a node that starts a Challenge is challenged from upstream.
pub cause_at-challenged :
    (d : Decisions) (r : Records) (s : Store) (i b : ℕ)
    → Reach (dependencies_of s.nodes) i b
    → own_cause d r s b ≡ challenged
    → cause_at d r s i ≡ challenged
cause_at-challenged d r s i b p e = at_least_challenged (cause_at d r s i) (
    subst (λ z. cause_rank z ≤ cause_rank (cause_at d r s i)) e
      ((cause_at-IsWorst d r s i).bounded b p))
