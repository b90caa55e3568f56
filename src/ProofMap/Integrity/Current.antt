-- ===== src/ProofMap/Integrity/Current.antt =====
-- What an accepted node rests on that reads as current.
use proof_cli.Base.{ℕ, ◌≤◌, ◌≡◌, refl, ap, subst, true, false, not, arith}
use proof_cli.Graph.Reach.{Reach}
use proof_cli.ProofMap.Types.{Node, Store, Result, ok, err, ◌>>=◌, accepted, Decisions}
use proof_cli.ProofMap.Results.{ok-injective}
use proof_cli.ProofMap.Claims.{is_accepted}
use proof_cli.ProofMap.Tables.{require_node}
use proof_cli.ProofMap.Edges.{dependencies_of}
use proof_cli.ProofMap.Upstream.{Cause, clear, stale, challenged, cause_rank}
use proof_cli.ProofMap.Upstream.Worst.{cause_rank-clear}
use proof_cli.ProofMap.Workflow.{Records, own_cause, cause_at, is_clear, is_unsettled_upstream}
use proof_cli.ProofMap.Workflow.Causes.{cause_at-IsWorst}
use proof_cli.ProofMap.Integrity.{current, integrity_of, get_integrity_state}

is_clear_lem : (c : Cause) → not (is_clear c) ≡ false → c ≡ clear
is_clear_lem clear h = refl
is_clear_lem stale h = absurd (ground arith)
is_clear_lem challenged h = absurd (ground arith)

settled_above :
    (d : Decisions) (r : Records) (s : Store) (i : ℕ) (n : Node)
    → integrity_of d r s i n ≡ current
    → d.acceptance s i ≡ accepted
    → is_unsettled_upstream d r s i ≡ false
unfolding integrity_of
settled_above d r s i n h a =
    let q : is_accepted (d.acceptance s i) ≡ true = ap is_accepted a in ground (arith, h, q)

-- An accepted node whose integrity reads as current is, and rests on, no node that starts a cause to
-- doubt it: none has an open Challenge, is a citation that is no longer callable, or pins an
-- interface that changed.
pub get_integrity_state-current :
    (d : Decisions) (r : Records) (s : Store) (i b : ℕ)
    → get_integrity_state d r s i ≡ ok current
    → d.acceptance s i ≡ accepted
    → Reach (dependencies_of s.nodes) i b
    → own_cause d r s b ≡ clear
unfolding get_integrity_state ◌>>=◌ cause_at is_unsettled_upstream
get_integrity_state-current d r s i b h a p = found (require_node d s i) h
  where
    found :
        (q : Result Node)
        → (q >>= λ n. ok (integrity_of d r s i n)) ≡ ok current
        → own_cause d r s b ≡ clear
    found (ok n) e =
        let same : integrity_of d r s i n ≡ current = ok-injective e in
        let none_above = is_clear_lem (cause_at d r s i) (settled_above d r s i n same a) in
        cause_rank-clear (own_cause d r s b) (
          subst (λ z. cause_rank (own_cause d r s b) ≤ cause_rank z) none_above
            ((cause_at-IsWorst d r s i).bounded b p))
    found (err x) e = cc
