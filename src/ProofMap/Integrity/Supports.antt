-- ===== src/ProofMap/Integrity/Supports.antt =====
-- What `_unsettled_support` finds on a map without cycles.
use proof_cli.Base.{ℕ, ◌≡◌, refl, sym, subst, Bool, true, not, List, [], ◌∷◌, ◌↔◌, all, arith}
use proof_cli.Graph.Reach.{In}
use proof_cli.Graph.Acyclic.{IsAcyclic-fewer}
use proof_cli.Graph.Push.{In-cons}
use proof_cli.ProofMap.Types.{Store, Decisions}
use proof_cli.ProofMap.Edges.{dependencies_of, targets}
use proof_cli.ProofMap.Edges.Search.{dependencies_of-targets}
use proof_cli.ProofMap.Edit.Acyclic.{IsAcyclicMap}
use proof_cli.ProofMap.Support.Found.{RestsOn, RestsOn-trans, IsSound, keep-In}
use proof_cli.ProofMap.Support.Walk.{Ends, support_from-Ends}
use proof_cli.ProofMap.Workflow.{Records, dependency_satisfied}
use proof_cli.ProofMap.Integrity.{
  support_with, set_found, unsettled_support, provisional_itself, is_provisional,
}

-- The node rests on `b` by a chain of dependencies that are not satisfied.
abbrev pub RestsUnsettledOn : Decisions → Records → Store → ℕ → ℕ → Type 0
RestsUnsettledOn d r s i b = RestsOn (dependencies_of s.nodes) (dependency_satisfied d r s) i b

pub support_with-Ends :
    (d : Decisions) (r : Records) (s : Store) (memo : List (ℕ × List ℕ)) (i : ℕ)
    → IsAcyclicMap s
    → IsSound (dependencies_of s.nodes) (dependency_satisfied d r s) memo
    → Ends
        (dependencies_of s.nodes)
        (dependency_satisfied d r s)
        (i ∷ targets s.nodes)
        i
        (support_with d r s memo i)
unfolding support_with
support_with-Ends d r s memo i acyclic sound =
    support_from-Ends (dependencies_of s.nodes) (dependency_satisfied d r s) (i ∷ targets s.nodes) i
      (λ x c h. In-cons c i (targets s.nodes) (dependencies_of-targets s.nodes x c h))
      (IsAcyclic-fewer acyclic λ x c h.
        (keep-In (λ d'. not (dependency_satisfied d r s d')) c (dependencies_of s.nodes x) h).0)
      memo sound

-- On a map without cycles, `unsettled_support` holds exactly the nodes that the node rests on by a
-- chain of dependencies none of which is satisfied.
pub unsettled_support-RestsOn :
    (d : Decisions) (r : Records) (s : Store) (i b : ℕ)
    → IsAcyclicMap s
    → In b (unsettled_support d r s i) ↔ RestsUnsettledOn d r s i b
unfolding unsettled_support
unsettled_support-RestsOn d r s i b acyclic =
    let (memo, found, e, _, support) =
      support_with-Ends d r s [] i acyclic (λ x c e. absurd (cc)) in
    subst (λ z. In b (set_found z) ↔ RestsUnsettledOn d r s i b) (sym e) (support b)

all-In : (p : ℕ → Bool) (b : ℕ) (xs : List ℕ) → all p xs ≡ true → In b xs → p b ≡ true
all-In p b [] h k = cc
all-In p b (x ∷ xs) h k = ground (arith, h, all-In p b xs)

In-all : (p : ℕ → Bool) (xs : List ℕ) → ((b : ℕ) → In b xs → p b ≡ true) → all p xs ≡ true
In-all p [] h = refl
In-all p (x ∷ xs) h =
    let first = h x (ground arith) in
    let rest = In-all p xs (λ b k. h b (ground (arith, k))) in ground (arith, first, rest)

-- On a map without cycles, whatever a Provisional node rests on unsettled is Provisional.
pub is_provisional-closed :
    (d : Decisions) (r : Records) (s : Store) (i b : ℕ)
    → IsAcyclicMap s
    → is_provisional d r s i ≡ true
    → In b (unsettled_support d r s i)
    → is_provisional d r s b ≡ true
unfolding is_provisional
is_provisional-closed d r s i b acyclic h k =
    let every : all (provisional_itself d r s) (unsettled_support d r s i) ≡ true =
      ground (arith, h) in
    let itself = all-In (provisional_itself d r s) b (unsettled_support d r s i) every k in
    let below = In-all (provisional_itself d r s) (unsettled_support d r s b) λ c q.
      all-In (provisional_itself d r s) c (unsettled_support d r s i) every (
        (unsettled_support-RestsOn d r s i c acyclic).1 (
          RestsOn-trans (dependencies_of s.nodes) (dependency_satisfied d r s) i b c
            ((unsettled_support-RestsOn d r s i b acyclic).0 k)
            ((unsettled_support-RestsOn d r s b c acyclic).0 q))) in
    ground (arith, itself, below)
