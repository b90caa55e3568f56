-- ===== src/Graph/Closure.antt =====
-- The search for everything that an identifier reaches, as `rests_on` and `_resting_on` of
-- src/proof_cli/proof_map.py run it: a set of what was found and a stack of what is to be looked at.
use proof_cli.Base.{
  ℕ, zero, suc, ◌+◌, ◌≤◌, ◌≡◌, refl, Option, none, some, List, [], ◌∷◌, ◌⊎◌, ◌↔◌, inl, inr, length,
  arith, ◌==◌, Bool-cases,
}
use proof_cli.Graph.Reach.{In, Reach, here, step, Reach-closed}
use proof_cli.Graph.Push.{push_stack, Pushed, push_stack-Pushed, unseen}

-- The `while pending` loop; `none` means that the fuel ran out.
unfoldable pub close : (ℕ → List ℕ) → ℕ → List ℕ → List ℕ → Option (List ℕ)
close next fuel found [] = some found
close next zero found (x ∷ pending) = none
close next (suc fuel) found (x ∷ pending) =
    let (found', pending') = push_stack (next x) found pending in close next fuel found' pending'

-- What holds of the set and the worklist at the head of a loop that searches from `start`.
pub record Searching (next : ℕ → List ℕ) (start : ℕ) (found pending : List ℕ) : Type 0 where
  pub has_start : In start found
  pub reached : (x : ℕ) → In x found → Reach next start x
  pub open_found : (x : ℕ) → In x pending → In x found
  pub explored : (x : ℕ) → In x found → In x pending ⊎ ((d : ℕ) → In d (next x) → In d found)

module _ (next : ℕ → List ℕ) (all : List ℕ) where
  pub Searching-init : (start : ℕ) → Searching next start (start ∷ []) (start ∷ [])
  Searching-init start = record {
    has_start = ground arith;
    reached = λ x h. elim (Bool-cases (start == x)) [
      | inl e ↦ let same : start ≡ x = ground arith in rw (← same) here
      | inr e ↦ absurd (ground arith)
    ];
    open_found = λ x h. h;
    explored = λ x h. inl h;
  }

  -- Looking at the first entry of the worklist keeps it.
  pub Searching-step :
      (start x : ℕ) (found pending found' pending' : List ℕ)
      → Searching next start found (x ∷ pending)
      → Pushed all (next x) found pending found' pending'
      → Searching next start found' pending'
  Searching-step start x found pending found' pending' s p = record {
    has_start = p.keeps_found start s.has_start;
    reached = λ y h. elim (p.new_found y h) [
      | inl a ↦ s.reached y a
      | inr (a, b) ↦ step (s.reached x (s.open_found x (ground arith))) a
    ];
    open_found = λ y h. elim (p.new_pending y h) [
      | inl a ↦ p.keeps_found y (s.open_found y (ground arith))
      | inr b ↦ b
    ];
    explored = λ y h. elim (p.new_found y h) [
      | inr (a, b) ↦ inl b
      | inl a ↦ elim (Bool-cases (x == y)) [
        | inl e ↦ let same : x ≡ y = ground arith in inr (λ d k. p.all_found d (rw (← same) at k))
        | inr e ↦ elim (s.explored y a) [
          | inl b ↦ inl (p.keeps_pending y (ground arith))
          | inr c ↦ inr (λ d k. p.keeps_found d (c d k))
        ]
      ]
    ];
  }

  -- With nothing left to look at, exactly what is reached was found.
  pub Searching-done :
      (start : ℕ) (found : List ℕ)
      → Searching next start found []
      → (b : ℕ) → In b found ↔ Reach next start b
  Searching-done start found s b =
      (s.reached b, Reach-closed found s.has_start (λ x d h k. closed x d (s.explored x h) k))
    where
      closed :
          (x d : ℕ) → In x [] ⊎ ((d : ℕ) → In d (next x) → In d found) → In d (next x) → In d found
      closed x d (inl h) k = cc
      closed x d (inr c) k = c d k

  module _ (known : (x d : ℕ) → In d (next x) → In d all) where
    close_lem :
        (start fuel : ℕ) (found pending : List ℕ)
        → Searching next start found pending
        → length pending + unseen all found ≤ fuel
        → (result : List ℕ) × (close next fuel found pending ≡ some result)
          × ((b : ℕ) → In b result ↔ Reach next start b)
    unfolding close
    close_lem start fuel found [] s m = (found, refl, Searching-done start found s)
    close_lem start zero found (x ∷ pending) s m = absurd (omega arith)
    close_lem start (suc fuel) found (x ∷ pending) s m =
        let p = push_stack-Pushed all (next x) found pending (λ d h. known x d h) in
        close_lem start fuel (push_stack (next x) found pending).0
          (push_stack (next x) found pending).1 (Searching-step start x found pending _ _ s p)
          (omega (arith, p.measure))

-- The set found from `start`, with fuel for every identifier that an edge leads to.
unfoldable pub closure : (ℕ → List ℕ) → List ℕ → ℕ → Option (List ℕ)
closure next all start = close next (suc (length all)) (start ∷ []) (start ∷ [])

pub unseen-le-length : (all found : List ℕ) → unseen all found ≤ length all
unfolding unseen
unseen-le-length [] found = omega arith
unseen-le-length (x ∷ all) found = ground (arith, unseen-le-length all found)

-- If every edge leads into `all`, the search from `start` ends and finds exactly what `start`
-- reaches.
pub closure_lem :
    (next : ℕ → List ℕ) (all : List ℕ) (start : ℕ)
    → ((x d : ℕ) → In d (next x) → In d all)
    → (result : List ℕ) × (closure next all start ≡ some result)
      × ((b : ℕ) → In b result ↔ Reach next start b)
unfolding closure
closure_lem next all start known =
    close_lem next all known start (suc (length all)) (start ∷ []) (start ∷ [])
      (Searching-init next all start) (omega (arith, unseen-le-length all (start ∷ [])))
