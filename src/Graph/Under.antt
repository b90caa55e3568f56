-- ===== src/Graph/Under.antt =====
-- What the walk of `_stopped` of src/proof_cli/node_states.py finds.
use proof_cli.Base.{
  ℕ, zero, suc, ◌+◌, ◌≤◌, ◌≡◌, refl, false, ◌||◌, Option, some, List, [], ◌∷◌, ◌⊎◌, ◌↔◌, inl, inr,
  contains, length, arith, Bool-cases,
}
use proof_cli.Graph.Reach.{In, Reach, here, step}
use proof_cli.Graph.Spread.{
  rev_onto, spread, length-rev_onto, weight, weight-cons_le, weight-cons_lt, IsUnder, Spreading,
  Spreading-skip, Spreading-enter,
}

-- Fuel to enter every identifier of `all` and to meet every edge.
unfoldable pub spread_from : (ℕ → List ℕ) → List ℕ → List ℕ → List ℕ → Option (List ℕ)
spread_from next all blocked users =
    spread next blocked (length users + weight next all []) [] users

length-none : (ds : List ℕ) → ((d : ℕ) → In d ds → ⊥) → length ds ≡ 0
length-none [] empty = refl
length-none (d ∷ ds) empty = absurd (empty d (ground arith))

module _ (next : ℕ → List ℕ) (all blocked users : List ℕ)
    (known : (x d : ℕ) → In d (next x) → In x all) where
  -- Entering an identifier makes the measure smaller, whether or not it is in `all`.
  enter-fits :
      (x fuel : ℕ) (found pending : List ℕ)
      → contains found x ≡ false
      → suc (length pending) + weight next all found ≤ suc fuel
      → length (rev_onto (next x) pending) + weight next all (x ∷ found) ≤ fuel
  enter-fits x fuel found pending fresh fits = elim (Bool-cases (contains all x)) [
    | inl is ↦
        omega
          (arith, fits, weight-cons_lt next x all found is fresh, length-rev_onto (next x) pending)
    | inr other ↦
        let bare : length (next x) ≡ 0 =
          length-none (next x) (λ d h. let is = known x d h in ground (arith, is, other)) in
        omega (arith, fits, bare, weight-cons_le next x all found, length-rev_onto (next x) pending)
  ]

  spread-Spreading :
      (fuel : ℕ) (found pending : List ℕ)
      → Spreading next blocked users found pending
      → length pending + weight next all found ≤ fuel
      → (result : List ℕ) × (spread next blocked fuel found pending ≡ some result)
        × Spreading next blocked users result []
  unfolding spread
  spread-Spreading fuel found [] s fits = (found, refl, s)
  spread-Spreading zero found (x ∷ pending) s fits = absurd (omega arith)
  spread-Spreading (suc fuel) found (x ∷ pending) s fits =
      elim (Bool-cases (contains found x || contains blocked x)) [
        | inl old ↦
            rw (spread, old)
              (spread-Spreading fuel found pending
                (Spreading-skip next blocked users x found pending old s) (omega arith))
        | inr new ↦
            let fresh : contains found x ≡ false = ground arith in
            let free : contains blocked x ≡ false = ground arith in
            rw (spread, new)
              (spread-Spreading fuel (x ∷ found) (rev_onto (next x) pending)
                (Spreading-enter next blocked users x found pending free s)
                (enter-fits x fuel found pending fresh fits))
      ]

  -- If what is blocked is closed under the edges, the walk from `users` ends, and finds exactly what
  -- is under them and not blocked.
  pub spread_from-IsUnder :
      ((x d : ℕ) → In x blocked → In d (next x) → In d blocked)
      → (result : List ℕ) × (spread_from next all blocked users ≡ some result)
        × ((x : ℕ) → In x result ↔ (IsUnder next blocked users x × (contains blocked x ≡ false)))
  unfolding spread_from
  spread_from-IsUnder shut =
      let (result, ends, s) =
        spread-Spreading (length users + weight next all []) [] users
          (record {
            under_found = λ x h. cc;
            free_found = λ x h. cc;
            under_pending = λ x h. (x, h, here);
            users_met = λ u h. inr (inr h);
            closed = λ x d h k. cc;
          })
          (omega arith) in
      (
        result,
        ends,
        λ x. (
          λ h. (s.under_found x h, s.free_found x h),
          λ h. settled x result (reached result h.0.0 x s h.0.1 h.0.2) h.1,
        ),
      )
    where
      settled :
          (x : ℕ) (found : List ℕ)
          → In x found ⊎ In x blocked
          → contains blocked x ≡ false
          → In x found
      settled x found (inl a) free = a
      settled x found (inr b) free = cc

      reached :
          (found : List ℕ) (u x : ℕ)
          → Spreading next blocked users found []
          → In u users
          → Reach next u x
          → In x found ⊎ In x blocked
      reached found u _ s user here = elim (s.users_met u user) [
        | inl a ↦ inl a
        | inr (inl b) ↦ inr b
        | inr (inr c) ↦ cc
      ]
      reached found u x s user (step {b} {c} way e) = elim (reached found u b s user way) [
        | inr shut_in ↦ inr (shut b c shut_in e)
        | inl a ↦ elim (s.closed b c a e) [ inl f ↦ inl f | inr (inl g) ↦ inr g | inr (inr k) ↦ cc ]
      ]
