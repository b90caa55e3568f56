-- ===== src/Graph/Spread.antt =====
-- The walk of `_stopped` of src/proof_cli/node_states.py: from some identifiers down, but for what
-- is blocked. The worklist may hold an identifier twice; a second visit does nothing.
use proof_cli.Base.{
  ℕ, zero, suc, ◌+◌, ◌≤◌, ◌≡◌, refl, true, false, ◌||◌, Option, some, none, List, [], ◌∷◌, ◌⊎◌, inl,
  inr, ◌==◌, contains, length, arith, Bool-cases, if◌then◌else◌,
}
use proof_cli.Graph.Reach.{In, Reach, step}

-- `branch.extend(ds)`, the top of the branch first.
unfoldable pub rev_onto : List ℕ → List ℕ → List ℕ
rev_onto [] pending = pending
rev_onto (d ∷ ds) pending = rev_onto ds (d ∷ pending)

-- The `while branch` loop; `none` means that the fuel ran out.
unfoldable pub spread : (ℕ → List ℕ) → List ℕ → ℕ → List ℕ → List ℕ → Option (List ℕ)
spread next blocked fuel found [] = some found
spread next blocked zero found (x ∷ pending) = none
spread next blocked (suc fuel) found (x ∷ pending) =
    let skipped = spread next blocked fuel found pending in
    let entered = spread next blocked fuel (x ∷ found) (rev_onto (next x) pending) in
    if contains found x || contains blocked x then skipped else entered

contains-rev_onto :
    (ds pending : List ℕ) (x : ℕ)
    → contains (rev_onto ds pending) x ≡ contains ds x || contains pending x
unfolding rev_onto
contains-rev_onto [] pending x = refl
contains-rev_onto (d ∷ ds) pending x = ground (arith, contains-rev_onto ds (d ∷ pending) x)

pub length-rev_onto :
    (ds pending : List ℕ) → length (rev_onto ds pending) ≡ length ds + length pending
unfolding rev_onto
length-rev_onto [] pending = omega arith
length-rev_onto (d ∷ ds) pending = omega (arith, length-rev_onto ds (d ∷ pending))

module _ (next : ℕ → List ℕ) where
  -- What is still to be entered, with its successors.
  unfoldable pub weight : List ℕ → List ℕ → ℕ
  weight [] found = 0
  weight (u ∷ us) found =
      let rest = weight us found in if contains found u then rest else suc (length (next u)) + rest

  pub weight-cons_le : (x : ℕ) (us found : List ℕ) → weight us (x ∷ found) ≤ weight us found
  unfolding weight
  weight-cons_le x [] found = omega arith
  weight-cons_le x (u ∷ us) found = ground (arith, weight-cons_le x us found)

  pub weight-cons_lt :
      (x : ℕ) (us found : List ℕ)
      → In x us
      → contains found x ≡ false
      → weight us (x ∷ found) + suc (length (next x)) ≤ weight us found
  unfolding weight
  weight-cons_lt x [] found h fresh = cc
  weight-cons_lt x (u ∷ us) found h fresh = elim (Bool-cases (u == x)) [
    | inl e ↦
        let same : u ≡ x = ground arith in
        rw same (ground (arith, weight-cons_le x us found, fresh))
    | inr e ↦ ground (arith, weight-cons_lt x us found (rw e at h) fresh, e)
  ]

  module _ (blocked users : List ℕ) where
    -- It is below one of the users, or is one.
    abbrev pub IsUnder : ℕ → Type 0
    IsUnder x = (u : ℕ) × In u users × Reach next u x

    -- What holds at the head of the loop.
    pub record Spreading (found pending : List ℕ) : Type 0 where
      pub under_found : (x : ℕ) → In x found → IsUnder x
      pub free_found : (x : ℕ) → In x found → contains blocked x ≡ false
      pub under_pending : (x : ℕ) → In x pending → IsUnder x
      pub users_met : (u : ℕ) → In u users → In u found ⊎ In u blocked ⊎ In u pending
      pub closed : (x d : ℕ) → In x found → In d (next x) → In d found ⊎ In d blocked ⊎ In d pending

    -- A place that is no longer on the worklist, since the entry `x` was found or blocked before.
    still :
        (x y : ℕ) (found pending : List ℕ)
        → (contains found x || contains blocked x) ≡ true
        → In y found ⊎ In y blocked ⊎ In y (x ∷ pending)
        → In y found ⊎ In y blocked ⊎ In y pending
    still x y found pending old (inl a) = inl a
    still x y found pending old (inr (inl b)) = inr (inl b)
    still x y found pending old (inr (inr c)) = elim (Bool-cases (x == y)) [
      | inr e ↦ inr (inr (rw e at c))
      | inl e ↦ let same : x ≡ y = ground arith in rw (← same) (ground (arith, old))
    ]

    pub Spreading-skip :
        (x : ℕ) (found pending : List ℕ)
        → (contains found x || contains blocked x) ≡ true
        → Spreading found (x ∷ pending)
        → Spreading found pending
    Spreading-skip x found pending old s = record {
      under_found = s.under_found;
      free_found = s.free_found;
      under_pending = λ y h. s.under_pending y (ground arith);
      users_met = λ u h. still x u found pending old (s.users_met u h);
      closed = λ y d h k. still x d found pending old (s.closed y d h k);
    }

    -- The entry `x` is entered.
    moved :
        (x y : ℕ) (found pending : List ℕ)
        → In y found ⊎ In y blocked ⊎ In y (x ∷ pending)
        → In y (x ∷ found) ⊎ In y blocked ⊎ In y (rev_onto (next x) pending)
    moved x y found pending (inl a) = inl (ground arith)
    moved x y found pending (inr (inl b)) = inr (inl b)
    moved x y found pending (inr (inr c)) = elim (Bool-cases (x == y)) [
      | inl e ↦ inl (ground arith)
      | inr e ↦ inr (inr (ground (arith, contains-rev_onto (next x) pending y)))
    ]

    pub Spreading-enter :
        (x : ℕ) (found pending : List ℕ)
        → contains blocked x ≡ false
        → Spreading found (x ∷ pending)
        → Spreading (x ∷ found) (rev_onto (next x) pending)
    Spreading-enter x found pending free s =
        let (u, user, way) = s.under_pending x (ground arith) in
        record {
          under_found = λ y h. elim (Bool-cases (x == y)) [
            | inl e ↦ let same : x ≡ y = ground arith in rw (← same) (u, user, way)
            | inr e ↦ s.under_found y (rw e at h)
          ];
          free_found = λ y h. elim (Bool-cases (x == y)) [
            | inl e ↦ let same : x ≡ y = ground arith in rw (← same) free
            | inr e ↦ s.free_found y (rw e at h)
          ];
          under_pending = λ y h. elim (Bool-cases (contains (next x) y)) [
            | inl e ↦ (u, user, step way e)
            | inr e ↦ s.under_pending y (ground (arith, contains-rev_onto (next x) pending y))
          ];
          users_met = λ v h. moved x v found pending (s.users_met v h);
          closed = λ y d h k. elim (Bool-cases (x == y)) [
            | inr e ↦ moved x d found pending (s.closed y d (rw e at h) k)
            | inl e ↦
                let same : x ≡ y = ground arith in
                let below : In d (next x) = rw same k in
                inr (inr (ground (arith, contains-rev_onto (next x) pending d, below)))
          ];
        }
