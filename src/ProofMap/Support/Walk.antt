-- ===== src/ProofMap/Support/Walk.antt =====
-- `_unsettled_support` ends on a map without cycles, with exactly what the node rests on unsettled
-- and a memo as sound as before.
use proof_cli.Base.{
  ℕ, zero, suc, ◌+◌, ◌≤◌, ◌≡◌, refl, Bool, true, false, ◌||◌, Option, none, some, List, [], ◌∷◌,
  ◌++◌, is_some, length, Bool-cases, inl, inr, arith,
}
use proof_cli.Graph.Reach.{In, IsAcyclic}
use proof_cli.ProofMap.Upstream.Mass.{mass-more, mass-new}
use proof_cli.ProofMap.Support.{
  Memo, read_of, Frame, on_path, gather, with_memo, walk_on, fuel_of, support_from,
}
use proof_cli.ProofMap.Support.Found.{
  unsettled, IsSupport, IsSound, IsSound-cons, IsPath, done-IsSupport, gather-IsPath, pass-IsPath,
  look-IsPath, enter-IsPath, fresh_ahead,
}

abbrev seen : Memo → List Frame → ℕ → Bool
seen memo stack u = is_some (read_of u memo) || on_path stack u

on_path-gather :
    (found : List ℕ) (stack : List Frame) (u : ℕ) → on_path (gather found stack) u ≡ on_path stack u
on_path-gather found [] u = refl
on_path-gather found ((i, todo, more_) ∷ stack) u = refl

seen-pop :
    (i : ℕ) (found : List ℕ) (memo : Memo) (stack : List Frame) (u : ℕ)
    → seen memo ((i, [], found) ∷ stack) u ≡ true
    → seen ((i, found) ∷ memo) (gather found stack) u ≡ true
seen-pop i found memo stack u h = ground (arith, h, on_path-gather found stack u)

-- The first node of a path whose last one is given.
abbrev bottom : List Frame → ℕ → ℕ
bottom [] i = i
bottom ((j, todo, found) ∷ stack) i = bottom stack j

module _ (next : ℕ → List ℕ) (settled : ℕ → Bool) (all : List ℕ) (start : ℕ) where
  fuel_of-more :
      (s s' : ℕ → Bool) (stack : List Frame)
      → ((u : ℕ) → s u ≡ true → s' u ≡ true)
      → fuel_of next settled all start s' stack ≤ fuel_of next settled all start s stack
  unfolding fuel_of
  fuel_of-more s s' [] h = let le = mass-more next s s' all h in omega (arith, le)
  fuel_of-more s s' ((i, todo, w) ∷ stack) h =
      let le = fuel_of-more s s' stack h in omega (arith, le)

  fuel_of-new :
      (s s' : ℕ → Bool) (d : ℕ) (stack : List Frame)
      → ((u : ℕ) → s u ≡ true → s' u ≡ true)
      → s d ≡ false
      → s' d ≡ true
      → In d all
      → suc (suc (length (next d))) + fuel_of next settled all start s' stack
        ≤ fuel_of next settled all start s stack
  unfolding fuel_of
  fuel_of-new s s' d [] h off on k =
      let le = mass-new next s s' d all h off on k in omega (arith, le)
  fuel_of-new s s' d ((i, todo, w) ∷ stack) h off on k =
      let le = fuel_of-new s s' d stack h off on k in omega (arith, le)

  fuel_of-gather :
      (s : ℕ → Bool) (found : List ℕ) (stack : List Frame)
      → fuel_of next settled all start s (gather found stack)
        ≡ fuel_of next settled all start s stack
  unfolding fuel_of
  fuel_of-gather s found [] = refl
  fuel_of-gather s found ((i, todo, w) ∷ stack) = refl

  -- The start is the first node of the path, and in the memo once there is none.
  abbrev HasBegun : Memo → List Frame → Type 0
  HasBegun memo [] = is_some (read_of start memo) ≡ true
  HasBegun memo ((i, todo, found) ∷ stack) = bottom stack i ≡ start

  HasBegun-pop :
      (i : ℕ) (found : List ℕ) (memo : Memo) (stack : List Frame)
      → bottom stack i ≡ start
      → HasBegun ((i, found) ∷ memo) (gather found stack)
  HasBegun-pop i found memo [] h = ground (arith, h)
  HasBegun-pop i found memo ((j, todo, more_) ∷ stack) h = h

  -- What a walk comes to: a sound memo, and the support.
  abbrev pub Ends : Option (Memo × List ℕ) → Type 0
  Ends r =
      (memo : Memo) × (found : List ℕ) × (r ≡ some (memo, found))
      × IsSound next settled memo
      × IsSupport next settled start found

  Ends-read :
      (memo : Memo)
      → IsSound next settled memo
      → is_some (read_of start memo) ≡ true
      → Ends (with_memo memo (read_of start memo))
  Ends-read memo sound h = go (read_of start memo) refl h
    where
      go :
          (r : Option (List ℕ))
          → read_of start memo ≡ r
          → is_some r ≡ true
          → Ends (with_memo memo r)
      go none e k = absurd (cc)
      go (some found) e k = (memo, found, refl, sound, sound start found e)

  module _ (closed : (x d : ℕ) → In d (next x) → In d all)
      (acyclic : IsAcyclic (unsettled next settled)) where
    -- The walk looks at a dependency, and goes on as `again` says.
    look-Ends :
        (fuel : ℕ) (memo : Memo) (i d : ℕ) (ds found : List ℕ) (stack : List Frame)
        → IsSound next settled memo
        → IsPath next settled none ((i, d ∷ ds, found) ∷ stack)
        → bottom stack i ≡ start
        → fuel_of next settled all start
            (seen memo ((i, d ∷ ds, found) ∷ stack))
            ((i, d ∷ ds, found) ∷ stack)
          ≤ suc fuel
        → ((stack' : List Frame)
            → IsPath next settled none stack'
            → HasBegun memo stack'
            → fuel_of next settled all start (seen memo stack') stack' ≤ fuel
            → Ends (walk_on next settled all start fuel memo stack'))
        → Ends (walk_on next settled all start (suc fuel) memo ((i, d ∷ ds, found) ∷ stack))
    unfolding walk_on fuel_of
    look-Ends fuel memo i d ds found stack sound path begun le again =
        elim (Bool-cases (settled d)) [
          | inl on ↦
              rw (walk_on, on)
                (again ((i, ds, found) ∷ stack)
                  (pass-IsPath next settled i d ds found stack on path) begun (omega (arith, le)))
          | inr off ↦ look off (read_of d memo) refl
        ]
      where
        look :
            settled d ≡ false
            → (r : Option (List ℕ)) → read_of d memo ≡ r
            → Ends (walk_on next settled all start (suc fuel) memo ((i, d ∷ ds, found) ∷ stack))
        look off (some more_) e =
            let ahead = look-IsPath next settled i d ds found stack off path in
            rw (walk_on, off, e)
              (again ((i, ds, more_ ++ d ∷ found) ∷ stack)
                (gather-IsPath next settled d more_ ((i, ds, d ∷ found) ∷ stack) (sound d more_ e)
                  ahead)
                begun (omega (arith, le)))
        look off none e =
            let ahead = look-IsPath next settled i d ds found stack off path in
            let fresh = fresh_ahead next settled d ((i, ds, d ∷ found) ∷ stack) acyclic ahead in
            let new =
              fuel_of-new (seen memo ((i, ds, d ∷ found) ∷ stack))
                (seen memo ((d, next d, []) ∷ (i, ds, d ∷ found) ∷ stack)) d stack
                (λ u h. ground (arith, h)) (ground (arith, fresh, e)) (ground arith)
                (closed i d (path.0.ahead d (ground arith))) in
            rw (walk_on, off, e, fresh)
              (again ((d, next d, []) ∷ (i, ds, d ∷ found) ∷ stack)
                (enter-IsPath next settled d ((i, ds, d ∷ found) ∷ stack) ahead) begun
                (omega (arith, le, new)))

    walk_on-Ends :
        (fuel : ℕ) (memo : Memo) (stack : List Frame)
        → IsSound next settled memo
        → IsPath next settled none stack
        → HasBegun memo stack
        → fuel_of next settled all start (seen memo stack) stack ≤ fuel
        → Ends (walk_on next settled all start fuel memo stack)
    unfolding walk_on fuel_of
    walk_on-Ends zero memo [] sound path begun le = absurd (omega (arith, le))
    walk_on-Ends zero memo ((i, todo, w) ∷ stack) sound path begun le = absurd (omega (arith, le))
    walk_on-Ends (suc fuel) memo [] sound path begun le = Ends-read memo sound begun
    walk_on-Ends (suc fuel) memo ((i, [], found) ∷ stack) sound path begun le =
        let support = done-IsSupport next settled i found stack path in
        let more_ =
          fuel_of-more (seen memo ((i, [], found) ∷ stack))
            (seen ((i, found) ∷ memo) (gather found stack)) stack (seen-pop i found memo stack) in
        let same = fuel_of-gather (seen ((i, found) ∷ memo) (gather found stack)) found stack in
        walk_on-Ends fuel ((i, found) ∷ memo) (gather found stack)
          (IsSound-cons next settled i found memo support sound)
          (gather-IsPath next settled i found stack support path.1)
          (HasBegun-pop i found memo stack begun) (omega (arith, le, more_, same))
    walk_on-Ends (suc fuel) memo ((i, d ∷ ds, found) ∷ stack) sound path begun le =
        look-Ends fuel memo i d ds found stack sound path begun le
          λ stack' path' begun' le'. walk_on-Ends fuel memo stack' sound path' begun' le'

    pub support_from-Ends :
        (memo : Memo) → IsSound next settled memo → Ends (support_from next settled all start memo)
    unfolding support_from
    support_from-Ends memo sound = begin_ (read_of start memo) refl
      where
        begin_ :
            (r : Option (List ℕ))
            → read_of start memo ≡ r
            → Ends (support_from next settled all start memo)
        begin_ (some found) e = rw (support_from, e) (memo, found, refl, sound, sound start found e)
        begin_ none e =
            rw (support_from, e)
              (walk_on-Ends _ memo ((start, next start, []) ∷ []) sound
                (enter-IsPath next settled start [] tt) refl
                (fuel_of-more (λ i. false) (seen memo ((start, next start, []) ∷ []))
                  ((start, next start, []) ∷ []) (λ u h. absurd (cc))))
