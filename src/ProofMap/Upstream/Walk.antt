-- ===== src/ProofMap/Upstream/Walk.antt =====
-- `_upstream_cause` ends, with the worst cause met from the node on and a memo as sound as before.
use proof_cli.Base.{
  ℕ, zero, suc, ◌+◌, ◌≤◌, ◌≡◌, refl, ap, subst, Bool, true, false, ◌||◌, Option, none, some, List,
  [], ◌∷◌, is_some, length, Bool-cases, inl, inr, arith,
}
use proof_cli.Graph.Reach.{In, here}
use proof_cli.ProofMap.Upstream.{
  Cause, challenged, is_challenged, worse, Memo, read_of, Frame, on_path, mark_path, drop_path,
  learn, with_memo, walk_on, fuel_of, cause_from, reachable_cause,
}
use proof_cli.ProofMap.Upstream.Worst.{Attained, IsWorst, is_challenged_lem}
use proof_cli.ProofMap.Upstream.Mass.{mass-more, mass-new}
use proof_cli.ProofMap.Upstream.Reachable.{reachable_cause-IsWorst}
use proof_cli.ProofMap.Upstream.Sound.{
  IsSound, IsSound-cons, Attained-IsWorst, IsPath, learn-IsPath, look-IsPath, know-IsPath,
  enter-IsPath, settled-IsWorst, mark_path-IsSound, drop_path-IsSound,
}

abbrev seen : Memo → List Frame → ℕ → Bool
seen memo stack u = is_some (read_of u memo) || on_path stack u

on_path-learn :
    (c : Cause) (stack : List Frame) (u : ℕ) → on_path (learn c stack) u ≡ on_path stack u
on_path-learn c [] u = refl
on_path-learn c ((i, todo, w) ∷ stack) u = refl

module _ (next : ℕ → List ℕ) (own : ℕ → Cause) (all : List ℕ) (start : ℕ) where
  fuel_of-more :
      (s s' : ℕ → Bool) (stack : List Frame)
      → ((u : ℕ) → s u ≡ true → s' u ≡ true)
      → fuel_of next own all start s' stack ≤ fuel_of next own all start s stack
  unfolding fuel_of
  fuel_of-more s s' [] h = let le = mass-more next s s' all h in omega (arith, le)
  fuel_of-more s s' ((i, todo, w) ∷ stack) h =
      let le = fuel_of-more s s' stack h in omega (arith, le)

  fuel_of-new :
      (s s' : ℕ → Bool) (d : ℕ) (stack : List Frame)
      → ((u : ℕ) → s u ≡ true → s' u ≡ true)
      → s d ≡ false
      → s' d ≡ true
      → In d all
      → suc (suc (length (next d))) + fuel_of next own all start s' stack
        ≤ fuel_of next own all start s stack
  unfolding fuel_of
  fuel_of-new s s' d [] h off on k =
      let le = mass-new next s s' d all h off on k in omega (arith, le)
  fuel_of-new s s' d ((i, todo, w) ∷ stack) h off on k =
      let le = fuel_of-new s s' d stack h off on k in omega (arith, le)

  fuel_of-learn :
      (s : ℕ → Bool) (c : Cause) (stack : List Frame)
      → fuel_of next own all start s (learn c stack) ≡ fuel_of next own all start s stack
  unfolding fuel_of
  fuel_of-learn s c [] = refl
  fuel_of-learn s c ((i, todo, w) ∷ stack) = refl

  -- The start is on the path as long as there is one, and in the memo after that.
  abbrev HasBegun : Memo → List Frame → Type 0
  HasBegun memo [] = is_some (read_of start memo) ≡ true
  HasBegun memo (f ∷ stack) = Unit

  seen-pop :
      (i : ℕ) (w : Cause) (memo : Memo) (stack : List Frame) (u : ℕ)
      → seen memo ((i, [], w) ∷ stack) u ≡ true
      → seen ((i, w) ∷ memo) (learn w stack) u ≡ true
  seen-pop i w memo stack u h = ground (arith, h, on_path-learn w stack u)

  HasBegun-pop :
      (i : ℕ) (w : Cause) (memo : Memo) (stack : List Frame)
      → IsPath next own start (some i) stack
      → HasBegun ((i, w) ∷ memo) (learn w stack)
  HasBegun-pop i w memo [] path = let at = path i refl in ground (arith, at)
  HasBegun-pop i w memo ((j, todo, c) ∷ stack) path = tt

  -- What a walk comes to: a sound memo, and the worst cause.
  abbrev pub Ends : Option (Memo × Cause) → Type 0
  Ends r =
      (memo : Memo) × (c : Cause) × (r ≡ some (memo, c))
      × IsSound next own memo
      × IsWorst next own start c

  Ends-read :
      (memo : Memo)
      → IsSound next own memo
      → is_some (read_of start memo) ≡ true
      → Ends (with_memo memo (read_of start memo))
  Ends-read memo sound h = go (read_of start memo) refl h
    where
      go : (r : Option Cause) → read_of start memo ≡ r → is_some r ≡ true → Ends (with_memo memo r)
      go none e k = absurd (cc)
      go (some c) e k = (memo, c, refl, sound, sound start c e)

  Ends-marked :
      (d : ℕ) (stack : List Frame) (memo : Memo)
      → IsPath next own start (some d) stack
      → Attained next own d challenged
      → IsSound next own memo
      → Ends (some (mark_path stack memo, challenged))
  Ends-marked d stack memo path met sound =
      let (first, marked) = mark_path-IsSound next own start d stack memo path met sound in
      (mark_path stack memo, challenged, refl, marked, Attained-IsWorst next own start first)

  module _ (closed : (x d : ℕ) → In d (next x) → In d all) (there : In start all) where
    Ends-cut :
        (stack : List Frame) (memo : Memo)
        → IsSound next own memo
        → Ends (with_memo (drop_path stack memo) (reachable_cause next own all start))
    Ends-cut stack memo sound =
        let (c, e, worst) = reachable_cause-IsWorst next own all closed start there in
        (
          drop_path stack memo,
          c,
          ap (with_memo (drop_path stack memo)) e,
          drop_path-IsSound next own (on_path stack) memo sound,
          worst,
        )

    -- The walk looks at a dependency, and goes on as `again` says.
    look-Ends :
        (fuel : ℕ) (memo : Memo) (i d : ℕ) (ds : List ℕ) (w : Cause) (stack : List Frame)
        → IsSound next own memo
        → IsPath next own start none ((i, d ∷ ds, w) ∷ stack)
        → fuel_of next own all start (seen memo ((i, d ∷ ds, w) ∷ stack)) ((i, d ∷ ds, w) ∷ stack)
          ≤ suc fuel
        → ((j : ℕ) (todo : List ℕ) (c : Cause) (rest : List Frame)
            → IsPath next own start none ((j, todo, c) ∷ rest)
            → fuel_of next own all start (seen memo ((j, todo, c) ∷ rest)) ((j, todo, c) ∷ rest)
              ≤ fuel
            → Ends (walk_on next own all start fuel memo ((j, todo, c) ∷ rest)))
        → Ends (walk_on next own all start (suc fuel) memo ((i, d ∷ ds, w) ∷ stack))
    unfolding walk_on fuel_of
    look-Ends fuel memo i d ds w stack sound path le again = look (read_of d memo) refl
      where
        ahead : IsPath next own start (some d) ((i, ds, w) ∷ stack)
        ahead = look-IsPath next own start i d ds w stack path

        enter :
            on_path ((i, ds, w) ∷ stack) d ≡ false
            → read_of d memo ≡ none
            → fuel_of next own all start
                (seen memo ((d, next d, own d) ∷ (i, ds, w) ∷ stack))
                ((d, next d, own d) ∷ (i, ds, w) ∷ stack)
              ≤ fuel
        enter off e =
            let new =
              fuel_of-new (seen memo ((i, ds, w) ∷ stack))
                (seen memo ((d, next d, own d) ∷ (i, ds, w) ∷ stack)) d stack
                (λ u h. ground (arith, h)) (ground (arith, off, e)) (ground arith)
                (closed i d (path.0.ahead d (ground arith))) in
            omega (arith, le, new)

        look :
            (r : Option Cause)
            → read_of d memo ≡ r
            → Ends (walk_on next own all start (suc fuel) memo ((i, d ∷ ds, w) ∷ stack))
        look (some c) e = elim (Bool-cases (is_challenged c)) [
          | inl q ↦
              rw (walk_on, e, q)
                (Ends-marked d ((i, ds, w) ∷ stack) memo ahead
                  (subst (Attained next own d) (is_challenged_lem c q) (sound d c e).attained)
                  sound)
          | inr q ↦
              rw (walk_on, e, q)
                (again i ds (worse w c) stack
                  (know-IsPath next own start i d ds w c stack path (sound d c e))
                  (omega (arith, le)))
        ]
        look none e = elim (Bool-cases (on_path ((i, ds, w) ∷ stack) d)) [
          | inl on ↦ rw (walk_on, e, on) (Ends-cut ((i, ds, w) ∷ stack) memo sound)
          | inr off ↦ elim (Bool-cases (is_challenged (own d))) [
            | inl q ↦
                let met : Attained next own d challenged = (d, here, is_challenged_lem (own d) q) in
                rw (walk_on, e, off, q)
                  (Ends-marked d ((i, ds, w) ∷ stack) ((d, challenged) ∷ memo) ahead met (
                    IsSound-cons next own d challenged memo (Attained-IsWorst next own d met)
                      sound))
            | inr q ↦
                rw (walk_on, e, off, q)
                  (again d (next d) (own d) ((i, ds, w) ∷ stack)
                    (enter-IsPath next own start d ((i, ds, w) ∷ stack) ahead) (enter off e))
          ]
        ]

    walk_on-Ends :
        (fuel : ℕ) (memo : Memo) (stack : List Frame)
        → IsSound next own memo
        → IsPath next own start none stack
        → HasBegun memo stack
        → fuel_of next own all start (seen memo stack) stack ≤ fuel
        → Ends (walk_on next own all start fuel memo stack)
    unfolding walk_on fuel_of
    walk_on-Ends zero memo [] sound path begun le = absurd (omega (arith, le))
    walk_on-Ends zero memo ((i, todo, w) ∷ stack) sound path begun le = absurd (omega (arith, le))
    walk_on-Ends (suc fuel) memo [] sound path begun le = Ends-read memo sound begun
    walk_on-Ends (suc fuel) memo ((i, [], w) ∷ stack) sound path begun le =
        let worst = settled-IsWorst next own start i w stack path in
        let more =
          fuel_of-more (seen memo ((i, [], w) ∷ stack)) (seen ((i, w) ∷ memo) (learn w stack)) stack
            (seen-pop i w memo stack) in
        let same = fuel_of-learn (seen ((i, w) ∷ memo) (learn w stack)) w stack in
        walk_on-Ends fuel ((i, w) ∷ memo) (learn w stack)
          (IsSound-cons next own i w memo worst sound)
          (learn-IsPath next own start i w stack worst path.1) (HasBegun-pop i w memo stack path.1)
          (omega (arith, le, more, same))
    walk_on-Ends (suc fuel) memo ((i, d ∷ ds, w) ∷ stack) sound path begun le =
        look-Ends fuel memo i d ds w stack sound path le
          λ j todo c rest path' le'. walk_on-Ends fuel memo ((j, todo, c) ∷ rest) sound path' tt le'

    -- If the universe holds the start and every dependency, and every cause in the memo is the worst
    -- met from its node on, `_upstream_cause` ends, with the worst cause that the node or one that
    -- it leads to starts, and the memo that it leaves is as sound.
    pub cause_from-Ends :
        (memo : Memo) → IsSound next own memo → Ends (cause_from next own all start memo)
    unfolding cause_from
    cause_from-Ends memo sound = begin_ (read_of start memo) refl
      where
        begin_ :
            (r : Option Cause) → read_of start memo ≡ r → Ends (cause_from next own all start memo)
        begin_ (some c) e = rw (cause_from, e) (memo, c, refl, sound, sound start c e)
        begin_ none e = elim (Bool-cases (is_challenged (own start))) [
          | inl q ↦
              let worst =
                Attained-IsWorst next own start (start, here, is_challenged_lem (own start) q) in
              rw (cause_from, e, q)
                (
                  (start, challenged) ∷ memo,
                  challenged,
                  refl,
                  IsSound-cons next own start challenged memo worst sound,
                  worst,
                )
          | inr q ↦
              rw (cause_from, e, q)
                (walk_on-Ends _ memo ((start, next start, own start) ∷ []) sound
                  (enter-IsPath next own start start [] (λ x h. ground (arith))) tt
                  (fuel_of-more (λ i. false) (seen memo ((start, next start, own start) ∷ []))
                    ((start, next start, own start) ∷ []) (λ u h. absurd (cc))))
        ]
