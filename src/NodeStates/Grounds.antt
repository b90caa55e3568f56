-- ===== src/NodeStates/Grounds.antt =====
-- What a verification rests on by src/proof_cli/node_states.py, said without the tests of the code.
use proof_cli.Base.{
  ℕ, ◌≡◌, ◌∙◌, refl, ap, Bool, true, false, not, ◌&&◌, ◌||◌, Option, none, some, List, [], ◌∷◌, ◌↔◌,
  ◌⊎◌, inl, inr, any, contains, ltb, ◌==◌, is_some, some-injective, arith, All, Bool-cases,
}
use proof_cli.ProofMap.Types.{Node, researcher}
use proof_cli.ProofMap.Tables.{is_imported}
use proof_cli.ProofMap.Claims.{is_accepted}
use proof_cli.NodeStates.Types.{Challenge, Readings}
use proof_cli.NodeStates.Own.{
  is_relied_on, is_dismissed, same_version, decided, is_void, is_after, lapses,
}
use proof_cli.NodeStates.Layers.{reopens}

-- A Reference review or a Trust rule, an Acceptance of the current version, or the researcher's own
-- verification.
abbrev pub IsDecided : Readings → Node → Type 0
IsDecided r node =
    ((is_imported node.kind ≡ true) × (is_relied_on (r.reference_review_state node.id) ≡ true))
    ⊎ ((is_imported node.kind ≡ false)
        × (is_accepted (r.acceptance_state node.id) ≡ true)
        × ((version : ℕ) × (r.current_version node.id ≡ some version)
            × (r.accepted_version node.id ≡ some version)))
    ⊎ ((time : ℕ) × (r.researcher_verification_time node.id ≡ some time))

-- No dependency was found false after the verification.
abbrev pub IsNeverFalse : Readings → Node → Option ℕ → Type 0
IsNeverFalse r node none = Unit
IsNeverFalse r node (some since) =
    All (λ i. All (λ found. ltb since found ≡ false) (r.false_since i)) node.dependencies

-- The Challenge is the researcher's, or was dismissed or called no problem, or is not from after the
-- verification.
abbrev pub IsHarmless : Readings → Option ℕ → Challenge → Type 0
IsHarmless r since c =
    ((c.opened_by == researcher) ≡ true)
    ⊎ (is_dismissed c.status ≡ true)
    ⊎ (contains r.restored_challenges c.id ≡ true)
    ⊎ ((time : ℕ) × (since ≡ some time) × (ltb time c.created_at ≡ false))

pub record IsExpertVerified (r : Readings) (decides : Challenge → Bool) (node : Node) : Type 0 where
  pub decided_on : IsDecided r node
  pub never_false : IsNeverFalse r node (r.verification_time node.id)
  pub harmless : All (IsHarmless r (r.verification_time node.id)) (r.challenges node.id)
  pub not_reopened : All (λ c. reopens decides c ≡ false) (r.challenges node.id)

module _ {ℓ} {A : Type ℓ} {P : A → Type 0} (p : A → Bool) where
  pub any-All : ((x : A) → (p x ≡ false) ↔ P x) → (xs : List A) → (any p xs ≡ false) ↔ All P xs
  any-All h [] = (λ e. tt, λ e. refl)
  any-All h (x ∷ xs) =
      let rest = any-All h xs in
      (
        λ e. ((h x).0 (ground (arith, e)), rest.0 (ground (arith, e))),
        λ e. let at = (h x).1 e.0 in let on = rest.1 e.1 in rw (at, on) refl,
      )

same_version-some :
    (a b : Option ℕ) → (same_version a b ≡ true) ↔ ((v : ℕ) × (a ≡ some v) × (b ≡ some v))
same_version-some none b = (λ h. absurd (cc), λ (v, h, k). absurd (cc))
same_version-some (some a) none = (λ h. absurd (cc), λ (v, h, k). absurd (cc))
same_version-some (some a) (some b) = (
  λ h. let same : b ≡ a = ground arith in (a, refl, ap some same),
  λ (v, h, k). ground (arith, h, k),
)

pub is_void-IsNeverFalse :
    (r : Readings) (node : Node) (since : Option ℕ)
    → (is_void r node since ≡ false) ↔ IsNeverFalse r node since
is_void-IsNeverFalse r node none = (λ h. tt, λ h. refl)
is_void-IsNeverFalse r node (some since) =
    any-All (λ i. any (λ found. ltb since found) (r.false_since i))
      (λ i. any-All (λ found. ltb since found) (λ found. (λ h. h, λ h. h)) (r.false_since i))
      node.dependencies

some_false :
    (a b c d : Bool)
    → (not a && not b && not c && d ≡ false) ↔ ((a ≡ true) ⊎ (b ≡ true) ⊎ (c ≡ true) ⊎ (d ≡ false))
some_false true b c d = (λ h. inl refl, λ h. refl)
some_false false true c d = (λ h. inr (inl refl), λ h. refl)
some_false false false true d = (λ h. inr (inr (inl refl)), λ h. refl)
some_false false false false d = (
  λ h. inr (inr (inr h)),
  λ h. elim h [
    | inl k ↦ absurd (cc)
    | inr k ↦ elim k [ inl l ↦ absurd (cc) | inr l ↦ elim l [ inl m ↦ absurd (cc) | inr m ↦ m ] ]
  ],
)

is_after-late :
    (since : Option ℕ) (t : ℕ)
    → (is_after since t ≡ false) ↔ ((time : ℕ) × (since ≡ some time) × (ltb time t ≡ false))
is_after-late none t = (λ h. absurd (cc), λ (time, e, h). absurd (cc))
is_after-late (some since) t = (
  λ h. (since, refl, h),
  λ (time, e, h). let same : since ≡ time = some-injective e in ap (λ z. ltb z t) same ∙ h,
)

pub lapses-IsHarmless :
    (r : Readings) (since : Option ℕ) (c : Challenge)
    → (lapses r c since ≡ false) ↔ IsHarmless r since c
unfolding lapses
lapses-IsHarmless r since c =
    let four =
      some_false (c.opened_by == researcher) (is_dismissed c.status)
        (contains r.restored_challenges c.id) (is_after since c.created_at) in
    let late = is_after-late since c.created_at in
    (
      λ h. elim (four.0 h) [
        | inl k ↦ inl k
        | inr k ↦ elim k [
          | inl l ↦ inr (inl l)
          | inr l ↦ elim l [ inl m ↦ inr (inr (inl m)) | inr m ↦ inr (inr (inr (late.0 m))) ]
        ]
      ],
      λ h. elim h [
        | inl k ↦ four.1 (inl k)
        | inr k ↦ elim k [
          | inl l ↦ four.1 (inr (inl l))
          | inr l ↦ elim l [
            | inl m ↦ four.1 (inr (inr (inl m)))
            | inr m ↦ four.1 (inr (inr (inr (late.1 m))))
          ]
        ]
      ],
    )

is_some_iff {ℓ} : {A : Type ℓ} (o : Option A) → (is_some o ≡ true) ↔ ((a : A) × (o ≡ some a))
is_some_iff none = (λ h. absurd (cc), λ (a, h). absurd (cc))
is_some_iff (some a) = (λ h. (a, refl), λ h. refl)

pub decided-IsDecided : (r : Readings) (node : Node) → (decided r node ≡ true) ↔ IsDecided r node
decided-IsDecided r node =
    let versions = same_version-some (r.current_version node.id) (r.accepted_version node.id) in
    let own = is_some_iff (r.researcher_verification_time node.id) in
    elim (Bool-cases (is_imported node.kind)) [
      | inl imported ↦ (
        λ h. elim (Bool-cases (is_relied_on (r.reference_review_state node.id))) [
          | inl relied ↦ inl (imported, relied)
          | inr not_ ↦ inr (inr (own.0 (rw (imported, not_) at h)))
        ],
        λ h. elim h [
          | inl k ↦ let relied = k.1 in rw (imported, relied) refl
          | inr k ↦ elim k [
            | inl l ↦ let off = l.0 in absurd (ground (arith, off, imported))
            | inr l ↦ let at = own.1 l in ground (arith, at)
          ]
        ],
      )
      | inr here_ ↦ (
        λ h. elim (Bool-cases (is_some (r.researcher_verification_time node.id))) [
          | inl given ↦ inr (inr (own.0 given))
          | inr not_ ↦
              let kept : is_accepted (r.acceptance_state node.id)
                      && same_version (r.current_version node.id) (r.accepted_version node.id)
                    || false
                  ≡ true =
                rw (here_, not_) at h in
              inr (inl (here_, ground (arith, kept), versions.0 (ground (arith, kept))))
        ],
        λ h. elim h [
          | inl k ↦ let on = k.0 in absurd (ground (arith, on, here_))
          | inr k ↦ elim k [
            | inl l ↦ let a = l.1 in let v = versions.1 l.2 in rw (here_, a, v) refl
            | inr l ↦ let at = own.1 l in ground (arith, at)
          ]
        ],
      )
    ]
