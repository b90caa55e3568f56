-- ===== src/ProofMap/Results.antt =====
-- Postconditions of fallible operations: what holds of the value if one is returned.
use proof_cli.Base.{◌≡◌, refl, ap, subst, Bool, true, false}
use proof_cli.ProofMap.Types.{Error, Result, ok, err, ◌>>=◌, refuse_if}

abbrev pub OnOk {ℓ κ} : {A : Type ℓ} → (A → Type κ) → Result A → Type κ
OnOk P (ok a) = P a
OnOk P (err e) = Unit

module _ {ℓ κ} {A : Type ℓ} (P : A → Type κ) where
  pub OnOk-eq : (r : Result A) {a : A} → r ≡ ok a → OnOk P r → P a
  OnOk-eq r e h = subst (OnOk P) e h

  pub OnOk-of : (r : Result A) → ((a : A) → r ≡ ok a → P a) → OnOk P r
  OnOk-of (ok a) f = f a refl
  OnOk-of (err e) f = tt

module _ {ℓ κ μ} {A : Type ℓ} (P : A → Type κ) (Q : A → Type μ) where
  -- What a postcondition entails.
  pub OnOk-map : (r : Result A) → ((a : A) → P a → Q a) → OnOk P r → OnOk Q r
  OnOk-map (ok a) f h = f a h
  OnOk-map (err e) f h = tt

module _ {ℓ κ μ} {A : Type ℓ} {B : Type κ} (P : B → Type μ) where
  -- The rest of a block may use that the step before it returned.
  pub OnOk-bind :
      (m : Result A) (f : A → Result B) → ((a : A) → m ≡ ok a → OnOk P (f a)) → OnOk P (m >>= f)
  unfolding ◌>>=◌
  OnOk-bind (ok a) f h = h a refl
  OnOk-bind (err e) f h = tt

module _ {ℓ κ} {B : Type ℓ} (P : B → Type κ) where
  -- A guard that let the block go on did not hold.
  pub OnOk-guard :
      (b : Bool) (e : Error) (f : Result B)
      → (b ≡ false → OnOk P f)
      → OnOk P (refuse_if b e >>= λ _. f)
  unfolding ◌>>=◌ refuse_if
  OnOk-guard true e f h = tt
  OnOk-guard false e f h = h refl

pub ok-injective {ℓ} : {A : Type ℓ} {a b : A} → ok a ≡ ok b → a ≡ b
ok-injective {a} e = ap (λ q. elim q [ ok x ↦ x | err y ↦ a ]) e
