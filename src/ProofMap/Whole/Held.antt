-- ===== src/ProofMap/Whole/Held.antt =====
-- Taking a claim over keeps at most one active claim on each node.
use proof_cli.Base.{
  ℕ, ◌≡◌, ap, ◌∙◌, ◌&&◌, refl, String, Bool, true, false, Option, none, some, List, [], ◌∷◌, ◌==◌,
  ◌⊎◌, inl, inr, subst, arith,
}
use proof_cli.ProofMap.Results.{OnOk}
use proof_cli.ProofMap.Types.{Claim, Store, Result, ok, err, ◌>>=◌, World}
use proof_cli.ProofMap.Tables.{find_active, release_in, new_claim, mark_claim_released}
use proof_cli.ProofMap.Claims.{take_over, take_over_held, held_by_another, other_holder}
use proof_cli.ProofMap.Claims.Single.{
  HasSingleClaims, release_in-none, release_in-HasSingleClaims, release_in-active,
  insert-HasSingleClaims, find_active-node, find_active-snoc,
}
use proof_cli.ProofMap.Edit.{hold}

-- A release leaves the active claim of a node, or ends it.
release_in_or :
    (now i by : ℕ) (reason : String) (n : ℕ) (claims : List Claim)
    → HasSingleClaims claims
    → (find_active n (release_in now i by reason claims) ≡ none)
      ⊎ (find_active n (release_in now i by reason claims) ≡ find_active n claims)
unfolding find_active release_in
release_in_or now i by reason n [] k = inl refl
release_in_or now i by reason n (c ∷ claims) k = ground (
  arith,
  k.0,
  release_in-none now i by reason n claims,
  release_in_or now i by reason n claims k.1,
)

-- `claim` may be taken over: it is the active claim of its node, or the node has none.
abbrev pub IsTakeable : Store → Claim → Type 0
IsTakeable s c = (find_active c.node_id s.claims ≡ some c) ⊎ (find_active c.node_id s.claims ≡ none)

pub take_over-HasSingleClaims :
    (w : World) (c : Claim) (actor : ℕ) (s : Store)
    → IsTakeable s c
    → HasSingleClaims s.claims
    → HasSingleClaims (take_over w c actor s).claims
unfolding take_over
take_over-HasSingleClaims w c actor s able single =
    insert-HasSingleClaims (release_in w.now c.id actor "reassigned" s.claims) _
      (elim able [
        | inl e ↦ release_in-active w.now actor "reassigned" c.node_id s.claims c single e
        | inr e ↦ release_in-none w.now c.id actor "reassigned" c.node_id s.claims e
      ])
      (release_in-HasSingleClaims w.now c.id actor "reassigned" s.claims single)

-- Taking one claim over leaves the claim of another node to be taken over.
take_over-IsTakeable :
    (w : World) (c : Claim) (actor : ℕ) (s : Store) (other : Claim)
    → (c.node_id == other.node_id) ≡ false
    → HasSingleClaims s.claims
    → IsTakeable s other
    → IsTakeable (take_over w c actor s) other
unfolding take_over
take_over-IsTakeable w c actor s other apart single able =
    let claims = release_in w.now c.id actor "reassigned" s.claims in
    let taken = new_claim w c.node_id actor "" (mark_claim_released w c.id actor "reassigned" s) in
    let same = find_active-snoc other.node_id claims taken in
    let kept = release_in_or w.now c.id actor "reassigned" other.node_id s.claims single in
    let elsewhere = ap (λ b. b && true) apart in ground (arith, same, kept, elsewhere)

held_by_another-IsTakeable :
    (s : Store) (i actor : ℕ) (reassign : Bool) (c : Claim)
    → held_by_another s i actor reassign ≡ ok (some c)
    → IsTakeable s c × (c.node_id ≡ i)
unfolding held_by_another
held_by_another-IsTakeable s i actor reassign c h = go (find_active i s.claims) refl h
  where
    go :
        (f : Option Claim)
        → find_active i s.claims ≡ f
        → other_holder i actor reassign f ≡ ok (some c)
        → IsTakeable s c × (c.node_id ≡ i)
    go none e k = cc
    go (some b) e k =
        let at : c.node_id ≡ i = ground (arith, find_active-node i s.claims b) in
        (inl (ap (λ z. find_active z s.claims) at ∙ ground (arith)), at)

pub take_over_held-HasSingleClaims :
    (w : World) (s : Store) (i actor : ℕ) (reassign : Bool) (c : Option Claim)
    → held_by_another s i actor reassign ≡ ok c
    → HasSingleClaims s.claims
    → HasSingleClaims (take_over_held w c actor s).claims
take_over_held-HasSingleClaims w s i actor reassign none h single = single
take_over_held-HasSingleClaims w s i actor reassign (some c) h single =
    let (active, at) = held_by_another-IsTakeable s i actor reassign c h in
    take_over-HasSingleClaims w c actor s active single

-- The claims on two nodes, taken over one after the other.
pub take_over_both-HasSingleClaims :
    (w : World) (s : Store) (i j actor : ℕ) (reassign : Bool) (a b : Option Claim)
    → (i == j) ≡ false
    → held_by_another s i actor reassign ≡ ok a
    → held_by_another s j actor reassign ≡ ok b
    → HasSingleClaims s.claims
    → HasSingleClaims (take_over_held w b actor (take_over_held w a actor s)).claims
take_over_both-HasSingleClaims w s i j actor reassign none b apart h k single =
    take_over_held-HasSingleClaims w s j actor reassign b k single
take_over_both-HasSingleClaims w s i j actor reassign (some a) none apart h k single =
    take_over_held-HasSingleClaims w s i actor reassign (some a) h single
take_over_both-HasSingleClaims w s i j actor reassign (some a) (some b) apart h k single =
    let (active, at) = held_by_another-IsTakeable s i actor reassign a h in
    let (active', at') = held_by_another-IsTakeable s j actor reassign b k in
    take_over-HasSingleClaims w b actor (take_over w a actor s)
      (take_over-IsTakeable w a actor s b (rw (at, at') apart) single active')
      (take_over_held-HasSingleClaims w s i actor reassign (some a) h single)

pub hold-HasSingleClaims :
    (w : World) (own : Bool) (s : Store) (i actor : ℕ) (reassign : Bool) (t : Store)
    → hold w own s i actor reassign ≡ ok t
    → HasSingleClaims s.claims
    → HasSingleClaims t.claims
unfolding ◌>>=◌
hold-HasSingleClaims w true s i actor reassign t h single = ground (arith, single)
hold-HasSingleClaims w false s i actor reassign t h single =
    go (held_by_another s i actor reassign) refl h
  where
    go :
        (r : Result (Option Claim))
        → held_by_another s i actor reassign ≡ r
        → (r >>= λ c. ok (take_over_held w c actor s)) ≡ ok t
        → HasSingleClaims t.claims
    go (ok c) e k =
        subst (λ z. OnOk (λ u. HasSingleClaims u.claims) z) k
          (take_over_held-HasSingleClaims w s i actor reassign c e single)
    go (err e) _ k = cc
