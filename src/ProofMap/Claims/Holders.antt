-- ===== src/ProofMap/Claims/Holders.antt =====
-- The table of claims as what it stands for: who holds which node.
use proof_cli.Base.{
  ℕ, ◌≡◌, refl, sym, subst, String, Bool, true, false, ◌||◌, Option, none, some, List, [], ◌∷◌,
  ◌++◌, ◌==◌, is_none, any, if◌then◌else◌, Bool-cases, inl, inr, arith, some-injective,
}
use proof_cli.ProofMap.Types.{Claim}
use proof_cli.ProofMap.Tables.{find_active, is_active_on, release_in}
use proof_cli.ProofMap.Claims.Single.{HasSingleClaims, find_active-snoc, release_in-active}

abbrev pub claimant : Option Claim → Option ℕ
claimant none = none
claimant (some c) = some c.claimant_id

-- Who holds the node: the abstract state.
abbrev pub holder : List Claim → ℕ → Option ℕ
holder claims n = claimant (find_active n claims)

-- The abstract operations: one node changes hands, or is let go.
abbrev pub given_to : ℕ → ℕ → (ℕ → Option ℕ) → ℕ → Option ℕ
given_to n by before m = if m == n then some by else before m

abbrev pub let_go : ℕ → (ℕ → Option ℕ) → ℕ → Option ℕ
let_go n before m = if m == n then none else before m

abbrev pub has_id : ℕ → List Claim → Bool
has_id i claims = any (λ c. c.id == i) claims

-- The primary key of the table of claims.
abbrev pub HasIds : List Claim → Type 0
HasIds [] = Unit
HasIds (c ∷ claims) = (has_id c.id claims ≡ false) × HasIds claims

release_in-absent :
    (now i by : ℕ) (reason : String) (m : ℕ) (claims : List Claim)
    → has_id i claims ≡ false
    → find_active m (release_in now i by reason claims) ≡ find_active m claims
unfolding find_active release_in
release_in-absent now i by reason m [] h = refl
release_in-absent now i by reason m (c ∷ claims) h =
    ground (arith, h, release_in-absent now i by reason m claims)

find_active-has_id :
    (n : ℕ) (claims : List Claim) (c : Claim)
    → find_active n claims ≡ some c
    → has_id c.id claims ≡ true
unfolding find_active
find_active-has_id n [] c h = cc
find_active-has_id n (x ∷ claims) c h = ground (arith, h, find_active-has_id n claims c)

-- Releasing the active claim of `n` leaves every other node to its holder.
release_in-elsewhere :
    (now by : ℕ) (reason : String) (n m : ℕ) (claims : List Claim) (c : Claim)
    → HasIds claims
    → find_active n claims ≡ some c
    → (m == n) ≡ false
    → find_active m (release_in now c.id by reason claims) ≡ find_active m claims
unfolding find_active release_in
release_in-elsewhere now by reason n m [] c ids h off = refl
release_in-elsewhere now by reason n m (x ∷ claims) c ids h off =
    elim (Bool-cases (is_active_on n x)) [
      | inl on ↦
          let same : x ≡ c = let at : some x ≡ some c = rw on at h in some-injective at in
          subst
            (λ z.
              find_active m (release_in now z.id by reason (x ∷ claims))
              ≡ find_active m (x ∷ claims))
            same (ground (arith, on, off, release_in-absent now x.id by reason m claims ids.0))
      | inr on ↦
          let later : find_active n claims ≡ some c = ground (arith, h, on) in
          let known = find_active-has_id n claims c later in
          ground
            (arith, ids.0, known, release_in-elsewhere now by reason n m claims c ids.1 later off)
    ]

-- What an operation on claims makes of the table: the holders of the abstract operation, and ids that
-- are still distinct.
pub record Refines (holders : ℕ → Option ℕ) (claims : List Claim) : Type 0 where
  pub holds : (m : ℕ) → holder claims m ≡ holders m
  pub ids : HasIds claims

pub has_id-release_in :
    (now i by : ℕ) (reason : String) (j : ℕ) (claims : List Claim)
    → has_id j (release_in now i by reason claims) ≡ has_id j claims
unfolding release_in
has_id-release_in now i by reason j [] = refl
has_id-release_in now i by reason j (c ∷ claims) =
    ground (arith, has_id-release_in now i by reason j claims)

HasIds-release_in :
    (now i by : ℕ) (reason : String) (claims : List Claim)
    → HasIds claims
    → HasIds (release_in now i by reason claims)
unfolding release_in
HasIds-release_in now i by reason [] h = tt
HasIds-release_in now i by reason (c ∷ claims) h = (
  ground (arith, h.0, has_id-release_in now i by reason c.id claims),
  HasIds-release_in now i by reason claims h.1,
)

has_id-snoc :
    (j : ℕ) (claims : List Claim) (c : Claim)
    → has_id j (claims ++ c ∷ []) ≡ (has_id j claims || c.id == j)
has_id-snoc j [] c = ground arith
has_id-snoc j (x ∷ claims) c = ground (arith, has_id-snoc j claims c)

HasIds-snoc :
    (claims : List Claim) (c : Claim)
    → has_id c.id claims ≡ false
    → HasIds claims
    → HasIds (claims ++ c ∷ [])
HasIds-snoc [] c new h = (refl, tt)
HasIds-snoc (x ∷ claims) c new h = (
  ground (arith, h.0, new, has_id-snoc x.id claims c),
  HasIds-snoc claims c (ground (arith, new)) h.1,
)

-- An active claim is inserted for a node that nobody holds.
pub insert-Refines :
    (claims : List Claim) (c : Claim)
    → find_active c.node_id claims ≡ none
    → is_none c.released_at ≡ true
    → has_id c.id claims ≡ false
    → HasIds claims
    → Refines (given_to c.node_id c.claimant_id (holder claims)) (claims ++ c ∷ [])
insert-Refines claims c free open_ new ids = record {
  holds = λ m. elim (Bool-cases (m == c.node_id)) [
    | inl e ↦
        let same : m ≡ c.node_id = ground arith in
        let none_yet : find_active m claims ≡ none =
          subst (λ z. find_active z claims ≡ none) (sym same) free in
        ground (arith, find_active-snoc m claims c, none_yet, open_, same, e)
    | inr e ↦ ground (arith, find_active-snoc m claims c, e)
  ];
  ids = HasIds-snoc claims c new ids;
}

-- The active claim of a node is released.
pub release-Refines :
    (now by : ℕ) (reason : String) (n : ℕ) (claims : List Claim) (c : Claim)
    → HasSingleClaims claims
    → HasIds claims
    → find_active n claims ≡ some c
    → Refines (let_go n (holder claims)) (release_in now c.id by reason claims)
release-Refines now by reason n claims c single ids e = record {
  holds = λ m. elim (Bool-cases (m == n)) [
    | inl at ↦
        let same : m ≡ n = ground arith in
        let gone : find_active m (release_in now c.id by reason claims) ≡ none =
          subst (λ z. find_active z (release_in now c.id by reason claims) ≡ none) (sym same)
            (release_in-active now by reason n claims c single e) in
        rw (gone, at) refl
    | inr off ↦ rw (release_in-elsewhere now by reason n m claims c ids e off, off) refl
  ];
  ids = HasIds-release_in now c.id by reason claims ids;
}
