-- ===== src/NodeStates/Sides.antt =====
-- The counterexamples that a challenged node's branch waits for by src/proof_cli/node_states.py, and
-- what is worked on meanwhile.
use proof_cli.Base.{
  ℕ, ◌≡◌, refl, ap, sym, subst, Bool, true, false, not, ◌&&◌, Option, none, some, List, [], ◌∷◌,
  ◌++◌, ◌↔◌, ◌⊎◌, inl, inr, some-injective, all, keep, arith, ◌==◌, Bool-cases, is_some, All, Any,
}
use proof_cli.Graph.Reach.{In, Reach}
use proof_cli.Graph.Push.{In-append, In-append_left, In-append_right}
use proof_cli.ProofMap.Types.{Node, Store, researcher}
use proof_cli.ProofMap.Tables.{is_imported}
use proof_cli.ProofMap.Claims.{is_rejected}
use proof_cli.ProofMap.Edges.{dependencies_of}
use proof_cli.ProofMap.Edges.Search.{rests_on_lem}
use proof_cli.NodeStates.Types.{Challenge, Readings}
use proof_cli.NodeStates.Own.{stands_open, against_proof, against_statement, two_sided}
use proof_cli.NodeStates.Stopped.{examples_of, counterexamples, union_of, worked_on}

-- An open Challenge that is not against the proof.
abbrev pub IsOnStatement : Challenge → Type 0
IsOnStatement c = (stands_open c.status ≡ true) × (against_proof c.kind ≡ false)

-- A Challenge of an agent against the statement that links a counterexample.
abbrev pub IsLinked : Challenge → Type 0
IsLinked c =
    (against_statement c.kind ≡ true)
    × (is_some c.counterexample_id ≡ true)
    × ((c.opened_by == researcher) ≡ false)

-- `e` is a counterexample that the node's branch waits for: an open Challenge on the statement links
-- it, every such Challenge links one, and the node is not rejected.
pub record IsExample (r : Readings) (node : Node) (e : ℕ) : Type 0 where
  pub linked : Any (λ c. IsOnStatement c × (c.counterexample_id ≡ some e)) (r.challenges node.id)
  pub only : All (λ c. IsOnStatement c → IsLinked c) (r.challenges node.id)
  pub not_rejected : not (is_imported node.kind) && is_rejected (r.acceptance_state node.id) ≡ false

abbrev on_statement : Challenge → Bool
on_statement c = stands_open c.status && not (against_proof c.kind)

on_statement-IsOnStatement : (c : Challenge) → on_statement c ≡ true → IsOnStatement c
on_statement-IsOnStatement c h = (ground (arith, h), ground (arith, h))

IsOnStatement-off : (c : Challenge) → on_statement c ≡ false → IsOnStatement c → ⊥
IsOnStatement-off c off h = let a = h.0 in let b = h.1 in ground (arith, off, a, b)

cons_example :
    (e : ℕ) (o : Option ℕ) (is : List ℕ)
    → In e (elim o as (λ _. List ℕ) [ none ↦ is | some i ↦ i ∷ is ]) ↔ ((o ≡ some e) ⊎ In e is)
cons_example e none is = (λ h. inr h, λ h. elim h [ inl k ↦ absurd (cc) | inr k ↦ k ])
cons_example e (some i) is = elim (Bool-cases (i == e)) [
  | inl at ↦ let same : i ≡ e = ground arith in (λ h. inl (ap some same), λ h. ground arith)
  | inr off ↦ (
    λ h. inr (ground (arith, h)),
    λ h. elim h [
      | inl k ↦ let same : i ≡ e = some-injective k in ground (arith, same)
      | inr k ↦ ground (arith, k)
    ],
  )
]

examples_of-Any :
    (e : ℕ) (cs : List Challenge)
    → In e (examples_of (keep on_statement cs))
      ↔ Any (λ c. IsOnStatement c × (c.counterexample_id ≡ some e)) cs
examples_of-Any e [] = (λ h. h, λ h. h)
examples_of-Any e (c ∷ cs) =
    let rest = examples_of-Any e cs in
    let found = cons_example e c.counterexample_id (examples_of (keep on_statement cs)) in
    elim (Bool-cases (on_statement c)) [
      | inl on ↦ rw on (
        λ h. elim (found.0 h) [
          | inl k ↦ inl (on_statement-IsOnStatement c on, k)
          | inr k ↦ inr (rest.0 k)
        ],
        λ h. elim h [ inl k ↦ found.1 (inl k.1) | inr k ↦ found.1 (inr (rest.1 k)) ],
      )
      | inr off ↦ rw off (
        λ h. inr (rest.0 h),
        λ h. elim h [ inl k ↦ absurd (IsOnStatement-off c off k.0) | inr k ↦ rest.1 k ],
      )
    ]

all-two_sided :
    (cs : List Challenge)
    → (all two_sided (keep on_statement cs) ≡ true) ↔ All (λ c. IsOnStatement c → IsLinked c) cs
unfolding two_sided
all-two_sided [] = (λ h. tt, λ h. refl)
all-two_sided (c ∷ cs) =
    let rest = all-two_sided cs in
    elim (Bool-cases (on_statement c)) [
      | inl on ↦ rw on (
        λ h. (
          λ _. (ground (arith, h), ground (arith, h), ground (arith, h)),
          rest.0 (ground (arith, h)),
        ),
        λ h.
            let (a, b, d) = h.0 (on_statement-IsOnStatement c on) in
            let later = rest.1 h.1 in ground (arith, a, b, d, later),
      )
      | inr off ↦ rw off (λ h. (λ k. absurd (IsOnStatement-off c off k), rest.0 h), λ h. rest.1 h.1)
    ]

pub counterexamples-IsExample :
    (r : Readings) (node : Node) (e : ℕ) → In e (counterexamples r node) ↔ IsExample r node e
unfolding counterexamples
counterexamples-IsExample r node e =
    let linked = examples_of-Any e (r.challenges node.id) in
    let only = all-two_sided (r.challenges node.id) in
    (
      λ h. record {
        linked = linked.0 (ground (arith, h));
        only = only.0 (ground (arith, h));
        not_rejected = ground (arith, h);
      },
      λ m.
          let a = linked.1 m.linked in
          let b = only.1 m.only in let c = m.not_rejected in rw (b, c) a,
    )

-- A node that is worked on: one of the sides, or what it rests on.
abbrev pub IsWorked : Readings → Store → Node → ℕ → Type 0
IsWorked r s node x =
    (e : ℕ) × IsExample r node e
    × (Reach (dependencies_of s.nodes) node.id x ⊎ Reach (dependencies_of s.nodes) e x)

-- What is found: an end of a chain from one of the ids.
union_of-Reach :
    (s : Store) (is : List ℕ)
    → (found : List ℕ) × (union_of s is ≡ some found)
      × ((x : ℕ) → In x found ↔ ((i : ℕ) × In i is × Reach (dependencies_of s.nodes) i x))
union_of-Reach s [] = ([], refl, λ x. (λ h. absurd (cc), λ (i, h, p). absurd (cc)))
union_of-Reach s (i ∷ is) =
    let (first, ends, iff) = rests_on_lem s i in
    let (rest, rest_ends, iff') = union_of-Reach s is in
    (
      first ++ rest,
      rw (ends, rest_ends) refl,
      λ x. (
        λ h. elim (In-append x first rest h) [
          | inl a ↦ (i, ground (arith), (iff x).0 a)
          | inr b ↦ let (j, k, p) = (iff' x).0 b in (j, ground (arith, k), p)
        ],
        λ (j, k, p). elim (Bool-cases (i == j)) [
          | inl at ↦
              let same : i ≡ j = ground arith in
              In-append_left x first rest
                ((iff x).1 (subst (λ z. Reach (dependencies_of s.nodes) z x) (sym same) p))
          | inr off ↦ In-append_right x first rest ((iff' x).1 (j, ground (arith, k), p))
        ],
      ),
    )

pub worked_on-IsWorked :
    (r : Readings) (s : Store) (node : Node)
    → (worked : List ℕ) × (worked_on s node.id (counterexamples r node) ≡ some worked)
      × ((x : ℕ) → In x worked ↔ IsWorked r s node x)
worked_on-IsWorked r s node =
    on_sides (counterexamples r node) (λ e. counterexamples-IsExample r node e)
  where
    on_sides :
        (is : List ℕ)
        → ((e : ℕ) → In e is ↔ IsExample r node e)
        → (worked : List ℕ) × (worked_on s node.id is ≡ some worked)
          × ((x : ℕ) → In x worked ↔ IsWorked r s node x)
    on_sides [] known =
        ([], refl, λ x. (λ h. absurd (cc), λ (e, m, p). let no = (known e).1 m in absurd (cc)))
    on_sides (j ∷ js) known =
        let (found, ends, iff) = union_of-Reach s (node.id ∷ j ∷ js) in
        (
          found,
          ends,
          λ x. (
            λ h.
                let (i, k, p) = (iff x).0 h in
                elim (Bool-cases (node.id == i)) [
                  | inl at ↦
                      let same : node.id ≡ i = ground arith in
                      (
                        j,
                        (known j).0 (ground arith),
                        inl (subst (λ z. Reach (dependencies_of s.nodes) z x) (sym same) p),
                      )
                  | inr off ↦ (i, (known i).0 (ground (arith, k)), inr p)
                ],
            λ (e, m, way). elim way [
              | inl p ↦ (iff x).1 (node.id, ground arith, p)
              | inr p ↦ let k = (known e).1 m in (iff x).1 (e, ground (arith, k), p)
            ],
          ),
        )
