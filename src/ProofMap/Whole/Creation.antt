-- ===== src/ProofMap/Whole/Creation.antt =====
-- Creating a node keeps the map whole.
use proof_cli.Base.{
  ℕ, ◌≡◌, ◌∙◌, refl, sym, ap, subst, Bool, true, false, ◌&&◌, List, [], ◌∷◌, ◌++◌, ◌==◌, Option,
  any, contains, is_some, if◌then◌else◌, inl, inr, Bool-cases, arith,
}
use proof_cli.Graph.Reach.{In, Reach, IsAcyclic}
use proof_cli.Graph.Acyclic.{IsAcyclic-new}
use proof_cli.ProofMap.Types.{
  Node, Medium, Event, trusted_by_rule, Store, Error, ok, Decisions, World,
}
use proof_cli.ProofMap.Tables.{
  exists_in, is_theorem, is_imported, append_event, insert_proof_map_node,
}
use proof_cli.ProofMap.Edges.{dependencies_of, list_nodes}
use proof_cli.ProofMap.Edges.Search.{Reach-exists}
use proof_cli.ProofMap.Claims.Single.{HasSingleClaims}
use proof_cli.ProofMap.Edit.Acyclic.{IsAcyclicMap}
use proof_cli.ProofMap.Create.{
  Fields, refuse_unknown, insert_row, is_noted, note_rules, note_nodes, note_trust_rule_matches,
  check_fields, write_node, after_creation, created_node, create_row, create_node,
  create_node_within,
}
use proof_cli.ProofMap.Results.{OnOk-eq, OnOk-of, OnOk-bind, OnOk-guard}
use proof_cli.ProofMap.Whole.{IsTable, IsWhole}
use proof_cli.ProofMap.Whole.Tables.{snoc-IsTable, snoc-edges}

-- Every id that the check let pass is known.
pub refuse_unknown-known :
    (known : ℕ → Bool) (problem : ℕ → Error) (ids : List ℕ) (done : Unit {0})
    → refuse_unknown known problem ids ≡ ok done
    → (c : ℕ) → In c ids
    → known c ≡ true
unfolding refuse_unknown
refuse_unknown-known known problem [] done h c k = cc
refuse_unknown-known known problem (i ∷ is) done h c k =
    OnOk-eq (λ _. known c ≡ true) (refuse_unknown known problem (i ∷ is)) h
      (OnOk-guard (λ _. known c ≡ true) _ _ _
        λ e.
          OnOk-of (λ _. known c ≡ true) (refuse_unknown known problem is)
            λ done' e'. elim (Bool-cases (i == c)) [
              | inl at ↦
                  let same : i ≡ c = ground arith in
                  subst (λ z. known z ≡ true) same (ground (arith, e))
              | inr off ↦ refuse_unknown-known known problem is done' e' c (ground (arith, k))
            ])

-- Noting which Trust rules a citation meets appends events, and nothing else.
pub record HasRows (s t : Store) : Type 0 where
  pub nodes : t.nodes ≡ s.nodes
  pub claims : t.claims ≡ s.claims

HasRows-refl : (s : Store) → HasRows s s
HasRows-refl s = record { nodes = refl; claims = refl }

HasRows-trans : {s t u : Store} → HasRows s t → HasRows t u → HasRows s u
HasRows-trans h k = record { nodes = k.nodes ∙ h.nodes; claims = k.claims ∙ h.claims }

HasRows-if : (b : Bool) (s t u : Store) → HasRows s t → HasRows s u → HasRows s (if b then t else u)
HasRows-if true s t u h k = h
HasRows-if false s t u h k = k

note_rules-HasRows :
    (noted : List Event) (i : ℕ) (rules : List ℕ) (s : Store)
    → HasRows s (note_rules noted i rules s)
note_rules-HasRows noted i [] s = HasRows-refl s
note_rules-HasRows noted i (rule ∷ rules) s =
    HasRows-trans
      (HasRows-if (is_noted noted i rule) s s (append_event i (trusted_by_rule rule) s)
        (HasRows-refl s) (record { nodes = refl; claims = refl }))
      (note_rules-HasRows noted i rules _)

note_nodes-HasRows :
    (d : Decisions) (read : Store) (wanted : List ℕ) (nodes : List Node) (s : Store)
    → HasRows s (note_nodes d read wanted nodes s)
note_nodes-HasRows d read wanted [] s = HasRows-refl s
note_nodes-HasRows d read wanted (n ∷ nodes) s =
    HasRows-trans
      (HasRows-if (is_imported n.kind && contains wanted n.id) s
        (note_rules read.events n.id (d.trust_rules_of read n.id) s) s
        (note_rules-HasRows read.events n.id (d.trust_rules_of read n.id) s) (HasRows-refl s))
      (note_nodes-HasRows d read wanted nodes _)

after_creation-HasRows :
    (d : Decisions) (node : Node) (seen s : Store) → HasRows s (after_creation d node seen s)
unfolding note_trust_rule_matches
after_creation-HasRows d node seen s =
    HasRows-if (is_imported node.kind && is_some node.reference_id) s _ s
      (note_nodes-HasRows d seen (node.id ∷ []) (list_nodes d seen) s) (HasRows-refl s)

-- What `create_node` made: one row, appended, with a new id and dependencies that exist.
pub record IsCreated (s t : Store) (n : Node) : Type 0 where
  pub nodes : t.nodes ≡ s.nodes ++ n ∷ []
  pub claims : t.claims ≡ s.claims
  pub new : exists_in s n.id ≡ false
  pub one : is_theorem n.kind && any (λ m. is_theorem m.kind) s.nodes ≡ false
  pub known : (c : ℕ) → In c n.dependencies → exists_in s c ≡ true

insert_row-IsInserted :
    (n : Node) (s t : Store)
    → insert_row n s ≡ ok t
    → (t ≡ insert_proof_map_node n s)
      × (exists_in s n.id ≡ false)
      × (is_theorem n.kind && any (λ m. is_theorem m.kind) s.nodes ≡ false)
unfolding insert_row
insert_row-IsInserted n s t h = ground arith

-- What the checks before the transaction found.
abbrev IsPlaced : Fields → Store → Type 0
IsPlaced f s =
    (exists_in s f.node_id ≡ false) × ((c : ℕ) → In c f.dependencies → exists_in s c ≡ true)

check_fields-IsPlaced :
    (w : World) (f : Fields) (s : Store) (medium : Option Medium)
    → check_fields w f s ≡ ok medium
    → IsPlaced f s
unfolding check_fields
check_fields-IsPlaced w f s medium h =
    OnOk-eq (λ _. IsPlaced f s) (check_fields w f s) h
      (OnOk-guard (λ _. IsPlaced f s) _ _ _
        λ _.
          OnOk-guard (λ _. IsPlaced f s) _ _ _
            λ new.
              OnOk-guard (λ _. IsPlaced f s) _ _ _
                λ _.
                  OnOk-guard (λ _. IsPlaced f s) _ _ _
                    λ _.
                      OnOk-bind (λ _. IsPlaced f s) (refuse_unknown _ _ f.dependencies) _
                        λ done known.
                          OnOk-of (λ _. IsPlaced f s) _
                            λ _ _. (
                              new,
                              refuse_unknown-known (λ i. exists_in s i) _ f.dependencies done known,
                            ))

abbrev IsWritten : Node → Store → Store → Type 0
IsWritten n s t =
    (t.nodes ≡ s.nodes ++ n ∷ [])
    × (t.claims ≡ s.claims)
    × (exists_in s n.id ≡ false)
    × (is_theorem n.kind && any (λ m. is_theorem m.kind) s.nodes ≡ false)

write_node-IsWritten : (n : Node) (s t : Store) → write_node n s ≡ ok t → IsWritten n s t
unfolding write_node
write_node-IsWritten n s t h = OnOk-eq (IsWritten n s) (write_node n s) h (
    OnOk-bind (IsWritten n s) (refuse_unknown _ _ n.definitions) _ λ _ _.
      OnOk-bind (IsWritten n s) (insert_row n s) _ λ u e.
        let (same, new, one) = insert_row-IsInserted n s u e in
        (ap (λ z. z.nodes) same, ap (λ z. z.claims) same, new, one))

abbrev pub Knows : Fields → Store → Type 0
Knows f s = (c : ℕ) → In c f.dependencies → exists_in s c ≡ true

abbrev pub Creates : Fields → Store → Store × Node → Type 0
Creates f s (t, n) = IsCreated s t n × (n.id ≡ f.node_id) × (n.dependencies ≡ f.dependencies)

-- Checked on one store and written to another, in which the dependencies stand too.
create_row-Creates :
    (w : World) (f : Fields) (seen s : Store) (made : Store × Node)
    → create_row w f seen s ≡ ok made
    → Knows f seen × (Knows f s → Creates f s made)
unfolding create_row
create_row-Creates w f seen s made h = OnOk-eq P (create_row w f seen s) h (
    OnOk-bind P (check_fields w f seen) _ λ medium checked.
      let n = created_node w f medium in
      let (_, known) = check_fields-IsPlaced w f seen medium checked in
      OnOk-bind P (write_node n s) _ λ u written.
        let (nodes, claims, new, one) = write_node-IsWritten n s u written in
        (
          known,
          λ stands. (
            record { nodes = nodes; claims = claims; new = new; one = one; known = stands },
            refl,
            refl,
          ),
        ))
  where
    P : Store × Node → Type 0
    P z = Knows f seen × (Knows f s → Creates f s z)

-- Noting the Trust rules afterwards changes no row.
Creates-noted :
    (d : Decisions) (f : Fields) (seen s t : Store) (n : Node)
    → Creates f s (t, n)
    → Creates f s (after_creation d n seen t, n)
Creates-noted d f seen s t n (created, named, ds) =
    let rows = after_creation-HasRows d n seen t in
    (
      record {
        nodes = rows.nodes ∙ created.nodes;
        claims = rows.claims ∙ created.claims;
        new = created.new;
        one = created.one;
        known = created.known;
      },
      named,
      ds,
    )

pub create_node_within-Creates :
    (d : Decisions) (w : World) (f : Fields) (seen s : Store) (made : Store × Node)
    → create_node_within d w f seen s ≡ ok made
    → Knows f seen × (Knows f s → Creates f s made)
unfolding create_node_within
create_node_within-Creates d w f seen s made h = OnOk-eq P (create_node_within d w f seen s) h (
    OnOk-bind P (create_row w f seen s) _ λ row e.
      let (known, creates) = create_row-Creates w f seen s row e in
      (known, λ stands. Creates-noted d f seen s row.0 row.1 (creates stands)))
  where
    P : Store × Node → Type 0
    P z = Knows f seen × (Knows f s → Creates f s z)

pub create_node-Creates :
    (d : Decisions) (w : World) (f : Fields) (s : Store) (made : Store × Node)
    → create_node d w f s ≡ ok made
    → Creates f s made
unfolding create_node
create_node-Creates d w f s made h = OnOk-eq (Creates f s) (create_node d w f s) h (
    OnOk-bind (Creates f s) (create_row w f s s) _ λ row e.
      let (known, creates) = create_row-Creates w f s s row e in
      Creates-noted d f row.0 s row.0 row.1 (creates known))

-- A new row whose dependencies stood before makes no cycle.
pub IsCreated-IsAcyclicMap :
    (s t : Store) (n : Node) → IsCreated s t n → IsTable s.nodes → IsAcyclicMap s → IsAcyclicMap t
IsCreated-IsAcyclicMap s t n made table acyclic =
    subst (λ z. IsAcyclic (dependencies_of z)) (sym made.nodes)
      (IsAcyclic-new n.id n.dependencies (snoc-edges n s.nodes) acyclic unreached)
  where
    unreached : (c : ℕ) → In c n.dependencies → Reach (dependencies_of s.nodes) c n.id → ⊥
    unreached c k p =
        let there : exists_in s n.id ≡ true = Reach-exists s table.closed (made.known c k) p in
        let new = made.new in ground arith

pub IsCreated-IsWhole : (s t : Store) (n : Node) → IsCreated s t n → IsWhole s → IsWhole t
IsCreated-IsWhole s t n made whole = record {
  table =
      subst IsTable (sym made.nodes)
        (snoc-IsTable n s.nodes whole.table made.new made.one made.known);
  acyclic = IsCreated-IsAcyclicMap s t n made whole.table whole.acyclic;
  single = subst HasSingleClaims (sym made.claims) whole.single;
}

-- A whole map is whole after a `create_node` that returned.
pub create_node-IsWhole :
    (d : Decisions) (w : World) (f : Fields) (s s' : Store) (n : Node)
    → create_node d w f s ≡ ok (s', n)
    → IsWhole s
    → IsWhole s'
create_node-IsWhole d w f s s' n h whole =
    IsCreated-IsWhole s s' n (create_node-Creates d w f s (s', n) h).0 whole
