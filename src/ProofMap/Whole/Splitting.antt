-- ===== src/ProofMap/Whole/Splitting.antt =====
-- A Split keeps the map whole.
use proof_cli.Base.{
  ℕ, ◌≡◌, ◌∙◌, refl, sym, ap, subst, Bool, true, false, List, [], ◌∷◌, ◌++◌, is_some, ◌⊎◌, inl, inr,
  arith,
}
use proof_cli.Graph.Reach.{In, Reach, IsAcyclic}
use proof_cli.Graph.Push.{In-append}
use proof_cli.Graph.Acyclic.{IsAcyclic-new}
use proof_cli.ProofMap.Types.{Node, Store, ok, Decisions, World}
use proof_cli.ProofMap.Tables.{find_node, exists_in, update_in, require_node}
use proof_cli.ProofMap.Edges.{dependencies_of}
use proof_cli.ProofMap.Create.{create_node_within}
use proof_cli.ProofMap.Edit.{hold}
use proof_cli.ProofMap.Edit.Writes.{IsRow, require_node-IsRow, update_in-edges, nodes-hold}
use proof_cli.ProofMap.Split.{
  Spec, child_fields, refuse_resting, create_children, split, split_node,
}
use proof_cli.ProofMap.Results.{OnOk, OnOk-eq, OnOk-bind, OnOk-guard}
use proof_cli.ProofMap.Whole.{IsTable, IsWhole}
use proof_cli.ProofMap.Whole.Tables.{update_in-IsTable}
use proof_cli.ProofMap.Whole.Held.{hold-HasSingleClaims}
use proof_cli.ProofMap.Whole.Edits.{row-known}
use proof_cli.ProofMap.Whole.Creation.{IsCreated, IsCreated-IsWhole, create_node_within-Creates}
use proof_cli.ProofMap.Whole.Children.{
  NoneReaches, refuse_resting-NoneReaches, IsCreated-stays, IsCreated-there, IsCreated-row,
  IsCreated-NoneReaches, IsCreated-unreached,
}

-- The ids are nodes of the map, and none rests on `goal`.
pub record IsBeside (goal : ℕ) (s : Store) (ids : List ℕ) : Type 0 where
  pub known : (c : ℕ) → In c ids → exists_in s c ≡ true
  pub none_reaches : NoneReaches s goal ids

-- What a run of `create_children` did to the map that it began with.
pub record IsGrown (goal : ℕ) (s t : Store) : Type 0 where
  pub whole : IsWhole t
  pub there : exists_in t goal ≡ true
  pub row : dependencies_of t.nodes goal ≡ dependencies_of s.nodes goal
  pub beside : (ids : List ℕ) → IsBeside goal s ids → IsBeside goal t ids

abbrev Grows : ℕ → Store → Store × List ℕ → Type 0
Grows goal s (t, children) = IsGrown goal s t × IsBeside goal t children

IsBeside-cons :
    (goal : ℕ) (s : Store) (i : ℕ) (ids : List ℕ)
    → IsBeside goal s (i ∷ [])
    → IsBeside goal s ids
    → IsBeside goal s (i ∷ ids)
IsBeside-cons goal s i ids one more_ = record {
  known =
      λ c h. elim (In-append c (i ∷ []) ids h) [ inl k ↦ one.known c k | inr k ↦ more_.known c k ];
  none_reaches = λ c h. elim (In-append c (i ∷ []) ids h) [
    | inl k ↦ one.none_reaches c k
    | inr k ↦ more_.none_reaches c k
  ];
}

IsGrown-trans : {goal : ℕ} {s t u : Store} → IsGrown goal s t → IsGrown goal t u → IsGrown goal s u
IsGrown-trans p q = record {
  whole = q.whole;
  there = q.there;
  row = q.row ∙ p.row;
  beside = λ ids h. q.beside ids (p.beside ids h);
}

-- One child.
pub child-Grows :
    (s t : Store) (n : Node) (goal : ℕ)
    → IsCreated s t n
    → IsWhole s
    → exists_in s goal ≡ true
    → NoneReaches s goal n.dependencies
    → IsGrown goal s t × IsBeside goal t (n.id ∷ [])
child-Grows s t n goal made whole there apart = (
  record {
    whole = IsCreated-IsWhole s t n made whole;
    there = IsCreated-stays s t n goal made whole there goal there;
    row = IsCreated-row s t n goal made whole there;
    beside = λ ids h. record {
      known = λ c k. IsCreated-stays s t n goal made whole there c (h.known c k);
      none_reaches = IsCreated-NoneReaches s t n goal made whole there ids h.known h.none_reaches;
    };
  },
  record {
    known = λ c k.
        let same : n.id ≡ c = ground arith in
        subst (λ z. exists_in t z ≡ true) same (IsCreated-there s t n made);
    none_reaches = λ c k.
        let same : n.id ≡ c = ground arith in
        subst (λ z. Reach (dependencies_of t.nodes) z goal → ⊥) same
          (IsCreated-unreached s t n goal made whole there apart);
  },
)

-- What stood beside the goal on the map that the checks saw does so on the one that is written.
create_children-Grows :
    (d : Decisions) (w : World) (goal by : ℕ) (specs : List Spec) (seen s : Store)
    → ((ids : List ℕ) → IsBeside goal seen ids → IsBeside goal s ids)
    → IsWhole s
    → exists_in s goal ≡ true
    → OnOk (Grows goal s) (create_children d w goal by specs seen s)
unfolding create_children
create_children-Grows d w goal by [] seen s kept whole there = (
  record { whole = whole; there = there; row = refl; beside = λ ids h. h },
  record { known = λ c h. absurd (cc); none_reaches = λ c h. absurd (cc) },
)
create_children-Grows d w goal by (spec ∷ specs) seen s kept whole there =
    let f = child_fields goal by spec in
    OnOk-bind (Grows goal s) (refuse_resting seen spec.id goal spec.dependencies) _ λ done apart.
      OnOk-bind (Grows goal s) (create_node_within d w f seen s) _ λ made e.
        let (known, creates) = create_node_within-Creates d w f seen s made e in
        let stands = kept spec.dependencies (record {
          known = known;
          none_reaches =
              refuse_resting-NoneReaches seen spec.id goal spec.dependencies done apart known;
        }) in
        let (created, _, ds) = creates stands.known in
        let (grown, one) =
          child-Grows s made.0 made.1 goal created whole there
            (subst (λ z. NoneReaches s goal z) (sym ds) stands.none_reaches) in
        OnOk-bind (Grows goal s) (create_children d w goal by specs seen made.0) _ λ rest e'.
          let (later, others) =
            OnOk-eq (Grows goal made.0) (create_children d w goal by specs seen made.0) e' (
              create_children-Grows d w goal by specs seen made.0
                (λ ids h. grown.beside ids (kept ids h)) grown.whole grown.there) in
          (
            IsGrown-trans grown later,
            IsBeside-cons goal rest.0 made.1.id rest.1 (later.beside (made.1.id ∷ []) one) others,
          )

-- A map with the same rows.
pub same-IsBeside :
    {goal : ℕ} {s t : Store} (ids : List ℕ)
    → t.nodes ≡ s.nodes
    → IsBeside goal s ids
    → IsBeside goal t ids
same-IsBeside {goal} ids same h = record {
  known = λ c k. ap (λ z. is_some (find_node c z)) same ∙ h.known c k;
  none_reaches =
      λ c k. subst (λ z. Reach (dependencies_of z) c goal → ⊥) (sym same) (h.none_reaches c k);
}

-- A row that rests on more nodes, none of which rests on it.
pub more-IsWhole :
    (t : Store) (i : ℕ) (node wider : Node) (extra : List ℕ)
    → IsRow t i node
    → wider.id ≡ node.id
    → wider.dependencies ≡ node.dependencies ++ extra
    → IsBeside i t extra
    → IsWhole t
    → IsTable (update_in wider t.nodes) × IsAcyclic (dependencies_of (update_in wider t.nodes))
more-IsWhole t i node wider extra row at ds beside whole = (
  update_in-IsTable wider t.nodes whole.table known,
  IsAcyclic-new i extra only whole.acyclic beside.none_reaches,
)
  where
    known : (c : ℕ) → In c wider.dependencies → exists_in t c ≡ true
    known c h = elim (In-append c node.dependencies extra (subst (λ z. In c z) ds h)) [
      | inl old ↦ row-known t i node c whole.table row old
      | inr new ↦ beside.known c new
    ]

    only :
        (x c : ℕ)
        → In c (dependencies_of (update_in wider t.nodes) x)
        → In c (dependencies_of t.nodes x) ⊎ ((x ≡ i) × In c extra)
    only x c h = elim (update_in-edges wider t.nodes x c h) [
      | inl (_, old) ↦ inl old
      | inr (here_, k) ↦ elim (In-append c node.dependencies extra (subst (λ z. In c z) ds k)) [
        | inl old ↦ inl (
            subst (λ z. In c (dependencies_of t.nodes z)) (sym (here_ ∙ at ∙ row.named))
              (subst (λ z. In c z) (sym row.edges) old))
        | inr new ↦ inr (here_ ∙ at ∙ row.named, new)
      ]
    ]

pub hold-IsWhole :
    (w : World) (own : Bool) (s : Store) (i actor : ℕ) (reassign : Bool) (t : Store)
    → hold w own s i actor reassign ≡ ok t
    → IsWhole s
    → IsWhole t
hold-IsWhole w own s i actor reassign t e whole =
    let same = sym (nodes-hold w own s i actor reassign t e) in
    record {
      table = subst IsTable same whole.table;
      acyclic = subst (λ z. IsAcyclic (dependencies_of z)) same whole.acyclic;
      single = hold-HasSingleClaims w own s i actor reassign t e whole.single;
    }

pub require_node-exists :
    (d : Decisions) (s : Store) (i : ℕ) (n : Node)
    → require_node d s i ≡ ok n
    → exists_in s i ≡ true
unfolding require_node
require_node-exists d s i n h = ground (arith, h)

split-IsWhole :
    (d : Decisions) (w : World) (parent_id : ℕ) (specs : List Spec) (by : ℕ) (reassign : Bool)
    (s : Store) (made : Store × List ℕ)
    → split d w parent_id specs by reassign s ≡ ok made
    → IsWhole s
    → IsWhole made.0
unfolding split
split-IsWhole d w parent_id specs by reassign s made h whole =
    OnOk-eq P (split d w parent_id specs by reassign s) h (
      OnOk-bind P (require_node d s parent_id) _ λ parent found. OnOk-guard P _ _ _ λ _.
        OnOk-guard P _ _ _ λ _. OnOk-guard P _ _ _ λ _.
          OnOk-bind P (hold w false s parent_id by reassign) _ λ held e.
            OnOk-bind P (create_children d w parent_id by specs s held) _ λ grown e'.
              let whole' = hold-IsWhole w false s parent_id by reassign held e whole in
              let same = nodes-hold w false s parent_id by reassign held e in
              let there =
                ap (λ z. is_some (find_node parent_id z)) same
                ∙ require_node-exists d s parent_id parent found in
              let (grew, beside) =
                OnOk-eq (Grows parent_id held) (create_children d w parent_id by specs s held) e' (
                  create_children-Grows d w parent_id by specs s held
                    (λ ids b. same-IsBeside ids same b) whole' there) in
              let row = require_node-IsRow d s parent_id parent found in
              let (table, acyclic) =
                more-IsWhole grown.0 parent_id parent
                  (record parent { dependencies = parent.dependencies ++ grown.1 }) grown.1
                  (record {
                    named = row.named;
                    edges = grew.row ∙ ap (λ z. dependencies_of z parent_id) same ∙ row.edges;
                  })
                  refl refl beside grew.whole in
              record { table = table; acyclic = acyclic; single = grew.whole.single })
  where
    P : Store × List ℕ → Type 0
    P z = IsWhole z.0

pub split_node-IsWhole :
    (d : Decisions) (w : World) (parent_id : ℕ) (specs : List Spec) (by : ℕ) (reassign : Bool)
    (s : Store) (made : Store × List ℕ)
    → split_node d w parent_id specs by reassign s ≡ ok made
    → IsWhole s
    → IsWhole made.0
unfolding split_node
split_node-IsWhole d w parent_id [] by reassign s made h whole =
    OnOk-eq (λ (z : Store × List ℕ). IsWhole z.0) (split_node d w parent_id [] by reassign s) h
      (OnOk-bind (λ (z : Store × List ℕ). IsWhole z.0) (require_node d s parent_id) _ λ _ _. tt)
split_node-IsWhole d w parent_id (spec ∷ specs) by reassign s made h whole =
    split-IsWhole d w parent_id (spec ∷ specs) by reassign s made h whole
