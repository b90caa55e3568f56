-- ===== src/ProofMap/Whole/Under.antt =====
-- Creating a node under a parent keeps the map whole.
use proof_cli.Base.{
  ℕ, ◌≡◌, ◌∙◌, refl, ap, subst, Bool, false, List, [], ◌∷◌, ◌++◌, ◌==◌, Option, none, some, inl,
  inr, Bool-cases, arith,
}
use proof_cli.Graph.Reach.{Reach}
use proof_cli.Graph.Path.{Answers}
use proof_cli.ProofMap.Types.{Node, Store, ok, Decisions, World}
use proof_cli.ProofMap.Tables.{require_node}
use proof_cli.ProofMap.Edges.{dependencies_of, dependency_path, refuse_path}
use proof_cli.ProofMap.Edges.Search.{dependency_path-Answers}
use proof_cli.ProofMap.Claims.{structure_editable}
use proof_cli.ProofMap.Create.{Fields, create_node_within}
use proof_cli.ProofMap.Edit.{hold, with_dependencies, gain_dependency}
use proof_cli.ProofMap.Edit.Writes.{require_node-IsRow, nodes-hold}
use proof_cli.ProofMap.Split.{refuse_below, create_node_under_parent}
use proof_cli.ProofMap.Results.{OnOk-eq, OnOk-of, OnOk-bind}
use proof_cli.ProofMap.Whole.{IsWhole}
use proof_cli.ProofMap.Whole.Creation.{create_node_within-Creates}
use proof_cli.ProofMap.Whole.Children.{NoneReaches}
use proof_cli.ProofMap.Whole.Splitting.{
  child-Grows, same-IsBeside, more-IsWhole, hold-IsWhole, require_node-exists,
}

refuse_path-unreached :
    (s : Store) (start goal i : ℕ) (before : List ℕ) (answer : Option (Option (List ℕ)))
    (done : Unit {0})
    → Answers (dependencies_of s.nodes) start goal answer
    → refuse_path i before answer ≡ ok done
    → Reach (dependencies_of s.nodes) start goal
    → ⊥
refuse_path-unreached s start goal i before none done h e = absurd h
refuse_path-unreached s start goal i before (some none) done h e = h
refuse_path-unreached s start goal i before (some (some path)) done h e = cc

refuse_below-NoneReaches :
    (s : Store) (goal i : ℕ) (ds : List ℕ) (done : Unit {0})
    → refuse_below s goal i ds ≡ ok done
    → NoneReaches s goal ds
unfolding refuse_below
refuse_below-NoneReaches s goal i [] done h c k = cc
refuse_below-NoneReaches s goal i (d ∷ ds) done h c k =
    OnOk-eq P (refuse_below s goal i (d ∷ ds)) h (
      OnOk-bind P _ _ λ judged e. OnOk-of P (refuse_below s goal i ds) λ done' e'.
        first_or_rest
          (refuse_path-unreached s d goal goal (goal ∷ i ∷ []) (dependency_path s d goal) judged
            (dependency_path-Answers s d goal) e)
          (refuse_below-NoneReaches s goal i ds done' e'))
  where
    P : Unit {0} → Type 0
    P _ = Reach (dependencies_of s.nodes) c goal → ⊥

    first_or_rest :
        (Reach (dependencies_of s.nodes) d goal → ⊥)
        → NoneReaches s goal ds
        → Reach (dependencies_of s.nodes) c goal
        → ⊥
    first_or_rest first rest = elim (Bool-cases (d == c)) [
      | inl at ↦
          let same : d ≡ c = ground arith in
          subst (λ z. Reach (dependencies_of s.nodes) z goal → ⊥) same first
      | inr off ↦ rest c (ground (arith, k))
    ]

-- A whole map is whole after a `create_node_under_parent` that returned.
pub create_node_under_parent-IsWhole :
    (d : Decisions) (w : World) (parent_id : ℕ) (f : Fields) (reassign : Bool) (s : Store)
    (made : Store × Node)
    → create_node_under_parent d w parent_id f reassign s ≡ ok made
    → IsWhole s
    → IsWhole made.0
unfolding create_node_under_parent gain_dependency
create_node_under_parent-IsWhole d w parent_id f reassign s made h whole =
    OnOk-eq P (create_node_under_parent d w parent_id f reassign s) h (
      OnOk-bind P (create_node_within d w f s s) _ λ new e.
        let (known, creates) = create_node_within-Creates d w f s s new e in
        let (created, named, ds) = creates known in
        OnOk-bind P (require_node d s parent_id) _ λ parent found.
          OnOk-bind P (structure_editable d s parent) _ λ _ _.
            OnOk-bind P (refuse_below s parent_id new.1.id new.1.dependencies) _ λ done below.
              OnOk-bind P (hold w false new.0 parent_id f.created_by reassign) _ λ held e'.
                let row = require_node-IsRow d s parent_id parent found in
                let (grown, one) =
                  child-Grows s new.0 new.1 parent_id created whole
                    (require_node-exists d s parent_id parent found)
                    (refuse_below-NoneReaches s parent_id new.1.id new.1.dependencies done below) in
                let same = nodes-hold w false new.0 parent_id f.created_by reassign held e' in
                let whole' =
                  hold-IsWhole w false new.0 parent_id f.created_by reassign held e' grown.whole in
                let (table, acyclic) =
                  more-IsWhole held parent_id parent
                    (with_dependencies w parent (parent.dependencies ++ new.1.id ∷ []))
                    (new.1.id ∷ [])
                    (record {
                      named = row.named;
                      edges = ap (λ z. dependencies_of z parent_id) same ∙ grown.row ∙ row.edges;
                    })
                    refl refl (same-IsBeside (new.1.id ∷ []) same one) whole' in
                record { table = table; acyclic = acyclic; single = whole'.single })
  where
    P : Store × Node → Type 0
    P z = IsWhole z.0
