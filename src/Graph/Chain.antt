-- ===== src/Graph/Chain.antt =====
-- The breadth-first search for a path, `_dependency_path` of src/proof_cli/proof_map.py: the
-- dictionary `came_from`, the queue, and the walk back from the goal.
use proof_cli.Base.{
  ℕ, zero, suc, ◌≤◌, ◌≡◌, false, Option, none, some, List, [], ◌∷◌, ◌++◌, map, inl, inr, contains,
  length, arith, ◌==◌, if◌then◌else◌, Bool-cases,
}
use proof_cli.Graph.Reach.{In, Reach, here, Reach-edge}
use proof_cli.Graph.Push.{In-cons}

-- The dictionary, newest entry first: a node and the one from which it was found.
abbrev pub CameFrom : Type 0
CameFrom = List (ℕ × Option ℕ)

abbrev pub keys : CameFrom → List ℕ
keys came = map (λ e. e.0) came

abbrev pub parent_of : ℕ → CameFrom → Option (Option ℕ)
parent_of x [] = none
parent_of x ((d, p) ∷ came) = if d == x then some p else parent_of x came

-- The loop over the dependencies of `current`.
unfoldable pub push_from : ℕ → List ℕ → CameFrom → List ℕ → CameFrom × List ℕ
push_from current [] came pending = (came, pending)
push_from current (d ∷ ds) came pending =
    push_from current ds (if contains (keys came) d then came else (d, some current) ∷ came)
      (if contains (keys came) d then pending else pending ++ d ∷ [])

-- `while came_from[path[-1]] is not None: path.append(came_from[path[-1]])`, with the path held in
-- the order in which it is returned. `none`: no such key, or no more fuel.
unfoldable pub trace_back : ℕ → CameFrom → ℕ → List ℕ → Option (List ℕ)
trace_back zero came x path = none
trace_back (suc fuel) came x path = elim (parent_of x came) [
  | none ↦ none
  | some none ↦ some path
  | some (some p) ↦ trace_back fuel came p (p ∷ path)
]

unfoldable pub search_path : (ℕ → List ℕ) → ℕ → ℕ → CameFrom → List ℕ → Option (Option (List ℕ))
search_path next goal fuel came [] = some none
search_path next goal zero came (x ∷ pending) = none
search_path next goal (suc fuel) came (x ∷ pending) =
    let (came', pending') = push_from x (next x) came pending in
    let rest = search_path next goal fuel came' pending' in
    if x == goal
    then elim (trace_back (length came) came x (x ∷ [])) [
      | none ↦ none
      | some path ↦ some (some path)
    ]
    else rest

-- The path from `start` to `goal`, or that there is none; fuel for every identifier of `all`.
unfoldable pub path_between : (ℕ → List ℕ) → List ℕ → ℕ → ℕ → Option (Option (List ℕ))
path_between next all start goal =
    search_path next goal (suc (length all)) ((start, none) ∷ []) (start ∷ [])

-- A path along the edges, with both of its ends.
pub data Chain (next : ℕ → List ℕ) : ℕ → ℕ → List ℕ → Type 0 where
  one : {a : ℕ} → Chain next a a (a ∷ [])
  more :
      {a b c : ℕ} {path : List ℕ} → In b (next a) → Chain next b c path → Chain next a c (a ∷ path)

pub Chain→Reach :
    {next : ℕ → List ℕ} {a b : ℕ} {path : List ℕ} → Chain next a b path → Reach next a b
Chain→Reach one = here
Chain→Reach (more e c) = Reach-edge e (Chain→Reach c)

-- Every entry but the first stands on an older one, along an edge.
pub data Rooted (next : ℕ → List ℕ) (start : ℕ) : CameFrom → Type 0 where
  root : Rooted next start ((start, none) ∷ [])
  grown :
      {d p : ℕ} {came : CameFrom}
      → In p (keys came)
      → In d (next p)
      → contains (keys came) d ≡ false
      → Rooted next start came
      → Rooted next start ((d, some p) ∷ came)

module _ {next : ℕ → List ℕ} {start : ℕ} where
  pub trace_back-Chain :
      {came : CameFrom}
      → Rooted next start came
      → (full : CameFrom) (fuel x y : ℕ) (path : List ℕ)
      → ((z : ℕ) → In z (keys came) → parent_of z full ≡ parent_of z came)
      → length came ≤ fuel
      → In x (keys came)
      → Chain next x y path
      → (path' : List ℕ) × (trace_back fuel full x path ≡ some path') × Chain next start y path'
  unfolding trace_back
  trace_back-Chain root full zero x y path agree fits h c = absurd (omega arith)
  trace_back-Chain (grown i e new r) full zero x y path agree fits h c = absurd (omega arith)
  trace_back-Chain root full (suc fuel) x y path agree fits h c =
      let same : start ≡ x = ground arith in
      (path, rw (trace_back, agree x h) (ground arith), rw same c)
  trace_back-Chain (grown {d} {p} {came} i e new r) full (suc fuel) x y path agree fits h c =
      elim (Bool-cases (d == x)) [
        | inl found ↦
            let same : d ≡ x = ground arith in
            rw (trace_back, agree x h, found)
              (trace_back-Chain r full fuel p y (p ∷ path) (older r full agree) (omega arith) i
                (more (rw same at e) c))
        | inr other ↦
            trace_back-Chain r full (suc fuel) x y path (older r full agree) (omega arith)
              (ground arith) c
      ]
    where
      older :
          Rooted next start came
          → (full : CameFrom)
          → ((z : ℕ)
              → In z (keys ((d, some p) ∷ came))
              → parent_of z full ≡ parent_of z ((d, some p) ∷ came))
          → (z : ℕ) → In z (keys came)
          → parent_of z full ≡ parent_of z came
      older r full agree z k = ground (arith, agree z (In-cons z d (keys came) k))
