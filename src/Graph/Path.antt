-- ===== src/Graph/Path.antt =====
-- The search for a path finds one exactly when there is one, and what it returns is one.
use proof_cli.Base.{
  ℕ, zero, suc, ◌+◌, ◌≤◌, ◌≡◌, refl, subst, false, Option, none, some, List, [], ◌∷◌, ◌++◌, ◌⊎◌,
  inl, inr, contains, length, arith, ◌==◌, Bool-cases,
}
use proof_cli.Graph.Reach.{In, Reach}
use proof_cli.Graph.Push.{push_queue, Pushed, push_queue-Pushed, unseen}
use proof_cli.Graph.Closure.{
  Searching, Searching-init, Searching-step, Searching-done, unseen-le-length,
}
use proof_cli.Graph.Chain.{
  CameFrom, keys, push_from, search_path, path_between, Chain, one, Rooted, root, grown,
  trace_back-Chain,
}

-- The keys and the queue go the way of a set and a queue.
push_from-keys :
    (x : ℕ) (ds : List ℕ) (came : CameFrom) (pending : List ℕ)
    → (keys (push_from x ds came pending).0 ≡ (push_queue ds (keys came) pending).0)
      × ((push_from x ds came pending).1 ≡ (push_queue ds (keys came) pending).1)
unfolding push_from push_queue
push_from-keys x [] came pending = (refl, refl)
push_from-keys x (d ∷ ds) came pending = elim (Bool-cases (contains (keys came) d)) [
  | inl old ↦ rw (push_from, push_queue, old) (push_from-keys x ds came pending)
  | inr new ↦
      rw (push_from, push_queue, new) (push_from-keys x ds ((d, some x) ∷ came) (pending ++ d ∷ []))
]

push_from-Rooted :
    {next : ℕ → List ℕ} {start : ℕ} (x : ℕ) (ds : List ℕ) (came : CameFrom) (pending : List ℕ)
    → ((d : ℕ) → In d ds → In d (next x))
    → In x (keys came)
    → Rooted next start came
    → Rooted next start (push_from x ds came pending).0
unfolding push_from
push_from-Rooted x [] came pending edges h r = r
push_from-Rooted x (d ∷ ds) came pending edges h r = elim (Bool-cases (contains (keys came) d)) [
  | inl old ↦
      rw (push_from, old) (push_from-Rooted x ds came pending (λ z k. edges z (ground arith)) h r)
  | inr new ↦
      rw (push_from, new)
        (push_from-Rooted x ds ((d, some x) ∷ came) (pending ++ d ∷ [])
          (λ z k. edges z (ground arith)) (ground arith) (grown h (edges d (ground arith)) new r))
]

-- What a search for a path may say.
abbrev pub Answers : (ℕ → List ℕ) → ℕ → ℕ → Option (Option (List ℕ)) → Type 0
Answers next start goal none = ⊥
Answers next start goal (some none) = Reach next start goal → ⊥
Answers next start goal (some (some path)) = Chain next start goal path

module _ (next : ℕ → List ℕ) (all : List ℕ) (known : (x d : ℕ) → In d (next x) → In d all)
    (start goal : ℕ) where
  -- What was taken from the queue is not the goal.
  abbrev Missed : List ℕ → List ℕ → Type 0
  Missed found pending = (x : ℕ) → In x found → In x pending ⊎ ((x == goal) ≡ false)

  Missed-step :
      (x : ℕ) (found pending found' pending' : List ℕ)
      → (x == goal) ≡ false
      → Missed found (x ∷ pending)
      → Pushed all (next x) found pending found' pending'
      → Missed found' pending'
  Missed-step x found pending found' pending' other m p y h = elim (p.new_found y h) [
    | inr (a, b) ↦ inl b
    | inl a ↦ elim (Bool-cases (x == y)) [
      | inl e ↦ inr (ground arith)
      | inr e ↦ elim (m y a) [ inl b ↦ inl (p.keeps_pending y (ground arith)) | inr c ↦ inr c ]
    ]
  ]

  looked :
      (x : ℕ) (came : CameFrom) (pending : List ℕ)
      → Pushed all
          (next x)
          (keys came)
          pending
          (keys (push_from x (next x) came pending).0)
          (push_from x (next x) came pending).1
  looked x came pending =
      let (k, q) = push_from-keys x (next x) came pending in
      rw (k, q) (push_queue-Pushed all (next x) (keys came) pending (λ d h. known x d h))

  search_path-Answers :
      (fuel : ℕ) (came : CameFrom) (pending : List ℕ)
      → Rooted next start came
      → Searching next start (keys came) pending
      → Missed (keys came) pending
      → length pending + unseen all (keys came) ≤ fuel
      → Answers next start goal (search_path next goal fuel came pending)
  unfolding search_path
  search_path-Answers fuel came [] r s m fits =
      λ reach. missed ((Searching-done next all start (keys came) s goal).1 reach)
    where
      missed : In goal (keys came) → ⊥
      missed h = elim (m goal h) [ inl a ↦ cc | inr b ↦ ground arith ]
  search_path-Answers zero came (x ∷ pending) r s m fits = absurd (omega arith)
  search_path-Answers (suc fuel) came (x ∷ pending) r s m fits = elim (Bool-cases (x == goal)) [
    | inl e ↦
        let same : x ≡ goal = ground arith in
        let (path, traced, chain) =
          trace_back-Chain r came (length came) x x (x ∷ []) (λ z h. refl) (omega arith)
            (s.open_found x (ground arith)) one in
        rw (search_path, e, traced) (subst (λ z. Chain next start z path) same chain)
    | inr other ↦
        let came' = (push_from x (next x) came pending).0 in
        let pending' = (push_from x (next x) came pending).1 in
        let p = looked x came pending in
        rw (search_path, other)
          (search_path-Answers fuel came' pending'
            (push_from-Rooted x (next x) came pending (λ d h. h) (s.open_found x (ground arith)) r)
            (Searching-step next all start x (keys came) pending (keys came') pending' s p)
            (Missed-step x (keys came) pending (keys came') pending' other m p)
            (omega (arith, p.measure)))
  ]

-- If every edge leads into `all`, the search for a path ends: it returns a path along the edges
-- from `start` to `goal`, or that there is none, and then `start` does not reach `goal`.
pub path_between-Answers :
    (next : ℕ → List ℕ) (all : List ℕ) (start goal : ℕ)
    → ((x d : ℕ) → In d (next x) → In d all)
    → Answers next start goal (path_between next all start goal)
unfolding path_between
path_between-Answers next all start goal known =
    search_path-Answers next all known start goal (suc (length all)) ((start, none) ∷ [])
      (start ∷ []) root (Searching-init next all start) (λ x h. inl h)
      (omega (arith, unseen-le-length all (start ∷ [])))
