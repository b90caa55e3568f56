-- ===== src/Graph/Denotes.antt =====
-- The walk ends, and what it returns is the value of the node by recursion on the edges; what it
-- refuses is a cycle below the node, or an identifier below it that is none.
use proof_cli.Base.{
  ℕ, ◌≡◌, refl, subst, Bool, true, false, Option, none, some, List, [], ◌∷◌, ◌⊎◌, inl, inr, ◌==◌,
  contains, arith, Bool-cases,
}
use proof_cli.Graph.Reach.{In, Reach}
use proof_cli.Graph.Push.{In-cons}
use proof_cli.Graph.Chain.{Chain, more}
use proof_cli.Graph.Walk.{
  Walked, value, cycle, missing, stuck, Memo, Frame, nodes, drop_read, cycle_to, read_keys, read_of,
  values,
}

-- What is left after dropping what was read.
pub record Dropped (seen todo rest : List ℕ) : Type 0 where
  pub split : (x : ℕ) → In x todo → In x seen ⊎ In x rest
  pub within : (x : ℕ) → In x rest → In x todo
  pub unread : (d : ℕ) (ds : List ℕ) → rest ≡ d ∷ ds → contains seen d ≡ false

pub drop_read-Dropped : (seen todo : List ℕ) → Dropped seen todo (drop_read seen todo)
unfolding drop_read
drop_read-Dropped seen [] = record {
  split = λ x h. inr h;
  within = λ x h. h;
  unread = λ d ds e. cc;
}
drop_read-Dropped seen (d ∷ todo) = elim (Bool-cases (contains seen d)) [
  | inl old ↦
      let h = drop_read-Dropped seen todo in
      rw (drop_read, old)
        (record {
          split = λ x k. elim (Bool-cases (d == x)) [
            | inl e ↦ inl (ground arith)
            | inr e ↦ h.split x (rw e at k)
          ];
          within = λ x k. In-cons x d todo (h.within x k);
          unread = h.unread;
        })
  | inr new ↦
      rw (drop_read, new)
        (record { split = λ x k. inr k; within = λ x k. k; unread = λ b bs e. ground arith })
]

module _ (next : ℕ → List ℕ) where
  -- Each node of the list is a successor of the one behind it, `c` of the first.
  abbrev pub Below : ℕ → List ℕ → Type 0
  Below c [] = Unit
  Below c (x ∷ xs) = In c (next x) × Below x xs

  -- A way along at least one edge from `e` back to itself.
  pub record IsCycle (e : ℕ) (path : List ℕ) : Type 0 where
    pub second : ℕ
    pub rest : List ℕ
    pub starts : path ≡ e ∷ rest
    pub edge : In second (next e)
    pub back : Chain next second e rest

  pub cycle_to-IsCycle :
      (e c : ℕ) (xs acc : List ℕ)
      → In e xs
      → Below c xs
      → Chain next c e acc
      → IsCycle e (cycle_to e xs acc)
  unfolding cycle_to
  cycle_to-IsCycle e c [] acc h b chain = cc
  cycle_to-IsCycle e c (x ∷ xs) acc h b chain = elim (Bool-cases (x == e)) [
    | inl same ↦
        let eq : x ≡ e = ground arith in
        rw (cycle_to, same)
          (record { second = c; rest = acc; starts = rw eq; edge = rw (← eq) b.0; back = chain })
    | inr other ↦
        rw (cycle_to, other)
          (cycle_to-IsCycle e x xs (x ∷ acc) (rw other at h) b.1 (more b.0 chain))
  ]

module _ {V : Type 0} (next : ℕ → List ℕ) (exists : ℕ → Bool) (combine : ℕ → List V → V) where
  -- The values of a list of nodes, by recursion on the edges.
  pub data Denotes : List ℕ → List V → Type 0 where
    nothing : Denotes [] []
    also :
        {i : ℕ} {ds : List ℕ} {vs rest : List V}
        → exists i ≡ true
        → Denotes (next i) vs
        → Denotes ds rest
        → Denotes (i ∷ ds) (combine i vs ∷ rest)

  abbrev pub Values : Memo V → Type 0
  Values read = (i : ℕ) (v : V) → read_of i read ≡ some v → Denotes (i ∷ []) (v ∷ [])

  Denotes-cons :
      {d : ℕ} {v : V} {ds : List ℕ} {vs : List V}
      → Denotes (d ∷ []) (v ∷ [])
      → Denotes ds vs
      → Denotes (d ∷ ds) (v ∷ vs)
  Denotes-cons (also e below nothing) rest = also e below rest

  pub read_of-found :
      (read : Memo V) (i : ℕ) → In i (read_keys read) → (v : V) × (read_of i read ≡ some v)
  read_of-found [] i h = cc
  read_of-found ((j, v) ∷ read) i h = elim (Bool-cases (j == i)) [
    | inl e ↦ (v, rw e refl)
    | inr e ↦ rw e (read_of-found read i (rw e at h))
  ]

  pub values-Denotes :
      (read : Memo V) (ds : List ℕ)
      → Values read
      → ((x : ℕ) → In x ds → In x (read_keys read))
      → (vs : List V) × (values read ds ≡ some vs) × Denotes ds vs
  values-Denotes read [] sound h = ([], refl, nothing)
  values-Denotes read (d ∷ ds) sound h =
      let (v, found) = read_of-found read d (h d (ground arith)) in
      let (vs, rest, below) = values-Denotes read ds sound (λ x k. h x (In-cons x d ds k)) in
      (v ∷ vs, rw (found, rest) refl, Denotes-cons (sound d v found) below)

  pub Values-cons :
      (read : Memo V) (i : ℕ) (vs : List V)
      → exists i ≡ true
      → Values read
      → Denotes (next i) vs
      → Values ((i, combine i vs) ∷ read)
  Values-cons read i vs e sound below j v h = elim (Bool-cases (i == j)) [
    | inl same ↦
        let eq : i ≡ j = ground arith in
        let is : combine i vs ≡ v = ground (arith, h, same) in
        rw (← eq, ← is) (also e below nothing)
    | inr other ↦ sound j v (rw other at h)
  ]

  module _ (start : ℕ) where
    pub record IsFrame (above : Option ℕ) (seen : List ℕ) (f : Frame) : Type 0 where
      pub known : exists f.0 ≡ true
      pub from_start : Reach next start f.0
      pub edges : (d : ℕ) → In d f.1 → In d (next f.0)
      pub covers : (d : ℕ) → In d (next f.0) → In d seen ⊎ In d f.1 ⊎ (above ≡ some d)

    -- The frames of a path; `above` is the node entered from its last one.
    abbrev pub Frames : Option ℕ → List ℕ → List Frame → Type 0
    Frames above seen [] = Unit
    Frames above seen (f ∷ path) = IsFrame above seen f × Frames (some f.0) seen path

    abbrev pub Hangs : List Frame → Type 0
    Hangs [] = Unit
    Hangs (f ∷ path) = Below next f.0 (nodes path)

    pub Frames-more :
        (above : Option ℕ) (seen seen' : List ℕ) (path : List Frame)
        → ((x : ℕ) → In x seen → In x seen')
        → Frames above seen path
        → Frames above seen' path
    Frames-more above seen seen' [] keeps h = tt
    Frames-more above seen seen' (f ∷ path) keeps h = (
      record {
        known = h.0.known;
        from_start = h.0.from_start;
        edges = h.0.edges;
        covers = λ d k. elim (h.0.covers d k) [ inl a ↦ inl (keeps d a) | inr b ↦ inr b ];
      },
      Frames-more (some f.0) seen seen' path keeps h.1,
    )

    pub Frames-settled :
        (i : ℕ) (seen seen' : List ℕ) (path : List Frame)
        → ((x : ℕ) → In x seen → In x seen')
        → In i seen'
        → Frames (some i) seen path
        → Frames none seen' path
    Frames-settled i seen seen' [] keeps has h = tt
    Frames-settled i seen seen' (f ∷ path) keeps has h = (
      record {
        known = h.0.known;
        from_start = h.0.from_start;
        edges = h.0.edges;
        covers = λ d k. elim (h.0.covers d k) [
          | inl a ↦ inl (keeps d a)
          | inr (inl b) ↦ inr (inl b)
          | inr (inr c) ↦ let same : i ≡ d = cc in inl (subst (λ z. In z seen') same has)
        ];
      },
      Frames-more (some f.0) seen seen' path keeps h.1,
    )

    pub Hangs-rest : (f : Frame) (path : List Frame) → Hangs (f ∷ path) → Hangs path
    Hangs-rest f [] h = tt
    Hangs-rest f (g ∷ path) h = h.1

    -- What holds at the head of the loop; `entered` are the nodes that were ever entered.
    pub record Walking (read : Memo V) (path : List Frame) (entered : List ℕ) : Type 0 where
      pub sound : Values read
      pub frames : Frames none (read_keys read) path
      pub hangs : Hangs path
      pub has_start : In start entered
      pub where_entered : (x : ℕ) → In x entered → In x (read_keys read) ⊎ In x (nodes path)

    -- What a result says.
    abbrev pub IsAnswer : Walked V → Type 0
    IsAnswer (value v) = Denotes (start ∷ []) (v ∷ [])
    IsAnswer (cycle path) = (e : ℕ) × Reach next start e × IsCycle next e path
    IsAnswer (missing i) = Reach next start i × (exists i ≡ false)
    IsAnswer stuck = ⊥
