-- ===== src/Graph/Answer.antt =====
-- The walk of src/proof_cli/node_states.py ends with an answer that is right.
use proof_cli.Base.{
  ℕ, zero, suc, ◌+◌, ◌≤◌, ◌≡◌, refl, Bool, true, false, List, [], ◌∷◌, ◌⊎◌, inl, inr, ◌==◌,
  contains, length, arith, Bool-cases,
}
use proof_cli.Graph.Reach.{In, here, step}
use proof_cli.Graph.Push.{unseen, unseen-cons_lt}
use proof_cli.Graph.Closure.{unseen-le-length}
use proof_cli.Graph.Chain.{one}
use proof_cli.Graph.Walk.{Memo, Frame, nodes, drop_read, read_keys, advance, walk, walk_from}
use proof_cli.Graph.Denotes.{
  Dropped, drop_read-Dropped, cycle_to-IsCycle, Denotes, read_of-found, values-Denotes, Values-cons,
  Frames-settled, Hangs-rest, Walking, IsAnswer,
}

module _ {V : Type 0} (next : ℕ → List ℕ) (exists : ℕ → Bool) (combine : ℕ → List V → V)
    (all : List ℕ) (start : ℕ) (known : (x d : ℕ) → In d (next x) → In d all) where
  -- The last node of the path is entered from no other: its value is worked out.
  Walking-settle :
      (read : Memo V) (i : ℕ) (todo : List ℕ) (path : List Frame) (entered : List ℕ) (vs : List V)
      → Walking next exists combine start read ((i, todo) ∷ path) entered
      → Denotes next exists combine (next i) vs
      → Walking next exists combine start ((i, combine i vs) ∷ read) path entered
  Walking-settle read i todo path entered vs w below = record {
    sound = Values-cons next exists combine read i vs w.frames.0.known w.sound below;
    frames =
        Frames-settled next exists combine start i (read_keys read) (i ∷ read_keys read) path
          (λ x h. ground arith) (ground arith) w.frames.1;
    hangs = Hangs-rest next exists combine start (i, todo) path w.hangs;
    has_start = w.has_start;
    where_entered = λ x h. elim (w.where_entered x h) [
      | inl a ↦ inl (ground arith)
      | inr b ↦ elim (Bool-cases (i == x)) [ inl e ↦ inl (ground arith) | inr e ↦ inr (rw e at b) ]
    ];
  }

  -- A successor that was not read is entered.
  Walking-enter :
      (read : Memo V) (i d : ℕ) (todo ds : List ℕ) (path : List Frame) (entered : List ℕ)
      → Walking next exists combine start read ((i, todo) ∷ path) entered
      → Dropped (read_keys read) todo (d ∷ ds)
      → exists d ≡ true
      → Walking next exists combine start read ((d, next d) ∷ (i, ds) ∷ path) (d ∷ entered)
  Walking-enter read i d todo ds path entered w dropped is =
      let edge = w.frames.0.edges d (dropped.within d (ground arith)) in
      record {
        sound = w.sound;
        frames = (
          record {
            known = is;
            from_start = step w.frames.0.from_start edge;
            edges = λ x h. h;
            covers = λ x h. inr (inl h);
          },
          (
            record {
              known = w.frames.0.known;
              from_start = w.frames.0.from_start;
              edges = λ x h. w.frames.0.edges x (dropped.within x (ground arith));
              covers = λ x h. elim (w.frames.0.covers x h) [
                | inl a ↦ inl a
                | inr (inl b) ↦ elim (dropped.split x b) [
                  | inl a ↦ inl a
                  | inr c ↦ elim (Bool-cases (d == x)) [
                    | inl e ↦ let same : d ≡ x = ground arith in inr (inr (rw same refl))
                    | inr e ↦ inr (inl (rw e at c))
                  ]
                ]
                | inr (inr c) ↦ cc
              ];
            },
            w.frames.1,
          ),
        );
        hangs = (edge, w.hangs);
        has_start = ground (arith, w.has_start);
        where_entered = λ x h. elim (Bool-cases (d == x)) [
          | inl e ↦ inr (ground arith)
          | inr e ↦ elim (w.where_entered x (rw e at h)) [
            | inl a ↦ inl a
            | inr b ↦ inr (ground arith)
          ]
        ];
      }

  module _ (fuel : ℕ)
      (go : (read : Memo V) (path : List Frame) (entered : List ℕ)
        → Walking next exists combine start read path entered
        → length path + (unseen all entered + unseen all entered) ≤ fuel
        → IsAnswer next exists combine start (walk next exists combine start fuel read path)) where
    advance-IsAnswer :
        (read : Memo V) (i : ℕ) (todo : List ℕ) (path : List Frame) (entered rest : List ℕ)
        → Walking next exists combine start read ((i, todo) ∷ path) entered
        → Dropped (read_keys read) todo rest
        → length path + (unseen all entered + unseen all entered) ≤ fuel
        → IsAnswer next exists combine start (
            advance next exists combine
              (λ r p. walk next exists combine start fuel r p)
              read
              i
              path
              rest)
    advance-IsAnswer read i todo path entered [] w dropped fits =
        let all_read : (x : ℕ) → In x (next i) → In x (read_keys read) = λ x h.
          elim (w.frames.0.covers x h) [
            | inl a ↦ a
            | inr (inl b) ↦ elim (dropped.split x b) [ inl a ↦ a | inr c ↦ cc ]
            | inr (inr c) ↦ cc
          ] in
        let (vs, found, below) =
          values-Denotes next exists combine read (next i) w.sound all_read in
        rw found (
          go ((i, combine i vs) ∷ read) path entered
            (Walking-settle read i todo path entered vs w below) fits)
    advance-IsAnswer read i todo path entered (d ∷ ds) w dropped fits =
        let edge = w.frames.0.edges d (dropped.within d (ground arith)) in
        let reached = step w.frames.0.from_start edge in
        elim (Bool-cases (contains (i ∷ nodes path) d)) [
          | inl on_path ↦ rw on_path (
            d,
            reached,
            cycle_to-IsCycle next d d (i ∷ nodes path) (d ∷ []) on_path (edge, w.hangs) one,
          )
          | inr new ↦ elim (Bool-cases (exists d)) [
            | inr absent ↦ rw (new, absent) (reached, absent)
            | inl is ↦
                let fresh : contains entered d ≡ false =
                  unentered w.where_entered (dropped.unread d ds refl) new in
                rw (new, is)
                  (go read ((d, next d) ∷ (i, ds) ∷ path) (d ∷ entered)
                    (Walking-enter read i d todo ds path entered w dropped is)
                    (omega (arith, fits, unseen-cons_lt d all entered (known i d edge) fresh)))
          ]
        ]
      where
        unentered :
            ((x : ℕ) → In x entered → In x (read_keys read) ⊎ In x (i ∷ nodes path))
            → contains (read_keys read) d ≡ false
            → contains (i ∷ nodes path) d ≡ false
            → contains entered d ≡ false
        unentered place unread new = elim (Bool-cases (contains entered d)) [
          | inr unseen_yet ↦ unseen_yet
          | inl is ↦ elim (place d is) [ inl a ↦ cc | inr b ↦ cc ]
        ]

  walk-IsAnswer :
      (fuel : ℕ) (read : Memo V) (path : List Frame) (entered : List ℕ)
      → Walking next exists combine start read path entered
      → length path + (unseen all entered + unseen all entered) ≤ fuel
      → IsAnswer next exists combine start (walk next exists combine start fuel read path)
  unfolding walk
  walk-IsAnswer fuel read [] entered w fits =
      let (v, found) =
        read_of-found next exists combine read start
          (elim (w.where_entered start w.has_start) [ inl a ↦ a | inr b ↦ cc ]) in
      rw (walk, found) (w.sound start v found)
  walk-IsAnswer zero read (f ∷ path) entered w fits = absurd (omega arith)
  walk-IsAnswer (suc fuel) read ((i, todo) ∷ path) entered w fits =
      advance-IsAnswer fuel (walk-IsAnswer fuel) read i todo path entered
        (drop_read (read_keys read) todo) w (drop_read-Dropped (read_keys read) todo) (omega arith)

  -- If every edge leads into `all`, the walk ends: with the value of `start` by recursion on the
  -- edges, with a cycle that `start` reaches, or with an identifier that it reaches and that is none.
  pub walk_from-IsAnswer :
      IsAnswer next exists combine start (walk_from next exists combine all start)
  unfolding walk_from
  walk_from-IsAnswer = elim (Bool-cases (exists start)) [
    | inr absent ↦ rw absent (here, absent)
    | inl is ↦ rw is (
        walk-IsAnswer (suc (length all + length all)) [] ((start, next start) ∷ []) (start ∷ [])
          (record {
            sound = λ i v h. cc;
            frames = (
              record {
                known = is;
                from_start = here;
                edges = λ d h. h;
                covers = λ d h. inr (inl h);
              },
              tt,
            );
            hangs = tt;
            has_start = ground arith;
            where_entered = λ x h. inr h;
          })
          (omega (arith, unseen-le-length all (start ∷ []))))
  ]
