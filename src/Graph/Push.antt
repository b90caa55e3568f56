-- ===== src/Graph/Push.antt =====
-- The inner loop of a search: of the successors of a node, those not found yet are found and put on
-- the worklist, in front of a stack or behind a queue.
use proof_cli.Base.{
  ℕ, ◌+◌, ◌≤◌, ◌<◌, ◌≡◌, true, false, not, List, [], ◌∷◌, ◌++◌, ◌⊎◌, inl, inr, contains, keep,
  length, length-append, ◌==◌, arith, if◌then◌else◌, Bool-cases,
}
use proof_cli.Graph.Reach.{In}

-- A stack is held with its top first: `pending.append` puts in front.
unfoldable pub push_stack : List ℕ → List ℕ → List ℕ → List ℕ × List ℕ
push_stack [] found pending = (found, pending)
push_stack (d ∷ ds) found pending =
    push_stack ds (if contains found d then found else d ∷ found)
      (if contains found d then pending else d ∷ pending)

-- A queue is held with its front first: `pending.append` puts behind.
unfoldable pub push_queue : List ℕ → List ℕ → List ℕ → List ℕ × List ℕ
push_queue [] found pending = (found, pending)
push_queue (d ∷ ds) found pending =
    push_queue ds (if contains found d then found else d ∷ found)
      (if contains found d then pending else pending ++ d ∷ [])

-- How many entries of `all` are still to be found.
unfoldable pub unseen : List ℕ → List ℕ → ℕ
unseen all found = length (keep (λ u. not (contains found u)) all)

pub In-cons : (x y : ℕ) (xs : List ℕ) → In x xs → In x (y ∷ xs)
In-cons x y xs h = ground arith

pub In-append_left : (x : ℕ) (xs ys : List ℕ) → In x xs → In x (xs ++ ys)
In-append_left x [] ys h = cc
In-append_left x (y ∷ xs) ys h = elim (Bool-cases (y == x)) [
  | inl e ↦ rw e
  | inr e ↦ rw e (In-append_left x xs ys (rw e at h))
]

pub In-append_right : (x : ℕ) (xs ys : List ℕ) → In x ys → In x (xs ++ ys)
In-append_right x [] ys h = h
In-append_right x (y ∷ xs) ys h = ground (arith, In-append_right x xs ys h)

pub In-append : (x : ℕ) (xs ys : List ℕ) → In x (xs ++ ys) → In x xs ⊎ In x ys
In-append x [] ys h = inr h
In-append x (y ∷ xs) ys h = elim (Bool-cases (y == x)) [
  | inl e ↦ inl (rw e)
  | inr e ↦ rw e (In-append x xs ys (rw e at h))
]

unseen-cons_le : (d : ℕ) (all found : List ℕ) → unseen all (d ∷ found) ≤ unseen all found
unfolding unseen
unseen-cons_le d [] found = omega arith
unseen-cons_le d (u ∷ all) found = ground (arith, unseen-cons_le d all found)

pub unseen-cons_lt :
    (d : ℕ) (all found : List ℕ)
    → In d all
    → contains found d ≡ false
    → unseen all (d ∷ found) < unseen all found
unfolding unseen
unseen-cons_lt d [] found h k = cc
unseen-cons_lt d (u ∷ all) found h k = elim (Bool-cases (u == d)) [
  | inl e ↦ ground (arith, unseen-cons_le d all found)
  | inr e ↦ ground (arith, unseen-cons_lt d all found)
]

-- What one inner loop over `ds` does, on either kind of worklist.
pub record Pushed (all ds found pending found' pending' : List ℕ) : Type 0 where
  pub keeps_found : (x : ℕ) → In x found → In x found'
  pub keeps_pending : (x : ℕ) → In x pending → In x pending'
  pub all_found : (x : ℕ) → In x ds → In x found'
  pub new_found : (x : ℕ) → In x found' → In x found ⊎ (In x ds × In x pending')
  pub new_pending : (x : ℕ) → In x pending' → In x pending ⊎ In x found'
  pub measure : length pending' + unseen all found' ≤ length pending + unseen all found

module _ (all : List ℕ) where
  Pushed-nil : (found pending : List ℕ) → Pushed all [] found pending found pending
  Pushed-nil found pending = record {
    keeps_found = λ x h. h;
    keeps_pending = λ x h. h;
    all_found = λ x h. cc;
    new_found = λ x h. inl h;
    new_pending = λ x h. inl h;
    measure = omega arith;
  }

  -- `d` was found before.
  Pushed-old :
      (d : ℕ) (ds found pending found' pending' : List ℕ)
      → contains found d ≡ true
      → Pushed all ds found pending found' pending'
      → Pushed all (d ∷ ds) found pending found' pending'
  Pushed-old d ds found pending found' pending' old h = record {
    keeps_found = h.keeps_found;
    keeps_pending = h.keeps_pending;
    all_found = λ x k. elim (Bool-cases (d == x)) [
      | inl e ↦ h.keeps_found x (ground arith)
      | inr e ↦ h.all_found x (rw e at k)
    ];
    new_found =
        λ x k. elim (h.new_found x k) [ inl a ↦ inl a | inr (a, b) ↦ inr (In-cons x d ds a, b) ];
    new_pending = h.new_pending;
    measure = h.measure;
  }

  -- `d` is new: it is found, and put somewhere on the worklist.
  Pushed-new :
      (d : ℕ) (ds found pending between found' pending' : List ℕ)
      → In d all
      → contains found d ≡ false
      → ((x : ℕ) → In x pending → In x between)
      → In d between
      → ((x : ℕ) → In x between → In x pending ⊎ (d ≡ x))
      → length between ≡ length pending + 1
      → Pushed all ds (d ∷ found) between found' pending'
      → Pushed all (d ∷ ds) found pending found' pending'
  Pushed-new d ds found pending between found' pending' known fresh more self only size h = record {
    keeps_found = λ x k. h.keeps_found x (In-cons x d found k);
    keeps_pending = λ x k. h.keeps_pending x (more x k);
    all_found = λ x k. elim (Bool-cases (d == x)) [
      | inl e ↦ h.keeps_found x (rw e)
      | inr e ↦ h.all_found x (rw e at k)
    ];
    new_found = λ x k. elim (h.new_found x k) [
      | inl a ↦ elim (Bool-cases (d == x)) [
        | inl e ↦ inr (rw e, h.keeps_pending x (ground arith))
        | inr e ↦ inl (rw e at a)
      ]
      | inr (a, b) ↦ inr (In-cons x d ds a, b)
    ];
    new_pending = λ x k. elim (h.new_pending x k) [
      | inl a ↦ elim (only x a) [ inl b ↦ inl b | inr e ↦ inr (h.keeps_found x (ground arith)) ]
      | inr b ↦ inr b
    ];
    measure = omega (arith, h.measure, unseen-cons_lt d all found known fresh, size);
  }

  pub push_stack-Pushed :
      (ds found pending : List ℕ)
      → ((x : ℕ) → In x ds → In x all)
      → Pushed all ds found pending (push_stack ds found pending).0 (push_stack ds found pending).1
  unfolding push_stack
  push_stack-Pushed [] found pending known = Pushed-nil found pending
  push_stack-Pushed (d ∷ ds) found pending known = elim (Bool-cases (contains found d)) [
    | inl old ↦
        rw (old, push_stack)
          (Pushed-old d ds found pending _ _ old
            (push_stack-Pushed ds found pending (λ x h. known x (In-cons x d ds h))))
    | inr new ↦
        rw (new, push_stack)
          (Pushed-new d ds found pending (d ∷ pending) _ _ (known d (ground arith)) new
            (λ x h. In-cons x d pending h) (ground arith) (λ x h. ground arith) (omega arith)
            (push_stack-Pushed ds (d ∷ found) (d ∷ pending) (λ x h. known x (In-cons x d ds h))))
  ]

  pub push_queue-Pushed :
      (ds found pending : List ℕ)
      → ((x : ℕ) → In x ds → In x all)
      → Pushed all ds found pending (push_queue ds found pending).0 (push_queue ds found pending).1
  unfolding push_queue
  push_queue-Pushed [] found pending known = Pushed-nil found pending
  push_queue-Pushed (d ∷ ds) found pending known = elim (Bool-cases (contains found d)) [
    | inl old ↦
        rw (old, push_queue)
          (Pushed-old d ds found pending _ _ old
            (push_queue-Pushed ds found pending (λ x h. known x (In-cons x d ds h))))
    | inr new ↦
        rw (new, push_queue)
          (Pushed-new d ds found pending (pending ++ d ∷ []) _ _ (known d (ground arith)) new
            (λ x h. In-append_left x pending (d ∷ []) h)
            (In-append_right d pending (d ∷ []) (ground arith))
            (λ x h. elim (In-append x pending (d ∷ []) h) [
              | inl a ↦ inl a
              | inr a ↦ inr (ground arith)
            ])
            (length-append pending (d ∷ []))
            (push_queue-Pushed ds (d ∷ found) (pending ++ d ∷ [])
              (λ x h. known x (In-cons x d ds h))))
  ]
