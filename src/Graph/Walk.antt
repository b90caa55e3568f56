-- ===== src/Graph/Walk.antt =====
-- The walk of `node_states` of src/proof_cli/node_states.py, whatever a node's value is: a value is
-- worked out once those of its successors are, with the chain being worked out on a stack. It
-- refuses a cycle, naming it, and an identifier that is none.
use proof_cli.Base.{
  ℕ, zero, suc, ◌+◌, Bool, Option, none, some, List, [], ◌∷◌, map, ◌==◌, contains, length,
  if◌then◌else◌,
}

-- What a call comes to; `stuck` would be an endless loop or a value that is not there.
pub data Walked {ℓ} (V : Type ℓ) : Type ℓ where
  value : V → Walked V
  cycle : List ℕ → Walked V
  missing : ℕ → Walked V
  stuck : Walked V

-- The values read so far.
abbrev pub Memo {ℓ} : Type ℓ → Type ℓ
Memo V = List (ℕ × V)

-- A node on the path with its successors not read yet; the path has its last node first.
abbrev pub Frame : Type 0
Frame = ℕ × List ℕ

abbrev pub nodes : List Frame → List ℕ
nodes path = map (λ f. f.0) path

-- `while todo[-1] and todo[-1][-1] in read: todo[-1].pop()`
unfoldable pub drop_read : List ℕ → List ℕ → List ℕ
drop_read seen [] = []
drop_read seen (d ∷ todo) =
    let rest = drop_read seen todo in if contains seen d then rest else d ∷ todo

-- `[*ids[ids.index(entered):], entered]`, from the end of the path.
unfoldable pub cycle_to : ℕ → List ℕ → List ℕ → List ℕ
cycle_to entered [] acc = acc
cycle_to entered (x ∷ xs) acc =
    let rest = cycle_to entered xs (x ∷ acc) in if x == entered then x ∷ acc else rest

module _ {ℓ} {V : Type ℓ} where
  abbrev pub read_keys : Memo V → List ℕ
  read_keys read = map (λ e. e.0) read

  abbrev pub read_of : ℕ → Memo V → Option V
  read_of i [] = none
  read_of i ((j, v) ∷ read) = if j == i then some v else read_of i read

  abbrev pub with_value : Option V → Option (List V) → Option (List V)
  with_value (some v) (some vs) = some (v ∷ vs)
  with_value _ _ = none

  -- `[read[dependency] for dependency in dependencies]`
  abbrev pub values : Memo V → List ℕ → Option (List V)
  values read [] = some []
  values read (d ∷ ds) = with_value (read_of d read) (values read ds)

  abbrev pub answer : Option V → Walked V
  answer none = stuck
  answer (some v) = value v

  module _ (next : ℕ → List ℕ) (exists : ℕ → Bool) (combine : ℕ → List V → V) where
    -- The value of the node that ends the path.
    abbrev pub settle :
        (Memo V → List Frame → Walked V) → Memo V → ℕ → List Frame → Option (List V) → Walked V
    settle go read i path none = stuck
    settle go read i path (some vs) = go ((i, combine i vs) ∷ read) path

    -- One turn, once what was read is off the list of what is to be done.
    abbrev pub advance :
        (Memo V → List Frame → Walked V) → Memo V → ℕ → List Frame → List ℕ → Walked V
    advance go read i path [] = settle go read i path (values read (next i))
    advance go read i path (d ∷ todo) =
        if contains (i ∷ nodes path) d
        then cycle (cycle_to d (i ∷ nodes path) (d ∷ []))
        else if exists d
        then go read ((d, next d) ∷ (i, todo) ∷ path)
        else missing d

    unfoldable pub walk : ℕ → ℕ → Memo V → List Frame → Walked V
    walk start fuel read [] = answer (read_of start read)
    walk start zero read (f ∷ path) = stuck
    walk start (suc fuel) read ((i, todo) ∷ path) =
        advance (λ r p. walk start fuel r p) read i path (drop_read (read_keys read) todo)

    -- Fuel to enter and to leave every identifier of `all`.
    unfoldable pub walk_from : List ℕ → ℕ → Walked V
    walk_from all start =
        if exists start
        then walk start (suc (length all + length all)) [] ((start, next start) ∷ [])
        else missing start
