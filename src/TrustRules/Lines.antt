-- ===== src/TrustRules/Lines.antt =====
-- What a line that is appended to the file of Trust rules is read as.
use proof_cli.Base.{
  ℕ, Bool, true, false, not, ◌&&◌, ◌≡◌, ◌∙◌, refl, sym, ap, Option, none, some, or_default, List,
  [], ◌∷◌, ◌++◌, ◌==◌, ◌⊎◌, inl, inr, Bool-cases, arith, all,
}
use mathlib.Core.List.{append-nil, append_assoc}
use proof_cli.TrustRules.Folded.{Entry}
use proof_cli.TrustRules.File.{
  Json, is_break, is_blank_line, split_lines, entries_in, cons_read, read_file,
  load_trust_rule_entries, append_line,
}

-- A file whose last line is ended, by a line feed.
abbrev pub IsEnded : Option (List ℕ) → Type 0
IsEnded none = Unit
IsEnded (some text) = (text ≡ []) ⊎ ((before : List ℕ) × (text ≡ before ++ 10 ∷ []))

-- A text that `splitlines` does not split, and that is not blank.
abbrev pub IsOneLine : List ℕ → Type 0
IsOneLine line = (all (λ c. not (is_break c)) line ≡ true) × (is_blank_line line ≡ false)

split_lines-++ :
    (after : Bool) (line before rest : List ℕ)
    → split_lines after line (before ++ 10 ∷ rest)
      ≡ split_lines after line (before ++ 10 ∷ []) ++ split_lines false [] rest
unfolding split_lines
split_lines-++ true line [] rest = refl
split_lines-++ false line [] rest = refl
split_lines-++ after line (c ∷ cs) rest = elim (Bool-cases (after && c == 10)) [
  | inl skip ↦ rw skip (split_lines-++ false [] cs rest)
  | inr off ↦ elim (Bool-cases (is_break c)) [
    | inl ends ↦ rw (off, ends) (ap (λ z. line ∷ z) (split_lines-++ (c == 13) [] cs rest))
    | inr goes ↦ rw (off, goes) (split_lines-++ false (line ++ c ∷ []) cs rest)
  ]
]

both_true : (a b : Bool) → not a && b ≡ true → (a ≡ false) × (b ≡ true)
both_true a b h = (ground (arith, h), ground (arith, h))

split_lines-line :
    (line cs : List ℕ) (b : ℕ) (rest : List ℕ)
    → all (λ c. not (is_break c)) cs ≡ true
    → is_break b ≡ true
    → split_lines false line (cs ++ b ∷ rest) ≡ (line ++ cs) ∷ split_lines (b == 13) [] rest
unfolding split_lines
split_lines-line line [] b rest h e =
    rw e (ap (λ z. z ∷ split_lines (b == 13) [] rest) (sym (append-nil line)))
split_lines-line line (c ∷ cs) b rest h e =
    let (goes, later) = both_true (is_break c) (all (λ x. not (is_break x)) cs) h in
    rw goes (
      split_lines-line (line ++ c ∷ []) cs b rest later e
      ∙ ap (λ z. z ∷ split_lines (b == 13) [] rest) (append_assoc line (c ∷ []) cs))

entries_in-++ :
    (j : Json) (lines more : List (List ℕ))
    → entries_in j (lines ++ more) ≡ entries_in j lines ++ entries_in j more
unfolding entries_in
entries_in-++ j [] more = refl
entries_in-++ j (line ∷ lines) more = elim (Bool-cases (is_blank_line line)) [
  | inl blank ↦ rw blank (entries_in-++ j lines more)
  | inr said ↦ rw said (read (j.parse line) (entries_in-++ j lines more))
]
  where
    read :
        (o : Option Entry)
        → entries_in j (lines ++ more) ≡ entries_in j lines ++ entries_in j more
        → cons_read o (entries_in j (lines ++ more))
          ≡ cons_read o (entries_in j lines) ++ entries_in j more
    read none h = h
    read (some e) h = ap (λ z. e ∷ z) h

-- What is written to a file that is ended is read behind what was there.
pub load-++ :
    (j : Json) (file : Option (List ℕ)) (text : List ℕ)
    → IsEnded file
    → (load_trust_rule_entries j (some (or_default file [] ++ text))).0
      ≡ (load_trust_rule_entries j file).0 ++ entries_in j (split_lines false [] text)
unfolding read_file
load-++ j none text h = refl
load-++ j (some cs) text (inl empty) = rw empty refl
load-++ j (some cs) text (inr (before, e)) = rw e (
    ap (λ z. entries_in j (split_lines false [] z)) (append_assoc before (10 ∷ []) text)
    ∙ ap (entries_in j) (split_lines-++ false [] before text)
    ∙ entries_in-++ j (split_lines false [] (before ++ 10 ∷ [])) (split_lines false [] text))

-- What is appended ends the last line.
pub append_line-IsEnded :
    (j : Json) (e : Entry) (file : Option (List ℕ)) → IsEnded (some (append_line j e file))
append_line-IsEnded j e file =
    inr
      (or_default file [] ++ j.dump e, sym (append_assoc (or_default file []) (j.dump e) (10 ∷ [])))

-- An entry whose JSON is one line that is read as the entry is appended to the entries.
pub append_line-read :
    (j : Json) (e : Entry) (file : Option (List ℕ))
    → IsEnded file
    → IsOneLine (j.dump e)
    → j.parse (j.dump e) ≡ some e
    → (load_trust_rule_entries j (some (append_line j e file))).0
      ≡ (load_trust_rule_entries j file).0 ++ e ∷ []
unfolding entries_in split_lines
append_line-read j e file ended (plain, said) back =
    load-++ j file (j.dump e ++ 10 ∷ []) ended
    ∙ ap (λ z. (load_trust_rule_entries j file).0 ++ z)
        (ap (entries_in j) (split_lines-line [] (j.dump e) 10 [] plain refl) ∙ rw (said, back) refl)

-- An entry whose JSON has a line separator, with parts that are no entries, is not read at all.
pub append_line-lost :
    (j : Json) (e : Entry) (a b : List ℕ) (separator : ℕ) (file : Option (List ℕ))
    → IsEnded file
    → j.dump e ≡ a ++ separator ∷ b
    → is_break separator ≡ true
    → (separator == 13) ≡ false
    → IsOneLine a
    → IsOneLine b
    → j.parse a ≡ none
    → j.parse b ≡ none
    → (load_trust_rule_entries j (some (append_line j e file))).0
      ≡ (load_trust_rule_entries j file).0
unfolding entries_in split_lines
append_line-lost j e a b separator file ended parts break other (plain, said) (plain', said') h h' =
    load-++ j file (j.dump e ++ 10 ∷ []) ended
    ∙ ap (λ z. (load_trust_rule_entries j file).0 ++ z)
        (ap (λ z. entries_in j (split_lines false [] (z ++ 10 ∷ []))) parts
          ∙ ap (λ z. entries_in j (split_lines false [] z))
              (append_assoc a (separator ∷ b) (10 ∷ []))
          ∙ ap (entries_in j) (split_lines-line [] a separator (b ++ 10 ∷ []) plain break)
          ∙ rw (other, said, h)
              (ap (entries_in j) (split_lines-line [] b 10 [] plain' refl) ∙ rw (said', h') refl))
    ∙ append-nil _
