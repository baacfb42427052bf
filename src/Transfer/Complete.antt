-- ===== src/Transfer/Complete.antt =====
-- `idx_transfer_extract` gives the rows of the instructions that the transaction executed.
use mathlib.Core.Path.{subst}
use solana_c_indexer.Base.{
  ℕ, suc, ◌+◌, ◌≤◌, ◌<◌, ◌≡◌, refl, sym, ap, ◌∙◌, inl, inr, true, not, ◌||◌, Option, none, some,
  List, [], ◌∷◌, ◌++◌, ◌==◌, leb, if◌then◌else◌, length, append_nil, append_assoc, length-append,
  Result, value, fail, ◌>>=◌, arith, Bool-cases,
}
use solana_c_indexer.Chain.{Transaction, Instruction}
use solana_c_indexer.Transfer.{Place, Transfer, InnerGroup, Executed, Builder}
use solana_c_indexer.Transfer.Walk.{
  extract_instruction, inner_group, group_total, instruction_total, walk_inner, walk_group, walk,
  start, extract,
}
use solana_c_indexer.Transfer.Reference.{
  top_place, inner_place, inner_visits, group_visits, visits, moved, followed, collected,
}
use solana_c_indexer.Transfer.Match.{Matches, both_fail, both_give, instruction-Matches}

Matches-after :
    (b b' : Builder) (rows : List Transfer) (n m : ℕ) (r : Result Builder)
    (t : Result (List Transfer))
    → b'.rows ≡ b.rows ++ rows
    → b'.capacity ≡ b.capacity
    → length rows ≤ n
    → Matches b' m r t
    → Matches b (n + m) r (t >>= λ (more : List Transfer). value (rows ++ more))
Matches-after b b' rows n m r t e c le (both_fail s) = both_fail s
Matches-after b b' rows n m r t e c le (both_give b'' more e' c' le') =
    both_give b'' (rows ++ more) (e' ∙ ap (λ l. l ++ more) e ∙ append_assoc b.rows rows more)
      (c' ∙ c) (omega (arith, length-append rows more))

Matches-bind :
    (b : Builder) (n m : ℕ) (r : Result Builder) (s t : Result (List Transfer))
    (f : Builder → Result Builder)
    → Matches b n r s
    → ((b' : Builder)
        → b'.capacity ≡ b.capacity
        → length b'.rows ≤ length b.rows + n
        → Matches b' m (f b') t)
    → Matches b (n + m) (r >>= f) (followed s t)
Matches-bind b n m r s t f (both_fail u) next = both_fail u
Matches-bind b n m r s t f (both_give b' rows e c le) next =
    let more : length b'.rows ≤ length b.rows + n =
      omega (arith, ap length e ∙ length-append b.rows rows) in
    Matches-after b b' rows n m (f b') t e c le (next b' c more)

Matches-le :
    (b : Builder) (n m : ℕ) (r : Result Builder) (s : Result (List Transfer))
    → n ≤ m
    → Matches b n r s
    → Matches b m r s
Matches-le b n m r s le (both_fail u) = both_fail u
Matches-le b n m r s le (both_give b' rows e c le') = both_give b' rows e c (omega arith)

-- Where the walk stands does not matter.
Matches-place :
    (b : Builder) (p : Place) (n : ℕ) (r : Result Builder) (s : Result (List Transfer))
    → Matches (record b { place = p }) n r s
    → Matches b n r s
Matches-place b p n r s (both_fail u) = both_fail u
Matches-place b p n r s (both_give b' rows e c le) = both_give b' rows e c le

followed_assoc :
    (r s t : Result (List Transfer)) → followed r (followed s t) ≡ followed (followed r s) t
followed_assoc (fail e) s t = refl
followed_assoc (value a) (fail e) t = refl
followed_assoc (value a) (value b) (fail e) = refl
followed_assoc (value a) (value b) (value c) = ap value (sym (append_assoc a b c))

followed-nil : (r : Result (List Transfer)) → r ≡ followed (value []) r
followed-nil (fail e) = refl
followed-nil (value a) = refl

module _ (tx : Transaction) where
  collected-append :
      (xs ys : List (Place × Instruction))
      → collected tx (xs ++ ys) ≡ followed (collected tx xs) (collected tx ys)
  collected-append [] ys = followed-nil (collected tx ys)
  collected-append (x ∷ xs) ys =
      ap (followed (moved tx x)) (collected-append xs ys)
      ∙ followed_assoc (moved tx x) (collected tx xs) (collected tx ys)

  one-Matches :
      (b : Builder) (p : Place) (ix : Instruction)
      → length b.rows < b.capacity
      → Matches b 1 (extract_instruction tx (record b { place = p }) ix) (moved tx (p, ix))
  one-Matches b p ix lt =
      Matches-place b p 1 (extract_instruction tx (record b { place = p }) ix) (moved tx (p, ix))
        (instruction-Matches tx (record b { place = p }) ix lt)

  inner-Matches :
      (b : Builder) (i j : ℕ) (ixs : List Instruction)
      → length b.rows + length ixs ≤ b.capacity
      → Matches b (length ixs) (walk_inner tx b i j ixs) (collected tx (inner_visits i j ixs))
  unfolding walk_inner
  inner-Matches b i j [] le = both_give b [] (sym (append_nil b.rows)) refl (omega arith)
  inner-Matches b i j (ix ∷ rest) le =
      Matches-le b (1 + length rest) (suc (length rest)) _ _ (omega arith) (
        Matches-bind b 1 (length rest) _ (moved tx (inner_place i j, ix))
          (collected tx (inner_visits i (j + 1) rest)) (λ b'. walk_inner tx b' i (j + 1) rest)
          (one-Matches b (inner_place i j) ix (omega (arith, le)))
          (λ b' c more. inner-Matches b' i (j + 1) rest (omega (arith, le, c, more))))

  abbrev group_length : Option InnerGroup → ℕ
  group_length none = 0
  group_length (some group) = length group.instructions

  group-Matches :
      (b : Builder) (i : ℕ) (group : Option InnerGroup)
      → length b.rows + group_length group ≤ b.capacity
      → Matches b
          (group_length group)
          (walk_group tx b i group)
          (collected tx (group_visits i group))
  unfolding walk_group
  group-Matches b i none le = both_give b [] (sym (append_nil b.rows)) refl (omega arith)
  group-Matches b i (some group) le = inner-Matches b i 0 group.instructions le

  -- The inner instructions of the groups from index `i` on.
  abbrev total_from : List InnerGroup → ℕ → ℕ
  total_from [] i = 0
  total_from (group ∷ rest) i =
      (if leb i group.index then length group.instructions else 0) + total_from rest i

  total_from-suc :
      (groups : List InnerGroup) (i : ℕ) → total_from groups (i + 1) ≤ total_from groups i
  total_from-suc [] i = omega arith
  total_from-suc (group ∷ rest) i = ground (arith, total_from-suc rest i)

  total_from-group :
      (groups : List InnerGroup) (i : ℕ)
      → group_length (inner_group groups i) + total_from groups (i + 1) ≤ total_from groups i
  unfolding inner_group
  total_from-group [] i = omega arith
  total_from-group (group ∷ rest) i = elim (Bool-cases (group.index == i)) [
    | inl e ↦ rw e (ground (arith, total_from-suc rest i))
    | inr e ↦ rw e (ground (arith, total_from-group rest i))
  ]

  total_from-zero : (groups : List InnerGroup) → total_from groups 0 ≡ group_total groups
  unfolding group_total
  total_from-zero [] = refl
  total_from-zero (group ∷ rest) = ground (arith, total_from-zero rest)

  walk-Matches :
      (groups : List InnerGroup) (b : Builder) (i : ℕ) (ixs : List Instruction)
      → length b.rows + (length ixs + total_from groups i) ≤ b.capacity
      → Matches b
          (length ixs + total_from groups i)
          (walk tx groups b i ixs)
          (collected tx (visits groups i ixs))
  unfolding walk
  walk-Matches groups b i [] le = both_give b [] (sym (append_nil b.rows)) refl (omega arith)
  walk-Matches groups b i (ix ∷ rest) le =
      let group = inner_group groups i in
      let n = group_length group in
      let m = length rest + total_from groups (i + 1) in
      let fits = total_from-group groups i in
      let both = collected-append (group_visits i group) (visits groups (i + 1) rest) in
      Matches-le b (1 + (n + m)) (suc (length rest) + total_from groups i) _ _ (omega (arith, fits))
        (Matches-bind b 1 (n + m) _ (moved tx (top_place i, ix))
          (collected tx (group_visits i group ++ visits groups (i + 1) rest))
          (λ b'. walk_group tx b' i group >>= λ (b'' : Builder). walk tx groups b'' (i + 1) rest)
          (one-Matches b (top_place i) ix (omega (arith, le)))
          (λ b' c more. subst (Matches b' (n + m) _) (sym both) (
            Matches-bind b' n m _ (collected tx (group_visits i group))
              (collected tx (visits groups (i + 1) rest)) (λ b''. walk tx groups b'' (i + 1) rest)
              (group-Matches b' i group (omega (arith, le, c, more, fits)))
              (λ b'' c' more'.
                walk-Matches groups b'' (i + 1) rest
                  (omega (arith, le, c, c', more, more', fits))))))

Matches-rows :
    (b : Builder) (n : ℕ) (r : Result Builder) (s : Result (List Transfer))
    → b.rows ≡ []
    → Matches b n r s
    → (r >>= λ (b' : Builder). value b'.rows) ≡ s
Matches-rows b n r s e (both_fail u) = refl
Matches-rows b n r s e (both_give b' rows e' c le) = ap value (e' ∙ ap (λ l. l ++ rows) e)

-- The rows that a transaction should have.
abbrev pub transfers : Executed → Result (List Transfer)
transfers t =
    if not t.has_meta || not t.success || length t.transaction.accounts == 0
    then value []
    else collected t.transaction (visits t.inner_instructions 0 t.instructions)

no_instructions :
    (t : Executed)
    → instruction_total t ≡ 0
    → collected t.transaction (visits t.inner_instructions 0 t.instructions) ≡ value []
unfolding instruction_total
no_instructions t e = none_left t.instructions (omega (arith, e))
  where
    none_left :
        (ixs : List Instruction)
        → length ixs ≡ 0
        → collected t.transaction (visits t.inner_instructions 0 ixs) ≡ value []
    none_left [] e' = refl
    none_left (ix ∷ rest) e' = absurd (omega (arith, e'))

walked :
    (t : Executed)
    → (walk t.transaction t.inner_instructions
          (record { rows = []; capacity = instruction_total t; place = start })
          0
          t.instructions
        >>= λ (b : Builder). value b.rows)
      ≡ collected t.transaction (visits t.inner_instructions 0 t.instructions)
unfolding instruction_total
walked t =
    let b : Builder = record { rows = []; capacity = instruction_total t; place = start } in
    Matches-rows b _ _ _ refl (
      walk-Matches t.transaction t.inner_instructions b 0 t.instructions
        (omega (arith, total_from-zero t.transaction t.inner_instructions)))

pub extract-transfers : (t : Executed) → extract true t ≡ transfers t
unfolding extract
extract-transfers t =
    elim (Bool-cases (not t.has_meta || not t.success || length t.transaction.accounts == 0)) [
      | inl e ↦ rw e refl
      | inr e ↦ elim (Bool-cases (instruction_total t == 0)) [
        | inl e' ↦ rw e (rw e' (sym (no_instructions t (ground arith))))
        | inr e' ↦ rw e (rw e' (walked t))
      ]
    ]
