-- ===== src/Transfer/Order.antt =====
-- The order of the rows, and that each moves something.
use mathlib.Core.Path.{subst}
use solana_c_indexer.Base.{
  ℕ, ◌+◌, ◌*◌, ◌^◌, ◌≤◌, ◌<◌, ◌≡◌, ◌≢◌, refl, sym, inl, inr, ◌⊎◌, true, not, ◌||◌, Option, none,
  some, List, [], ◌∷◌, ◌++◌, ◌==◌, if◌then◌else◌, length, All, Status, not_found, Result, value,
  fail, arith, Bool-cases,
}
use solana_c_indexer.Chain.{pubkey_equal, Transaction, Instruction}
use solana_c_indexer.VoteFilter.{program_id}
use solana_c_indexer.SystemProgram
use solana_c_indexer.SystemProgram.Decode as SystemDecode
use solana_c_indexer.TokenProgram
use solana_c_indexer.TokenProgram.Decode as TokenDecode
use solana_c_indexer.Token2022
use solana_c_indexer.Transfer.{
  Place, Transfer, InnerGroup, Executed, blank, is_sol, resolve_from_balances,
}
use solana_c_indexer.Transfer.Fill.{fill_from_system, fill_from_token, fill_from_fee, fee_payload}
use solana_c_indexer.Transfer.Walk.{
  program_system, program_token, program_token_2022, inner_group, extract,
}
use solana_c_indexer.Transfer.Reference.{
  top_place, inner_place, inner_visits, group_visits, visits, settled, unknown, moved_system,
  moved_token, moved_fee, moved_payload, moved_token_2022, moved, followed, collected,
}
use solana_c_indexer.Transfer.Complete.{extract-transfers}

-- The order of execution as a number, with room for every inner place behind a top-level one.
abbrev pub rank : Place → ℕ
rank p = p.instruction_index * 2 ^ 17 + (if p.inner then 1 + p.inner_index else 0)

-- Ranks that strictly increase, from `low` on.
abbrev pub Above {ℓ} : {A : Type ℓ} → (A → Place) → ℕ → List A → Type 0
Above place low [] = Unit {0}
Above place low (x ∷ xs) = (low ≤ rank (place x)) × Above place (rank (place x) + 1) xs

Above-le {ℓ} :
    {A : Type ℓ} (place : A → Place) (low high : ℕ) (xs : List A)
    → low ≤ high
    → Above place high xs
    → Above place low xs
Above-le place low high [] le above = tt
Above-le place low high (x ∷ xs) le (first, rest) = (omega arith, rest)

-- At most one row, at the place, which moves something.
data Single (p : Place) : Result (List Transfer) → Type 0 where
  failing : (s : Status) → Single p (fail s)
  nothing : Single p (value [])
  single : (row : Transfer) → row.place ≡ p → row.amount ≢ 0 → Single p (value (row ∷ []))

system-place :
    (tx : Transaction) (p : Place) (operands : SystemProgram.Operands)
    → (fill_from_system operands (blank p) ≡ none)
      ⊎ ((row : Transfer) × (fill_from_system operands (blank p) ≡ some row) × (row.place ≡ p))
unfolding fill_from_system
system-place tx p (SystemProgram.transferred _ _ _) = inr (_, refl, refl)
system-place tx p (SystemProgram.transferred_with_seed _ _ _ _ _ _) = inr (_, refl, refl)
system-place tx p (SystemProgram.created _ _ _ _ _) = inr (_, refl, refl)
system-place tx p (SystemProgram.created_with_seed _ _ _ _ _ _ _) = inr (_, refl, refl)
system-place tx p (SystemProgram.withdrawn _ _ _ _) = inr (_, refl, refl)
system-place tx p other = inl refl

token-place :
    (tx : Transaction) (p : Place) (operands : TokenProgram.Operands)
    → (fill_from_token operands (blank p) ≡ none)
      ⊎ ((row : Transfer) × (fill_from_token operands (blank p) ≡ some row) × (row.place ≡ p))
unfolding fill_from_token
token-place tx p (TokenProgram.transferred _ _ _ _ _ _) = inr (_, refl, refl)
token-place tx p (TokenProgram.minted _ _ _ _ _) = inr (_, refl, refl)
token-place tx p (TokenProgram.burned _ _ _ _ _) = inr (_, refl, refl)
token-place tx p other = inl refl

settled-Single :
    (tx : Transaction) (p : Place) (row : Transfer)
    → row.place ≡ p
    → Single p (value (settled tx (some row)))
unfolding resolve_from_balances
settled-Single tx p row at_p = elim (Bool-cases (row.amount == 0)) [
  | inl e ↦ rw e nothing
  | inr e ↦ rw e (elim (Bool-cases (is_sol row.kind)) [
    | inl e' ↦ rw e' (single row at_p (ground arith))
    | inr e' ↦ rw e' (single (resolve_from_balances tx row) at_p (ground arith))
  ])
]

option-Single :
    (tx : Transaction) (p : Place) (r : Option Transfer)
    → (r ≡ none) ⊎ ((row : Transfer) × (r ≡ some row) × (row.place ≡ p))
    → Single p (value (settled tx r))
option-Single tx p r (inl e) = subst (λ o. Single p (value (settled tx o))) (sym e) nothing
option-Single tx p r (inr (row, e, at_p)) =
    subst (λ o. Single p (value (settled tx o))) (sym e) (settled-Single tx p row at_p)

unknown-Single : (p : Place) (s : Status) → Single p (unknown s)
unknown-Single p not_found = nothing
unknown-Single p s = failing _

module _ (tx : Transaction) (p : Place) (ix : Instruction) where
  system-Single : (r : Result SystemProgram.SystemInstruction) → Single p (moved_system tx p r)
  system-Single (fail s) = unknown-Single p s
  system-Single (value d) = option-Single tx p _ (system-place tx p d.operands)

  token-Single : (r : Result TokenProgram.TokenInstruction) → Single p (moved_token tx p r)
  token-Single (fail s) = unknown-Single p s
  token-Single (value d) = option-Single tx p _ (token-place tx p d.operands)

  fee-Single : (r : Result Token2022.TransferWithFee) → Single p (moved_fee tx p r)
  unfolding fill_from_fee
  fee-Single (fail s) = failing s
  fee-Single (value t) = settled-Single tx p (fill_from_fee t (blank p)) refl

  payload-Single : (r : Option (List ℕ)) → Single p (moved_payload tx p ix r)
  payload-Single none = nothing
  payload-Single (some payload) = fee-Single (Token2022.transfer_with_fee_decode tx ix payload)

  token_2022-Single : (r : Result Token2022.Decoded) → Single p (moved_token_2022 tx p ix r)
  token_2022-Single (fail s) = unknown-Single p s
  token_2022-Single (value (Token2022.base d)) = option-Single tx p _ (token-place tx p d.operands)
  token_2022-Single (value (Token2022.own kind operands)) =
      payload-Single (fee_payload kind operands)

  moved-Single : Single p (moved tx (p, ix))
  moved-Single = elim (Bool-cases (pubkey_equal (program_id tx ix) program_system)) [
    | inl e ↦ rw e (system-Single (SystemDecode.decode tx ix))
    | inr e ↦ elim (Bool-cases (pubkey_equal (program_id tx ix) program_token)) [
      | inl e' ↦ rw e (rw e' (token-Single (TokenDecode.decode tx ix)))
      | inr e' ↦ elim (Bool-cases (pubkey_equal (program_id tx ix) program_token_2022)) [
        | inl e'' ↦ rw e (rw e' (rw e'' (token_2022-Single (Token2022.decode tx ix))))
        | inr e'' ↦ rw e (rw e' (rw e'' nothing))
      ]
    ]
  ]

-- Rows in the order of execution, each of which moves something.
abbrev pub Ordered : ℕ → Result (List Transfer) → Type 0
Ordered low (fail s) = Unit {0}
Ordered low (value rows) =
    Above (λ (row : Transfer). row.place) low rows × All (λ (row : Transfer). row.amount ≢ 0) rows

Ordered-le :
    (low high : ℕ) (r : Result (List Transfer)) → low ≤ high → Ordered high r → Ordered low r
Ordered-le low high (fail s) le ordered = tt
Ordered-le low high (value rows) le (above, all) =
    (Above-le (λ (row : Transfer). row.place) low high rows le above, all)

followed-Ordered :
    (p : Place) (low : ℕ) (r s : Result (List Transfer))
    → low ≤ rank p
    → Single p r
    → Ordered (rank p + 1) s
    → Ordered low (followed r s)
followed-Ordered p low r s le (failing e) ordered = tt
followed-Ordered p low r (fail e) le nothing ordered = tt
followed-Ordered p low r (value rows) le nothing (above, all) =
    (Above-le (λ (row : Transfer). row.place) low (rank p + 1) rows (omega arith) above, all)
followed-Ordered p low r (fail e) le (single row at_p some_amount) ordered = tt
followed-Ordered p low r (value rows) le (single row at_p some_amount) (above, all) = (
  (
    subst (λ q. low ≤ rank q) (sym at_p) le,
    subst (λ q. Above (λ (row : Transfer). row.place) (rank q + 1) rows) (sym at_p) above,
  ),
  (some_amount, all),
)

abbrev visit_place : Place × Instruction → Place
visit_place v = v.0

collected-Ordered :
    (tx : Transaction) (vs : List (Place × Instruction)) (low : ℕ)
    → Above visit_place low vs
    → Ordered low (collected tx vs)
collected-Ordered tx [] low above = (tt, tt)
collected-Ordered tx ((p, ix) ∷ vs) low (le, rest) =
    followed-Ordered p low (moved tx (p, ix)) (collected tx vs) le (moved-Single tx p ix)
      (collected-Ordered tx vs (rank p + 1) rest)

inner-Above :
    (i j : ℕ) (ixs : List Instruction) (ys : List (Place × Instruction))
    → i < 2 ^ 16
    → j + length ixs ≤ 2 ^ 16
    → Above visit_place ((i + 1) * 2 ^ 17) ys
    → Above visit_place (i * 2 ^ 17 + 1 + j) (inner_visits i j ixs ++ ys)
inner-Above i j [] ys lt le above =
    Above-le visit_place (i * 2 ^ 17 + 1 + j) ((i + 1) * 2 ^ 17) ys (omega (arith, le)) above
inner-Above i j (ix ∷ rest) ys lt le above =
    let here : rank (inner_place i j) ≡ i * 2 ^ 17 + 1 + j = omega (arith, le) in
    let there : rank (inner_place i j) + 1 ≡ i * 2 ^ 17 + 1 + (j + 1) = omega (arith, here) in
    (
      omega (arith, here),
      subst (λ low. Above visit_place low (inner_visits i (j + 1) rest ++ ys)) (sym there)
          (inner-Above i (j + 1) rest ys lt (omega (arith, le)) above),
    )

-- No group has more instructions than sixteen bits can count.
abbrev pub IsNarrow : List InnerGroup → Type 0
IsNarrow groups = All (λ (g : InnerGroup). length g.instructions ≤ 2 ^ 16) groups

group-Above :
    (groups : List InnerGroup) (i : ℕ) (ys : List (Place × Instruction))
    → i < 2 ^ 16
    → IsNarrow groups
    → Above visit_place ((i + 1) * 2 ^ 17) ys
    → Above visit_place (i * 2 ^ 17 + 1) (group_visits i (inner_group groups i) ++ ys)
unfolding inner_group
group-Above [] i ys lt narrow above =
    Above-le visit_place (i * 2 ^ 17 + 1) ((i + 1) * 2 ^ 17) ys (omega arith) above
group-Above (g ∷ rest) i ys lt (few, narrow) above = elim (Bool-cases (g.index == i)) [
  | inl e ↦ rw e (
      subst (λ low. Above visit_place low (inner_visits i 0 g.instructions ++ ys)) (omega arith)
        (inner-Above i 0 g.instructions ys lt (omega (arith, few)) above))
  | inr e ↦ rw e (group-Above rest i ys lt narrow above)
]

visits-Above :
    (groups : List InnerGroup) (i : ℕ) (ixs : List Instruction)
    → i + length ixs ≤ 2 ^ 16
    → IsNarrow groups
    → Above visit_place (i * 2 ^ 17) (visits groups i ixs)
visits-Above groups i [] le narrow = tt
visits-Above groups i (ix ∷ rest) le narrow =
    let here : rank (top_place i) ≡ i * 2 ^ 17 = omega (arith, le) in
    (
      omega (arith, here),
      subst
          (λ low.
            Above visit_place low
              (group_visits i (inner_group groups i) ++ visits groups (i + 1) rest))
          (omega (arith, here))
          (group-Above groups i (visits groups (i + 1) rest) (omega (arith, le)) narrow
            (visits-Above groups (i + 1) rest (omega (arith, le)) narrow)),
    )

-- Of a transaction with at most 2 ^ 16 top-level instructions, and as many in each group, the rows
-- that the extraction returns, where it succeeds, stand at strictly increasing places, a top-level
-- instruction before the inner ones of its group, so no two rows have the same place; and each row
-- moves an amount that is not zero.
pub extract-Ordered :
    (t : Executed)
    → length t.instructions ≤ 2 ^ 16
    → IsNarrow t.inner_instructions
    → Ordered 0 (extract true t)
extract-Ordered t le narrow =
    subst (Ordered 0) (sym (extract-transfers t))
      (elim (Bool-cases (not t.has_meta || not t.success || length t.transaction.accounts == 0)) [
        | inl e ↦ rw e (tt, tt)
        | inr e ↦ rw e (
            collected-Ordered t.transaction (visits t.inner_instructions 0 t.instructions) 0
              (visits-Above t.inner_instructions 0 t.instructions (omega (arith, le)) narrow))
      ])
