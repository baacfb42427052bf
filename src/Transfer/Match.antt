-- ===== src/Transfer/Match.antt =====
-- The array of rows never runs out, and is filled with the rows of the instructions, in order.
use solana_c_indexer.Base.{
  ℕ, ◌≤◌, ◌<◌, ◌≡◌, refl, sym, inl, inr, Option, none, some, List, [], ◌∷◌, ◌++◌, ◌==◌, leb,
  if◌then◌else◌, length, append_nil, Status, not_found, Result, value, fail, arith, Bool-cases,
  if_false,
}
use solana_c_indexer.Chain.{pubkey_equal, Transaction, Instruction}
use solana_c_indexer.VoteFilter.{program_id}
use solana_c_indexer.SystemProgram
use solana_c_indexer.SystemProgram.Decode as SystemDecode
use solana_c_indexer.TokenProgram
use solana_c_indexer.TokenProgram.Decode as TokenDecode
use solana_c_indexer.Token2022
use solana_c_indexer.Transfer.{
  Transfer, Builder, blank, builder_row, builder_commit, is_sol, resolve_from_balances,
}
use solana_c_indexer.Transfer.Fill.{fill_from_system, fill_from_token, fill_from_fee, fee_payload}
use solana_c_indexer.Transfer.Walk.{
  program_system, program_token, program_token_2022, failed, commit_filled, fill_decoded,
  extract_system, extract_token, extract_token_2022, extract_instruction,
}
use solana_c_indexer.Transfer.Reference.{
  settled, unknown, moved_system, moved_token, moved_fee, moved_payload, moved_token_2022, moved,
}

-- The builder gained the rows, at most `n`; or both failed.
pub data Matches (b : Builder) (n : ℕ) : Result Builder → Result (List Transfer) → Type 0 where
  both_fail : (s : Status) → Matches b n (fail s) (fail s)
  both_give :
      (b' : Builder) (rows : List Transfer)
      → b'.rows ≡ b.rows ++ rows
      → b'.capacity ≡ b.capacity
      → length rows ≤ n
      → Matches b n (value b') (value rows)

failed-Matches : (b : Builder) (s : Status) → Matches b 1 (failed b s) (unknown s)
unfolding failed
failed-Matches b not_found = both_give b [] (sym (append_nil b.rows)) refl (omega arith)
failed-Matches b s = both_fail _

filled-Matches :
    (tx : Transaction) (b : Builder) (row : Option Transfer)
    → Matches b 1 (commit_filled tx b row) (value (settled tx row))
unfolding commit_filled builder_commit
filled-Matches tx b none = both_give b [] (sym (append_nil b.rows)) refl (omega arith)
filled-Matches tx b (some row) = elim (Bool-cases (row.amount == 0)) [
  | inl e ↦ rw (e, builder_commit) (both_give b [] (sym (append_nil b.rows)) refl (omega arith))
  | inr e ↦
      let settled_row = if is_sol row.kind then row else resolve_from_balances tx row in
      rw (e, builder_commit)
        (both_give (record b { rows = b.rows ++ (settled_row ∷ []) }) (settled_row ∷ []) refl refl
          (omega arith))
]

builder_row-room : (b : Builder) → length b.rows < b.capacity → builder_row b ≡ some (blank b.place)
unfolding builder_row
builder_row-room b lt =
    if_false (leb b.capacity (length b.rows)) none (some (blank b.place)) (ground arith)

module _ (tx : Transaction) (b : Builder) (ix : Instruction) (lt : length b.rows < b.capacity) where
  system-Matches :
      (r : Result SystemProgram.SystemInstruction)
      → SystemDecode.decode tx ix ≡ r
      → Matches b 1 (extract_system tx b ix) (moved_system tx b.place r)
  unfolding extract_system
  system-Matches (fail s) e = rw (e, extract_system) (failed-Matches b s)
  system-Matches (value d) e =
      rw (e, extract_system)
        (rw (builder_row-room b lt)
          (filled-Matches tx b (fill_from_system d.operands (blank b.place))))

  token-Matches :
      (r : Result TokenProgram.TokenInstruction)
      → TokenDecode.decode tx ix ≡ r
      → Matches b 1 (extract_token tx b ix) (moved_token tx b.place r)
  unfolding extract_token
  token-Matches (fail s) e = rw (e, extract_token) (failed-Matches b s)
  token-Matches (value d) e =
      rw (e, extract_token)
        (rw (builder_row-room b lt)
          (filled-Matches tx b (fill_from_token d.operands (blank b.place))))

  fee-Matches :
      (kind : Token2022.Kind) (operands : Token2022.Operands) (payload : List ℕ)
      (r : Result Token2022.TransferWithFee)
      → fee_payload kind operands ≡ some payload
      → Token2022.transfer_with_fee_decode tx ix payload ≡ r
      → Matches b 1
          (fill_decoded tx b ix (Token2022.own kind operands) (blank b.place))
          (moved_fee tx b.place r)
  unfolding fill_decoded commit_filled
  fee-Matches kind operands payload (fail s) e e' =
      rw (e, fill_decoded) (rw (e', fill_decoded) (both_fail s))
  fee-Matches kind operands payload (value t) e e' =
      rw (e, fill_decoded)
        (rw (e', fill_decoded) (filled-Matches tx b (some (fill_from_fee t (blank b.place)))))

  own-Matches :
      (kind : Token2022.Kind) (operands : Token2022.Operands) (r : Option (List ℕ))
      → fee_payload kind operands ≡ r
      → Matches b 1
          (fill_decoded tx b ix (Token2022.own kind operands) (blank b.place))
          (moved_payload tx b.place ix r)
  unfolding fill_decoded
  own-Matches kind operands none e =
      rw (e, fill_decoded) (both_give b [] (sym (append_nil b.rows)) refl (omega arith))
  own-Matches kind operands (some payload) e = fee-Matches kind operands payload _ e refl

  token_2022-Matches :
      (r : Result Token2022.Decoded)
      → Token2022.decode tx ix ≡ r
      → Matches b 1 (extract_token_2022 tx b ix) (moved_token_2022 tx b.place ix r)
  unfolding extract_token_2022 fill_decoded
  token_2022-Matches (fail s) e = rw (e, extract_token_2022) (failed-Matches b s)
  token_2022-Matches (value (Token2022.base d)) e =
      rw (e, extract_token_2022)
        (rw (builder_row-room b lt)
          (filled-Matches tx b (fill_from_token d.operands (blank b.place))))
  token_2022-Matches (value (Token2022.own kind operands)) e =
      rw (e, extract_token_2022) (rw (builder_row-room b lt) (own-Matches kind operands _ refl))

  pub instruction-Matches : Matches b 1 (extract_instruction tx b ix) (moved tx (b.place, ix))
  unfolding extract_instruction
  instruction-Matches = elim (Bool-cases (pubkey_equal (program_id tx ix) program_system)) [
    | inl e ↦ rw e (system-Matches _ refl)
    | inr e ↦ elim (Bool-cases (pubkey_equal (program_id tx ix) program_token)) [
      | inl e' ↦ rw e (rw e' (token-Matches _ refl))
      | inr e' ↦ elim (Bool-cases (pubkey_equal (program_id tx ix) program_token_2022)) [
        | inl e'' ↦ rw e (rw e' (rw e'' (token_2022-Matches _ refl)))
        | inr e'' ↦
            rw e (rw e' (rw e'' (both_give b [] (sym (append_nil b.rows)) refl (omega arith))))
      ]
    ]
  ]
