-- ===== src/Transfer/Reference.antt =====
-- The rows of a transaction, instruction by instruction, with no array to fill.
use solana_c_indexer.Base.{
  ℕ, ◌+◌, ◌%◌, ◌^◌, true, false, Option, none, some, List, [], ◌∷◌, ◌++◌, ◌==◌, if◌then◌else◌,
  Status, not_found, Result, value, fail, ◌>>=◌,
}
use solana_c_indexer.Chain.{pubkey_equal, Transaction, Instruction}
use solana_c_indexer.VoteFilter.{program_id}
use solana_c_indexer.SystemProgram
use solana_c_indexer.SystemProgram.Decode as SystemDecode
use solana_c_indexer.TokenProgram
use solana_c_indexer.TokenProgram.Decode as TokenDecode
use solana_c_indexer.Token2022
use solana_c_indexer.Transfer.{Place, Transfer, InnerGroup, blank, is_sol, resolve_from_balances}
use solana_c_indexer.Transfer.Fill.{fill_from_system, fill_from_token, fill_from_fee, fee_payload}
use solana_c_indexer.Transfer.Walk.{program_system, program_token, program_token_2022, inner_group}

abbrev pub top_place : ℕ → Place
top_place i = record { instruction_index = i % 2 ^ 16; inner_index = 0; inner = false }

abbrev pub inner_place : ℕ → ℕ → Place
inner_place i j = record { instruction_index = i % 2 ^ 16; inner_index = j % 2 ^ 16; inner = true }

-- The instructions that the transaction executed, with their places: each top-level one, and behind
-- it the inner ones of its group.
abbrev pub inner_visits : ℕ → ℕ → List Instruction → List (Place × Instruction)
inner_visits i j [] = []
inner_visits i j (ix ∷ rest) = (inner_place i j, ix) ∷ inner_visits i (j + 1) rest

abbrev pub group_visits : ℕ → Option InnerGroup → List (Place × Instruction)
group_visits i none = []
group_visits i (some group) = inner_visits i 0 group.instructions

abbrev pub visits : List InnerGroup → ℕ → List Instruction → List (Place × Instruction)
visits groups i [] = []
visits groups i (ix ∷ rest) =
    (top_place i, ix) ∷ (group_visits i (inner_group groups i) ++ visits groups (i + 1) rest)

-- A row that moves something, with what the balances say of a token movement.
abbrev pub settled : Transaction → Option Transfer → List Transfer
settled tx none = []
settled tx (some row) =
    if row.amount == 0
    then []
    else (if is_sol row.kind then row else resolve_from_balances tx row) ∷ []

abbrev pub unknown : Status → Result (List Transfer)
unknown not_found = value []
unknown other = fail other

abbrev pub moved_system :
    Transaction → Place → Result SystemProgram.SystemInstruction → Result (List Transfer)
moved_system tx place (fail s) = unknown s
moved_system tx place (value d) = value (settled tx (fill_from_system d.operands (blank place)))

abbrev pub moved_token :
    Transaction → Place → Result TokenProgram.TokenInstruction → Result (List Transfer)
moved_token tx place (fail s) = unknown s
moved_token tx place (value d) = value (settled tx (fill_from_token d.operands (blank place)))

abbrev pub moved_fee :
    Transaction → Place → Result Token2022.TransferWithFee → Result (List Transfer)
moved_fee tx place (fail s) = fail s
moved_fee tx place (value t) = value (settled tx (some (fill_from_fee t (blank place))))

abbrev pub moved_payload :
    Transaction → Place → Instruction → Option (List ℕ) → Result (List Transfer)
moved_payload tx place ix none = value []
moved_payload tx place ix (some payload) =
    moved_fee tx place (Token2022.transfer_with_fee_decode tx ix payload)

abbrev pub moved_token_2022 :
    Transaction → Place → Instruction → Result Token2022.Decoded → Result (List Transfer)
moved_token_2022 tx place ix (fail s) = unknown s
moved_token_2022 tx place ix (value (Token2022.base d)) =
    value (settled tx (fill_from_token d.operands (blank place)))
moved_token_2022 tx place ix (value (Token2022.own kind operands)) =
    moved_payload tx place ix (fee_payload kind operands)

-- The rows of one instruction, none or one, by its program.
abbrev pub moved : Transaction → Place × Instruction → Result (List Transfer)
moved tx (place, ix) =
    if pubkey_equal (program_id tx ix) program_system
    then moved_system tx place (SystemDecode.decode tx ix)
    else if pubkey_equal (program_id tx ix) program_token
    then moved_token tx place (TokenDecode.decode tx ix)
    else if pubkey_equal (program_id tx ix) program_token_2022
    then moved_token_2022 tx place ix (Token2022.decode tx ix)
    else value []

abbrev pub followed : Result (List Transfer) → Result (List Transfer) → Result (List Transfer)
followed r s = r >>= λ (rows : List Transfer). s >>= λ (more : List Transfer). value (rows ++ more)

-- The rows of all the instructions, in order, or the first error.
abbrev pub collected : Transaction → List (Place × Instruction) → Result (List Transfer)
collected tx [] = value []
collected tx (visit ∷ rest) = followed (moved tx visit) (collected tx rest)
