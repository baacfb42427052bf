-- ===== src/TokenProgram/Decode.antt =====
-- `idx_token_instruction_decode` and the helpers that it calls.
use solana_c_indexer.Base.{
  ℕ, Bool, true, false, ◌||◌, Option, none, some, drop, ltb, ◌==◌, if◌then◌else◌, get_or, parse,
  not_found, Result, value, fail, ◌>>=◌,
}
use solana_c_indexer.Bytes.Cursor.{Cursor, init, remaining, take_bytes, u8, u64le}
use solana_c_indexer.Chain.{
  Pubkey, pubkey_equal, Transaction, Instruction, require_account, read_pubkey,
}
use solana_c_indexer.TokenProgram.{
  Kind, initialize_mint, initialize_account, initialize_multisig, transfer, approve, revoke,
  set_authority, mint_to, burn, close_account, freeze_account, thaw_account, transfer_checked,
  approve_checked, mint_to_checked, burn_checked, initialize_account2, sync_native,
  initialize_account3, initialize_multisig2, initialize_mint2, get_account_data_size,
  initialize_immutable_owner, amount_to_ui_amount, ui_amount_to_amount, kinds, Operands,
  initialized_mint, initialized_account, initialized_multisig, transferred, approved, revoked,
  authority_set, minted, burned, closed, frozen, account_only, mint_query, ui_amount,
  TokenInstruction,
}

-- `idx_token_program_matches`, over the ids of the two token programs.
unfoldable pub token_program_matches : Pubkey → Pubkey → Pubkey → Bool
token_program_matches token token_2022 program_id =
    pubkey_equal program_id token || pubkey_equal program_id token_2022

-- `read_optional_pubkey`
optional_from : ℕ → Cursor → Result (Option Pubkey × Cursor)
optional_from tag c =
    if tag == 0
    then value (none, c)
    else if tag == 1
    then (read_pubkey c >>= λ (p : Pubkey × Cursor). value (some p.0, p.1))
    else fail parse

unfoldable pub read_optional_pubkey : Cursor → Result (Option Pubkey × Cursor)
unfolding optional_from
read_optional_pubkey c = do (tag, c1) ← u8 c; optional_from tag c1

-- `read_amount`: the amount, and the decimals of a checked operation.
unfoldable pub read_amount : Bool → Cursor → Result ((ℕ × Option ℕ) × Cursor)
read_amount false c = do (amount, c1) ← u64le c; value ((amount, none), c1)
read_amount true c = do
  (amount, c1) ← u64le c
  (decimals, c2) ← u8 c1
  value ((amount, some decimals), c2)

-- `decode_initialize_mint`
unfoldable pub decode_initialize_mint : Transaction → Instruction → Cursor → Result Operands
decode_initialize_mint tx ix c = do
  mint ← require_account tx ix 0
  (decimals, c1) ← u8 c
  (mint_authority, c2) ← read_pubkey c1
  (freeze_authority, c3) ← read_optional_pubkey c2
  value (initialized_mint mint mint_authority freeze_authority decimals)

-- `decode_initialize_account`; `named` says that the owner is an account.
unfoldable pub decode_initialize_account :
    Bool → Transaction → Instruction → Cursor → Result Operands
decode_initialize_account false tx ix c = do
  account ← require_account tx ix 0
  mint ← require_account tx ix 1
  (owner, c1) ← read_pubkey c
  value (initialized_account account mint none owner)
decode_initialize_account true tx ix c = do
  account ← require_account tx ix 0
  mint ← require_account tx ix 1
  owner ← require_account tx ix 2
  value (initialized_account account mint (some owner) owner)

-- `decode_initialize_multisig`; the signers stand behind the accounts before `first_signer`.
unfoldable pub decode_initialize_multisig : ℕ → Transaction → Instruction → Cursor → Result Operands
decode_initialize_multisig first_signer tx ix c = do
  multisig ← require_account tx ix 0
  (required_signatures, c1) ← u8 c
  value (initialized_multisig multisig (drop first_signer ix.account_indices) required_signatures)

-- The `switch` of `idx_token_instruction_decode`, with the cursor behind the discriminant.
unfoldable pub decode_variant : Kind → Transaction → Instruction → Cursor → Result Operands
decode_variant initialize_mint tx ix c = decode_initialize_mint tx ix c
decode_variant initialize_mint2 tx ix c = decode_initialize_mint tx ix c
decode_variant initialize_account tx ix c = decode_initialize_account true tx ix c
decode_variant initialize_account2 tx ix c = decode_initialize_account false tx ix c
decode_variant initialize_account3 tx ix c = decode_initialize_account false tx ix c
decode_variant initialize_multisig tx ix c = decode_initialize_multisig 2 tx ix c
decode_variant initialize_multisig2 tx ix c = decode_initialize_multisig 1 tx ix c
decode_variant transfer tx ix c = do
  source ← require_account tx ix 0
  destination ← require_account tx ix 1
  authority ← require_account tx ix 2
  ((amount, decimals), c1) ← read_amount false c
  value (transferred source destination authority none amount decimals)
decode_variant transfer_checked tx ix c = do
  source ← require_account tx ix 0
  mint ← require_account tx ix 1
  destination ← require_account tx ix 2
  authority ← require_account tx ix 3
  ((amount, decimals), c1) ← read_amount true c
  value (transferred source destination authority (some mint) amount decimals)
decode_variant approve tx ix c = do
  source ← require_account tx ix 0
  delegate ← require_account tx ix 1
  owner ← require_account tx ix 2
  ((amount, decimals), c1) ← read_amount false c
  value (approved source delegate owner none amount decimals)
decode_variant approve_checked tx ix c = do
  source ← require_account tx ix 0
  mint ← require_account tx ix 1
  delegate ← require_account tx ix 2
  owner ← require_account tx ix 3
  ((amount, decimals), c1) ← read_amount true c
  value (approved source delegate owner (some mint) amount decimals)
decode_variant revoke tx ix c = do
  source ← require_account tx ix 0
  owner ← require_account tx ix 1
  value (revoked source owner)
decode_variant set_authority tx ix c = do
  account ← require_account tx ix 0
  authority ← require_account tx ix 1
  (authority_type, c1) ← u8 c
  (new_authority, c2) ← read_optional_pubkey c1
  value (authority_set account authority new_authority authority_type)
decode_variant mint_to tx ix c = do
  mint ← require_account tx ix 0
  account ← require_account tx ix 1
  authority ← require_account tx ix 2
  ((amount, decimals), c1) ← read_amount false c
  value (minted mint account authority amount decimals)
decode_variant mint_to_checked tx ix c = do
  mint ← require_account tx ix 0
  account ← require_account tx ix 1
  authority ← require_account tx ix 2
  ((amount, decimals), c1) ← read_amount true c
  value (minted mint account authority amount decimals)
decode_variant burn tx ix c = do
  account ← require_account tx ix 0
  mint ← require_account tx ix 1
  authority ← require_account tx ix 2
  ((amount, decimals), c1) ← read_amount false c
  value (burned account mint authority amount decimals)
decode_variant burn_checked tx ix c = do
  account ← require_account tx ix 0
  mint ← require_account tx ix 1
  authority ← require_account tx ix 2
  ((amount, decimals), c1) ← read_amount true c
  value (burned account mint authority amount decimals)
decode_variant close_account tx ix c = do
  account ← require_account tx ix 0
  destination ← require_account tx ix 1
  owner ← require_account tx ix 2
  value (closed account destination owner)
decode_variant freeze_account tx ix c = do
  account ← require_account tx ix 0
  mint ← require_account tx ix 1
  authority ← require_account tx ix 2
  value (frozen account mint authority)
decode_variant thaw_account tx ix c = do
  account ← require_account tx ix 0
  mint ← require_account tx ix 1
  authority ← require_account tx ix 2
  value (frozen account mint authority)
decode_variant sync_native tx ix c = do
  account ← require_account tx ix 0
  value (account_only account)
decode_variant initialize_immutable_owner tx ix c = do
  account ← require_account tx ix 0
  value (account_only account)
decode_variant get_account_data_size tx ix c = do
  mint ← require_account tx ix 0
  value (mint_query mint 0)
decode_variant amount_to_ui_amount tx ix c = do
  mint ← require_account tx ix 0
  (amount, c1) ← u64le c
  value (mint_query mint amount)
decode_variant ui_amount_to_amount tx ix c = do
  mint ← require_account tx ix 0
  (text, c1) ← take_bytes c (remaining c)
  value (ui_amount mint text)

-- The rest of the call, where the discriminant is known.
unfoldable pub decode_kind : Kind → Transaction → Instruction → Cursor → Result TokenInstruction
decode_kind kind tx ix c = do
  operands ← decode_variant kind tx ix c
  value (record { kind = kind; operands = operands })

-- `idx_token_instruction_decode`. The error for an unhandled variant, behind the `switch`, is not
-- reached: every discriminant up to 24 has a case.
unfoldable pub decode : Transaction → Instruction → Result TokenInstruction
unfolding decode_kind
decode tx ix = u8 (init ix.payload) >>= λ (p : ℕ × Cursor).
    if ltb 24 p.0 then fail not_found else decode_kind (get_or kinds p.0 initialize_mint) tx ix p.1
