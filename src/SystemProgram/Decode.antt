-- ===== src/SystemProgram/Decode.antt =====
-- `idx_system_instruction_decode` and its helper for seeds.
use solana_c_indexer.Base.{
  ℕ, none, some, List, ltb, if◌then◌else◌, get_or, not_found, range, Result, value, fail, ◌>>=◌,
}
use solana_c_indexer.Bytes.{Byte}
use solana_c_indexer.Bytes.Cursor.{Cursor, init, remaining, take_bytes, u32le, u64le}
use solana_c_indexer.Chain.{Transaction, Instruction, require_account, read_pubkey}
use solana_c_indexer.SystemProgram.{
  Kind, create_account, assign, transfer, create_account_with_seed, advance_nonce_account,
  withdraw_nonce_account, initialize_nonce_account, authorize_nonce_account, allocate,
  allocate_with_seed, assign_with_seed, transfer_with_seed, upgrade_nonce_account, kinds, Operands,
  created, assigned, transferred, created_with_seed, nonce, withdrawn, nonce_authority, allocated,
  allocated_with_seed, assigned_with_seed, transferred_with_seed, SystemInstruction,
}

-- `read_seed`
unfoldable pub read_seed : Cursor → Result (List Byte × Cursor)
read_seed c = do
  (len, c') ← u64le c
  if ltb (remaining c') len then fail range else take_bytes c' len

-- The `switch` of `idx_system_instruction_decode`, with the cursor behind the discriminant.
unfoldable pub decode_variant : Kind → Transaction → Instruction → Cursor → Result Operands
decode_variant create_account tx ix c = do
  funder ← require_account tx ix 0
  account ← require_account tx ix 1
  (lamports, c1) ← u64le c
  (space, c2) ← u64le c1
  (owner, c3) ← read_pubkey c2
  value (created funder account lamports space owner)
decode_variant assign tx ix c = do
  account ← require_account tx ix 0
  (owner, c1) ← read_pubkey c
  value (assigned account owner)
decode_variant transfer tx ix c = do
  from ← require_account tx ix 0
  to ← require_account tx ix 1
  (lamports, c1) ← u64le c
  value (transferred from to lamports)
decode_variant create_account_with_seed tx ix c = do
  funder ← require_account tx ix 0
  account ← require_account tx ix 1
  (base, c1) ← read_pubkey c
  (seed, c2) ← read_seed c1
  (lamports, c3) ← u64le c2
  (space, c4) ← u64le c3
  (owner, c5) ← read_pubkey c4
  value (created_with_seed funder account base seed lamports space owner)
decode_variant advance_nonce_account tx ix c = do
  account ← require_account tx ix 0
  authority ← require_account tx ix 2
  value (nonce account (some authority))
decode_variant upgrade_nonce_account tx ix c = do
  account ← require_account tx ix 0
  value (nonce account none)
decode_variant withdraw_nonce_account tx ix c = do
  account ← require_account tx ix 0
  to ← require_account tx ix 1
  authority ← require_account tx ix 4
  (lamports, c1) ← u64le c
  value (withdrawn account to authority lamports)
decode_variant initialize_nonce_account tx ix c = do
  account ← require_account tx ix 0
  (new_authority, c1) ← read_pubkey c
  value (nonce_authority account none new_authority)
decode_variant authorize_nonce_account tx ix c = do
  account ← require_account tx ix 0
  authority ← require_account tx ix 1
  (new_authority, c1) ← read_pubkey c
  value (nonce_authority account (some authority) new_authority)
decode_variant allocate tx ix c = do
  account ← require_account tx ix 0
  (space, c1) ← u64le c
  value (allocated account space)
decode_variant allocate_with_seed tx ix c = do
  account ← require_account tx ix 0
  base_account ← require_account tx ix 1
  (base, c1) ← read_pubkey c
  (seed, c2) ← read_seed c1
  (space, c3) ← u64le c2
  (owner, c4) ← read_pubkey c3
  value (allocated_with_seed account base_account base seed space owner)
decode_variant assign_with_seed tx ix c = do
  account ← require_account tx ix 0
  base_account ← require_account tx ix 1
  (base, c1) ← read_pubkey c
  (seed, c2) ← read_seed c1
  (owner, c3) ← read_pubkey c2
  value (assigned_with_seed account base_account base seed owner)
decode_variant transfer_with_seed tx ix c = do
  from ← require_account tx ix 0
  base_account ← require_account tx ix 1
  to ← require_account tx ix 2
  (lamports, c1) ← u64le c
  (from_seed, c2) ← read_seed c1
  (from_owner, c3) ← read_pubkey c2
  value (transferred_with_seed from base_account to lamports from_seed from_owner)

-- The rest of the call, where the discriminant is known.
unfoldable pub decode_kind : Kind → Transaction → Instruction → Cursor → Result SystemInstruction
decode_kind kind tx ix c = do
  operands ← decode_variant kind tx ix c
  value (record { kind = kind; operands = operands })

-- `idx_system_instruction_decode`. The error for an unhandled variant, behind the `switch`, is not
-- reached: every discriminant up to 12 has a case.
unfoldable pub decode : Transaction → Instruction → Result SystemInstruction
unfolding decode_kind
decode tx ix = u32le (init ix.payload) >>= λ (p : ℕ × Cursor).
    if ltb 12 p.0 then fail not_found else decode_kind (get_or kinds p.0 create_account) tx ix p.1
