-- ===== src/Token2022.antt =====
-- src/token_2022.c: the decoder of the Token-2022 program, on top of the decoder of the token program.
-- What a failing call has written to `*out` is not represented.
pub mod Layout
pub mod RoundTrip
pub mod Fee
pub mod Errors
mod Examples
use solana_c_indexer.Base.{
  ℕ, ◌+◌, ◌-◌, ◌*◌, ◌/◌, ◌%◌, ◌^◌, Bool, true, false, not, Option, none, some, List, [], ◌∷◌, ltb,
  leb, ◌==◌, if◌then◌else◌, get_or, length, parse, not_found, internal, Result, value, fail, ◌>>=◌,
}
use solana_c_indexer.Bytes.{Byte}
use solana_c_indexer.Bytes.Cursor.{Cursor, init, remaining, take_bytes, copy, u8, u64le}
use solana_c_indexer.Chain.{Pubkey, Transaction, Instruction, require_account}
use solana_c_indexer.TokenProgram.{TokenInstruction}
use solana_c_indexer.TokenProgram.Decode

-- `idx_token_2022_ix_kind`
pub data Kind : Type 0 where
  initialize_mint_close_authority transfer_fee_extension confidential_transfer_extension
        default_account_state_extension reallocate memo_transfer_extension create_native_mint
        initialize_non_transferable_mint interest_bearing_mint_extension cpi_guard_extension :
      Kind
  initialize_permanent_delegate transfer_hook_extension confidential_transfer_fee_extension
        withdraw_excess_lamports metadata_pointer_extension group_pointer_extension
        group_member_pointer_extension confidential_mint_burn_extension scaled_ui_amount_extension
        pausable_extension :
      Kind

-- The discriminants 25 to 44, in order.
abbrev pub kinds : List Kind
kinds =
    initialize_mint_close_authority ∷ transfer_fee_extension ∷ confidential_transfer_extension
    ∷ default_account_state_extension ∷ reallocate ∷ memo_transfer_extension ∷ create_native_mint
    ∷ initialize_non_transferable_mint ∷ interest_bearing_mint_extension ∷ cpi_guard_extension
    ∷ initialize_permanent_delegate ∷ transfer_hook_extension ∷ confidential_transfer_fee_extension
    ∷ withdraw_excess_lamports ∷ metadata_pointer_extension ∷ group_pointer_extension
    ∷ group_member_pointer_extension ∷ confidential_mint_burn_extension ∷ scaled_ui_amount_extension
    ∷ pausable_extension ∷ []

-- `idx_token_2022_ix_is_extension`
unfoldable pub is_extension : Kind → Bool
is_extension initialize_mint_close_authority = false
is_extension reallocate = false
is_extension create_native_mint = false
is_extension initialize_non_transferable_mint = false
is_extension initialize_permanent_delegate = false
is_extension withdraw_excess_lamports = false
is_extension transfer_fee_extension = true
is_extension confidential_transfer_extension = true
is_extension default_account_state_extension = true
is_extension memo_transfer_extension = true
is_extension interest_bearing_mint_extension = true
is_extension cpi_guard_extension = true
is_extension transfer_hook_extension = true
is_extension confidential_transfer_fee_extension = true
is_extension metadata_pointer_extension = true
is_extension group_pointer_extension = true
is_extension group_member_pointer_extension = true
is_extension confidential_mint_burn_extension = true
is_extension scaled_ui_amount_extension = true
is_extension pausable_extension = true

-- The union of `idx_token_2022_instruction`; the count of a reallocation is half the bytes.
pub data Operands : Type 0 where
  close_authority_initialized : (mint : Pubkey) (close_authority : Option Pubkey) → Operands
  delegate_initialized : (mint delegate : Pubkey) → Operands
  mint_only : (mint : Pubkey) (payer : Option Pubkey) → Operands
  excess_withdrawn : (source destination authority : Pubkey) → Operands
  reallocated :
      (account payer owner : Pubkey) (extension_types : List Byte) (extension_type_count : ℕ)
      → Operands
  extension : (sub_discriminant : ℕ) (payload : List Byte) → Operands

-- `idx_token_2022_instruction`, by `is_base`.
pub data Decoded : Type 0 where
  base : (instruction : TokenInstruction) → Decoded
  own : (kind : Kind) (operands : Operands) → Decoded

-- `idx_token_2022_extension_type_at`. The bytes stand at disjoint bits, so `|` is the sum.
unfoldable pub extension_type_at : List Byte → ℕ → ℕ
extension_type_at extension_types index =
    if leb (length extension_types / 2) index
    then 0
    else get_or extension_types (index * 2) 0
      + get_or extension_types (index * 2 + 1) 0 * 2 ^ 8 % 2 ^ 16

-- `idx_token_2022_transfer_with_fee`
pub record TransferWithFee : Type 0 where
  pub source : Pubkey
  pub mint : Pubkey
  pub destination : Pubkey
  pub authority : Pubkey
  pub amount : ℕ
  pub fee : ℕ
  pub decimals : ℕ

-- `idx_token_2022_transfer_with_fee_decode`; its loop over the four accounts is written out.
unfoldable pub transfer_with_fee_decode :
    Transaction → Instruction → List Byte → Result TransferWithFee
transfer_with_fee_decode tx ix payload = do
  source ← require_account tx ix 0
  mint ← require_account tx ix 1
  destination ← require_account tx ix 2
  authority ← require_account tx ix 3
  (amount, c1) ← u64le (init payload)
  (decimals, c2) ← u8 c1
  (fee, c3) ← u64le c2
  value (record {
    source = source;
    mint = mint;
    destination = destination;
    authority = authority;
    amount = amount;
    fee = fee;
    decimals = decimals;
  })

-- `decode_extension`
unfoldable pub decode_extension : Cursor → Result Operands
decode_extension c = do
  (sub_discriminant, c1) ← u8 c
  (payload, c2) ← take_bytes c1 (remaining c1)
  value (extension sub_discriminant payload)

-- `decode_reallocate`
unfoldable pub decode_reallocate : Transaction → Instruction → Cursor → Result Operands
decode_reallocate tx ix c = do
  account ← require_account tx ix 0
  payer ← require_account tx ix 1
  owner ← require_account tx ix 3
  (types, c1) ← take_bytes c (remaining c)
  if not (length types % 2 == 0)
      then fail parse
      else value (reallocated account payer owner types (length types / 2))

-- The end of the first case of the `switch`, by the tag of the optional key.
unfoldable pub close_authority_by : Pubkey → ℕ → Cursor → Result Operands
close_authority_by mint tag c =
    if tag == 0
    then value (close_authority_initialized mint none)
    else if not (tag == 1)
    then fail parse
    else (copy c 32 >>= λ (p : Pubkey × Cursor).
        value (close_authority_initialized mint (some p.0)))

-- The `switch` of `idx_token_2022_instruction_decode`; the groups come before it.
unfoldable pub decode_variant : Kind → Transaction → Instruction → Cursor → Result Operands
decode_variant initialize_mint_close_authority tx ix c = do
  mint ← require_account tx ix 0
  (tag, c1) ← u8 c
  close_authority_by mint tag c1
decode_variant initialize_permanent_delegate tx ix c = do
  mint ← require_account tx ix 0
  (delegate, c1) ← copy c 32
  value (delegate_initialized mint delegate)
decode_variant initialize_non_transferable_mint tx ix c = do
  mint ← require_account tx ix 0
  value (mint_only mint none)
decode_variant create_native_mint tx ix c = do
  payer ← require_account tx ix 0
  mint ← require_account tx ix 1
  value (mint_only mint (some payer))
decode_variant withdraw_excess_lamports tx ix c = do
  source ← require_account tx ix 0
  destination ← require_account tx ix 1
  authority ← require_account tx ix 2
  value (excess_withdrawn source destination authority)
decode_variant reallocate tx ix c = decode_reallocate tx ix c
decode_variant group tx ix c = fail internal

-- The rest of the call, where the discriminant is known.
unfoldable pub decode_kind : Kind → Transaction → Instruction → Cursor → Result Decoded
decode_kind kind tx ix c = do
  operands ← if is_extension kind then decode_extension c else decode_variant kind tx ix c
  value (own kind operands)

-- The call behind the decoder of the shared range.
unfoldable pub decode_beyond : Transaction → Instruction → Result Decoded
decode_beyond tx ix = u8 (init ix.payload) >>= λ (p : ℕ × Cursor).
    if ltb 44 p.0
    then fail not_found
    else if ltb p.0 25
    then fail internal
    else decode_kind (get_or kinds (p.0 - 25) initialize_mint_close_authority) tx ix p.1

-- `idx_token_2022_instruction_decode`
unfoldable pub decode : Transaction → Instruction → Result Decoded
decode tx ix = elim (Decode.decode tx ix) [
  | value instruction ↦ value (base instruction)
  | fail status ↦ elim status [ not_found ↦ decode_beyond tx ix | other ↦ fail other ]
]
