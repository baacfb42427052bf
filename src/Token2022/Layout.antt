-- ===== src/Token2022/Layout.antt =====
-- The encoding of Token-2022 instructions, and the accounts that they name.
use solana_c_indexer.Base.{ℕ, ◌/◌, ◌%◌, ◌≡◌, Option, none, some, List, [], ◌∷◌, ◌++◌, length}
use solana_c_indexer.Bytes.{Byte}
use solana_c_indexer.Chain.{Pubkey, Transaction, Instruction, instruction_account}
use solana_c_indexer.TokenProgram.Layout
use solana_c_indexer.TokenProgram.Wire
use solana_c_indexer.TokenProgram.Wire.{option_bytes, key_length}
use solana_c_indexer.Token2022.{
  Kind, initialize_mint_close_authority, transfer_fee_extension, confidential_transfer_extension,
  default_account_state_extension, reallocate, memo_transfer_extension, create_native_mint,
  initialize_non_transferable_mint, interest_bearing_mint_extension, cpi_guard_extension,
  initialize_permanent_delegate, transfer_hook_extension, confidential_transfer_fee_extension,
  withdraw_excess_lamports, metadata_pointer_extension, group_pointer_extension,
  group_member_pointer_extension, confidential_mint_burn_extension, scaled_ui_amount_extension,
  pausable_extension, close_authority_initialized, delegate_initialized, mint_only,
  excess_withdrawn, reallocated, extension, Decoded, base, own,
}

-- What an instruction of the program says.
pub data Message : Type 0 where
  shared : (message : Layout.Message) → Message
  closing_authority : (mint : Pubkey) (close_authority : Option Pubkey) → Message
  delegating : (mint delegate : Pubkey) → Message
  creating_native : (payer mint : Pubkey) → Message
  non_transferable : (mint : Pubkey) → Message
  withdrawing_excess : (source destination authority : Pubkey) → Message
  reallocating : (account payer owner : Pubkey) (types : List ℕ) → Message
  extending : (group : Kind) (sub_discriminant : ℕ) (payload : List Byte) → Message

-- The position of each kind in the program's enumeration.
abbrev pub discriminant : Kind → ℕ
discriminant initialize_mint_close_authority = 25
discriminant transfer_fee_extension = 26
discriminant confidential_transfer_extension = 27
discriminant default_account_state_extension = 28
discriminant reallocate = 29
discriminant memo_transfer_extension = 30
discriminant create_native_mint = 31
discriminant initialize_non_transferable_mint = 32
discriminant interest_bearing_mint_extension = 33
discriminant cpi_guard_extension = 34
discriminant initialize_permanent_delegate = 35
discriminant transfer_hook_extension = 36
discriminant confidential_transfer_fee_extension = 37
discriminant withdraw_excess_lamports = 38
discriminant metadata_pointer_extension = 39
discriminant group_pointer_extension = 40
discriminant group_member_pointer_extension = 41
discriminant confidential_mint_burn_extension = 42
discriminant scaled_ui_amount_extension = 43
discriminant pausable_extension = 44

-- Sixteen-bit types, with no length in front.
abbrev pub types_bytes : List ℕ → List Byte
types_bytes [] = []
types_bytes (t ∷ types) = t % 256 ∷ t / 256 % 256 ∷ types_bytes types

-- The data of the instruction: the discriminant and the fields. Types and payloads end the data;
-- other fields may have `trailing` behind them.
abbrev pub layout : Message → List Byte → List Byte
layout (shared message) trailing =
    Layout.discriminant (Layout.kind_of message) ∷ Wire.layout message trailing
layout (closing_authority _ close_authority) trailing = 25 ∷ option_bytes close_authority trailing
layout (delegating _ delegate) trailing = 35 ∷ (delegate ++ trailing)
layout (creating_native _ _) trailing = 31 ∷ trailing
layout (non_transferable _) trailing = 32 ∷ trailing
layout (withdrawing_excess _ _ _) trailing = 38 ∷ trailing
layout (reallocating _ _ _ types) _ = 29 ∷ types_bytes types
layout (extending group sub_discriminant payload) _ =
    discriminant group ∷ (sub_discriminant ∷ payload)

-- Whether the kind is a group of extension instructions.
abbrev pub IsGroup : Kind → Type 0
IsGroup initialize_mint_close_authority = ⊥
IsGroup reallocate = ⊥
IsGroup create_native_mint = ⊥
IsGroup initialize_non_transferable_mint = ⊥
IsGroup initialize_permanent_delegate = ⊥
IsGroup withdraw_excess_lamports = ⊥
IsGroup other = Unit {0}

-- The instruction names the message's accounts at the program's positions, keys have 32 bytes, and
-- a group is one.
abbrev pub IsNamed : Transaction → Instruction → Message → Type 0
IsNamed tx ix (shared message) = Wire.IsNamed tx ix message
IsNamed tx ix (closing_authority mint close_authority) =
    (instruction_account tx ix 0 ≡ some mint) × (key_length close_authority ≡ 32)
IsNamed tx ix (delegating mint delegate) =
    (instruction_account tx ix 0 ≡ some mint) × (length delegate ≡ 32)
IsNamed tx ix (creating_native payer mint) =
    (instruction_account tx ix 0 ≡ some payer) × (instruction_account tx ix 1 ≡ some mint)
IsNamed tx ix (non_transferable mint) = instruction_account tx ix 0 ≡ some mint
IsNamed tx ix (withdrawing_excess source destination authority) =
    (instruction_account tx ix 0 ≡ some source)
    × (instruction_account tx ix 1 ≡ some destination)
    × (instruction_account tx ix 2 ≡ some authority)
IsNamed tx ix (reallocating account payer owner types) =
    (instruction_account tx ix 0 ≡ some account)
    × (instruction_account tx ix 1 ≡ some payer)
    × (instruction_account tx ix 3 ≡ some owner)
IsNamed tx ix (extending group _ _) = IsGroup group

-- What the decoder should say of the message.
abbrev pub decoded_of : Message → Decoded
decoded_of (shared message) =
    base (record { kind = Layout.kind_of message; operands = Layout.operands_of message })
decoded_of (closing_authority mint close_authority) =
    own initialize_mint_close_authority (close_authority_initialized mint close_authority)
decoded_of (delegating mint delegate) =
    own initialize_permanent_delegate (delegate_initialized mint delegate)
decoded_of (creating_native payer mint) = own create_native_mint (mint_only mint (some payer))
decoded_of (non_transferable mint) = own initialize_non_transferable_mint (mint_only mint none)
decoded_of (withdrawing_excess source destination authority) =
    own withdraw_excess_lamports (excess_withdrawn source destination authority)
decoded_of (reallocating account payer owner types) =
    own reallocate (reallocated account payer owner (types_bytes types) (length types))
decoded_of (extending group sub_discriminant payload) =
    own group (extension sub_discriminant payload)
