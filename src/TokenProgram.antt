-- ===== src/TokenProgram.antt =====
-- src/token_program.c: the decoder of the instructions of the two token programs.
pub mod Decode
pub mod Layout
pub mod Wire
pub mod Fields
pub mod Setup
pub mod Moves
pub mod RoundTrip
pub mod Known
mod Examples
use solana_c_indexer.Base.{ℕ, Option, List, [], ◌∷◌}
use solana_c_indexer.Bytes.{Byte}
use solana_c_indexer.Chain.{Pubkey}

-- `idx_token_ix_kind`
pub data Kind : Type 0 where
  initialize_mint initialize_account initialize_multisig transfer approve : Kind
  revoke set_authority mint_to burn close_account : Kind
  freeze_account thaw_account transfer_checked approve_checked mint_to_checked : Kind
  burn_checked initialize_account2 sync_native initialize_account3 initialize_multisig2 : Kind
  initialize_mint2 get_account_data_size initialize_immutable_owner amount_to_ui_amount
        ui_amount_to_amount :
      Kind

-- The discriminants 0 to 24, in order.
abbrev pub kinds : List Kind
kinds =
    initialize_mint ∷ initialize_account ∷ initialize_multisig ∷ transfer ∷ approve ∷ revoke
    ∷ set_authority ∷ mint_to ∷ burn ∷ close_account ∷ freeze_account ∷ thaw_account
    ∷ transfer_checked ∷ approve_checked ∷ mint_to_checked ∷ burn_checked ∷ initialize_account2
    ∷ sync_native ∷ initialize_account3 ∷ initialize_multisig2 ∷ initialize_mint2
    ∷ get_account_data_size ∷ initialize_immutable_owner ∷ amount_to_ui_amount ∷ ui_amount_to_amount
    ∷ []

-- The union of `idx_token_instruction`: a constructor for each member. A pointer that may be NULL,
-- and a value with a `has_` flag, is an option.
pub data Operands : Type 0 where
  initialized_mint :
      (mint mint_authority : Pubkey) (freeze_authority : Option Pubkey) (decimals : ℕ) → Operands
  initialized_account :
      (account mint : Pubkey) (owner_account : Option Pubkey) (owner : Pubkey) → Operands
  initialized_multisig : (multisig : Pubkey) (signers : List ℕ) (required_signatures : ℕ) → Operands
  transferred :
      (source destination authority : Pubkey) (mint : Option Pubkey) (amount : ℕ)
      (decimals : Option ℕ)
      → Operands
  approved :
      (source delegate owner : Pubkey) (mint : Option Pubkey) (amount : ℕ) (decimals : Option ℕ)
      → Operands
  revoked : (source owner : Pubkey) → Operands
  authority_set :
      (account authority : Pubkey) (new_authority : Option Pubkey) (authority_type : ℕ) → Operands
  minted : (mint account authority : Pubkey) (amount : ℕ) (decimals : Option ℕ) → Operands
  burned : (account mint authority : Pubkey) (amount : ℕ) (decimals : Option ℕ) → Operands
  closed : (account destination owner : Pubkey) → Operands
  frozen : (account mint authority : Pubkey) → Operands
  account_only : (account : Pubkey) → Operands
  mint_query : (mint : Pubkey) (amount : ℕ) → Operands
  ui_amount : (mint : Pubkey) (text : List Byte) → Operands

-- `idx_token_instruction`
pub record TokenInstruction : Type 0 where
  pub kind : Kind
  pub operands : Operands
