-- ===== src/SystemProgram.antt =====
-- src/system_program.c: the decoder of System program instructions.
pub mod Decode
pub mod Layout
pub mod RoundTrip
mod Examples
use solana_c_indexer.Base.{ℕ, Option, List, [], ◌∷◌}
use solana_c_indexer.Bytes.{Byte}
use solana_c_indexer.Chain.{Pubkey}

-- `idx_system_ix_kind`
pub data Kind : Type 0 where
  create_account assign transfer create_account_with_seed advance_nonce_account : Kind
  withdraw_nonce_account initialize_nonce_account authorize_nonce_account allocate : Kind
  allocate_with_seed assign_with_seed transfer_with_seed upgrade_nonce_account : Kind

-- The discriminants 0 to 12, in order.
abbrev pub kinds : List Kind
kinds =
    create_account ∷ assign ∷ transfer ∷ create_account_with_seed ∷ advance_nonce_account
    ∷ withdraw_nonce_account ∷ initialize_nonce_account ∷ authorize_nonce_account ∷ allocate
    ∷ allocate_with_seed ∷ assign_with_seed ∷ transfer_with_seed ∷ upgrade_nonce_account ∷ []

-- The union of `idx_system_instruction`: a constructor for each member, named by its fields.
pub data Operands : Type 0 where
  created : (funder account : Pubkey) (lamports space : ℕ) (owner : Pubkey) → Operands
  assigned : (account owner : Pubkey) → Operands
  transferred : (from to : Pubkey) (lamports : ℕ) → Operands
  created_with_seed :
      (funder account base : Pubkey) (seed : List Byte) (lamports space : ℕ) (owner : Pubkey)
      → Operands
  nonce : (nonce : Pubkey) (authority : Option Pubkey) → Operands
  withdrawn : (nonce to authority : Pubkey) (lamports : ℕ) → Operands
  nonce_authority : (nonce : Pubkey) (authority : Option Pubkey) (new_authority : Pubkey) → Operands
  allocated : (account : Pubkey) (space : ℕ) → Operands
  allocated_with_seed :
      (account base_account base : Pubkey) (seed : List Byte) (space : ℕ) (owner : Pubkey)
      → Operands
  assigned_with_seed :
      (account base_account base : Pubkey) (seed : List Byte) (owner : Pubkey) → Operands
  transferred_with_seed :
      (from base_account to : Pubkey) (lamports : ℕ) (from_seed : List Byte) (from_owner : Pubkey)
      → Operands

-- `idx_system_instruction`
pub record SystemInstruction : Type 0 where
  pub kind : Kind
  pub operands : Operands
