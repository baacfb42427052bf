-- ===== src/Chain.antt =====
-- include/types.h and include/block.h: what a decoded transaction gives to the program decoders.
pub mod Reads
pub mod Decimal
mod Examples
-- A transaction has the fields that those decoders read.
use solana_c_indexer.Base.{
  ℕ, Bool, Option, none, some, List, get_elem?, leb, if◌then◌else◌, length, Status, parse, Result,
  value, fail, ◌>>=◌, ◌≡◌,
}
use solana_c_indexer.Bytes.{Byte, bytes_equal}
use solana_c_indexer.Bytes.Cursor.{Cursor, copy}

-- `idx_pubkey`: 32 bytes.
abbrev pub Pubkey : Type 0
Pubkey = List Byte

-- `idx_pubkey_equal`
unfoldable pub pubkey_equal : Pubkey → Pubkey → Bool
unfolding bytes_equal
pubkey_equal a b = bytes_equal a b

-- `idx_token_balance`. The owner is `none` where `has_owner` is false.
pub record TokenBalance : Type 0 where
  pub account_index : ℕ
  pub mint : Pubkey
  pub owner : Option Pubkey
  pub amount : ℕ
  pub decimals : ℕ

-- `idx_transaction`; an array that is NULL is empty.
pub record Transaction : Type 0 where
  pub accounts : List Pubkey
  pub pre_balances : List ℕ
  pub post_balances : List ℕ
  pub pre_token_balances : List TokenBalance
  pub post_token_balances : List TokenBalance

-- `idx_instruction`
pub record Instruction : Type 0 where
  pub program_id_index : ℕ
  pub account_indices : List ℕ
  pub payload : List Byte

-- `idx_instruction_account`. The block decoder admits only indices in range, so the second lookup
-- does not fail there.
unfoldable pub instruction_account : Transaction → Instruction → ℕ → Option Pubkey
instruction_account tx ix position = elim (get_elem? ix.account_indices position) [
  | none ↦ none
  | some index ↦ get_elem? tx.accounts index
]

-- `require_account` of the decoders.
unfoldable pub require_account : Transaction → Instruction → ℕ → Result Pubkey
require_account tx ix position = elim (instruction_account tx ix position) [
  | none ↦ fail parse
  | some key ↦ value key
]

-- `read_pubkey` of the decoders.
unfoldable pub read_pubkey : Cursor → Result (Pubkey × Cursor)
read_pubkey c = copy c 32
