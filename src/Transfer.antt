-- ===== src/Transfer.antt =====
-- src/transfer.c: the transfers of a transaction, one row for each instruction that moves value.
-- Here are the rows and the builder that collects them; the arena is a flag.
pub mod Fill
pub mod Walk
pub mod Reference
pub mod Match
pub mod Complete
pub mod Order
mod Examples
use solana_c_indexer.Base.{
  ℕ, Bool, true, false, not, Option, none, some, List, [], ◌∷◌, ◌++◌, leb, ◌==◌, if◌then◌else◌,
  length, get_elem?, replicate,
}
use solana_c_indexer.Chain.{Pubkey, pubkey_equal, TokenBalance, Transaction, Instruction}

-- `idx_transfer_kind`
pub data Kind : Type 0 where
  sol token mint burn : Kind

-- Where an instruction stands in its transaction.
pub record Place : Type 0 where
  pub instruction_index : ℕ
  pub inner_index : ℕ
  pub inner : Bool

-- `idx_transfer`. A field with a `has_` flag is an option.
pub record Transfer : Type 0 where
  pub kind : Kind
  pub place : Place
  pub source : Pubkey
  pub destination : Pubkey
  pub authority : Option Pubkey
  pub mint_key : Option Pubkey
  pub source_owner : Option Pubkey
  pub destination_owner : Option Pubkey
  pub amount : ℕ
  pub fee : ℕ
  pub decimals : Option ℕ

-- `idx_inner_instructions`
pub record InnerGroup : Type 0 where
  pub index : ℕ
  pub instructions : List Instruction

-- What the walk reads of `idx_transaction`.
pub record Executed : Type 0 where
  pub transaction : Transaction
  pub has_meta : Bool
  pub success : Bool
  pub instructions : List Instruction
  pub inner_instructions : List InnerGroup

-- `builder`: the rows that are committed, and the walk's place.
pub record Builder : Type 0 where
  pub rows : List Transfer
  pub capacity : ℕ
  pub place : Place

-- A zeroed row, at a place.
abbrev pub blank : Place → Transfer
blank place = record {
  kind = sol;
  place = place;
  source = replicate 32 0;
  destination = replicate 32 0;
  authority = none;
  mint_key = none;
  source_owner = none;
  destination_owner = none;
  amount = 0;
  fee = 0;
  decimals = none;
}

-- `builder_row`
unfoldable pub builder_row : Builder → Option Transfer
builder_row b = if leb b.capacity (length b.rows) then none else some (blank b.place)

-- The inner loop of `find_token_balance`. The block decoder admits only account indices in range.
unfoldable pub balance_in : Transaction → Pubkey → List TokenBalance → Option TokenBalance
balance_in tx account [] = none
balance_in tx account (entry ∷ rest) = elim (get_elem? tx.accounts entry.account_index) [
  | none ↦ balance_in tx account rest
  | some key ↦ if pubkey_equal key account then some entry else balance_in tx account rest
]

abbrev pub or_option {ℓ} : {A : Type ℓ} → Option A → Option A → Option A
or_option (some a) other = some a
or_option none other = other

-- `find_token_balance`
unfoldable pub find_token_balance : Transaction → Pubkey → Option TokenBalance
find_token_balance tx account =
    or_option (balance_in tx account tx.post_token_balances)
      (balance_in tx account tx.pre_token_balances)

abbrev pub mint_from : Option TokenBalance → Option Pubkey
mint_from none = none
mint_from (some entry) = some entry.mint

abbrev pub decimals_from : Option TokenBalance → Option ℕ
decimals_from none = none
decimals_from (some entry) = some entry.decimals

abbrev pub owner_from : Option TokenBalance → Option Pubkey
owner_from none = none
owner_from (some entry) = entry.owner

abbrev pub is_mint : Kind → Bool
is_mint mint = true
is_mint sol = false
is_mint token = false
is_mint burn = false

abbrev pub is_burn : Kind → Bool
is_burn burn = true
is_burn sol = false
is_burn token = false
is_burn mint = false

abbrev pub is_sol : Kind → Bool
is_sol sol = true
is_sol token = false
is_sol mint = false
is_sol burn = false

-- `resolve_from_balances`; the owners of a row are not set before.
unfoldable pub resolve_from_balances : Transaction → Transfer → Transfer
resolve_from_balances tx row =
    let source = if is_mint row.kind then none else find_token_balance tx row.source in
    let destination = if is_burn row.kind then none else find_token_balance tx row.destination in
    let either = or_option source destination in
    record row {
      mint_key = or_option row.mint_key (mint_from either);
      decimals = or_option row.decimals (decimals_from either);
      source_owner = owner_from source;
      destination_owner = owner_from destination;
    }

-- `builder_commit`
unfoldable pub builder_commit : Transaction → Builder → Transfer → Builder
builder_commit tx b row = if row.amount == 0 then b else record b {
  rows = b.rows ++ ((if is_sol row.kind then row else resolve_from_balances tx row) ∷ []);
}
