-- ===== src/TokenProgram/Wire.antt =====
-- The bytes behind the discriminant of a token instruction.
use solana_c_indexer.Base.{ℕ, ◌<◌, ◌^◌, ◌≡◌, Option, none, some, List, ◌∷◌, ◌++◌, length, drop}
use solana_c_indexer.Bytes.{Byte}
use solana_c_indexer.Bytes.Reads.{le_bytes}
use solana_c_indexer.Chain.{Pubkey, Transaction, Instruction, instruction_account}
use solana_c_indexer.TokenProgram.Layout.{
  Message, initializing_mint, initializing_account, initializing_multisig, transferring, approving,
  revoking, setting_authority, minting, burning, closing, freezing, thawing, transferring_checked,
  approving_checked, minting_checked, burning_checked, initializing_account2, syncing_native,
  initializing_account3, initializing_multisig2, initializing_mint2, getting_account_data_size,
  initializing_immutable_owner, converting_amount, converting_text,
}

-- An optional key, as the programs' `COption` packs it.
abbrev pub option_bytes : Option Pubkey → List Byte → List Byte
option_bytes none ys = 0 ∷ ys
option_bytes (some key) ys = 1 ∷ (key ++ ys)

abbrev pub key_length : Option Pubkey → ℕ
key_length none = 32
key_length (some key) = length key

-- The fields of a message, in front of `trailing`; the decimal text of an amount ends the data.
abbrev pub layout : Message → List Byte → List Byte
layout (initializing_mint _ decimals mint option_key) trailing =
    decimals ∷ (mint ++ (option_bytes option_key trailing))
layout (initializing_account _ _ _) trailing = trailing
layout (initializing_multisig _ _ required) trailing = required ∷ trailing
layout (transferring _ _ _ amount) trailing = le_bytes 8 amount ++ trailing
layout (approving _ _ _ amount) trailing = le_bytes 8 amount ++ trailing
layout (revoking _ _) trailing = trailing
layout (setting_authority _ _ authority_type option_key) trailing =
    authority_type ∷ (option_bytes option_key trailing)
layout (minting _ _ _ amount) trailing = le_bytes 8 amount ++ trailing
layout (burning _ _ _ amount) trailing = le_bytes 8 amount ++ trailing
layout (closing _ _ _) trailing = trailing
layout (freezing _ _ _) trailing = trailing
layout (thawing _ _ _) trailing = trailing
layout (transferring_checked _ _ _ _ amount decimals) trailing =
    le_bytes 8 amount ++ (decimals ∷ trailing)
layout (approving_checked _ _ _ _ amount decimals) trailing =
    le_bytes 8 amount ++ (decimals ∷ trailing)
layout (minting_checked _ _ _ amount decimals) trailing = le_bytes 8 amount ++ (decimals ∷ trailing)
layout (burning_checked _ _ _ amount decimals) trailing = le_bytes 8 amount ++ (decimals ∷ trailing)
layout (initializing_account2 _ _ authority) trailing = authority ++ trailing
layout (syncing_native _) trailing = trailing
layout (initializing_account3 _ _ authority) trailing = authority ++ trailing
layout (initializing_multisig2 _ _ required) trailing = required ∷ trailing
layout (initializing_mint2 _ decimals mint option_key) trailing =
    decimals ∷ (mint ++ (option_bytes option_key trailing))
layout (getting_account_data_size _) trailing = trailing
layout (initializing_immutable_owner _) trailing = trailing
layout (converting_amount _ amount) trailing = le_bytes 8 amount ++ trailing
layout (converting_text _ text) _ = text

-- The instruction names the message's accounts at the programs' positions, keys have 32 bytes, and
-- amounts fit in 64 bits.
abbrev pub IsNamed : Transaction → Instruction → Message → Type 0
IsNamed tx ix (initializing_mint account _ mint option_key) =
    (instruction_account tx ix 0 ≡ some account) × (length mint ≡ 32) × (key_length option_key ≡ 32)
IsNamed tx ix (initializing_account account mint authority) =
    (instruction_account tx ix 0 ≡ some account)
    × (instruction_account tx ix 1 ≡ some mint)
    × (instruction_account tx ix 2 ≡ some authority)
IsNamed tx ix (initializing_multisig account signers _) =
    (instruction_account tx ix 0 ≡ some account) × (drop 2 ix.account_indices ≡ signers)
IsNamed tx ix (transferring account destination authority amount) =
    (instruction_account tx ix 0 ≡ some account)
    × (instruction_account tx ix 1 ≡ some destination)
    × (instruction_account tx ix 2 ≡ some authority)
    × (amount < 2 ^ 64)
IsNamed tx ix (approving account destination authority amount) =
    (instruction_account tx ix 0 ≡ some account)
    × (instruction_account tx ix 1 ≡ some destination)
    × (instruction_account tx ix 2 ≡ some authority)
    × (amount < 2 ^ 64)
IsNamed tx ix (revoking account authority) =
    (instruction_account tx ix 0 ≡ some account) × (instruction_account tx ix 1 ≡ some authority)
IsNamed tx ix (setting_authority account authority _ option_key) =
    (instruction_account tx ix 0 ≡ some account)
    × (instruction_account tx ix 1 ≡ some authority)
    × (key_length option_key ≡ 32)
IsNamed tx ix (minting mint account authority amount) =
    (instruction_account tx ix 0 ≡ some mint)
    × (instruction_account tx ix 1 ≡ some account)
    × (instruction_account tx ix 2 ≡ some authority)
    × (amount < 2 ^ 64)
IsNamed tx ix (burning account mint authority amount) =
    (instruction_account tx ix 0 ≡ some account)
    × (instruction_account tx ix 1 ≡ some mint)
    × (instruction_account tx ix 2 ≡ some authority)
    × (amount < 2 ^ 64)
IsNamed tx ix (closing account destination authority) =
    (instruction_account tx ix 0 ≡ some account)
    × (instruction_account tx ix 1 ≡ some destination)
    × (instruction_account tx ix 2 ≡ some authority)
IsNamed tx ix (freezing account mint authority) =
    (instruction_account tx ix 0 ≡ some account)
    × (instruction_account tx ix 1 ≡ some mint)
    × (instruction_account tx ix 2 ≡ some authority)
IsNamed tx ix (thawing account mint authority) =
    (instruction_account tx ix 0 ≡ some account)
    × (instruction_account tx ix 1 ≡ some mint)
    × (instruction_account tx ix 2 ≡ some authority)
IsNamed tx ix (transferring_checked account mint destination authority amount _) =
    (instruction_account tx ix 0 ≡ some account)
    × (instruction_account tx ix 1 ≡ some mint)
    × (instruction_account tx ix 2 ≡ some destination)
    × (instruction_account tx ix 3 ≡ some authority)
    × (amount < 2 ^ 64)
IsNamed tx ix (approving_checked account mint destination authority amount _) =
    (instruction_account tx ix 0 ≡ some account)
    × (instruction_account tx ix 1 ≡ some mint)
    × (instruction_account tx ix 2 ≡ some destination)
    × (instruction_account tx ix 3 ≡ some authority)
    × (amount < 2 ^ 64)
IsNamed tx ix (minting_checked mint account authority amount _) =
    (instruction_account tx ix 0 ≡ some mint)
    × (instruction_account tx ix 1 ≡ some account)
    × (instruction_account tx ix 2 ≡ some authority)
    × (amount < 2 ^ 64)
IsNamed tx ix (burning_checked account mint authority amount _) =
    (instruction_account tx ix 0 ≡ some account)
    × (instruction_account tx ix 1 ≡ some mint)
    × (instruction_account tx ix 2 ≡ some authority)
    × (amount < 2 ^ 64)
IsNamed tx ix (initializing_account2 account mint authority) =
    (instruction_account tx ix 0 ≡ some account)
    × (instruction_account tx ix 1 ≡ some mint)
    × (length authority ≡ 32)
IsNamed tx ix (syncing_native account) = instruction_account tx ix 0 ≡ some account
IsNamed tx ix (initializing_account3 account mint authority) =
    (instruction_account tx ix 0 ≡ some account)
    × (instruction_account tx ix 1 ≡ some mint)
    × (length authority ≡ 32)
IsNamed tx ix (initializing_multisig2 account signers _) =
    (instruction_account tx ix 0 ≡ some account) × (drop 1 ix.account_indices ≡ signers)
IsNamed tx ix (initializing_mint2 account _ mint option_key) =
    (instruction_account tx ix 0 ≡ some account) × (length mint ≡ 32) × (key_length option_key ≡ 32)
IsNamed tx ix (getting_account_data_size mint) = instruction_account tx ix 0 ≡ some mint
IsNamed tx ix (initializing_immutable_owner account) = instruction_account tx ix 0 ≡ some account
IsNamed tx ix (converting_amount mint amount) =
    (instruction_account tx ix 0 ≡ some mint) × (amount < 2 ^ 64)
IsNamed tx ix (converting_text mint _) = instruction_account tx ix 0 ≡ some mint
