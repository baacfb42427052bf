-- ===== src/TokenProgram/Layout.antt =====
-- The token instructions in the encoding of the token programs, and the accounts that they name.
use solana_c_indexer.Base.{ℕ, Option, none, some, List}
use solana_c_indexer.Bytes.{Byte}
use solana_c_indexer.Chain.{Pubkey}
use solana_c_indexer.TokenProgram.{
  Kind, initialize_mint, initialize_account, initialize_multisig, transfer, approve, revoke,
  set_authority, mint_to, burn, close_account, freeze_account, thaw_account, transfer_checked,
  approve_checked, mint_to_checked, burn_checked, initialize_account2, sync_native,
  initialize_account3, initialize_multisig2, initialize_mint2, get_account_data_size,
  initialize_immutable_owner, amount_to_ui_amount, ui_amount_to_amount, Operands, initialized_mint,
  initialized_account, initialized_multisig, transferred, approved, revoked, authority_set, minted,
  burned, closed, frozen, account_only, mint_query, ui_amount,
}

-- An instruction as its sender writes it.
pub data Message : Type 0 where
  initializing_mint :
      (account : Pubkey) (decimals : ℕ) (mint : Pubkey) (option_key : Option Pubkey) → Message
  initializing_account : (account mint authority : Pubkey) → Message
  initializing_multisig : (account : Pubkey) (signers : List ℕ) (required : ℕ) → Message
  transferring : (account destination authority : Pubkey) (amount : ℕ) → Message
  approving : (account destination authority : Pubkey) (amount : ℕ) → Message
  revoking : (account authority : Pubkey) → Message
  setting_authority :
      (account authority : Pubkey) (authority_type : ℕ) (option_key : Option Pubkey) → Message
  minting : (mint account authority : Pubkey) (amount : ℕ) → Message
  burning : (account mint authority : Pubkey) (amount : ℕ) → Message
  closing : (account destination authority : Pubkey) → Message
  freezing : (account mint authority : Pubkey) → Message
  thawing : (account mint authority : Pubkey) → Message
  transferring_checked :
      (account mint destination authority : Pubkey) (amount decimals : ℕ) → Message
  approving_checked : (account mint destination authority : Pubkey) (amount decimals : ℕ) → Message
  minting_checked : (mint account authority : Pubkey) (amount decimals : ℕ) → Message
  burning_checked : (account mint authority : Pubkey) (amount decimals : ℕ) → Message
  initializing_account2 : (account mint authority : Pubkey) → Message
  syncing_native : (account : Pubkey) → Message
  initializing_account3 : (account mint authority : Pubkey) → Message
  initializing_multisig2 : (account : Pubkey) (signers : List ℕ) (required : ℕ) → Message
  initializing_mint2 :
      (account : Pubkey) (decimals : ℕ) (mint : Pubkey) (option_key : Option Pubkey) → Message
  getting_account_data_size : (mint : Pubkey) → Message
  initializing_immutable_owner : (account : Pubkey) → Message
  converting_amount : (mint : Pubkey) (amount : ℕ) → Message
  converting_text : (mint : Pubkey) (text : List Byte) → Message

abbrev pub kind_of : Message → Kind
kind_of (initializing_mint _ _ _ _) = initialize_mint
kind_of (initializing_account _ _ _) = initialize_account
kind_of (initializing_multisig _ _ _) = initialize_multisig
kind_of (transferring _ _ _ _) = transfer
kind_of (approving _ _ _ _) = approve
kind_of (revoking _ _) = revoke
kind_of (setting_authority _ _ _ _) = set_authority
kind_of (minting _ _ _ _) = mint_to
kind_of (burning _ _ _ _) = burn
kind_of (closing _ _ _) = close_account
kind_of (freezing _ _ _) = freeze_account
kind_of (thawing _ _ _) = thaw_account
kind_of (transferring_checked _ _ _ _ _ _) = transfer_checked
kind_of (approving_checked _ _ _ _ _ _) = approve_checked
kind_of (minting_checked _ _ _ _ _) = mint_to_checked
kind_of (burning_checked _ _ _ _ _) = burn_checked
kind_of (initializing_account2 _ _ _) = initialize_account2
kind_of (syncing_native _) = sync_native
kind_of (initializing_account3 _ _ _) = initialize_account3
kind_of (initializing_multisig2 _ _ _) = initialize_multisig2
kind_of (initializing_mint2 _ _ _ _) = initialize_mint2
kind_of (getting_account_data_size _) = get_account_data_size
kind_of (initializing_immutable_owner _) = initialize_immutable_owner
kind_of (converting_amount _ _) = amount_to_ui_amount
kind_of (converting_text _ _) = ui_amount_to_amount

-- The operands that a client reads from the message.
abbrev pub operands_of : Message → Operands
operands_of (initializing_mint account decimals mint option_key) =
    initialized_mint account mint option_key decimals
operands_of (initializing_account account mint authority) =
    initialized_account account mint (some authority) authority
operands_of (initializing_multisig account signers required) =
    initialized_multisig account signers required
operands_of (transferring account destination authority amount) =
    transferred account destination authority none amount none
operands_of (approving account destination authority amount) =
    approved account destination authority none amount none
operands_of (revoking account authority) = revoked account authority
operands_of (setting_authority account authority authority_type option_key) =
    authority_set account authority option_key authority_type
operands_of (minting mint account authority amount) = minted mint account authority amount none
operands_of (burning account mint authority amount) = burned account mint authority amount none
operands_of (closing account destination authority) = closed account destination authority
operands_of (freezing account mint authority) = frozen account mint authority
operands_of (thawing account mint authority) = frozen account mint authority
operands_of (transferring_checked account mint destination authority amount decimals) =
    transferred account destination authority (some mint) amount (some decimals)
operands_of (approving_checked account mint destination authority amount decimals) =
    approved account destination authority (some mint) amount (some decimals)
operands_of (minting_checked mint account authority amount decimals) =
    minted mint account authority amount (some decimals)
operands_of (burning_checked account mint authority amount decimals) =
    burned account mint authority amount (some decimals)
operands_of (initializing_account2 account mint authority) =
    initialized_account account mint none authority
operands_of (syncing_native account) = account_only account
operands_of (initializing_account3 account mint authority) =
    initialized_account account mint none authority
operands_of (initializing_multisig2 account signers required) =
    initialized_multisig account signers required
operands_of (initializing_mint2 account decimals mint option_key) =
    initialized_mint account mint option_key decimals
operands_of (getting_account_data_size mint) = mint_query mint 0
operands_of (initializing_immutable_owner account) = account_only account
operands_of (converting_amount mint amount) = mint_query mint amount
operands_of (converting_text mint text) = ui_amount mint text

-- The position of each kind in the programs' enumeration.
abbrev pub discriminant : Kind → ℕ
discriminant initialize_mint = 0
discriminant initialize_account = 1
discriminant initialize_multisig = 2
discriminant transfer = 3
discriminant approve = 4
discriminant revoke = 5
discriminant set_authority = 6
discriminant mint_to = 7
discriminant burn = 8
discriminant close_account = 9
discriminant freeze_account = 10
discriminant thaw_account = 11
discriminant transfer_checked = 12
discriminant approve_checked = 13
discriminant mint_to_checked = 14
discriminant burn_checked = 15
discriminant initialize_account2 = 16
discriminant sync_native = 17
discriminant initialize_account3 = 18
discriminant initialize_multisig2 = 19
discriminant initialize_mint2 = 20
discriminant get_account_data_size = 21
discriminant initialize_immutable_owner = 22
discriminant amount_to_ui_amount = 23
discriminant ui_amount_to_amount = 24
