-- ===== src/TokenProgram/Moves.antt =====
-- The decoder on the instructions that move tokens or change an account.
use solana_c_indexer.Base.{ℕ, ◌≡◌, Option, none, some, List, value}
use solana_c_indexer.Bytes.{Byte}
use solana_c_indexer.Bytes.Cursor.{Cursor, rest}
use solana_c_indexer.Bytes.Reads.{u8_lem, u64le_lem}
use solana_c_indexer.Chain.{Pubkey, Transaction, Instruction}
use solana_c_indexer.Chain.Reads.{require_account_lem}
use solana_c_indexer.TokenProgram.{
  transfer, approve, revoke, set_authority, mint_to, burn, close_account, freeze_account,
  thaw_account, transfer_checked, approve_checked, mint_to_checked, burn_checked, sync_native,
  get_account_data_size, amount_to_ui_amount, ui_amount_to_amount, transferred, approved, revoked,
  authority_set, minted, burned, closed, frozen, account_only, mint_query, ui_amount,
}
use solana_c_indexer.TokenProgram.Layout.{
  transferring, approving, revoking, setting_authority, minting, burning, closing, freezing,
  thawing, transferring_checked, approving_checked, minting_checked, burning_checked,
  syncing_native, getting_account_data_size, converting_amount, converting_text,
}
use solana_c_indexer.TokenProgram.Wire.{layout, IsNamed}
use solana_c_indexer.TokenProgram.Fields.{
  take_rest, read_optional_pubkey_lem, read_amount_lem, read_amount_checked,
}
use solana_c_indexer.TokenProgram.Decode.{decode_variant}

module _ (tx : Transaction) (ix : Instruction) (c : Cursor) (ys : List Byte) where
  pub decode_transferring :
      (account destination authority : Pubkey) (amount : ℕ)
      → IsNamed tx ix (transferring account destination authority amount)
      → rest c ≡ layout (transferring account destination authority amount) ys
      → decode_variant transfer tx ix c
        ≡ value (transferred account destination authority none amount none)
  unfolding decode_variant
  decode_transferring account destination authority amount n e =
      let (c1, e1, r1) = read_amount_lem c amount _ n.3 e in
      rw (
        require_account_lem tx ix 0 account n.0,
        require_account_lem tx ix 1 destination n.1,
        require_account_lem tx ix 2 authority n.2,
        e1,
      )

  pub decode_approving :
      (account destination authority : Pubkey) (amount : ℕ)
      → IsNamed tx ix (approving account destination authority amount)
      → rest c ≡ layout (approving account destination authority amount) ys
      → decode_variant approve tx ix c
        ≡ value (approved account destination authority none amount none)
  unfolding decode_variant
  decode_approving account destination authority amount n e =
      let (c1, e1, r1) = read_amount_lem c amount _ n.3 e in
      rw (
        require_account_lem tx ix 0 account n.0,
        require_account_lem tx ix 1 destination n.1,
        require_account_lem tx ix 2 authority n.2,
        e1,
      )

  pub decode_revoking :
      (account authority : Pubkey)
      → IsNamed tx ix (revoking account authority)
      → rest c ≡ layout (revoking account authority) ys
      → decode_variant revoke tx ix c ≡ value (revoked account authority)
  unfolding decode_variant
  decode_revoking account authority n e =
      rw (require_account_lem tx ix 0 account n.0, require_account_lem tx ix 1 authority n.1)

  pub decode_setting_authority :
      (account authority : Pubkey) (authority_type : ℕ) (option_key : Option Pubkey)
      → IsNamed tx ix (setting_authority account authority authority_type option_key)
      → rest c ≡ layout (setting_authority account authority authority_type option_key) ys
      → decode_variant set_authority tx ix c
        ≡ value (authority_set account authority option_key authority_type)
  unfolding decode_variant
  decode_setting_authority account authority authority_type option_key n e =
      let (c1, e1, r1) = u8_lem c authority_type _ e in
      let (c2, e2, r2) = read_optional_pubkey_lem c1 option_key _ n.2 r1 in
      rw
        (require_account_lem tx ix 0 account n.0, require_account_lem tx ix 1 authority n.1, e1, e2)

  pub decode_minting :
      (mint account authority : Pubkey) (amount : ℕ)
      → IsNamed tx ix (minting mint account authority amount)
      → rest c ≡ layout (minting mint account authority amount) ys
      → decode_variant mint_to tx ix c ≡ value (minted mint account authority amount none)
  unfolding decode_variant
  decode_minting mint account authority amount n e =
      let (c1, e1, r1) = read_amount_lem c amount _ n.3 e in
      rw (
        require_account_lem tx ix 0 mint n.0,
        require_account_lem tx ix 1 account n.1,
        require_account_lem tx ix 2 authority n.2,
        e1,
      )

  pub decode_burning :
      (account mint authority : Pubkey) (amount : ℕ)
      → IsNamed tx ix (burning account mint authority amount)
      → rest c ≡ layout (burning account mint authority amount) ys
      → decode_variant burn tx ix c ≡ value (burned account mint authority amount none)
  unfolding decode_variant
  decode_burning account mint authority amount n e =
      let (c1, e1, r1) = read_amount_lem c amount _ n.3 e in
      rw (
        require_account_lem tx ix 0 account n.0,
        require_account_lem tx ix 1 mint n.1,
        require_account_lem tx ix 2 authority n.2,
        e1,
      )

  pub decode_closing :
      (account destination authority : Pubkey)
      → IsNamed tx ix (closing account destination authority)
      → rest c ≡ layout (closing account destination authority) ys
      → decode_variant close_account tx ix c ≡ value (closed account destination authority)
  unfolding decode_variant
  decode_closing account destination authority n e = rw (
    require_account_lem tx ix 0 account n.0,
    require_account_lem tx ix 1 destination n.1,
    require_account_lem tx ix 2 authority n.2,
  )

  pub decode_freezing :
      (account mint authority : Pubkey)
      → IsNamed tx ix (freezing account mint authority)
      → rest c ≡ layout (freezing account mint authority) ys
      → decode_variant freeze_account tx ix c ≡ value (frozen account mint authority)
  unfolding decode_variant
  decode_freezing account mint authority n e = rw (
    require_account_lem tx ix 0 account n.0,
    require_account_lem tx ix 1 mint n.1,
    require_account_lem tx ix 2 authority n.2,
  )

  pub decode_thawing :
      (account mint authority : Pubkey)
      → IsNamed tx ix (thawing account mint authority)
      → rest c ≡ layout (thawing account mint authority) ys
      → decode_variant thaw_account tx ix c ≡ value (frozen account mint authority)
  unfolding decode_variant
  decode_thawing account mint authority n e = rw (
    require_account_lem tx ix 0 account n.0,
    require_account_lem tx ix 1 mint n.1,
    require_account_lem tx ix 2 authority n.2,
  )

  pub decode_transferring_checked :
      (account mint destination authority : Pubkey) (amount decimals : ℕ)
      → IsNamed tx ix (transferring_checked account mint destination authority amount decimals)
      → rest c ≡ layout (transferring_checked account mint destination authority amount decimals) ys
      → decode_variant transfer_checked tx ix c
        ≡ value (transferred account destination authority (some mint) amount (some decimals))
  unfolding decode_variant
  decode_transferring_checked account mint destination authority amount decimals n e =
      let (c1, e1, r1) = read_amount_checked c amount decimals _ n.4 e in
      rw (
        require_account_lem tx ix 0 account n.0,
        require_account_lem tx ix 1 mint n.1,
        require_account_lem tx ix 2 destination n.2,
        require_account_lem tx ix 3 authority n.3,
        e1,
      )

  pub decode_approving_checked :
      (account mint destination authority : Pubkey) (amount decimals : ℕ)
      → IsNamed tx ix (approving_checked account mint destination authority amount decimals)
      → rest c ≡ layout (approving_checked account mint destination authority amount decimals) ys
      → decode_variant approve_checked tx ix c
        ≡ value (approved account destination authority (some mint) amount (some decimals))
  unfolding decode_variant
  decode_approving_checked account mint destination authority amount decimals n e =
      let (c1, e1, r1) = read_amount_checked c amount decimals _ n.4 e in
      rw (
        require_account_lem tx ix 0 account n.0,
        require_account_lem tx ix 1 mint n.1,
        require_account_lem tx ix 2 destination n.2,
        require_account_lem tx ix 3 authority n.3,
        e1,
      )

  pub decode_minting_checked :
      (mint account authority : Pubkey) (amount decimals : ℕ)
      → IsNamed tx ix (minting_checked mint account authority amount decimals)
      → rest c ≡ layout (minting_checked mint account authority amount decimals) ys
      → decode_variant mint_to_checked tx ix c
        ≡ value (minted mint account authority amount (some decimals))
  unfolding decode_variant
  decode_minting_checked mint account authority amount decimals n e =
      let (c1, e1, r1) = read_amount_checked c amount decimals _ n.3 e in
      rw (
        require_account_lem tx ix 0 mint n.0,
        require_account_lem tx ix 1 account n.1,
        require_account_lem tx ix 2 authority n.2,
        e1,
      )

  pub decode_burning_checked :
      (account mint authority : Pubkey) (amount decimals : ℕ)
      → IsNamed tx ix (burning_checked account mint authority amount decimals)
      → rest c ≡ layout (burning_checked account mint authority amount decimals) ys
      → decode_variant burn_checked tx ix c
        ≡ value (burned account mint authority amount (some decimals))
  unfolding decode_variant
  decode_burning_checked account mint authority amount decimals n e =
      let (c1, e1, r1) = read_amount_checked c amount decimals _ n.3 e in
      rw (
        require_account_lem tx ix 0 account n.0,
        require_account_lem tx ix 1 mint n.1,
        require_account_lem tx ix 2 authority n.2,
        e1,
      )

  pub decode_syncing_native :
      (account : Pubkey)
      → IsNamed tx ix (syncing_native account)
      → rest c ≡ layout (syncing_native account) ys
      → decode_variant sync_native tx ix c ≡ value (account_only account)
  unfolding decode_variant
  decode_syncing_native account n e = rw (require_account_lem tx ix 0 account n)

  pub decode_getting_account_data_size :
      (mint : Pubkey)
      → IsNamed tx ix (getting_account_data_size mint)
      → rest c ≡ layout (getting_account_data_size mint) ys
      → decode_variant get_account_data_size tx ix c ≡ value (mint_query mint 0)
  unfolding decode_variant
  decode_getting_account_data_size mint n e = rw (require_account_lem tx ix 0 mint n)

  pub decode_converting_amount :
      (mint : Pubkey) (amount : ℕ)
      → IsNamed tx ix (converting_amount mint amount)
      → rest c ≡ layout (converting_amount mint amount) ys
      → decode_variant amount_to_ui_amount tx ix c ≡ value (mint_query mint amount)
  unfolding decode_variant
  decode_converting_amount mint amount n e =
      let (c1, e1, r1) = u64le_lem c amount _ n.1 e in rw (require_account_lem tx ix 0 mint n.0, e1)

  pub decode_converting_text :
      (mint : Pubkey) (text : List Byte)
      → IsNamed tx ix (converting_text mint text)
      → rest c ≡ layout (converting_text mint text) ys
      → decode_variant ui_amount_to_amount tx ix c ≡ value (ui_amount mint text)
  unfolding decode_variant
  decode_converting_text mint text n e =
      let (c1, e1) = take_rest c text e in rw (require_account_lem tx ix 0 mint n, e1)
