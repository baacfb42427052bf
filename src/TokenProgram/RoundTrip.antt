-- ===== src/TokenProgram/RoundTrip.antt =====
-- The decoder reads the encoding of every token instruction back.
use solana_c_indexer.Base.{◌≡◌, refl, List, ◌∷◌, get_or, ltb, ◌≤◌, value, arith, if_false}
use solana_c_indexer.Bytes.{Byte}
use solana_c_indexer.Bytes.Cursor.{Cursor, init, rest}
use solana_c_indexer.Bytes.Reads.{u8_lem}
use solana_c_indexer.Chain.{Transaction, Instruction}
use solana_c_indexer.TokenProgram.{
  Kind, initialize_mint, initialize_account, initialize_multisig, transfer, approve, revoke,
  set_authority, mint_to, burn, close_account, freeze_account, thaw_account, transfer_checked,
  approve_checked, mint_to_checked, burn_checked, initialize_account2, sync_native,
  initialize_account3, initialize_multisig2, initialize_mint2, get_account_data_size,
  initialize_immutable_owner, amount_to_ui_amount, ui_amount_to_amount, kinds,
}
use solana_c_indexer.TokenProgram.Layout.{
  Message, kind_of, operands_of, discriminant, initializing_mint, initializing_account,
  initializing_multisig, transferring, approving, revoking, setting_authority, minting, burning,
  closing, freezing, thawing, transferring_checked, approving_checked, minting_checked,
  burning_checked, initializing_account2, syncing_native, initializing_account3,
  initializing_multisig2, initializing_mint2, getting_account_data_size,
  initializing_immutable_owner, converting_amount, converting_text,
}
use solana_c_indexer.TokenProgram.Wire.{layout, IsNamed}
use solana_c_indexer.TokenProgram.Decode.{decode_variant, decode}
use solana_c_indexer.TokenProgram.Setup.{
  decode_initializing_mint, decode_initializing_account, decode_initializing_multisig,
  decode_initializing_account2, decode_initializing_account3, decode_initializing_multisig2,
  decode_initializing_mint2, decode_initializing_immutable_owner,
}
use solana_c_indexer.TokenProgram.Moves.{
  decode_transferring, decode_approving, decode_revoking, decode_setting_authority, decode_minting,
  decode_burning, decode_closing, decode_freezing, decode_thawing, decode_transferring_checked,
  decode_approving_checked, decode_minting_checked, decode_burning_checked, decode_syncing_native,
  decode_getting_account_data_size, decode_converting_amount, decode_converting_text,
}

decode_variant_lem :
    (tx : Transaction) (ix : Instruction) (c : Cursor) (ys : List Byte) (message : Message)
    → IsNamed tx ix message
    → rest c ≡ layout message ys
    → decode_variant (kind_of message) tx ix c ≡ value (operands_of message)
decode_variant_lem tx ix c ys (initializing_mint account decimals mint option_key) n e =
    decode_initializing_mint tx ix c ys account decimals mint option_key n e
decode_variant_lem tx ix c ys (initializing_account account mint authority) n e =
    decode_initializing_account tx ix c ys account mint authority n e
decode_variant_lem tx ix c ys (initializing_multisig account signers required) n e =
    decode_initializing_multisig tx ix c ys account signers required n e
decode_variant_lem tx ix c ys (transferring account destination authority amount) n e =
    decode_transferring tx ix c ys account destination authority amount n e
decode_variant_lem tx ix c ys (approving account destination authority amount) n e =
    decode_approving tx ix c ys account destination authority amount n e
decode_variant_lem tx ix c ys (revoking account authority) n e =
    decode_revoking tx ix c ys account authority n e
decode_variant_lem tx ix c ys (setting_authority account authority authority_type option_key) n e =
    decode_setting_authority tx ix c ys account authority authority_type option_key n e
decode_variant_lem tx ix c ys (minting mint account authority amount) n e =
    decode_minting tx ix c ys mint account authority amount n e
decode_variant_lem tx ix c ys (burning account mint authority amount) n e =
    decode_burning tx ix c ys account mint authority amount n e
decode_variant_lem tx ix c ys (closing account destination authority) n e =
    decode_closing tx ix c ys account destination authority n e
decode_variant_lem tx ix c ys (freezing account mint authority) n e =
    decode_freezing tx ix c ys account mint authority n e
decode_variant_lem tx ix c ys (thawing account mint authority) n e =
    decode_thawing tx ix c ys account mint authority n e
decode_variant_lem tx ix c ys
      (transferring_checked account mint destination authority amount decimals) n e =
    decode_transferring_checked tx ix c ys account mint destination authority amount decimals n e
decode_variant_lem tx ix c ys (approving_checked account mint destination authority amount decimals)
      n e =
    decode_approving_checked tx ix c ys account mint destination authority amount decimals n e
decode_variant_lem tx ix c ys (minting_checked mint account authority amount decimals) n e =
    decode_minting_checked tx ix c ys mint account authority amount decimals n e
decode_variant_lem tx ix c ys (burning_checked account mint authority amount decimals) n e =
    decode_burning_checked tx ix c ys account mint authority amount decimals n e
decode_variant_lem tx ix c ys (initializing_account2 account mint authority) n e =
    decode_initializing_account2 tx ix c ys account mint authority n e
decode_variant_lem tx ix c ys (syncing_native account) n e =
    decode_syncing_native tx ix c ys account n e
decode_variant_lem tx ix c ys (initializing_account3 account mint authority) n e =
    decode_initializing_account3 tx ix c ys account mint authority n e
decode_variant_lem tx ix c ys (initializing_multisig2 account signers required) n e =
    decode_initializing_multisig2 tx ix c ys account signers required n e
decode_variant_lem tx ix c ys (initializing_mint2 account decimals mint option_key) n e =
    decode_initializing_mint2 tx ix c ys account decimals mint option_key n e
decode_variant_lem tx ix c ys (getting_account_data_size mint) n e =
    decode_getting_account_data_size tx ix c ys mint n e
decode_variant_lem tx ix c ys (initializing_immutable_owner account) n e =
    decode_initializing_immutable_owner tx ix c ys account n e
decode_variant_lem tx ix c ys (converting_amount mint amount) n e =
    decode_converting_amount tx ix c ys mint amount n e
decode_variant_lem tx ix c ys (converting_text mint text) n e =
    decode_converting_text tx ix c ys mint text n e

discriminant-kinds :
    (k : Kind) → (discriminant k ≤ 24) × (get_or kinds (discriminant k) initialize_mint ≡ k)
discriminant-kinds initialize_mint = (omega arith, refl)
discriminant-kinds initialize_account = (omega arith, refl)
discriminant-kinds initialize_multisig = (omega arith, refl)
discriminant-kinds transfer = (omega arith, refl)
discriminant-kinds approve = (omega arith, refl)
discriminant-kinds revoke = (omega arith, refl)
discriminant-kinds set_authority = (omega arith, refl)
discriminant-kinds mint_to = (omega arith, refl)
discriminant-kinds burn = (omega arith, refl)
discriminant-kinds close_account = (omega arith, refl)
discriminant-kinds freeze_account = (omega arith, refl)
discriminant-kinds thaw_account = (omega arith, refl)
discriminant-kinds transfer_checked = (omega arith, refl)
discriminant-kinds approve_checked = (omega arith, refl)
discriminant-kinds mint_to_checked = (omega arith, refl)
discriminant-kinds burn_checked = (omega arith, refl)
discriminant-kinds initialize_account2 = (omega arith, refl)
discriminant-kinds sync_native = (omega arith, refl)
discriminant-kinds initialize_account3 = (omega arith, refl)
discriminant-kinds initialize_multisig2 = (omega arith, refl)
discriminant-kinds initialize_mint2 = (omega arith, refl)
discriminant-kinds get_account_data_size = (omega arith, refl)
discriminant-kinds initialize_immutable_owner = (omega arith, refl)
discriminant-kinds amount_to_ui_amount = (omega arith, refl)
discriminant-kinds ui_amount_to_amount = (omega arith, refl)

-- Every token instruction that is written in the programs' encoding is decoded to its kind and its
-- operands, if it names the accounts of its variant, its keys have 32 bytes and its amounts fit in 64
-- bits. Any bytes may stand behind it, but not behind the text of UiAmountToAmount, which runs to the
-- end of the data.
pub decode-message :
    (tx : Transaction) (ix : Instruction) (message : Message) (trailing : List Byte)
    → IsNamed tx ix message
    → ix.payload ≡ discriminant (kind_of message) ∷ layout message trailing
    → decode tx ix ≡ value (record { kind = kind_of message; operands = operands_of message })
unfolding decode init
decode-message tx ix message trailing named e =
    let k = kind_of message in
    let (known, same) = discriminant-kinds k in
    let (c, read, r) = u8_lem (init ix.payload) (discriminant k) (layout message trailing) e in
    rw (
      read,
      if_false (ltb 24 (discriminant k)) _ _ (ground arith),
      same,
      decode_variant_lem tx ix c trailing message named r,
    )
