-- ===== src/TokenProgram/Setup.antt =====
-- The decoder on the instructions that initialise an account.
use solana_c_indexer.Base.{ℕ, ◌≡◌, Option, none, some, List, value}
use solana_c_indexer.Bytes.{Byte}
use solana_c_indexer.Bytes.Cursor.{Cursor, rest}
use solana_c_indexer.Bytes.Reads.{u8_lem}
use solana_c_indexer.Chain.{Pubkey, Transaction, Instruction}
use solana_c_indexer.Chain.Reads.{require_account_lem, read_pubkey_lem}
use solana_c_indexer.TokenProgram.{
  initialize_mint, initialize_account, initialize_multisig, initialize_account2,
  initialize_account3, initialize_multisig2, initialize_mint2, initialize_immutable_owner,
  initialized_mint, initialized_account, initialized_multisig, account_only,
}
use solana_c_indexer.TokenProgram.Layout.{
  initializing_mint, initializing_account, initializing_multisig, initializing_account2,
  initializing_account3, initializing_multisig2, initializing_mint2, initializing_immutable_owner,
}
use solana_c_indexer.TokenProgram.Wire.{layout, IsNamed}
use solana_c_indexer.TokenProgram.Fields.{read_optional_pubkey_lem}
use solana_c_indexer.TokenProgram.Decode.{
  decode_initialize_mint, decode_initialize_account, decode_initialize_multisig, decode_variant,
}

module _ (tx : Transaction) (ix : Instruction) (c : Cursor) (ys : List Byte) where
  pub decode_initializing_mint :
      (account : Pubkey) (decimals : ℕ) (mint : Pubkey) (option_key : Option Pubkey)
      → IsNamed tx ix (initializing_mint account decimals mint option_key)
      → rest c ≡ layout (initializing_mint account decimals mint option_key) ys
      → decode_variant initialize_mint tx ix c
        ≡ value (initialized_mint account mint option_key decimals)
  unfolding decode_variant decode_initialize_mint
  decode_initializing_mint account decimals mint option_key n e =
      let (c1, e1, r1) = u8_lem c decimals _ e in
      let (c2, e2, r2) = read_pubkey_lem c1 mint _ n.1 r1 in
      let (c3, e3, r3) = read_optional_pubkey_lem c2 option_key _ n.2 r2 in
      rw (require_account_lem tx ix 0 account n.0, e1, e2, e3)

  pub decode_initializing_account :
      (account mint authority : Pubkey)
      → IsNamed tx ix (initializing_account account mint authority)
      → rest c ≡ layout (initializing_account account mint authority) ys
      → decode_variant initialize_account tx ix c
        ≡ value (initialized_account account mint (some authority) authority)
  unfolding decode_variant decode_initialize_account
  decode_initializing_account account mint authority n e = rw (
    require_account_lem tx ix 0 account n.0,
    require_account_lem tx ix 1 mint n.1,
    require_account_lem tx ix 2 authority n.2,
  )

  pub decode_initializing_multisig :
      (account : Pubkey) (signers : List ℕ) (required : ℕ)
      → IsNamed tx ix (initializing_multisig account signers required)
      → rest c ≡ layout (initializing_multisig account signers required) ys
      → decode_variant initialize_multisig tx ix c
        ≡ value (initialized_multisig account signers required)
  unfolding decode_variant decode_initialize_multisig
  decode_initializing_multisig account signers required n e =
      let (c1, e1, r1) = u8_lem c required _ e in
      rw (require_account_lem tx ix 0 account n.0, e1, n.1)

  pub decode_initializing_account2 :
      (account mint authority : Pubkey)
      → IsNamed tx ix (initializing_account2 account mint authority)
      → rest c ≡ layout (initializing_account2 account mint authority) ys
      → decode_variant initialize_account2 tx ix c
        ≡ value (initialized_account account mint none authority)
  unfolding decode_variant decode_initialize_account
  decode_initializing_account2 account mint authority n e =
      let (c1, e1, r1) = read_pubkey_lem c authority _ n.2 e in
      rw (require_account_lem tx ix 0 account n.0, require_account_lem tx ix 1 mint n.1, e1)

  pub decode_initializing_account3 :
      (account mint authority : Pubkey)
      → IsNamed tx ix (initializing_account3 account mint authority)
      → rest c ≡ layout (initializing_account3 account mint authority) ys
      → decode_variant initialize_account3 tx ix c
        ≡ value (initialized_account account mint none authority)
  unfolding decode_variant decode_initialize_account
  decode_initializing_account3 account mint authority n e =
      let (c1, e1, r1) = read_pubkey_lem c authority _ n.2 e in
      rw (require_account_lem tx ix 0 account n.0, require_account_lem tx ix 1 mint n.1, e1)

  pub decode_initializing_multisig2 :
      (account : Pubkey) (signers : List ℕ) (required : ℕ)
      → IsNamed tx ix (initializing_multisig2 account signers required)
      → rest c ≡ layout (initializing_multisig2 account signers required) ys
      → decode_variant initialize_multisig2 tx ix c
        ≡ value (initialized_multisig account signers required)
  unfolding decode_variant decode_initialize_multisig
  decode_initializing_multisig2 account signers required n e =
      let (c1, e1, r1) = u8_lem c required _ e in
      rw (require_account_lem tx ix 0 account n.0, e1, n.1)

  pub decode_initializing_mint2 :
      (account : Pubkey) (decimals : ℕ) (mint : Pubkey) (option_key : Option Pubkey)
      → IsNamed tx ix (initializing_mint2 account decimals mint option_key)
      → rest c ≡ layout (initializing_mint2 account decimals mint option_key) ys
      → decode_variant initialize_mint2 tx ix c
        ≡ value (initialized_mint account mint option_key decimals)
  unfolding decode_variant decode_initialize_mint
  decode_initializing_mint2 account decimals mint option_key n e =
      let (c1, e1, r1) = u8_lem c decimals _ e in
      let (c2, e2, r2) = read_pubkey_lem c1 mint _ n.1 r1 in
      let (c3, e3, r3) = read_optional_pubkey_lem c2 option_key _ n.2 r2 in
      rw (require_account_lem tx ix 0 account n.0, e1, e2, e3)

  pub decode_initializing_immutable_owner :
      (account : Pubkey)
      → IsNamed tx ix (initializing_immutable_owner account)
      → rest c ≡ layout (initializing_immutable_owner account) ys
      → decode_variant initialize_immutable_owner tx ix c ≡ value (account_only account)
  unfolding decode_variant
  decode_initializing_immutable_owner account n e = rw (require_account_lem tx ix 0 account n)
