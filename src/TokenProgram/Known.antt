-- ===== src/TokenProgram/Known.antt =====
-- The decoder of the token programs says that an instruction is unknown by its first byte only.
use solana_c_indexer.Base.{
  ℕ, ◌≤◌, ◌≡◌, ◌≢◌, refl, Bool, true, false, Option, none, some, List, [], ◌∷◌, get_or, ltb,
  if◌then◌else◌, arith, if_false, Status, parse, not_found, range, internal, Result, value, fail,
  ◌>>=◌,
}
use solana_c_indexer.Bytes.{Byte}
use solana_c_indexer.Bytes.Cursor.{Cursor, init, remaining, take_bytes, copy, u8, u64le}
use solana_c_indexer.Bytes.Reads.{u8_lem}
use solana_c_indexer.Chain.{
  Pubkey, Transaction, Instruction, instruction_account, require_account, read_pubkey,
}
use solana_c_indexer.TokenProgram.{
  Kind, kinds, initialize_mint, initialize_account, initialize_multisig, transfer, approve, revoke,
  set_authority, mint_to, burn, close_account, freeze_account, thaw_account, transfer_checked,
  approve_checked, mint_to_checked, burn_checked, initialize_account2, sync_native,
  initialize_account3, initialize_multisig2, initialize_mint2, get_account_data_size,
  initialize_immutable_owner, amount_to_ui_amount, ui_amount_to_amount,
}
use solana_c_indexer.TokenProgram.Decode.{
  read_optional_pubkey, read_amount, decode_initialize_mint, decode_initialize_account,
  decode_initialize_multisig, decode_variant, decode_kind, decode,
}

-- A result that does not say that something is unknown.
pub data Known {ℓ} {A : Type ℓ} (r : Result A) : Type ℓ where
  known : (◌≢◌ {A = Result A} r (fail not_found)) → Known r

module _ {ℓ} {A : Type ℓ} where
  pub Known-value : (a : A) → Known (value a)
  Known-value a = known (λ e. cc)

  pub Known-parse : Known {A = A} (fail parse)
  Known-parse = known (λ e. cc)

  pub Known-range : Known {A = A} (fail range)
  Known-range = known (λ e. cc)

  pub Known-internal : Known {A = A} (fail internal)
  Known-internal = known (λ e. cc)

  pub Known-if : (b : Bool) (r s : Result A) → Known r → Known s → Known (if b then r else s)
  Known-if true r s k l = k
  Known-if false r s k l = l

fail-same {ℓ κ} :
    {A : Type ℓ} {B : Type κ} (s : Status)
    → ◌≢◌ {A = Result A} (fail s) (fail not_found)
    → ◌≢◌ {A = Result B} (fail s) (fail not_found)
fail-same s ne e = ne (cc)

pub Known-bind {ℓ κ} :
    {A : Type ℓ} {B : Type κ} (m : Result A) (f : A → Result B)
    → Known m
    → ((a : A) → Known (f a))
    → Known (m >>= f)
Known-bind (value a) f k l = l a
Known-bind {A} {B} (fail s) f (known ne) l = known (fail-same {A = A} {B = B} s ne)

pub take_bytes-Known : (c : Cursor) (n : ℕ) → Known (take_bytes c n)
unfolding take_bytes
take_bytes-Known c n = Known-if _ _ _ Known-range (Known-value _)

pub copy-Known : (c : Cursor) (n : ℕ) → Known (copy c n)
unfolding copy
copy-Known c n = Known-bind _ _ (take_bytes-Known c n) (λ a. Known-value _)

pub u8-Known : (c : Cursor) → Known (u8 c)
unfolding u8
u8-Known c = Known-bind _ _ (copy-Known c 1) (λ a. Known-value _)

pub u64le-Known : (c : Cursor) → Known (u64le c)
unfolding u64le
u64le-Known c = Known-bind _ _ (copy-Known c 8) (λ a. Known-value _)

pub read_pubkey-Known : (c : Cursor) → Known (read_pubkey c)
unfolding read_pubkey
read_pubkey-Known c = copy-Known c 32

pub require_account-Known :
    (tx : Transaction) (ix : Instruction) (i : ℕ) → Known (require_account tx ix i)
unfolding require_account
require_account-Known tx ix i = from (instruction_account tx ix i)
  where
    from :
        (r : Option Pubkey)
        → Known (elim r as (λ x. Result Pubkey) [ none ↦ fail parse | some key ↦ value key ])
    from none = Known-parse
    from (some key) = Known-value key

pub ruleset known_rules = (
  Known-value, Known-parse, Known-range, Known-internal, Known-if, Known-bind, take_bytes-Known,
  copy-Known, u8-Known, u64le-Known, read_pubkey-Known, require_account-Known,
)

read_optional_pubkey-Known : (c : Cursor) → Known (read_optional_pubkey c)
unfolding read_optional_pubkey
read_optional_pubkey-Known c = search known_rules depth 10

read_amount-Known : (checked : Bool) (c : Cursor) → Known (read_amount checked c)
unfolding read_amount
read_amount-Known false c = search known_rules depth 8
read_amount-Known true c = search known_rules depth 8

ruleset field_rules = (known_rules, read_optional_pubkey-Known, read_amount-Known)

module _ (tx : Transaction) (ix : Instruction) (c : Cursor) where
  initialize_mint-Known : Known (decode_initialize_mint tx ix c)
  unfolding decode_initialize_mint
  initialize_mint-Known = search field_rules depth 20

  initialize_account-Known : (named : Bool) → Known (decode_initialize_account named tx ix c)
  unfolding decode_initialize_account
  initialize_account-Known false = search field_rules depth 20
  initialize_account-Known true = search field_rules depth 20

  initialize_multisig-Known : (n : ℕ) → Known (decode_initialize_multisig n tx ix c)
  unfolding decode_initialize_multisig
  initialize_multisig-Known n = search field_rules depth 20

  decode_variant-Known : (kind : Kind) → Known (decode_variant kind tx ix c)
  unfolding decode_variant
  decode_variant-Known initialize_mint = initialize_mint-Known
  decode_variant-Known initialize_account = initialize_account-Known true
  decode_variant-Known initialize_multisig = initialize_multisig-Known _
  decode_variant-Known transfer = search field_rules depth 20
  decode_variant-Known approve = search field_rules depth 20
  decode_variant-Known revoke = search field_rules depth 20
  decode_variant-Known set_authority = search field_rules depth 20
  decode_variant-Known mint_to = search field_rules depth 20
  decode_variant-Known burn = search field_rules depth 20
  decode_variant-Known close_account = search field_rules depth 20
  decode_variant-Known freeze_account = search field_rules depth 20
  decode_variant-Known thaw_account = search field_rules depth 20
  decode_variant-Known transfer_checked = search field_rules depth 20
  decode_variant-Known approve_checked = search field_rules depth 20
  decode_variant-Known mint_to_checked = search field_rules depth 20
  decode_variant-Known burn_checked = search field_rules depth 20
  decode_variant-Known initialize_account2 = initialize_account-Known false
  decode_variant-Known sync_native = search field_rules depth 20
  decode_variant-Known initialize_account3 = initialize_account-Known false
  decode_variant-Known initialize_multisig2 = initialize_multisig-Known _
  decode_variant-Known initialize_mint2 = initialize_mint-Known
  decode_variant-Known get_account_data_size = search field_rules depth 20
  decode_variant-Known initialize_immutable_owner = search field_rules depth 20
  decode_variant-Known amount_to_ui_amount = search field_rules depth 20
  decode_variant-Known ui_amount_to_amount = search field_rules depth 20

  decode_kind-Known : (kind : Kind) → Known (decode_kind kind tx ix c)
  unfolding decode_kind
  decode_kind-Known kind = Known-bind _ _ (decode_variant-Known kind) (λ a. Known-value _)

-- The decoder knows every instruction whose first byte is at most 24.
pub decode-Known :
    (tx : Transaction) (ix : Instruction) (d : ℕ) (ys : List Byte)
    → d ≤ 24
    → ix.payload ≡ d ∷ ys
    → Known (decode tx ix)
unfolding decode init
decode-Known tx ix d ys low e =
    let (c, read, r) = u8_lem (init ix.payload) d ys e in
    rw read (
      rw
        (if_false (ltb 24 d) (fail not_found) (decode_kind (get_or kinds d initialize_mint) tx ix c)
          (ground arith))
        (decode_kind-Known tx ix c _))

pub decode-empty :
    (tx : Transaction) (ix : Instruction) → ix.payload ≡ [] → decode tx ix ≡ fail range
unfolding decode init u8 copy take_bytes remaining
decode-empty tx ix e = rw e refl
