-- ===== src/Token2022/RoundTrip.antt =====
-- The decoder reads the encoding of every Token-2022 instruction back.
use solana_c_indexer.Base.{
  ℕ, ◌-◌, ◌*◌, ◌/◌, ◌%◌, ◌<◌, ◌≤◌, ◌≡◌, refl, ap, ◌∙◌, true, false, not, Option, none, some, List,
  [], ◌∷◌, ◌++◌, length, get_or, ltb, ◌==◌, value, fail, not_found, arith, if_false, if_true,
}
use solana_c_indexer.Bytes.{Byte}
use solana_c_indexer.Bytes.Cursor.{Cursor, init, rest, copy}
use solana_c_indexer.Bytes.Reads.{u8_lem}
use solana_c_indexer.Chain.{Pubkey, Transaction, Instruction, instruction_account, read_pubkey}
use solana_c_indexer.Chain.Reads.{require_account_lem, read_pubkey_lem}
use solana_c_indexer.TokenProgram.Decode
use solana_c_indexer.TokenProgram.Fields.{take_rest}
use solana_c_indexer.TokenProgram.Wire.{option_bytes, key_length}
use solana_c_indexer.TokenProgram.RoundTrip
use solana_c_indexer.Token2022.{
  Kind, initialize_mint_close_authority, transfer_fee_extension, confidential_transfer_extension,
  default_account_state_extension, reallocate, memo_transfer_extension, create_native_mint,
  initialize_non_transferable_mint, interest_bearing_mint_extension, cpi_guard_extension,
  initialize_permanent_delegate, transfer_hook_extension, confidential_transfer_fee_extension,
  withdraw_excess_lamports, metadata_pointer_extension, group_pointer_extension,
  group_member_pointer_extension, confidential_mint_burn_extension, scaled_ui_amount_extension,
  pausable_extension, kinds, is_extension, Operands, close_authority_initialized,
  delegate_initialized, reallocated, extension, own, close_authority_by, decode_extension,
  decode_reallocate, decode_variant, decode_kind, decode_beyond, decode,
}
use solana_c_indexer.Token2022.Layout.{
  Message, shared, closing_authority, delegating, creating_native, non_transferable,
  withdrawing_excess, reallocating, extending, discriminant, types_bytes, layout, IsGroup, IsNamed,
  decoded_of,
}

copy_key :
    (c : Cursor) (key : Pubkey) (ys : List Byte)
    → length key ≡ 32
    → rest c ≡ key ++ ys
    → (c' : Cursor) × (copy c 32 ≡ value (key, c'))
unfolding read_pubkey
copy_key c key ys len e = let (c', t, r) = read_pubkey_lem c key ys len e in (c', t)

pub length-types_bytes : (types : List ℕ) → length (types_bytes types) ≡ length types * 2
length-types_bytes [] = refl
length-types_bytes (t ∷ types) = omega (arith, length-types_bytes types)

module _ (tx : Transaction) (ix : Instruction) (c : Cursor) where
  decode_closing_authority :
      (mint : Pubkey) (key : Option Pubkey) (ys : List Byte)
      → instruction_account tx ix 0 ≡ some mint
      → key_length key ≡ 32
      → rest c ≡ option_bytes key ys
      → decode_variant initialize_mint_close_authority tx ix c
        ≡ value (close_authority_initialized mint key)
  unfolding decode_variant close_authority_by
  decode_closing_authority mint none ys n len e =
      let (c1, e1, r1) = u8_lem c 0 ys e in rw (require_account_lem tx ix 0 mint n, e1) refl
  decode_closing_authority mint (some key) ys n len e =
      let (c1, e1, r1) = u8_lem c 1 (key ++ ys) e in
      let (c2, e2) = copy_key c1 key ys len r1 in
      rw (require_account_lem tx ix 0 mint n, e1, e2) refl

  decode_delegating :
      (mint delegate : Pubkey) (ys : List Byte)
      → instruction_account tx ix 0 ≡ some mint
      → length delegate ≡ 32
      → rest c ≡ delegate ++ ys
      → decode_variant initialize_permanent_delegate tx ix c
        ≡ value (delegate_initialized mint delegate)
  unfolding decode_variant
  decode_delegating mint delegate ys n len e =
      let (c1, e1) = copy_key c delegate ys len e in
      rw (require_account_lem tx ix 0 mint n, e1) refl

  decode_reallocating :
      (account payer owner : Pubkey) (types : List ℕ)
      → instruction_account tx ix 0 ≡ some account
      → instruction_account tx ix 1 ≡ some payer
      → instruction_account tx ix 3 ≡ some owner
      → rest c ≡ types_bytes types
      → decode_variant reallocate tx ix c
        ≡ value (reallocated account payer owner (types_bytes types) (length types))
  unfolding decode_variant decode_reallocate
  decode_reallocating account payer owner types n0 n1 n3 e =
      let (c1, e1) = take_rest c (types_bytes types) e in
      let even : (not (length (types_bytes types) % 2 == 0)) ≡ false =
        ground (arith, length-types_bytes types) in
      let half : length (types_bytes types) / 2 ≡ length types =
        omega (arith, length-types_bytes types) in
      rw
        (
          require_account_lem tx ix 0 account n0,
          require_account_lem tx ix 1 payer n1,
          require_account_lem tx ix 3 owner n3,
          e1,
        )
        (rw even (ap (λ n. value (reallocated account payer owner (types_bytes types) n)) half))

  decode_extending :
      (sub : ℕ) (payload : List Byte)
      → rest c ≡ sub ∷ payload
      → decode_extension c ≡ value (extension sub payload)
  unfolding decode_extension
  decode_extending sub payload e =
      let (c1, e1, r1) = u8_lem c sub payload e in
      let (c2, e2) = take_rest c1 payload r1 in rw (e1, e2) refl

discriminant-kinds :
    (k : Kind)
    → (25 ≤ discriminant k)
      × (discriminant k ≤ 44)
      × (get_or kinds (discriminant k - 25) initialize_mint_close_authority ≡ k)
discriminant-kinds initialize_mint_close_authority = (omega arith, omega arith, refl)
discriminant-kinds transfer_fee_extension = (omega arith, omega arith, refl)
discriminant-kinds confidential_transfer_extension = (omega arith, omega arith, refl)
discriminant-kinds default_account_state_extension = (omega arith, omega arith, refl)
discriminant-kinds reallocate = (omega arith, omega arith, refl)
discriminant-kinds memo_transfer_extension = (omega arith, omega arith, refl)
discriminant-kinds create_native_mint = (omega arith, omega arith, refl)
discriminant-kinds initialize_non_transferable_mint = (omega arith, omega arith, refl)
discriminant-kinds interest_bearing_mint_extension = (omega arith, omega arith, refl)
discriminant-kinds cpi_guard_extension = (omega arith, omega arith, refl)
discriminant-kinds initialize_permanent_delegate = (omega arith, omega arith, refl)
discriminant-kinds transfer_hook_extension = (omega arith, omega arith, refl)
discriminant-kinds confidential_transfer_fee_extension = (omega arith, omega arith, refl)
discriminant-kinds withdraw_excess_lamports = (omega arith, omega arith, refl)
discriminant-kinds metadata_pointer_extension = (omega arith, omega arith, refl)
discriminant-kinds group_pointer_extension = (omega arith, omega arith, refl)
discriminant-kinds group_member_pointer_extension = (omega arith, omega arith, refl)
discriminant-kinds confidential_mint_burn_extension = (omega arith, omega arith, refl)
discriminant-kinds scaled_ui_amount_extension = (omega arith, omega arith, refl)
discriminant-kinds pausable_extension = (omega arith, omega arith, refl)

-- A discriminant past the shared range is not found by the decoder of that range.
pub shared-not_found :
    (tx : Transaction) (ix : Instruction) (d : ℕ) (ys : List Byte)
    → 24 < d
    → ix.payload ≡ d ∷ ys
    → Decode.decode tx ix ≡ fail not_found
unfolding Decode.decode init
shared-not_found tx ix d ys past e =
    let (c, read, r) = u8_lem (init ix.payload) d ys e in
    rw read (if_true (ltb 24 d) _ _ (ground arith))

-- The decoder of an instruction whose discriminant is one of its own.
beyond-own :
    (tx : Transaction) (ix : Instruction) (k : Kind) (ys : List Byte)
    → ix.payload ≡ discriminant k ∷ ys
    → (c : Cursor) × (rest c ≡ ys) × (decode_beyond tx ix ≡ decode_kind k tx ix c)
unfolding decode_beyond init
beyond-own tx ix k ys e =
    let (low, high, same) = discriminant-kinds k in
    let (c, read, r) = u8_lem (init ix.payload) (discriminant k) ys e in
    (
      c,
      r,
      rw (read, decode_beyond)
          (if_false (ltb 44 (discriminant k)) _ _ (ground arith)
            ∙ if_false (ltb (discriminant k) 25) _ _ (ground arith)
            ∙ ap (λ kind. decode_kind kind tx ix c) same),
    )

pub decode-beyond :
    (tx : Transaction) (ix : Instruction)
    → Decode.decode tx ix ≡ fail not_found
    → decode tx ix ≡ decode_beyond tx ix
unfolding decode
decode-beyond tx ix e = rw (e, decode) refl

decode-own :
    (tx : Transaction) (ix : Instruction) (k : Kind) (ys : List Byte)
    → ix.payload ≡ discriminant k ∷ ys
    → (c : Cursor) × (rest c ≡ ys) × (decode tx ix ≡ decode_kind k tx ix c)
decode-own tx ix k ys e =
    let (low, high, same) = discriminant-kinds k in
    let (c, r, step) = beyond-own tx ix k ys e in
    (c, r, decode-beyond tx ix (shared-not_found tx ix (discriminant k) ys (omega arith) e) ∙ step)

own-variant :
    (tx : Transaction) (ix : Instruction) (k : Kind) (c : Cursor) (operands : Operands)
    → is_extension k ≡ false
    → decode_variant k tx ix c ≡ value operands
    → decode_kind k tx ix c ≡ value (own k operands)
unfolding decode_kind
own-variant tx ix k c operands e v = rw e (rw v refl)

own-extension :
    (tx : Transaction) (ix : Instruction) (k : Kind) (c : Cursor) (operands : Operands)
    → is_extension k ≡ true
    → decode_extension c ≡ value operands
    → decode_kind k tx ix c ≡ value (own k operands)
unfolding decode_kind
own-extension tx ix k c operands e v = rw e (rw v refl)

group_is_extension : (kind : Kind) → IsGroup kind → is_extension kind ≡ true
unfolding is_extension
group_is_extension initialize_mint_close_authority g = absurd g
group_is_extension reallocate g = absurd g
group_is_extension create_native_mint g = absurd g
group_is_extension initialize_non_transferable_mint g = absurd g
group_is_extension initialize_permanent_delegate g = absurd g
group_is_extension withdraw_excess_lamports g = absurd g
group_is_extension transfer_fee_extension g = refl
group_is_extension confidential_transfer_extension g = refl
group_is_extension default_account_state_extension g = refl
group_is_extension memo_transfer_extension g = refl
group_is_extension interest_bearing_mint_extension g = refl
group_is_extension cpi_guard_extension g = refl
group_is_extension transfer_hook_extension g = refl
group_is_extension confidential_transfer_fee_extension g = refl
group_is_extension metadata_pointer_extension g = refl
group_is_extension group_pointer_extension g = refl
group_is_extension group_member_pointer_extension g = refl
group_is_extension confidential_mint_burn_extension g = refl
group_is_extension scaled_ui_amount_extension g = refl
group_is_extension pausable_extension g = refl

-- Every Token-2022 instruction that is written in the program's encoding, one of the shared range,
-- one of its own or one of an extension group, is decoded to what it says, if it names the accounts
-- of its variant, its keys have 32 bytes and its amounts fit in 64 bits. Any bytes may stand behind
-- it, but not behind a text, an array of types or the payload of a group, which run to the end of the
-- data.
pub decode-message2022 :
    (tx : Transaction) (ix : Instruction) (message : Message) (trailing : List Byte)
    → IsNamed tx ix message
    → ix.payload ≡ layout message trailing
    → decode tx ix ≡ value (decoded_of message)
unfolding decode is_extension decode_variant
decode-message2022 tx ix (shared message) ys n e =
    rw (RoundTrip.decode-message tx ix message ys n e, decode) refl
decode-message2022 tx ix (closing_authority mint key) ys n e =
    let (c, r, s) = decode-own tx ix initialize_mint_close_authority _ e in
    s
    ∙ own-variant tx ix initialize_mint_close_authority c _ refl
        (decode_closing_authority tx ix c mint key ys n.0 n.1 r)
decode-message2022 tx ix (delegating mint delegate) ys n e =
    let (c, r, s) = decode-own tx ix initialize_permanent_delegate _ e in
    s
    ∙ own-variant tx ix initialize_permanent_delegate c _ refl
        (decode_delegating tx ix c mint delegate ys n.0 n.1 r)
decode-message2022 tx ix (creating_native payer mint) ys n e =
    let (c, r, s) = decode-own tx ix create_native_mint _ e in
    s
    ∙ own-variant tx ix create_native_mint c _ refl
        (rw (require_account_lem tx ix 0 payer n.0, require_account_lem tx ix 1 mint n.1) refl)
decode-message2022 tx ix (non_transferable mint) ys n e =
    let (c, r, s) = decode-own tx ix initialize_non_transferable_mint _ e in
    s
    ∙ own-variant tx ix initialize_non_transferable_mint c _ refl
        (rw (require_account_lem tx ix 0 mint n) refl)
decode-message2022 tx ix (withdrawing_excess source destination authority) ys n e =
    let (c, r, s) = decode-own tx ix withdraw_excess_lamports _ e in
    s
    ∙ own-variant tx ix withdraw_excess_lamports c _ refl (
        rw
          (
            require_account_lem tx ix 0 source n.0,
            require_account_lem tx ix 1 destination n.1,
            require_account_lem tx ix 2 authority n.2,
          )
          refl)
decode-message2022 tx ix (reallocating account payer owner types) ys n e =
    let (c, r, s) = decode-own tx ix reallocate _ e in
    s
    ∙ own-variant tx ix reallocate c _ refl
        (decode_reallocating tx ix c account payer owner types n.0 n.1 n.2 r)
decode-message2022 tx ix (extending group sub payload) ys n e =
    let (c, r, s) = decode-own tx ix group _ e in
    s
    ∙ own-extension tx ix group c _ (group_is_extension group n)
        (decode_extending tx ix c sub payload r)
