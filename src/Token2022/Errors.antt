-- ===== src/Token2022/Errors.antt =====
-- When the decoders of the token programs say that an instruction is unknown.
use mathlib.Core.Path.{subst}
use solana_c_indexer.Base.{
  ℕ, ◌≤◌, ◌<◌, ◌≡◌, refl, sym, ◌∙◌, ◌⊎◌, inl, inr, List, [], ◌∷◌, ltb, arith, Bool-cases, if_true,
  if_false, not_found, range, Result, value, fail,
}
use solana_c_indexer.Bytes.{Byte}
use solana_c_indexer.Bytes.Cursor.{Cursor, init}
use solana_c_indexer.Bytes.Reads.{u8_lem}
use solana_c_indexer.Chain.{Pubkey, Transaction, Instruction}
use solana_c_indexer.TokenProgram
use solana_c_indexer.TokenProgram.Known.{
  Known, known, known_rules, Known-value, Known-internal, Known-bind, Known-if, u8-Known,
  require_account-Known, decode-Known, decode-empty,
}
use solana_c_indexer.TokenProgram.Decode
use solana_c_indexer.Token2022.RoundTrip.{shared-not_found, decode-beyond}
use solana_c_indexer.Token2022.{
  Kind, initialize_mint_close_authority, transfer_fee_extension, confidential_transfer_extension,
  default_account_state_extension, reallocate, memo_transfer_extension, create_native_mint,
  initialize_non_transferable_mint, interest_bearing_mint_extension, cpi_guard_extension,
  initialize_permanent_delegate, transfer_hook_extension, confidential_transfer_fee_extension,
  withdraw_excess_lamports, metadata_pointer_extension, group_pointer_extension,
  group_member_pointer_extension, confidential_mint_burn_extension, scaled_ui_amount_extension,
  pausable_extension, is_extension, base, close_authority_by, decode_extension, decode_reallocate,
  decode_variant, decode_kind, decode_beyond, decode,
}

decode_reallocate-Known :
    (tx : Transaction) (ix : Instruction) (c : Cursor) → Known (decode_reallocate tx ix c)
unfolding decode_reallocate
decode_reallocate-Known tx ix c = search known_rules depth 14

module _ (tx : Transaction) (ix : Instruction) (c : Cursor) where
  close_authority_by-Known : (mint : Pubkey) (tag : ℕ) → Known (close_authority_by mint tag c)
  unfolding close_authority_by
  close_authority_by-Known mint tag = search known_rules depth 8

  decode_extension-Known : Known (decode_extension c)
  unfolding decode_extension
  decode_extension-Known = search known_rules depth 8

module _ (tx : Transaction) (ix : Instruction) (c : Cursor) where
  decode_variant-Known : (kind : Kind) → Known (decode_variant kind tx ix c)
  unfolding decode_variant
  decode_variant-Known initialize_mint_close_authority =
      Known-bind _ _ (require_account-Known tx ix 0)
        (λ mint. Known-bind _ _ (u8-Known c) (λ p. close_authority_by-Known tx ix p.1 mint p.0))
  decode_variant-Known transfer_fee_extension = Known-internal
  decode_variant-Known confidential_transfer_extension = Known-internal
  decode_variant-Known default_account_state_extension = Known-internal
  decode_variant-Known reallocate = decode_reallocate-Known tx ix c
  decode_variant-Known memo_transfer_extension = Known-internal
  decode_variant-Known create_native_mint = search known_rules depth 14
  decode_variant-Known initialize_non_transferable_mint = search known_rules depth 14
  decode_variant-Known interest_bearing_mint_extension = Known-internal
  decode_variant-Known cpi_guard_extension = Known-internal
  decode_variant-Known initialize_permanent_delegate = search known_rules depth 14
  decode_variant-Known transfer_hook_extension = Known-internal
  decode_variant-Known confidential_transfer_fee_extension = Known-internal
  decode_variant-Known withdraw_excess_lamports = search known_rules depth 14
  decode_variant-Known metadata_pointer_extension = Known-internal
  decode_variant-Known group_pointer_extension = Known-internal
  decode_variant-Known group_member_pointer_extension = Known-internal
  decode_variant-Known confidential_mint_burn_extension = Known-internal
  decode_variant-Known scaled_ui_amount_extension = Known-internal
  decode_variant-Known pausable_extension = Known-internal

  decode_kind-Known : (kind : Kind) → Known (decode_kind kind tx ix c)
  unfolding decode_kind
  decode_kind-Known kind =
      Known-bind _ _
        (Known-if (is_extension kind) _ _ (decode_extension-Known tx ix c)
          (decode_variant-Known kind))
        (λ a. Known-value _)

-- By the first byte: nothing to read, one of the shared range, one that is known, or another.
beyond-not_found :
    (tx : Transaction) (ix : Instruction) (d : ℕ) (ys : List Byte)
    → 44 < d
    → ix.payload ≡ d ∷ ys
    → decode_beyond tx ix ≡ fail not_found
unfolding decode_beyond init
beyond-not_found tx ix d ys past e =
    let (c, read, r) = u8_lem (init ix.payload) d ys e in
    rw (read, decode_beyond) (if_true (ltb 44 d) _ _ (ground arith))

beyond-Known :
    (tx : Transaction) (ix : Instruction) (d : ℕ) (ys : List Byte)
    → d ≤ 44
    → ix.payload ≡ d ∷ ys
    → Known (decode_beyond tx ix)
unfolding decode_beyond init
beyond-Known tx ix d ys low e =
    let (c, read, r) = u8_lem (init ix.payload) d ys e in
    rw (read, decode_beyond)
      (subst Known (sym (if_false (ltb 44 d) (fail not_found) _ (ground arith)))
        (Known-if (ltb d 25) _ _ Known-internal (decode_kind-Known tx ix c _)))

-- The call by the result of the shared decoder.
by-Known :
    (tx : Transaction) (ix : Instruction) (r : Result TokenProgram.TokenInstruction)
    → Decode.decode tx ix ≡ r
    → Known r
    → Known (decode tx ix)
unfolding decode
by-Known tx ix (value t) e k = rw (e, decode) (Known-value (base t))
by-Known tx ix (fail not_found) e (known ne) = absurd (ne refl)
by-Known tx ix (fail s) e k = rw (e, decode) (known (λ e'. cc))

-- An instruction is reported as not found exactly if its first byte is above 44: either it has such
-- a byte and the result is IDX_ERR_NOT_FOUND, or it has none, or a smaller one, and the result is
-- another, a decoded instruction or another error.
pub decode-cases :
    (tx : Transaction) (ix : Instruction)
    → ((d : ℕ) × (ys : List Byte) × (ix.payload ≡ d ∷ ys)
        × (44 < d)
        × (decode tx ix ≡ fail not_found))
      ⊎ ((ix.payload ≡ []) ⊎ ((d : ℕ) × (ys : List Byte) × (ix.payload ≡ d ∷ ys) × (d ≤ 44)))
        × Known (decode tx ix)
decode-cases tx ix = from ix.payload refl
  where
    from :
        (payload : List Byte)
        → ix.payload ≡ payload
        → ((d : ℕ) × (ys : List Byte) × (ix.payload ≡ d ∷ ys)
            × (44 < d)
            × (decode tx ix ≡ fail not_found))
          ⊎ ((ix.payload ≡ []) ⊎ ((d : ℕ) × (ys : List Byte) × (ix.payload ≡ d ∷ ys) × (d ≤ 44)))
            × Known (decode tx ix)
    from [] e = inr (inl e, by-Known tx ix (fail range) (decode-empty tx ix e) (known (λ e'. cc)))
    from (d ∷ ys) e = elim (Bool-cases (ltb 44 d)) [
      | inl past ↦ inl (
        d,
        ys,
        e,
        ground arith,
        decode-beyond tx ix (shared-not_found tx ix d ys (ground arith) e)
            ∙ beyond-not_found tx ix d ys (ground arith) e,
      )
      | inr low ↦ inr (
        inr (d, ys, e, ground arith),
        elim (Bool-cases (ltb 24 d)) [
          | inl past ↦
              subst Known (sym (decode-beyond tx ix (shared-not_found tx ix d ys (ground arith) e)))
                (beyond-Known tx ix d ys (ground arith) e)
          | inr shared ↦ by-Known tx ix _ refl (decode-Known tx ix d ys (ground arith) e)
        ],
      )
    ]
