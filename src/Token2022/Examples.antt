-- ===== src/Token2022/Examples.antt =====
-- Tests of the Token-2022 decoder, and its theorems applied at concrete inputs.
use solana_c_indexer.Base.{
  ℕ, ◌≤◌, ◌<◌, ◌≡◌, ◌⊎◌, refl, List, [], ◌∷◌, get_or, replicate, arith, value, fail, not_found,
}
use solana_c_indexer.Bytes.{Byte}
use solana_c_indexer.Chain.{Pubkey, Transaction, Instruction, instruction_account}
use solana_c_indexer.TokenProgram.Known.{Known}
use solana_c_indexer.Token2022.{
  transfer_fee_extension, extension, own, TransferWithFee, extension_type_at,
  transfer_with_fee_decode, decode,
}
use solana_c_indexer.Token2022.Layout.{Message, reallocating, types_bytes, decoded_of, layout}
use solana_c_indexer.Token2022.RoundTrip.{decode-message2022}
use solana_c_indexer.Token2022.Fee.{
  fee_bytes, transfer_with_fee_decode-decode, extension_type_at-types_bytes,
}
use solana_c_indexer.Token2022.Errors.{decode-cases}

abbrev key : ℕ → Pubkey
key n = replicate 32 n

abbrev tx : Transaction
tx = record {
  accounts = key 1 ∷ key 2 ∷ key 3 ∷ key 4 ∷ [];
  pre_balances = [];
  post_balances = [];
  pre_token_balances = [];
  post_token_balances = [];
}

abbrev saying : List Byte → Instruction
saying payload = record {
  program_id_index = 0;
  account_indices = 0 ∷ 1 ∷ 2 ∷ 3 ∷ [];
  payload = payload;
}

abbrev growing : Message
growing = reallocating (key 1) (key 2) (key 4) (7 ∷ 300 ∷ [])

abbrev charged : TransferWithFee
charged = record {
  source = key 1;
  mint = key 2;
  destination = key 3;
  authority = key 4;
  amount = 1000;
  fee = 5;
  decimals = 6;
}

decode-message2022_example : decode tx (saying (layout growing [])) ≡ value (decoded_of growing)
unfolding instruction_account
decode-message2022_example =
    decode-message2022 tx (saying (layout growing [])) growing [] (refl, refl, refl) refl

transfer_with_fee_decode-decode_example :
    (payload : List Byte) × (decode tx (saying (26 ∷ (1 ∷ fee_bytes charged (9 ∷ []))))
      ≡ value (own transfer_fee_extension (extension 1 payload)))
    × (transfer_with_fee_decode tx (saying (26 ∷ (1 ∷ fee_bytes charged (9 ∷ [])))) payload
        ≡ value charged)
unfolding instruction_account
transfer_with_fee_decode-decode_example =
    transfer_with_fee_decode-decode tx (saying (26 ∷ (1 ∷ fee_bytes charged (9 ∷ [])))) charged
      (9 ∷ []) (refl, refl, refl, refl, omega arith, omega arith) refl

extension_type_at-types_bytes_example :
    extension_type_at (types_bytes (7 ∷ 300 ∷ [])) 1 ≡ get_or (7 ∷ 300 ∷ []) 1 0
extension_type_at-types_bytes_example =
    extension_type_at-types_bytes (7 ∷ 300 ∷ []) 1 (omega arith, (omega arith, tt))

decode-cases_example :
    ((d : ℕ) × (ys : List Byte) × ((saying (45 ∷ [])).payload ≡ d ∷ ys)
      × (44 < d)
      × (decode tx (saying (45 ∷ [])) ≡ fail not_found))
    ⊎ (((saying (45 ∷ [])).payload ≡ [])
        ⊎ ((d : ℕ) × (ys : List Byte) × ((saying (45 ∷ [])).payload ≡ d ∷ ys) × (d ≤ 44)))
      × Known (decode tx (saying (45 ∷ [])))
decode-cases_example = decode-cases tx (saying (45 ∷ []))
