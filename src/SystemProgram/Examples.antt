-- ===== src/SystemProgram/Examples.antt =====
-- A System transfer.
use solana_c_indexer.Base.{◌≡◌, refl, [], ◌∷◌, value, fail, not_found, parse, arith, replicate}
use solana_c_indexer.Bytes.Cursor.{init, take_bytes, copy, u32le}
use solana_c_indexer.Bytes.Reads.{le_bytes}
use solana_c_indexer.Chain.{Pubkey, Transaction, Instruction, instruction_account, require_account}
use solana_c_indexer.SystemProgram.{transferred, transfer}
use solana_c_indexer.SystemProgram.Decode.{decode_variant, decode_kind, decode}
use solana_c_indexer.SystemProgram.RoundTrip.{decode-layout}

abbrev alice : Pubkey
alice = replicate 32 1

abbrev bob : Pubkey
bob = replicate 32 2

abbrev tx : Transaction
tx = record {
  accounts = alice ∷ bob ∷ [];
  pre_balances = [];
  post_balances = [];
  pre_token_balances = [];
  post_token_balances = [];
}

-- Transfer of 300 lamports, with a byte behind it.
abbrev ix : Instruction
ix = record {
  program_id_index = 0;
  account_indices = 0 ∷ 1 ∷ [];
  payload = 2 ∷ 0 ∷ 0 ∷ 0 ∷ 44 ∷ 1 ∷ 0 ∷ 0 ∷ 0 ∷ 0 ∷ 0 ∷ 0 ∷ 9 ∷ [];
}

decode-layout_example :
    decode tx ix ≡ value (record { kind = transfer; operands = transferred alice bob 300 })
unfolding instruction_account le_bytes
decode-layout_example =
    decode-layout tx ix (transferred alice bob 300) (9 ∷ []) (refl, refl, omega arith) refl

-- An unknown discriminant, and an instruction with too few accounts.
decode_unknown : decode tx (record ix { payload = 13 ∷ 0 ∷ 0 ∷ 0 ∷ [] }) ≡ fail not_found
unfolding decode u32le copy take_bytes init
decode_unknown = refl

decode_short : decode tx (record ix { account_indices = 0 ∷ [] }) ≡ fail parse
unfolding decode decode_kind decode_variant require_account instruction_account u32le copy
    take_bytes init
decode_short = refl
