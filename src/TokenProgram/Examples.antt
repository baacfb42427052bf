-- ===== src/TokenProgram/Examples.antt =====
-- A checked transfer and a change of the mint authority.
use solana_c_indexer.Base.{
  ◌≡◌, refl, some, [], ◌∷◌, value, fail, parse, not_found, arith, replicate,
}
use solana_c_indexer.Bytes.Cursor.{init, take_bytes, copy, u8}
use solana_c_indexer.Bytes.Reads.{le_bytes}
use solana_c_indexer.Chain.{Pubkey, Transaction, Instruction, instruction_account, require_account}
use solana_c_indexer.TokenProgram.{transferred, transfer_checked}
use solana_c_indexer.TokenProgram.Layout.{transferring_checked}
use solana_c_indexer.TokenProgram.Decode.{decode, decode_kind, decode_variant}
use solana_c_indexer.TokenProgram.RoundTrip.{decode-message}

abbrev alice : Pubkey
alice = replicate 32 1

abbrev bob : Pubkey
bob = replicate 32 2

abbrev coin : Pubkey
coin = replicate 32 3

abbrev tx : Transaction
tx = record {
  accounts = alice ∷ bob ∷ coin ∷ [];
  pre_balances = [];
  post_balances = [];
  pre_token_balances = [];
  post_token_balances = [];
}

-- Alice's account sends 300 units of a mint with 6 decimals to Bob's.
abbrev ix : Instruction
ix = record {
  program_id_index = 0;
  account_indices = 0 ∷ 2 ∷ 1 ∷ 0 ∷ [];
  payload = 12 ∷ 44 ∷ 1 ∷ 0 ∷ 0 ∷ 0 ∷ 0 ∷ 0 ∷ 0 ∷ 6 ∷ [];
}

decode-message_example :
    decode tx ix
    ≡ value (record {
      kind = transfer_checked;
      operands = transferred alice bob alice (some coin) 300 (some 6);
    })
unfolding instruction_account le_bytes
decode-message_example =
    decode-message tx ix (transferring_checked alice coin bob alice 300 6) []
      (refl, refl, refl, refl, omega arith) refl

-- An unknown discriminant, and an instruction with too few accounts.
token_unknown : decode tx (record ix { payload = 25 ∷ [] }) ≡ fail not_found
unfolding decode u8 copy take_bytes init
token_unknown = refl

token_short : decode tx (record ix { account_indices = 0 ∷ 2 ∷ [] }) ≡ fail parse
unfolding decode decode_kind decode_variant require_account instruction_account u8 copy take_bytes
    init
token_short = refl
