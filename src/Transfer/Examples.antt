-- ===== src/Transfer/Examples.antt =====
-- Tests of the transfer extraction, and its theorems applied at a concrete transaction.
use solana_c_indexer.Base.{ℕ, ◌≡◌, refl, true, false, none, some, [], ◌∷◌, replicate, value, arith}
use solana_c_indexer.Bytes.{bytes_equal}
use solana_c_indexer.Chain.{Pubkey, Transaction, pubkey_equal, require_account, instruction_account}
use solana_c_indexer.Bytes.Cursor.{
  u32le, u8, u64le, little_endian, copy, take_bytes, remaining, init,
}
use solana_c_indexer.VoteFilter.{program_id}
use solana_c_indexer.SystemProgram.Decode as SystemDecode
use solana_c_indexer.TokenProgram.Decode as TokenDecode
use solana_c_indexer.Transfer.{
  sol, token, Executed, builder_row, builder_commit, resolve_from_balances, find_token_balance,
  balance_in,
}
use solana_c_indexer.Transfer.Fill.{fill_from_system, fill_from_token}
use solana_c_indexer.Transfer.Walk.{
  extract, walk, walk_group, walk_inner, inner_group, instruction_total, group_total,
  extract_instruction, extract_system, extract_token, commit_filled, program_system, program_token,
}
use solana_c_indexer.Transfer.Order.{Ordered, extract-Ordered}

abbrev key : ℕ → Pubkey
key n = replicate 32 n

abbrev token_program : Pubkey
unfolding program_token
token_program = program_token

-- The account at index 3 holds tokens of the mint `key 9`, which the owner `key 7` holds.
abbrev tx : Transaction
tx = record {
  accounts = key 0 ∷ token_program ∷ key 1 ∷ key 2 ∷ key 3 ∷ [];
  pre_balances = [];
  post_balances = [];
  pre_token_balances = [];
  post_token_balances =
      record { account_index = 3; mint = key 9; owner = some (key 7); amount = 50; decimals = 6 }
      ∷ [];
}

-- Account 2 sends 5 lamports to account 4; inside, account 3 sends 2 units of its token to
-- account 4; and another instruction sends nothing.
abbrev executed : Executed
executed = record {
  transaction = tx;
  has_meta = true;
  success = true;
  instructions =
      record {
        program_id_index = 0;
        account_indices = 2 ∷ 4 ∷ [];
        payload = 2 ∷ 0 ∷ 0 ∷ 0 ∷ 5 ∷ 0 ∷ 0 ∷ 0 ∷ 0 ∷ 0 ∷ 0 ∷ 0 ∷ [];
      }
      ∷ record {
        program_id_index = 0;
        account_indices = 2 ∷ 4 ∷ [];
        payload = 2 ∷ 0 ∷ 0 ∷ 0 ∷ 0 ∷ 0 ∷ 0 ∷ 0 ∷ 0 ∷ 0 ∷ 0 ∷ 0 ∷ [];
      }
      ∷ [];
  inner_instructions =
      record {
        index = 0;
        instructions =
            record {
              program_id_index = 1;
              account_indices = 3 ∷ 4 ∷ 2 ∷ [];
              payload = 3 ∷ 2 ∷ 0 ∷ 0 ∷ 0 ∷ 0 ∷ 0 ∷ 0 ∷ 0 ∷ [];
            }
            ∷ [];
      }
      ∷ [];
}

extract-Ordered_example : Ordered 0 (extract true executed)
extract-Ordered_example = extract-Ordered executed (omega arith) (omega arith, tt)

-- The two rows that move something; the second takes its mint, its scale and its owner from the
-- balances.
test_extract :
    extract true executed
    ≡ value (
        record {
          kind = sol;
          place = record { instruction_index = 0; inner_index = 0; inner = false };
          source = key 1;
          destination = key 3;
          authority = none;
          mint_key = none;
          source_owner = none;
          destination_owner = none;
          amount = 5;
          fee = 0;
          decimals = none;
        }
        ∷ record {
          kind = token;
          place = record { instruction_index = 0; inner_index = 0; inner = true };
          source = key 2;
          destination = key 3;
          authority = some (key 1);
          mint_key = some (key 9);
          source_owner = some (key 7);
          destination_owner = none;
          amount = 2;
          fee = 0;
          decimals = some 6;
        }
        ∷ [])
unfolding extract walk walk_group walk_inner inner_group instruction_total group_total
    extract_instruction extract_system extract_token commit_filled builder_row builder_commit
    resolve_from_balances find_token_balance balance_in fill_from_system fill_from_token
    program_system program_token program_id pubkey_equal bytes_equal SystemDecode.decode
    SystemDecode.decode_variant TokenDecode.decode TokenDecode.decode_kind
    TokenDecode.decode_variant TokenDecode.read_amount SystemDecode.decode_kind require_account
    instruction_account u32le u8 u64le little_endian copy take_bytes remaining init
test_extract = refl
