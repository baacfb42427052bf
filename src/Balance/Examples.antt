-- ===== src/Balance/Examples.antt =====
-- Alice pays Bob 5 lamports of her 100, and 7 units of a token from an account that closes.
use solana_c_indexer.Base.{
  pos, negsuc, map, ℕ, ◌≡◌, refl, some, List, [], ◌∷◌, replicate, Result, value, fail, true,
}
use solana_c_indexer.Bytes.{bytes_equal}
use solana_c_indexer.Chain.{pubkey_equal, TokenBalance, Transaction}
use solana_c_indexer.Balance.{
  TokenBalanceState, sol_extract, sol_rows, moved_lamports, signed_delta, token_extract, token_rows,
  join_balances, check_unique, is_unique, names_holding, same_holding, find_holding, changed,
  emptied, fill_holding,
}

abbrev held_by : ℕ → ℕ → TokenBalance
held_by index amount = record {
  account_index = index;
  mint = replicate 32 7;
  owner = some (replicate 32 8);
  amount = amount;
  decimals = 2;
}

abbrev tx : Transaction
tx = record {
  accounts = replicate 32 1 ∷ replicate 32 2 ∷ [];
  pre_balances = 100 ∷ 10 ∷ [];
  post_balances = 95 ∷ 15 ∷ [];
  pre_token_balances = held_by 0 7 ∷ held_by 1 1 ∷ [];
  post_token_balances = held_by 1 8 ∷ [];
}

sol_extract-pay :
    sol_extract true tx
    ≡ value (
        record { account = replicate 32 1; lamports = 95; delta = negsuc 4 }
        ∷ record { account = replicate 32 2; lamports = 15; delta = pos 5 }
        ∷ [])
unfolding sol_extract sol_rows moved_lamports signed_delta
sol_extract-pay = refl

abbrev units : Result (List TokenBalanceState) → List (ℕ × ℕ)
units (value rows) = map (λ r. (r.previous, r.amount)) rows
units (fail e) = []

token_extract-pay : units (token_extract true tx) ≡ (1, 8) ∷ (7, 0) ∷ []
unfolding token_extract token_rows join_balances check_unique is_unique names_holding same_holding
    pubkey_equal bytes_equal find_holding changed emptied fill_holding
token_extract-pay = refl
