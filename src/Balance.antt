-- ===== src/Balance.antt =====
-- src/balance.c: the balance changes of a transaction. `granted` says whether the arena has room for
-- the array that a call asks for.
pub mod Sol
pub mod Join
pub mod Complete
pub mod Repeat
mod Examples
use solana_c_indexer.Base.{
  ℕ, ◌-◌, ◌^◌, ◌==◌, ℤ, pos, neg, Bool, true, false, not, ◌&&◌, ◌||◌, Option, none, some, List, [],
  ◌∷◌, ◌++◌, ltb, leb, if◌then◌else◌, get_or, Status, range, parse, no_memory, Result, value, fail,
  ◌>>=◌,
}
use solana_c_indexer.Chain.{Pubkey, pubkey_equal, TokenBalance, Transaction}

-- `idx_sol_balance`
pub record SolBalance : Type 0 where
  pub account : Pubkey
  pub lamports : ℕ
  pub delta : ℤ

-- `signed_delta`
unfoldable pub signed_delta : ℕ → ℕ → Result ℤ
signed_delta before after =
    let increased = leb before after in
    let magnitude = if increased then after - before else before - after in
    if ltb (2 ^ 63 - 1) magnitude
    then fail range
    else value (if increased then pos magnitude else neg magnitude)

-- The loop of `idx_sol_balance_extract`. The block decoder gives the three arrays one length.
unfoldable pub moved_lamports : List Pubkey → List ℕ → List ℕ → Result (List SolBalance)
moved_lamports (account ∷ accounts) (before ∷ pre) (after ∷ post) =
    let rest = moved_lamports accounts pre post in
    if before == after
    then rest
    else (signed_delta before after >>= λ (delta : ℤ). rest >>= λ (rows : List SolBalance).
        value (record { account = account; lamports = after; delta = delta } ∷ rows))
moved_lamports _ _ _ = value []

-- The body of `idx_sol_balance_extract`, over the transaction's arrays.
unfoldable pub sol_rows : Bool → List Pubkey → List ℕ → List ℕ → Result (List SolBalance)
sol_rows granted accounts (b ∷ bs) (a ∷ cs) =
    if granted then moved_lamports accounts (b ∷ bs) (a ∷ cs) else fail no_memory
sol_rows granted accounts _ _ = value []

-- `idx_sol_balance_extract`
unfoldable pub sol_extract : Bool → Transaction → Result (List SolBalance)
sol_extract granted tx = sol_rows granted tx.accounts tx.pre_balances tx.post_balances

-- `idx_token_balance_state`. The owner is `none` where `has_owner` is false.
pub record TokenBalanceState : Type 0 where
  pub account : Pubkey
  pub mint : Pubkey
  pub owner : Option Pubkey
  pub amount : ℕ
  pub previous : ℕ
  pub decimals : ℕ
  pub existed_before : Bool
  pub closed : Bool

-- `same_holding`
unfoldable pub same_holding : TokenBalance → TokenBalance → Bool
same_holding a b = if a.account_index == b.account_index then pubkey_equal a.mint b.mint else false

-- The inner loop of `check_unique`: whether an entry of the list is `entry`'s holding.
unfoldable pub names_holding : TokenBalance → List TokenBalance → Bool
names_holding entry [] = false
names_holding entry (other ∷ rest) =
    if same_holding entry other then true else names_holding entry rest

-- The outer loop: `seen` stands in front of the entries that are left.
unfoldable pub is_unique : List TokenBalance → List TokenBalance → Bool
is_unique seen [] = true
is_unique seen (entry ∷ rest) =
    if names_holding entry seen then false else is_unique (seen ++ (entry ∷ [])) rest

-- `check_unique`
unfoldable pub check_unique : List TokenBalance → Result (List TokenBalance)
check_unique list = if is_unique [] list then value list else fail parse

-- `find_holding`
unfoldable pub find_holding : List TokenBalance → TokenBalance → Option TokenBalance
find_holding [] needle = none
find_holding (entry ∷ rest) needle =
    if same_holding entry needle then some entry else find_holding rest needle

-- `fill_holding`, and the fields that its callers set. The block decoder admits only account
-- indices in range.
unfoldable pub fill_holding : Transaction → TokenBalance → ℕ → ℕ → Bool → Bool → TokenBalanceState
fill_holding tx entry amount previous existed_before closed = record {
  account = get_or tx.accounts entry.account_index [];
  mint = entry.mint;
  owner = entry.owner;
  amount = amount;
  previous = previous;
  decimals = entry.decimals;
  existed_before = existed_before;
  closed = closed;
}

-- `(before != NULL) ? before->amount : 0`
abbrev pub amount_of : Option TokenBalance → ℕ
amount_of none = 0
amount_of (some entry) = entry.amount

abbrev pub is_some : Option TokenBalance → Bool
is_some none = false
is_some (some entry) = true

-- The loop over the balances after the transaction.
unfoldable pub changed :
    Transaction → List TokenBalance → List TokenBalance → List TokenBalanceState
changed tx pre [] = []
changed tx pre (after ∷ rest) =
    let rows = changed tx pre rest in
    let before = find_holding pre after in
    if amount_of before == after.amount
    then rows
    else fill_holding tx after after.amount (amount_of before) (is_some before) false ∷ rows

-- The loop over the balances before it.
unfoldable pub emptied :
    Transaction → List TokenBalance → List TokenBalance → List TokenBalanceState
emptied tx post [] = []
emptied tx post (before ∷ rest) =
    let rows = emptied tx post rest in
    if before.amount == 0 || is_some (find_holding post before)
    then rows
    else fill_holding tx before 0 before.amount true true ∷ rows

-- The body of `idx_token_balance_extract` behind its test for empty lists.
unfoldable pub join_balances :
    Bool → Transaction → List TokenBalance → List TokenBalance → Result (List TokenBalanceState)
join_balances granted tx pre post = do
  pre' ← check_unique pre
  post' ← check_unique post
  if granted then value (changed tx pre post ++ emptied tx post pre) else fail no_memory

-- That test, over the transaction's arrays.
unfoldable pub token_rows :
    Bool
    → Transaction
    → List Pubkey
    → List TokenBalance
    → List TokenBalance
    → Result (List TokenBalanceState)
token_rows granted tx [] pre post = value []
token_rows granted tx (a ∷ accounts) [] [] = value []
token_rows granted tx (a ∷ accounts) pre post = join_balances granted tx pre post

-- `idx_token_balance_extract`
unfoldable pub token_extract : Bool → Transaction → Result (List TokenBalanceState)
token_extract granted tx =
    token_rows granted tx tx.accounts tx.pre_token_balances tx.post_token_balances
