-- ===== src/Balance/Complete.antt =====
-- No change of a token holding is missing from the rows.
use solana_c_indexer.Base.{◌≡◌, ◌⊎◌, true, List, All, Any}
use solana_c_indexer.Chain.{TokenBalance, Transaction}
use solana_c_indexer.Balance.{TokenBalanceState, find_holding, is_some}
use solana_c_indexer.Balance.Join.{IsRowOf, held, IsChange}

-- The entry's amounts in the two lists are the same, or some row reports them.
abbrev pub IsReported :
    Transaction
    → List TokenBalance
    → List TokenBalance
    → List TokenBalanceState
    → TokenBalance
    → Type 0
IsReported tx pre post rows e = (held pre e ≡ held post e) ⊎ Any (IsRowOf tx pre post e) rows

-- The list after the transaction names the entry's holding, or the entry is of amount 0, or some
-- row reports it.
abbrev pub IsClosed :
    Transaction
    → List TokenBalance
    → List TokenBalance
    → List TokenBalanceState
    → TokenBalance
    → Type 0
IsClosed tx pre post rows e =
    (is_some (find_holding post e) ≡ true) ⊎ (held pre e ≡ 0) ⊎ Any (IsRowOf tx pre post e) rows

-- The rows are changes, and no change is missing.
abbrev pub IsJoin :
    Transaction → List TokenBalance → List TokenBalance → List TokenBalanceState → Type 0
IsJoin tx pre post rows =
    All (IsChange tx pre post) rows
    × All (IsReported tx pre post rows) post
    × All (IsClosed tx pre post rows) pre
