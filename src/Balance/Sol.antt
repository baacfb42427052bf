-- ===== src/Balance/Sol.antt =====
-- What the lamport rows of a transaction add up to.
use solana_c_indexer.Base.{
  ℕ, ◌+◌, ◌^◌, ◌≤◌, ◌≡◌, ◌≢◌, ◌⊎◌, gain, loss, Bool, true, false, List, [], ◌∷◌,
}
use solana_c_indexer.Chain.{Pubkey}
use solana_c_indexer.Balance.{SolBalance}

abbrev pub sum : List ℕ → ℕ
sum [] = 0
sum (x ∷ xs) = x + sum xs

abbrev pub gains : List SolBalance → ℕ
gains [] = 0
gains (r ∷ rs) = gain r.delta + gains rs

abbrev pub losses : List SolBalance → ℕ
losses [] = 0
losses (r ∷ rs) = loss r.delta + losses rs

-- The row of an account whose balance moved.
abbrev pub IsMoved : Pubkey → ℕ → ℕ → SolBalance → Type 0
IsMoved account before after r =
    (r.account ≡ account) × (r.lamports ≡ after) × (before + gain r.delta ≡ after + loss r.delta)

-- The rows are those of the accounts whose balances before and after differ, in the order of the
-- accounts, and there are no others.
abbrev pub Moves : List Pubkey → List ℕ → List ℕ → List SolBalance → Type 0
Moves (account ∷ accounts) (b ∷ bs) (a ∷ cs) rows =
    (b ≡ a) × Moves accounts bs cs rows
    ⊎ (b ≢ a)
      × ((r : SolBalance) × (rest : List SolBalance) × (rows ≡ r ∷ rest)
          × IsMoved account b a r
          × Moves accounts bs cs rest)
Moves _ _ _ rows = rows ≡ []

-- Some account's balance moved by 2 ^ 63 or more.
abbrev pub IsFar : List ℕ → List ℕ → Type 0
IsFar (b ∷ bs) (a ∷ as') = ((b + 2 ^ 63 ≤ a) ⊎ (a + 2 ^ 63 ≤ b)) ⊎ IsFar bs as'
IsFar _ _ = ◌≡◌ {A = Bool} true false
